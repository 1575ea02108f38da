-- ===== src/Packet/Sound.antt =====
-- DecodeResponses of internal/protocol/packet.go: what its packets say of the buffer.
use yaasa_go.Prelude.{
  ℕ, zero, suc, ◌+◌, ◌-◌, ◌≤◌, ◌<◌, ◌≡◌, refl, ap, ◌∙◌, List, [], ◌∷◌, ◌++◌, arith, leb, Bytes,
  IsBytes, length, get_or, take, drop, append_assoc, length-take_of_le, Bool-cases, inl, inr,
}
use yaasa_go.Packet.{
  Notification, Round, skip, stop, found, round, after_round, decode_from, decode_responses,
  checksum, resp_start, frame_end,
}
use yaasa_go.Packet.Frame.{frame, IsFrame}

-- The packets stand in the buffer as whole valid frames, one behind the other, with any bytes
-- between them.
pub data Holds : Bytes → List Notification → Type 0 where
  none_left : {buf : Bytes} → Holds buf []
  next :
      {buf : Bytes} {ns : List Notification} (before rest : Bytes) (n : Notification)
      → IsFrame n
      → buf ≡ before ++ (frame n ++ rest)
      → Holds rest ns
      → Holds buf (n ∷ ns)

Holds-later : {ns : List Notification} (b : ℕ) (bs : Bytes) → Holds bs ns → Holds (b ∷ bs) ns
Holds-later b bs none_left = none_left
Holds-later b bs (next before rest n v e h) = next (b ∷ before) rest n v (ap (◌∷◌ b) e) h

split_at_two :
    (d : ℕ) (w : Bytes)
    → d + 2 ≤ length w
    → w ≡ take d w ++ get_or w d 0 ∷ get_or w (suc d) 0 ∷ drop (suc (suc d)) w
split_at_two zero [] h = absurd (omega arith)
split_at_two zero (x ∷ []) h = absurd (omega arith)
split_at_two zero (x ∷ y ∷ w) h = refl
split_at_two (suc d) [] h = absurd (omega arith)
split_at_two (suc d) (x ∷ w) h = ap (◌∷◌ x) (split_at_two d w (omega arith))

-- The facts that the tests of a round establish about the bytes behind the first four.
abbrev Parts : ℕ → ℕ → ℕ → ℕ → Bytes → Notification → ℕ → Type 0
Parts a b c d w n t =
    (a ≡ resp_start)
    × (b ≡ resp_start)
    × (d + 2 ≤ length w)
    × (get_or w (suc d) 0 ≡ frame_end)
    × (n.opcode ≡ c)
    × (n.payload ≡ take d w)
    × (n.checksum ≡ get_or w d 0)
    × (checksum c (take d w) ≡ get_or w d 0)
    × (t ≡ suc (suc (suc (suc (suc (suc d))))))

round-Parts :
    (a b c d : ℕ) (w : Bytes) {n : Notification} {t : ℕ}
    → round (a ∷ b ∷ c ∷ d ∷ w) ≡ found n t
    → Parts a b c d w n t
unfolding round
round-Parts a b c d w {n} {t} e =
    let last : 2 + 1 + 1 + d + 1 + 1 - 1 ≡ suc (suc (suc (suc (suc d)))) = omega arith in
    let before : 2 + 1 + 1 + d + 1 + 1 - 2 ≡ suc (suc (suc (suc d))) = omega arith in
    let e' = rw (last, before) at e in ground arith

abbrev Found : Bytes → Notification → ℕ → Type 0
Found buf n t =
    (buf ≡ frame n ++ drop t buf)
    × (checksum n.opcode n.payload ≡ n.checksum)
    × (length n.payload ≡ get_or buf 3 0)
    × (6 ≤ t)

Parts-Found :
    (a b c d : ℕ) (w : Bytes) (n : Notification) (t : ℕ)
    → Parts a b c d w n t
    → Found (a ∷ b ∷ c ∷ d ∷ w) n t
Parts-Found a b c d w n t (ea, eb, room, end, eo, ep, ec, ok, et) =
    let size : length (take d w) ≡ d = length-take_of_le d w (omega arith) in
    (
      rw (ea, eb, et, ep, ec, eo, size, append_assoc (take d w) _ (drop (suc (suc d)) w))
          (ap (λ v. resp_start ∷ resp_start ∷ c ∷ d ∷ v)
            (split_at_two d w room
              ∙ ap (λ z. take d w ++ get_or w d 0 ∷ z ∷ drop (suc (suc d)) w) end)),
      ground arith,
      ground (arith, size),
      omega arith,
    )

round-Found : (buf : Bytes) {n : Notification} {t : ℕ} → round buf ≡ found n t → Found buf n t
unfolding round
round-Found [] e = cc
round-Found (a ∷ []) e = ground arith
round-Found (a ∷ b ∷ []) e = ground arith
round-Found (a ∷ b ∷ c ∷ []) e = ground arith
round-Found (a ∷ b ∷ c ∷ d ∷ w) {n} {t} e = Parts-Found a b c d w n t (round-Parts a b c d w e)

IsBytes-drop : (k : ℕ) (buf : Bytes) → IsBytes buf → IsBytes (drop k buf)
IsBytes-drop zero buf h = h
IsBytes-drop (suc k) [] h = h
IsBytes-drop (suc k) (b ∷ bs) h = IsBytes-drop k bs h.1

get_or-lt : (buf : Bytes) (i : ℕ) → IsBytes buf → get_or buf i 0 < 256
get_or-lt [] i h = omega arith
get_or-lt (b ∷ bs) zero h = h.0
get_or-lt (b ∷ bs) (suc i) h = get_or-lt bs i h.1

after_round-Holds :
    (f : Bytes → List Notification) (b : ℕ) (bs : Bytes) (r : Round)
    → round (b ∷ bs) ≡ r
    → IsBytes (b ∷ bs)
    → ((k : ℕ) → Holds (drop (suc k) (b ∷ bs)) (f (drop (suc k) (b ∷ bs))))
    → Holds (b ∷ bs) (after_round f (b ∷ bs) r)
after_round-Holds f b bs skip e h later = Holds-later b bs (later 0)
after_round-Holds f b bs stop e h later = none_left
after_round-Holds f b bs (found n zero) e h later =
    absurd (omega (arith, (round-Found (b ∷ bs) e).3))
after_round-Holds f b bs (found n (suc t)) e h later =
    let (split, checked, size, _) = round-Found (b ∷ bs) e in
    next [] (drop (suc t) (b ∷ bs)) n
      (record { fits = omega (arith, size, get_or-lt (b ∷ bs) 3 h); checked = checked }) split
      (later t)

decode_from-Holds : (f : ℕ) (buf : Bytes) → IsBytes buf → Holds buf (decode_from f buf)
unfolding decode_from
decode_from-Holds zero buf h = none_left
decode_from-Holds (suc f) [] h = none_left
decode_from-Holds (suc f) (b ∷ bs) h = elim (Bool-cases (leb 6 (length (b ∷ bs)))) [
  | inl long ↦
      rw (long, decode_from)
        (after_round-Holds (decode_from f) b bs (round (b ∷ bs)) refl h
          (λ k. decode_from-Holds f (drop k bs) (IsBytes-drop k bs h.1)))
  | inr short ↦ rw (short, decode_from) none_left
]

-- Every packet that is returned for a buffer of bytes stood there as a whole frame with a valid
-- length, checksum and terminator; the frames are in order and do not overlap.
pub decode_responses-Holds : (buf : Bytes) → IsBytes buf → Holds buf (decode_responses buf)
unfolding decode_responses
decode_responses-Holds buf h = decode_from-Holds (length buf) buf h
