-- ===== src/Packet/Decode.antt =====
-- DecodeResponses of internal/protocol/packet.go against the wire format.
use yaasa_go.Prelude.{
  ℕ, zero, suc, ◌+◌, ◌-◌, ◌≤◌, ◌≡◌, refl, ap, ◌∙◌, true, List, [], ◌∷◌, ◌++◌, arith, leb,
  if◌then◌else◌, Bytes, All, length, get_or, drop, length-append, length-drop, take-append,
  drop-append, get_or-append_length, append_assoc, le→leb,
}
use yaasa_go.Packet.{
  Notification, Round, skip, stop, found, round, after_round, decode_from, decode_responses,
  frame_end,
}
use yaasa_go.Packet.Frame.{frame, frames, IsFrame, length-frame}

-- A packet takes at least the six bytes of its frame.
pub round-found_le : (buf : Bytes) {n : Notification} {t : ℕ} → round buf ≡ found n t → 6 ≤ t
unfolding round
round-found_le buf e = ground arith

after_round-cong :
    (f g : Bytes → List Notification) (buf : Bytes) (r : Round)
    → f (drop 1 buf) ≡ g (drop 1 buf)
    → ((n : Notification) (t : ℕ) → r ≡ found n t → f (drop t buf) ≡ g (drop t buf))
    → after_round f buf r ≡ after_round g buf r
after_round-cong f g buf skip one many = one
after_round-cong f g buf stop one many = refl
after_round-cong f g buf (found n t) one many = ap (◌∷◌ n) (many n t refl)

-- Any fuel that covers the buffer gives the same packets.
pub decode_from-fuel :
    (f g : ℕ) (buf : Bytes)
    → length buf ≤ f
    → length buf ≤ g
    → decode_from f buf ≡ decode_from g buf
unfolding decode_from
decode_from-fuel zero zero buf hf hg = refl
decode_from-fuel zero (suc g) [] hf hg = refl
decode_from-fuel zero (suc g) (b ∷ bs) hf hg = absurd (omega arith)
decode_from-fuel (suc f) zero [] hf hg = refl
decode_from-fuel (suc f) zero (b ∷ bs) hf hg = absurd (omega arith)
decode_from-fuel (suc f) (suc g) [] hf hg = refl
decode_from-fuel (suc f) (suc g) (b ∷ bs) hf hg =
    ap (λ l. if leb 6 (length (b ∷ bs)) then l else [])
      (after_round-cong (decode_from f) (decode_from g) (b ∷ bs) (round (b ∷ bs))
        (decode_from-fuel f g bs (omega arith) (omega arith))
        (λ n t e.
          decode_from-fuel f g (drop t (b ∷ bs))
            (omega (arith, round-found_le (b ∷ bs) e, length-drop t (b ∷ bs)))
            (omega (arith, round-found_le (b ∷ bs) e, length-drop t (b ∷ bs)))))

-- One round of the loop, with no fuel in sight.
pub decode_responses-round :
    (buf : Bytes)
    → decode_responses buf
      ≡ (if leb 6 (length buf) then after_round decode_responses buf (round buf) else [])
unfolding decode_responses
decode_responses-round [] = refl
decode_responses-round (b ∷ bs) =
    ap (λ l. if leb 6 (length (b ∷ bs)) then l else [])
      (after_round-cong (decode_from (length bs)) decode_responses (b ∷ bs) (round (b ∷ bs)) refl
        (λ n t e.
          decode_from-fuel (length bs) (length (drop t (b ∷ bs))) (drop t (b ∷ bs))
            (omega (arith, round-found_le (b ∷ bs) e, length-drop t (b ∷ bs))) (omega arith)))

get_or-after : (xs ys : Bytes) (y z : ℕ) → get_or (xs ++ y ∷ z ∷ ys) (suc (length xs)) 0 ≡ z
get_or-after [] ys y z = refl
get_or-after (x ∷ xs) ys y z = get_or-after xs ys y z

-- At the start of a whole frame the round finds its packet.
round-frame :
    (n : Notification) (rest : Bytes)
    → IsFrame n
    → round (frame n ++ rest) ≡ found n (length n.payload + 6)
unfolding round
round-frame n rest v =
    let last : 2 + 1 + 1 + length n.payload + 1 + 1 - 1
        ≡ suc (suc (suc (suc (suc (length n.payload))))) =
      omega arith in
    let before : 2 + 1 + 1 + length n.payload + 1 + 1 - 2
        ≡ suc (suc (suc (suc (length n.payload)))) =
      omega arith in
    rw (append_assoc n.payload (n.checksum ∷ frame_end ∷ []) rest, last, before)
      (ground (
        arith,
        v.checked,
        length-append n.payload (n.checksum ∷ frame_end ∷ rest),
        take-append n.payload (n.checksum ∷ frame_end ∷ rest),
        get_or-append_length n.payload (frame_end ∷ rest) n.checksum 0,
        get_or-after n.payload rest n.checksum frame_end,
      ))

-- A whole frame at the start of the buffer is the first packet, and decoding goes on behind it.
pub decode_responses-frame :
    (n : Notification) (rest : Bytes)
    → IsFrame n
    → decode_responses (frame n ++ rest) ≡ n ∷ decode_responses rest
decode_responses-frame n rest v =
    let long : leb 6 (length (frame n ++ rest)) ≡ true =
      le→leb 6 (length (frame n ++ rest))
        (omega (arith, length-append (frame n) rest, length-frame n)) in
    let behind : drop (length n.payload + 6) (frame n ++ rest) ≡ rest =
      rw (← length-frame n) (drop-append (frame n) rest) in
    decode_responses-round (frame n ++ rest)
    ∙ rw (long, round-frame n rest v) (ap (λ w. n ∷ decode_responses w) behind)

-- Frames sent back to back are decoded to their packets, in order, and nothing more.
pub decode_responses-frames :
    (ns : List Notification) → All IsFrame ns → decode_responses (frames ns) ≡ ns
unfolding decode_responses
decode_responses-frames [] v = refl
decode_responses-frames (n ∷ ns) v =
    decode_responses-frame n (frames ns) v.0 ∙ ap (◌∷◌ n) (decode_responses-frames ns v.1)
