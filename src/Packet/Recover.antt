-- ===== src/Packet/Recover.antt =====
-- internal/protocol/packet.go: commands against the decoder, and the decoder on damaged input.
use yaasa_go.Prelude.{
  ℕ, suc, ◌+◌, ◌-◌, ◌%◌, ◌<◌, ◌≡◌, ◌≢◌, refl, sym, ap, ◌∙◌, false, List, [], ◌∷◌, ◌++◌, arith, leb,
  Bytes, All, length, drop, append_assoc, append-nil, length-append, Bool-cases, inl, inr,
  take-append, get_or-append_length,
}
use yaasa_go.Packet.{
  Notification, skip, stop, round, decode_responses, make_command, checksum, resp_start, frame_end,
}
use yaasa_go.Packet.Frame.{frame, frames, IsFrame}
use yaasa_go.Packet.Checksum.{checksum_detects}
use yaasa_go.Packet.Decode.{decode_responses-round, decode_responses-frame, decode_responses-frames}

-- The packet that a command frame would be, were it sent by the desk.
abbrev pub packet : ℕ → Bytes → Notification
packet opcode payload = record {
  opcode = opcode;
  payload = payload;
  checksum = checksum opcode payload;
}

pub make_command-frame :
    (opcode : ℕ) (payload : Bytes)
    → length payload < 256
    → drop 2 (make_command opcode payload) ≡ drop 2 (frame (packet opcode payload))
unfolding make_command
make_command-frame opcode payload h =
    let small : length payload % 256 ≡ length payload = omega arith in rw small

decode_responses-short : (buf : Bytes) → leb 6 (length buf) ≡ false → decode_responses buf ≡ []
decode_responses-short buf h = decode_responses-round buf ∙ rw h

-- A command frame whose two start bytes are replaced by those of a response decodes to the
-- opcode and payload that it was made from.
pub decode_responses-make_command :
    (opcode : ℕ) (payload : Bytes)
    → length payload < 256
    → decode_responses (resp_start ∷ resp_start ∷ drop 2 (make_command opcode payload))
      ≡ packet opcode payload ∷ []
decode_responses-make_command opcode payload h =
    let n = packet opcode payload in
    ap (λ w. decode_responses (resp_start ∷ resp_start ∷ w)) (make_command-frame opcode payload h)
    ∙ ap decode_responses (sym (append-nil (frame n)))
    ∙ decode_responses-frame n [] (record { fits = h; checked = refl })
    ∙ ap (◌∷◌ n) (decode_responses-short [] refl)

-- A round that finds nothing goes on one byte later.
decode_responses-skip :
    (b : ℕ) (bs : Bytes) → round (b ∷ bs) ≡ skip → decode_responses (b ∷ bs) ≡ decode_responses bs
decode_responses-skip b bs e = elim (Bool-cases (leb 6 (length (b ∷ bs)))) [
  | inl long ↦ decode_responses-round (b ∷ bs) ∙ rw (long, e)
  | inr short ↦
      decode_responses-short (b ∷ bs) short ∙ sym (decode_responses-short bs (ground arith))
]

round-ne_start : (b : ℕ) (bs : Bytes) → b ≢ resp_start → round (b ∷ bs) ≡ skip
unfolding round
round-ne_start b bs ne = ground arith

-- Bytes other than F2 in front of a frame are skipped, and the frame is decoded.
pub decode_responses-noise :
    (noise : Bytes) (n : Notification) (rest : Bytes)
    → All (λ b. b ≢ resp_start) noise
    → IsFrame n
    → decode_responses (noise ++ (frame n ++ rest)) ≡ n ∷ decode_responses rest
decode_responses-noise [] n rest ne v = decode_responses-frame n rest v
decode_responses-noise (b ∷ bs) n rest ne v =
    decode_responses-skip b _ (round-ne_start b _ ne.0) ∙ decode_responses-noise bs n rest ne.1 v

round-wrong_checksum :
    (n : Notification) (rest : Bytes)
    → checksum n.opcode n.payload ≢ n.checksum
    → round (frame n ++ rest) ≡ skip
unfolding round
round-wrong_checksum n rest ne =
    let before : 2 + 1 + 1 + length n.payload + 1 + 1 - 2
        ≡ suc (suc (suc (suc (length n.payload)))) =
      omega arith in
    rw (append_assoc n.payload (n.checksum ∷ frame_end ∷ []) rest, before)
      (ground (
        arith,
        length-append n.payload (n.checksum ∷ frame_end ∷ rest),
        take-append n.payload (n.checksum ∷ frame_end ∷ rest),
        get_or-append_length n.payload (frame_end ∷ rest) n.checksum 0,
      ))

-- A frame in which one payload byte was changed on the way gives no packet at its place:
-- decoding goes on behind its first byte.
pub decode_responses-corrupted :
    (opcode : ℕ) (before after rest : Bytes) (b c : ℕ)
    → b < 256
    → c < 256
    → b ≢ c
    → let received = record (packet opcode (before ++ b ∷ after)) {
      payload = before ++ c ∷ after;
    } in
      decode_responses (frame received ++ rest) ≡ decode_responses (drop 1 (frame received ++ rest))
decode_responses-corrupted opcode before after rest b c hb hc ne =
    let received = record (packet opcode (before ++ b ∷ after)) { payload = before ++ c ∷ after } in
    decode_responses-skip resp_start (drop 1 (frame received ++ rest)) (
      round-wrong_checksum received rest
        (λ e. checksum_detects opcode before after b c hb hc ne (sym e)))

round-truncated :
    (opcode size : ℕ) (tail : Bytes)
    → length tail < size + 2
    → round (resp_start ∷ resp_start ∷ opcode ∷ size ∷ tail) ≡ stop
unfolding round
round-truncated opcode size tail h = ground arith

-- Frames that would all be decoded are all lost behind two stray F2 bytes, when they have less than
-- 246 bytes: the start of the first frame is then taken for an opcode and a length of 242.
pub decode_responses-hidden :
    (n : Notification) (ns : List Notification)
    → All IsFrame (n ∷ ns)
    → length (frames (n ∷ ns)) < 246
    → (decode_responses (frames (n ∷ ns)) ≡ n ∷ ns)
      × (decode_responses (resp_start ∷ resp_start ∷ frames (n ∷ ns)) ≡ [])
decode_responses-hidden n ns v h =
    let behind =
      n.opcode ∷ length n.payload ∷ ((n.payload ++ n.checksum ∷ frame_end ∷ []) ++ frames ns) in
    let buf = resp_start ∷ resp_start ∷ resp_start ∷ resp_start ∷ behind in
    (
      decode_responses-frames (n ∷ ns) v,
      elim (Bool-cases (leb 6 (length buf))) [
        | inl long ↦
            decode_responses-round buf
            ∙ rw (long, round-truncated resp_start resp_start behind (omega arith))
        | inr short ↦ decode_responses-short buf short
      ],
    )
