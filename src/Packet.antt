-- ===== src/Packet.antt =====
-- internal/protocol/packet.go: the FE60 packet framing. A `byte` is a number below 256, and its
-- sums wrap by `% 256`.
pub mod Frame
pub mod Checksum
pub mod Decode
pub mod Sound
pub mod Recover
use yaasa_go.Prelude.{
  ℕ, zero, suc, ◌+◌, ◌-◌, ◌%◌, true, false, ◌||◌, not, List, [], ◌∷◌, ◌++◌, Option, none, some, leb,
  ltb, ◌==◌, if◌then◌else◌, Bytes, length, get_or, take, drop,
}

abbrev pub cmd_start : ℕ
cmd_start = 0xF1

abbrev pub resp_start : ℕ
resp_start = 0xF2

abbrev pub frame_end : ℕ
frame_end = 0x7E

-- One parsed FE62 notification.
pub record Notification : Type 0 where
  pub opcode : ℕ
  pub payload : Bytes
  pub checksum : ℕ

-- The loop `for _, b := range payload { cs += b }`.
add_bytes : ℕ → Bytes → ℕ
add_bytes cs [] = cs
add_bytes cs (b ∷ bs) = add_bytes ((cs + b) % 256) bs

unfoldable pub checksum : ℕ → Bytes → ℕ
unfolding add_bytes
checksum opcode payload = add_bytes ((opcode + length payload % 256) % 256) payload

unfoldable pub make_command : ℕ → Bytes → Bytes
make_command opcode payload =
    cmd_start
    ∷ cmd_start
    ∷ opcode
    ∷ length payload % 256
    ∷ (payload ++ checksum opcode payload ∷ frame_end ∷ [])

-- What one round of the loop of `DecodeResponses` does: `i++`, `break`, or a packet and its length.
pub data Round : Type 0 where
  skip : Round
  stop : Round
  found : Notification → ℕ → Round

-- The body of the loop, where `buf` is the source's `buf[i:]`; the loop runs it with at least six
-- bytes left.
pub round : Bytes → Round
round buf =
    if not (get_or buf 0 0 == resp_start) || not (get_or buf 1 0 == resp_start)
    then skip
    else let payload_len = get_or buf 3 0 in
      let total_len = 2 + 1 + 1 + payload_len + 1 + 1 in
      if ltb (length buf) total_len
      then stop
      else let opcode = get_or buf 2 0 in
        let payload = take payload_len (drop 4 buf) in
        let cs = get_or buf (total_len - 2) 0 in
        if not (get_or buf (total_len - 1) 0 == frame_end) || not (checksum opcode payload == cs)
        then skip
        else found (record { opcode = opcode; payload = payload; checksum = cs }) total_len

-- How the loop goes on after a round, with `rest` for its remaining rounds.
abbrev pub after_round : (Bytes → List Notification) → Bytes → Round → List Notification
after_round rest buf skip = rest (drop 1 buf)
after_round rest buf stop = []
after_round rest buf (found n total) = n ∷ rest (drop total buf)

-- The loop, on fuel. Each round takes at least one byte off `buf[i:]`.
pub decode_from : ℕ → Bytes → List Notification
decode_from zero buf = []
decode_from (suc fuel) buf =
    if leb 6 (length buf) then after_round (decode_from fuel) buf (round buf) else []

unfoldable pub decode_responses : Bytes → List Notification
unfolding decode_from round checksum
decode_responses buf = decode_from (length buf) buf

-- The first packet: its opcode and payload, if there is one.
abbrev first_packet : List Notification → Option (ℕ × Bytes)
first_packet [] = none
first_packet (n ∷ _) = some (n.opcode, n.payload)

unfoldable pub decode_response : Bytes → Option (ℕ × Bytes)
decode_response buf = first_packet (decode_responses buf)
