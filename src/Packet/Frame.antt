-- ===== src/Packet/Frame.antt =====
-- The wire format of a notification as docs/protocol.md gives it, apart from the decoder.
use yaasa_go.Prelude.{◌+◌, ◌<◌, ◌≡◌, List, [], ◌∷◌, ◌++◌, Bytes, length, arith, length-append}
use yaasa_go.Packet.{Notification, resp_start, frame_end, checksum}

-- F2 F2 [opcode] [payloadLen] [...payload] [checksum] 7E
abbrev pub frame : Notification → Bytes
frame n =
    resp_start
    ∷ resp_start
    ∷ n.opcode
    ∷ length n.payload
    ∷ (n.payload ++ n.checksum ∷ frame_end ∷ [])

-- The length fits its byte, and the checksum is the right one.
pub record IsFrame (n : Notification) : Type 0 where
  pub fits : length n.payload < 256
  pub checked : checksum n.opcode n.payload ≡ n.checksum

pub length-frame : (n : Notification) → length (frame n) ≡ length n.payload + 6
length-frame n = omega (arith, length-append n.payload (n.checksum ∷ frame_end ∷ []))

abbrev pub frames : List Notification → Bytes
frames [] = []
frames (n ∷ ns) = frame n ++ frames ns
