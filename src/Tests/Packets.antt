-- ===== src/Tests/Packets.antt =====
-- Tests of the packets, those of packet_test.go among them, and instances of their theorems.
use yaasa_go.Prelude.{[], ◌∷◌, ◌++◌, ◌≡◌, refl, arith}
use yaasa_go.Packet.{make_command, decode_responses, checksum}
use yaasa_go.Packet.Frame.{frame, frames}
use yaasa_go.Packet.Decode.{decode_responses-frames}
use yaasa_go.Packet.Sound.{Holds, decode_responses-Holds}
use yaasa_go.Packet.Recover.{decode_responses-hidden}
use yaasa_go.Tests.{report_720, units}

move_to_1372 :
    make_command 0x1B (0x05 ∷ 0x5C ∷ [])
    ≡ 0xF1 ∷ 0xF1 ∷ 0x1B ∷ 0x02 ∷ 0x05 ∷ 0x5C ∷ 0x7E ∷ 0x7E ∷ []
unfolding make_command checksum
move_to_1372 = refl

set_units : make_command 0x0E (0x01 ∷ []) ≡ 0xF1 ∷ 0xF1 ∷ 0x0E ∷ 0x01 ∷ 0x01 ∷ 0x10 ∷ 0x7E ∷ []
unfolding make_command checksum
set_units = refl

bad_checksum :
    decode_responses (0xF2 ∷ 0xF2 ∷ 0x01 ∷ 0x03 ∷ 0x00 ∷ 0x1C ∷ 0x20 ∷ 0x41 ∷ 0x7E ∷ []) ≡ []
unfolding decode_responses
bad_checksum = refl

back_to_back : decode_responses (frame report_720 ++ frame units) ≡ report_720 ∷ units ∷ []
unfolding decode_responses
back_to_back = refl

decode_responses-frames_example :
    decode_responses (frames (report_720 ∷ units ∷ [])) ≡ report_720 ∷ units ∷ []
unfolding checksum
decode_responses-frames_example = decode_responses-frames (report_720 ∷ units ∷ []) (
  record { fits = omega arith; checked = refl },
  (record { fits = omega arith; checked = refl }, tt),
)

decode_responses-Holds_example :
    Holds (7 ∷ frame report_720) (decode_responses (7 ∷ frame report_720))
decode_responses-Holds_example = decode_responses-Holds (7 ∷ frame report_720) (omega arith)

decode_responses-hidden_example :
    (decode_responses (frames (report_720 ∷ units ∷ [])) ≡ report_720 ∷ units ∷ [])
    × (decode_responses (0xF2 ∷ 0xF2 ∷ frames (report_720 ∷ units ∷ [])) ≡ [])
unfolding checksum
decode_responses-hidden_example =
    decode_responses-hidden report_720 (units ∷ [])
      (
        record { fits = omega arith; checked = refl },
        (record { fits = omega arith; checked = refl }, tt),
      )
      (omega arith)

stray_start : decode_responses (0xF2 ∷ 0xF2 ∷ frame report_720) ≡ []
unfolding decode_responses
stray_start = refl
