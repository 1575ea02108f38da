-- ===== src/Commands.antt =====
-- desk/commands.go: the frames that the operations of a desk write.
pub mod Motion
pub mod Wrote
pub mod Frames
use yaasa_go.Prelude.{ℕ, zero, suc, List, [], ◌∷◌, if◌then◌else◌, get_or}
use yaasa_go.Prelude.Int.{ℤ, pos, eqb_ℤ}
use yaasa_go.Result.{Result, ok, err, M, wrap, throw, unsupported_preset, ◌>>◌, return}
use yaasa_go.Float.{FloatOps}
use yaasa_go.Height.{millimetre_bytes}
use yaasa_go.Packet.{make_command}
use yaasa_go.Desk.{Desk, write, pause}

abbrev pub op_wake : ℕ
op_wake = 0x00

abbrev pub op_move_up : ℕ
op_move_up = 0x01

abbrev pub op_move_down : ℕ
op_move_down = 0x02

abbrev pub op_save_preset1 : ℕ
op_save_preset1 = 0x03

abbrev pub op_save_preset2 : ℕ
op_save_preset2 = 0x04

abbrev pub op_preset1 : ℕ
op_preset1 = 0x05

abbrev pub op_preset2 : ℕ
op_preset2 = 0x06

abbrev pub op_request_height_limits : ℕ
op_request_height_limits = 0x07

abbrev pub op_move_to : ℕ
op_move_to = 0x1B

abbrev pub op_stop : ℕ
op_stop = 0x2B

abbrev pub op_request_sit_stand_time : ℕ
op_request_sit_stand_time = 0xA2

module _ {F : Type 0} where
  -- The loop of `Wake`, with the rounds that are left.
  pub wake_rounds : ℕ → M (Desk F) (Unit {0})
  wake_rounds zero = return tt
  wake_rounds (suc n) = do wrap "wake" (write (make_command op_wake [])); pause 100; wake_rounds n

  unfoldable pub wake : M (Desk F) (Unit {0})
  unfolding wake_rounds
  wake = wake_rounds 3

  unfoldable pub move_up : M (Desk F) (Unit {0})
  move_up = write (make_command op_move_up [])

  unfoldable pub move_down : M (Desk F) (Unit {0})
  move_down = write (make_command op_move_down [])

  unfoldable pub stop : M (Desk F) (Unit {0})
  stop = write (make_command op_stop [])

  unfoldable pub request_height_limits : M (Desk F) (Unit {0})
  request_height_limits = write (make_command op_request_height_limits [])

  abbrev pub request_status : M (Desk F) (Unit {0})
  request_status = request_height_limits

  unfoldable pub go_preset : ℤ → M (Desk F) (Unit {0})
  go_preset n =
      if eqb_ℤ n (pos 1)
      then write (make_command op_preset1 [])
      else if eqb_ℤ n (pos 2)
      then write (make_command op_preset2 [])
      else throw (unsupported_preset n)

  unfoldable pub request_sit_stand_time : M (Desk F) (Unit {0})
  request_sit_stand_time = write (make_command op_request_sit_stand_time [])

  unfoldable pub save_preset : ℤ → M (Desk F) (Unit {0})
  save_preset n =
      if eqb_ℤ n (pos 1)
      then write (make_command op_save_preset1 [])
      else if eqb_ℤ n (pos 2)
      then write (make_command op_save_preset2 [])
      else throw (unsupported_preset n)

module _ {F : Type 0} ⦃o : FloatOps F⦄ where
  unfoldable pub move_to_height : F → M (Desk F) (Unit {0})
  move_to_height h =
      let b = millimetre_bytes h in
      write (make_command op_move_to (get_or b 0 0 ∷ get_or b 1 0 ∷ []))
