-- ===== src/Commands/Frames.antt =====
-- desk/commands.go: the commands that the program knows.
use yaasa_go.Prelude.{
  ℕ, [], ◌∷◌, ◌≡◌, refl, Bytes, get_or, ◌<◌, arith, inl, inr, Bool-cases, subst, sym, if◌then◌else◌,
  String,
}
use yaasa_go.Prelude.Int.{ℤ, pos, eqb_ℤ}
use yaasa_go.Result.{Result, ok, err, M, wrap, wrap_result, throw, unsupported_preset}
use yaasa_go.Float.{FloatOps}
use yaasa_go.Height.{millimetre_bytes, put_uint16}
use yaasa_go.Packet.{make_command}
use yaasa_go.Desk.{Desk, Action, tx, sleep, write}
use yaasa_go.Commands.{
  op_wake, op_move_up, op_move_down, op_save_preset1, op_save_preset2, op_preset1, op_preset2,
  op_request_height_limits, op_move_to, op_stop, op_request_sit_stand_time, wake, move_up,
  move_down, stop, go_preset, save_preset, request_height_limits, request_sit_stand_time,
  move_to_height,
}
use yaasa_go.Commands.Motion.{write-Effect, wake-Effect, IsWaking}
use yaasa_go.Commands.Wrote.{Wrote, Wrote-of, Wrote-refl, Effect-mono}

-- A command and its payload, as the protocol has them: only "move to" has one, of two bytes.
pub data IsCommand : ℕ → Bytes → Type 0 where
  plain_wake : IsCommand op_wake []
  plain_up : IsCommand op_move_up []
  plain_down : IsCommand op_move_down []
  plain_stop : IsCommand op_stop []
  plain_save1 : IsCommand op_save_preset1 []
  plain_save2 : IsCommand op_save_preset2 []
  plain_preset1 : IsCommand op_preset1 []
  plain_preset2 : IsCommand op_preset2 []
  plain_limits : IsCommand op_request_height_limits []
  plain_time : IsCommand op_request_sit_stand_time []
  move_to : (hi lo : ℕ) → hi < 256 → lo < 256 → IsCommand op_move_to (hi ∷ lo ∷ [])

-- The frame of a command, or a pause: neither a subscription, nor a read, nor a disconnection.
abbrev pub IsFramed : Action → Type 0
IsFramed (tx pkt) =
    (op : ℕ) × (payload : Bytes) × (IsCommand op payload) × (pkt ≡ make_command op payload)
IsFramed (sleep ms) = Unit
IsFramed _ = ⊥

pub waking-IsFramed : (b : Action) → IsWaking b → IsFramed b
waking-IsFramed b (inl e) = subst IsFramed (sym e) (op_wake, [], plain_wake, refl)
waking-IsFramed b (inr e) = subst IsFramed (sym e) tt

module _ {F : Type 0} where
  abbrev pub Framed : Desk F → Desk F → Type 0
  Framed = Wrote IsFramed

  -- An operation after which the desk was sent nothing but frames of commands.
  abbrev pub Frames : {A : Type 0} → M (Desk F) A → Type 0
  Frames m = (d : Desk F) → Framed d (m d).1

  command-Frames :
      (op : ℕ) (payload : Bytes) → IsCommand op payload → Frames (write (make_command op payload))
  command-Frames op payload c d =
      Wrote-of IsFramed d _
        (write-Effect IsFramed (make_command op payload) d (op, payload, c, refl))

  pub wake-Frames : Frames wake
  wake-Frames d =
      Wrote-of IsFramed d _
        (Effect-mono IsWaking IsFramed d (wake d).1 waking-IsFramed (wake-Effect d))

  pub move_up-Frames : Frames move_up
  unfolding move_up
  move_up-Frames = command-Frames op_move_up [] plain_up

  pub move_down-Frames : Frames move_down
  unfolding move_down
  move_down-Frames = command-Frames op_move_down [] plain_down

  pub stop-Frames : Frames stop
  unfolding stop
  stop-Frames = command-Frames op_stop [] plain_stop

  pub request_height_limits-Frames : Frames request_height_limits
  unfolding request_height_limits
  request_height_limits-Frames = command-Frames op_request_height_limits [] plain_limits

  pub request_sit_stand_time-Frames : Frames request_sit_stand_time
  unfolding request_sit_stand_time
  request_sit_stand_time-Frames = command-Frames op_request_sit_stand_time [] plain_time

  either-Frames :
      (n : ℤ) (a b : Bytes) (d : Desk F)
      → Frames (write a)
      → Frames (write b)
      → Framed d
          ((if eqb_ℤ n (pos 1)
              then write a
              else if eqb_ℤ n (pos 2)
              then write b
              else throw (unsupported_preset n))
            d).1
  either-Frames n a b d u v = elim (Bool-cases (eqb_ℤ n (pos 1))) [
    | inl e ↦ rw e (u d)
    | inr e ↦ elim (Bool-cases (eqb_ℤ n (pos 2))) [
      | inl k ↦ rw (e, k) (v d)
      | inr k ↦ rw (e, k) (Wrote-refl IsFramed d)
    ]
  ]

  pub go_preset-Frames : (n : ℤ) → Frames (go_preset n)
  unfolding go_preset
  go_preset-Frames n d =
      either-Frames n (make_command op_preset1 []) (make_command op_preset2 []) d
        (command-Frames op_preset1 [] plain_preset1) (command-Frames op_preset2 [] plain_preset2)

  pub save_preset-Frames : (n : ℤ) → Frames (save_preset n)
  unfolding save_preset
  save_preset-Frames n d =
      either-Frames n (make_command op_save_preset1 []) (make_command op_save_preset2 []) d
        (command-Frames op_save_preset1 [] plain_save1)
        (command-Frames op_save_preset2 [] plain_save2)

  pub wrap-Frames :
      {A : Type 0} (text : String) (m : M (Desk F) A) → Frames m → Frames (wrap text m)
  wrap-Frames text m h d = wrapped-Framed d (m d) (h d)
    where
      wrapped-Framed :
          {A : Type 0} (d : Desk F) (x : Result A × Desk F)
          → Framed d x.1
          → Framed d (wrap_result text x).1
      wrapped-Framed d (ok _, e) k = k
      wrapped-Framed d (err _, e) k = k

module _ {F : Type 0} ⦃o : FloatOps F⦄ where
  pub target-IsCommand :
      (h : F)
      → IsCommand op_move_to
          (get_or (millimetre_bytes h) 0 0 ∷ get_or (millimetre_bytes h) 1 0 ∷ [])
  unfolding millimetre_bytes put_uint16
  target-IsCommand h = move_to _ _ (omega arith) (omega arith)

  pub move_to_height-Frames : (h : F) → Frames (move_to_height h)
  unfolding move_to_height
  move_to_height-Frames h = command-Frames op_move_to _ (target-IsCommand h)
