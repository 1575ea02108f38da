-- ===== src/Cli/Verbs.antt =====
-- cmd/yaasa/main.go: the commands that ask the daemon. Each is the function `RunE` of its command.
pub mod Balance
pub mod Served
pub mod Outcome
pub mod Stored
use yaasa_go.Prelude.{
  ℕ, ◌/◌, zero, suc, List, [], ◌∷◌, ◌++◌, Option, none, some, Bool, true, false, ◌||◌,
  if◌then◌else◌, Text, String,
}
use yaasa_go.Prelude.Int.{ℤ, pos, negsuc, ltb_ℤ}
use yaasa_go.Result.{Result, ok, err, Error, message, wrapped}
use yaasa_go.Float.{FloatOps}
use yaasa_go.Height.{height_from_mm, height_from_inches, mm}
use yaasa_go.Ipc.{Request, Response}
use yaasa_go.Ipc.Client.{
  up_request, down_request, stop_request, height_request, stats_request, info_request,
  status_request, quit_request, preset_request, move_request,
}
use yaasa_go.Cli.{resolve_address, split_optional_address_value, move_duration, format_secs}
use yaasa_go.Cli.Session.{
  Host, Trail, Cmd, Line, address_line, field, notifications, connected, height_line, stand_line,
  sit_line, not_running, running, stopped, arrived, opened, ◌>>=◌, give, does, show, closing,
  ignore, ask, auto_daemon_client, Signal, interruptible,
}
use Prim.Native.String
use Prim.Native.Nat.{Ordering}

-- `Duration.Milliseconds`, which drops the rest.
abbrev negated : ℕ → ℤ
negated zero = pos 0
negated (suc n) = negsuc n

abbrev pub milliseconds : ℤ → ℤ
milliseconds (pos n) = pos (n / 1_000_000)
milliseconds (negsuc n) = negated (suc n / 1_000_000)

abbrev pub is_blank : String → Bool
is_blank s = elim (String.compare s "") [ Ordering.eq ↦ true | _ ↦ false ]

-- `printField`
abbrev print_field : {F : Type 0} → String → String → List (Line F)
print_field label value = if is_blank value then [] else field label value ∷ []

-- `printInfoResp`
unfoldable pub print_info : {F : Type 0} → Response F → List (Line F)
print_info r =
    address_line r.address ∷ print_field "Device Name" r.device_name
    ++ print_field "Model" r.model
    ++ print_field "Manufacturer" r.manufacturer
    ++ print_field "Serial" r.serial
    ++ print_field "Firmware Rev" r.firmware_rev
    ++ print_field "Hardware Rev" r.hardware_rev
    ++ print_field "Software Rev" r.software_rev
    ++ notifications r.notifications ∷ []

-- `n < 1 || n > 2`, and the error of `Atoi`.
abbrev pub preset_number : Option ℤ → Result ℤ
preset_number none = err (message "preset must be 1 or 2")
preset_number (some n) =
    if ltb_ℤ n (pos 1) || ltb_ℤ (pos 2) n then err (message "preset must be 1 or 2") else ok n

-- The flags of "up" and "down".
pub record Motion (F : Type 0) : Type 0 where
  pub dur : ℤ
  pub distance : F
  pub speed : F

-- The flags of "move".
pub record Travel (F : Type 0) : Type 0 where
  pub move_timeout : ℤ
  pub tolerance : F
  pub in_inches : Bool

-- The flags of "preset".
pub record Storing : Type 0 where
  pub saves : Bool
  pub move_timeout : ℤ

module _ {F : Type 0} ⦃o : FloatOps F⦄ (h : Host F) where
  -- A command that asks one thing and shows the answer.
  abbrev pub query : Request F → (Response F → List (Line F)) → List Text → Cmd F (Unit {0})
  query q lines args =
      auto_daemon_client h args >>= λ addr. closing (ask h q >>= λ r. show (lines r))

  unfoldable pub info_cmd : List Text → Cmd F (Unit {0})
  unfolding print_info
  info_cmd = query info_request print_info

  abbrev pub height_lines : Bool → Response F → List (Line F)
  height_lines inches r = height_line (height_from_mm r.height_mm) inches ∷ []

  unfoldable pub height_cmd : Bool → List Text → Cmd F (Unit {0})
  height_cmd inches = query height_request (height_lines inches)

  abbrev pub stats_lines : Response F → List (Line F)
  stats_lines r = stand_line (format_secs r.stand_secs) ∷ sit_line (format_secs r.sit_secs) ∷ []

  unfoldable pub stats_cmd : List Text → Cmd F (Unit {0})
  stats_cmd = query stats_request stats_lines

  unfoldable pub stop_cmd : List Text → Cmd F (Unit {0})
  stop_cmd = query stop_request (λ r. [])

  -- A command that asks one thing and can be interrupted.
  abbrev pub operation : Signal → Request F → List (Line F) → List Text → Cmd F (Unit {0})
  operation s q lines args =
      auto_daemon_client h args >>= λ addr. closing (interruptible s (ask h q >>= λ r. show lines))

  -- `int(moveDuration(dur, mm, speed).Milliseconds())`
  abbrev pub motion_ms : Motion F → ℤ
  motion_ms m = milliseconds (move_duration m.dur m.distance m.speed)

  unfoldable pub up_cmd : Signal → Motion F → List Text → Cmd F (Unit {0})
  up_cmd s m = operation s (up_request (motion_ms m)) []

  unfoldable pub down_cmd : Signal → Motion F → List Text → Cmd F (Unit {0})
  down_cmd s m = operation s (down_request (motion_ms m)) []

  -- `splitOptionalAddressValue(args)`; that there are one or two arguments is checked before.
  abbrev pub arguments : List Text → Result (List Text × Text)
  arguments args = elim (split_optional_address_value args) [
    | none ↦ err (message "accepts between 1 and 2 arg(s)")
    | some p ↦ ok p
  ]

  -- The parsed height.
  unfoldable pub target_of : Bool → F → F
  unfolding height_from_inches
  target_of inches val = if inches then height_from_inches val else height_from_mm val

  abbrev pub parsed : Result F → Cmd F F
  parsed (ok v) t = (some (ok v), t)
  parsed (err e) t = (some (err (wrapped "invalid height" e)), t)

  abbrev pub move_on : Signal → Travel F → List Text → F → Cmd F (Unit {0})
  move_on s flags args target =
      operation s (move_request (mm target) flags.tolerance (milliseconds flags.move_timeout))
        (arrived target ∷ []) args

  abbrev pub parsed_move : Signal → Travel F → List Text × Text → Cmd F (Unit {0})
  parsed_move s flags p =
      parsed (h.parse_float p.1) >>= λ val. move_on s flags p.0 (target_of flags.in_inches val)

  unfoldable pub move_cmd : Signal → Travel F → List Text → Cmd F (Unit {0})
  unfolding split_optional_address_value target_of
  move_cmd s flags args = give (arguments args) >>= λ p. parsed_move s flags p

  abbrev pub preset_on : Signal → Storing → List Text → ℤ → Cmd F (Unit {0})
  preset_on s flags args n =
      if flags.saves
      then query (preset_request n true (milliseconds flags.move_timeout)) (λ r. []) args
      else operation s (preset_request n false (milliseconds flags.move_timeout)) [] args

  unfoldable pub preset_cmd : Signal → Storing → List Text → Cmd F (Unit {0})
  unfolding split_optional_address_value
  preset_cmd s flags args = give (arguments args) >>= λ p.
      give (preset_number (h.atoi p.1)) >>= λ n. preset_on s flags p.0 n

  -- `resolveAddress(args)`, without a client.
  abbrev pub resolve : List Text → Cmd F Text
  resolve args t = (some (resolve_address args t.world), t)

  -- `ipc.Dial`
  abbrev pub dial : Bool → Cmd F (Unit {0}) → Cmd F (Unit {0}) → Cmd F (Unit {0})
  dial true m otherwise t = closing m (does opened t)
  dial false m otherwise t = otherwise t

  unfoldable pub status_cmd : List Text → Cmd F (Unit {0})
  status_cmd args = resolve args >>= λ addr.
      dial (h.answers addr)
        (ask h status_request >>= λ r.
          show (running addr ∷ connected r.connected ∷ notifications r.notifications ∷ []))
        (show (not_running addr ∷ []))

  unfoldable pub quit_cmd : List Text → Cmd F (Unit {0})
  quit_cmd args = resolve args >>= λ addr.
      dial (h.answers addr) (ignore (ask h quit_request) >>= λ _. show (stopped addr ∷ []))
        (give (err (message "no daemon running")))

-- The commands that speak to a daemon, with their flags.
pub data Verb (F : Type 0) : Type 0 where
  info stats stop status quit : Verb F
  height : Bool → Verb F
  up down : Signal → Motion F → Verb F
  move : Signal → Travel F → Verb F
  preset : Signal → Storing → Verb F

unfoldable pub run_verb :
    {F : Type 0} ⦃o : FloatOps F⦄ → Host F → Verb F → List Text → Cmd F (Unit {0})
unfolding info_cmd stats_cmd stop_cmd status_cmd quit_cmd height_cmd up_cmd down_cmd move_cmd
    preset_cmd
run_verb h info = info_cmd h
run_verb h stats = stats_cmd h
run_verb h stop = stop_cmd h
run_verb h status = status_cmd h
run_verb h quit = quit_cmd h
run_verb h (height inches) = height_cmd h inches
run_verb h (up s m) = up_cmd h s m
run_verb h (down s m) = down_cmd h s m
run_verb h (move s m) = move_cmd h s m
run_verb h (preset s m) = preset_cmd h s m
