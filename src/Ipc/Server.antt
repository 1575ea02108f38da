-- ===== src/Ipc/Server.antt =====
-- internal/ipc/server.go: `dispatch`, which serves one request, for any controller.
use yaasa_go.Prelude.{
  ℕ, ◌+◌, List, [], ◌∷◌, Option, none, some, Bool, true, false, leb, if◌then◌else◌, String,
}
use yaasa_go.Prelude.Int.{ℤ, pos, is_nonpos, pos_part, scale64}
use yaasa_go.Result.{Result, ok, err, unknown_command, M, ignore}
use yaasa_go.Float.{FloatOps}
use yaasa_go.Height.{height_from_mm, mm}
use yaasa_go.Stats.{SitStandTime, stand_duration, sit_duration, whole_seconds}
use yaasa_go.Desk.{Info}
use yaasa_go.Schedule.{Event, elapse, notify, ctx_done, timed_out, tick, Phase, selecting, returned}
use yaasa_go.Ipc.{Request, Response, ok_r, err_r, reply}
use yaasa_go.Ipc.Controller.{Controller}
use Prim.Native.String
use Prim.Native.Nat.{Ordering}

-- The cases of `switch req.Cmd`.
pub data Command : Type 0 where
  up down stop move preset stats height info status quit : Command
  other : String → Command

unfoldable pub is_word : String → String → Bool
is_word s t = elim (String.compare s t) [ Ordering.eq ↦ true | _ ↦ false ]

unfoldable pub command_of : String → Command
unfolding is_word
command_of s =
    if is_word s "up"
    then up
    else if is_word s "down"
    then down
    else if is_word s "stop"
    then stop
    else if is_word s "move"
    then move
    else if is_word s "preset"
    then preset
    else if is_word s "stats"
    then stats
    else if is_word s "height"
    then height
    else if is_word s "info"
    then info
    else if is_word s "status"
    then status
    else if is_word s "quit"
    then quit
    else other s

abbrev pub millisecond : ℕ
millisecond = 1_000_000

-- `time.Duration(ms) * time.Millisecond`, or the default if that is not positive.
unfoldable pub duration_or : ℕ → ℤ → ℤ
duration_or default ms =
    if is_nonpos (scale64 millisecond ms) then pos default else scale64 millisecond ms

-- The state of the loop of "up" and "down".
pub record Loop (S : Type 0) : Type 0 where
  pub state : S
  pub now : ℕ
  pub deadline : ℕ
  pub phase : Phase (Unit {0})

module _ {F S : Type 0} (c : Controller F S) (pulse : M S (Unit {0})) where
  -- `if err := pulse(); err != nil { _ = c.Stop(); return errR(err) }`
  abbrev pub after_pulse : Loop S → Result (Unit {0}) × S → Loop S
  after_pulse l (ok _, s) = record l { state = s }
  after_pulse l (err e, s) = record l { state = (ignore c.stop s).1; phase = returned (err e) }

  abbrev pub break_loop : Loop S → Loop S
  break_loop l = record l { phase = returned (ok tt) }

  -- One round of the `select`.
  unfoldable pub turn : Phase (Unit {0}) → Event → Loop S → Loop S
  turn selecting ctx_done l = break_loop l
  turn selecting timed_out l = if leb l.deadline l.now then break_loop l else l
  turn selecting tick l = after_pulse l (pulse l.state)
  turn selecting (elapse n) l = record l { now = l.now + n }
  turn selecting (notify buf) l = record l { state = c.happens (notify buf) l.state }
  turn _ e l = l

  unfoldable pub turns : List Event → Loop S → Loop S
  unfolding turn
  turns [] l = l
  turns (e ∷ es) l = turns es (turn l.phase e l)

  -- `_ = c.Stop()` behind the loop; a failed pulse has returned by then.
  abbrev pub after_loop : Phase (Unit {0}) → S → Option (Result (Unit {0})) × S
  after_loop (returned (ok _)) s = (some (ok tt), (ignore c.stop s).1)
  after_loop (returned (err e)) s = (some (err e), s)
  after_loop _ s = (none, s)

  abbrev pub loop_from : Loop S → List Event → Option (Result (Unit {0})) × S
  loop_from l es = after_loop (turns es l).phase (turns es l).state

  -- The first pulse at t = 0.
  abbrev pub first_pulse : ℕ → List Event → Result (Unit {0}) × S → Option (Result (Unit {0})) × S
  first_pulse dur es (ok _, s) =
      loop_from (record { state = s; now = 0; deadline = dur; phase = selecting }) es
  first_pulse dur es (err e, s) = (some (err e), (ignore c.stop s).1)

  abbrev pub woken : ℕ → List Event → Result (Unit {0}) × S → Option (Result (Unit {0})) × S
  woken dur es (ok _, s) = first_pulse dur es (pulse s)
  woken dur es (err e, s) = (some (err e), s)

  unfoldable pub pulsing : ℕ → List Event → S → Option (Result (Unit {0})) × S
  unfolding turns
  pulsing dur es s = woken dur es (c.wake s)

module _ {F S : Type 0} ⦃o : FloatOps F⦄ (c : Controller F S) (es : List Event) where
  -- The answer to an operation, once it has returned.
  abbrev pub answer :
      {A : Type 0} → (Result A → Response F) → Option (Result A) × S → Option (Response F) × S
  answer f (none, s) = (none, s)
  answer f (some r, s) = (some (f r), s)

  abbrev pub at_once :
      {A : Type 0} → (Result A → Response F) → Result A × S → Option (Response F) × S
  at_once f (r, s) = (some (f r), s)

  abbrev pub stats_reply : Result SitStandTime → Response F
  stats_reply (ok st) = record ok_r {
    stand_secs = whole_seconds (stand_duration st);
    sit_secs = whole_seconds (sit_duration st);
  }
  stats_reply (err e) = err_r e

  abbrev pub height_reply : Result F → Response F
  height_reply (ok h) = record ok_r { height_mm = mm h }
  height_reply (err e) = err_r e

  abbrev status_reply : S → Response F
  status_reply s = record ok_r {
    connected = true;
    notifications = c.notifications_available s;
    address = c.device_address s;
  }

  abbrev info_reply : S → Info → Response F
  info_reply s i = record (status_reply s) {
    device_name = i.device_name;
    model = i.model;
    manufacturer = i.manufacturer;
    serial = i.serial;
    firmware_rev = i.firmware_rev;
    hardware_rev = i.hardware_rev;
    software_rev = i.software_rev;
  }

  -- `tol := req.ToleranceMM; if tol <= 0 { tol = 2.0 }`
  unfoldable pub tolerance_of : F → F
  tolerance_of tol = if o.le tol (o.of_nat 0) then o.of_nat 2 else tol

  unfoldable pub serve : Command → Request F → S → Option (Response F) × S
  unfolding pulsing duration_or tolerance_of
  serve up r s =
      answer reply (pulsing c c.move_up (pos_part (duration_or 500_000_000 r.duration_ms)) es s)
  serve down r s =
      answer reply (pulsing c c.move_down (pos_part (duration_or 500_000_000 r.duration_ms)) es s)
  serve stop r s = at_once reply (c.stop s)
  serve move r s = answer reply (
      c.wait_for_height (height_from_mm r.height_mm) (height_from_mm (tolerance_of r.tolerance_mm))
        (duration_or 30_000_000_000 r.timeout_ms) es s)
  serve preset r s =
      if r.save
      then at_once reply (c.save_preset r.preset s)
      else answer reply
          (c.wait_for_preset r.preset (duration_or 30_000_000_000 r.timeout_ms) (pos 0) es s)
  serve stats r s = answer stats_reply (c.fetch_sit_stand_time (pos 5_000_000_000) es s)
  serve height r s = answer height_reply (c.current_height (pos 5_000_000_000) es s)
  serve info r s = (some (info_reply s (c.device_info s)), s)
  serve status r s = (some (status_reply s), s)
  serve quit r s = (some ok_r, s)
  serve (other word) r s = (some (err_r (unknown_command word)), s)

  unfoldable pub dispatch : Request F → S → Option (Response F) × S
  unfolding serve command_of
  dispatch r s = serve (command_of r.cmd) r s
