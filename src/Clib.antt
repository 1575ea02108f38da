-- ===== src/Clib.antt =====
-- clib/clib.go: the C interface. A handle and a cancel function are numbers; a function answers the
-- result that Clib.Returns turns into its return code and error text. The memory of C strings and the
-- bodies of C callbacks are left out.
pub mod Cancelling
pub mod Daemon
pub mod Handles
pub mod Returns
use yaasa_go.Prelude.{
  set, ℕ, ◌+◌, ◌%◌, ◌^◌, Bool, true, false, List, [], ◌∷◌, Option, none, some, String, ◌==◌,
  if◌then◌else◌, leb,
}
use yaasa_go.Prelude.Int.{ℤ, pos, pos_part}
use yaasa_go.Result.{Result, ok, err, Error, M, wrap, on_error, ignore, wrapped}
use yaasa_go.Float.{FloatOps}
use yaasa_go.Height.{height_from_mm, mm}
use yaasa_go.Stats.{SitStandTime, stand_duration, sit_duration, whole_seconds}
use yaasa_go.Schedule.{Event, elapse, notify, timed_out, tick, Phase, selecting, returned}
use yaasa_go.Ipc.Controller.{Controller}
use yaasa_go.Ipc.Server.{Loop, duration_or}

-- `cancelHandles` and `cancelSeq`
pub record Registry : Type 0 where
  pub handles : ℕ → Option ℕ
  pub seq : ℕ

unfoldable pub register_cancel : ℕ → Registry → ℕ × Registry
register_cancel fn r =
    let id = (r.seq + 1) % 2 ^ 64 in (id, record { handles = set id (some fn) r.handles; seq = id })

-- `invokeCancel`: the function to call, if there is one.
unfoldable pub invoke_cancel : ℕ → Registry → Option ℕ × Registry
invoke_cancel id r = (r.handles id, record r { handles = set id none r.handles })

-- `cmdCancels`, by desk handle
abbrev pub CommandCancels : Type 0
CommandCancels = ℕ → Option ℕ

unfoldable pub set_command_cancel : ℕ → ℕ → CommandCancels → CommandCancels
set_command_cancel h fn m = set h (some fn) m

unfoldable pub clear_command_cancel : ℕ → CommandCancels → CommandCancels
clear_command_cancel h m = set h none m

-- `yaasa_cancel_command`: the function to call, if there is one.
unfoldable pub yaasa_cancel_command : ℕ → CommandCancels → Option ℕ × CommandCancels
yaasa_cancel_command h m = (m h, set h none m)

module _ {F S : Type 0} (c : Controller F S) (pulse : M S (Unit {0})) where
  -- `if err := pulse(); err != nil { d.Stop(); ...; return -1 }`
  abbrev pub after_pulse : Loop S → Result (Unit {0}) × S → Loop S
  after_pulse l (ok _, s) = record l { state = s }
  after_pulse l (err e, s) = record l { state = (ignore c.stop s).1; phase = returned (err e) }

  -- One round of the `select` of `movePulse`, which knows no cancellation.
  unfoldable pub turn : Phase (Unit {0}) → Event → Loop S → Loop S
  turn selecting timed_out l =
      if leb l.deadline l.now then record l { phase = returned (ok tt) } else l
  turn selecting tick l = after_pulse l (pulse l.state)
  turn selecting (elapse n) l = record l { now = l.now + n }
  turn selecting (notify buf) l = record l { state = c.happens (notify buf) l.state }
  turn _ e l = l

  unfoldable pub turns : List Event → Loop S → Loop S
  unfolding turn
  turns [] l = l
  turns (e ∷ es) l = turns es (turn l.phase e l)

  -- `if err := d.Stop(); err != nil { ...; return -1 }; return 0`
  abbrev stopped : Result (Unit {0}) × S → Option (Result (Unit {0})) × S
  stopped (r, s) = (some r, s)

  abbrev pub after_loop : Phase (Unit {0}) → S → Option (Result (Unit {0})) × S
  after_loop (returned (ok _)) s = stopped (c.stop s)
  after_loop (returned (err e)) s = (some (err e), s)
  after_loop _ s = (none, s)

  abbrev pub loop_from : Loop S → List Event → Option (Result (Unit {0})) × S
  loop_from l es = after_loop (turns es l).phase (turns es l).state

  abbrev pub first_pulse : ℕ → List Event → Result (Unit {0}) × S → Option (Result (Unit {0})) × S
  first_pulse dur es (ok _, s) =
      loop_from (record { state = s; now = 0; deadline = dur; phase = selecting }) es
  first_pulse dur es (err e, s) = (some (err e), (ignore c.stop s).1)

  abbrev pub woken : ℕ → List Event → Result (Unit {0}) × S → Option (Result (Unit {0})) × S
  woken dur es (ok _, s) = first_pulse dur es (pulse s)
  woken dur es (err e, s) = (some (err (wrapped "wake" e)), s)

  unfoldable pub move_pulse : ℤ → List Event → S → Option (Result (Unit {0})) × S
  unfolding turns
  move_pulse duration_ms es s = woken (pos_part (duration_or 500_000_000 duration_ms)) es (c.wake s)

module _ {F S : Type 0} (c : Controller F S) where
  unfoldable pub yaasa_move_up : ℤ → List Event → S → Option (Result (Unit {0})) × S
  yaasa_move_up duration_ms = move_pulse c c.move_up duration_ms

  unfoldable pub yaasa_move_down : ℤ → List Event → S → Option (Result (Unit {0})) × S
  yaasa_move_down duration_ms = move_pulse c c.move_down duration_ms

  unfoldable pub yaasa_stop : M S (Unit {0})
  yaasa_stop = c.stop

  unfoldable pub yaasa_wake : M S (Unit {0})
  yaasa_wake = c.wake

-- An operation on the desk with its cancel function: the function is registered before the operation,
-- and what is registered for the desk is deleted when it returns.
unfoldable pub with_cancel :
    {S : Type 0}
    → ℕ
    → ℕ
    → CommandCancels
    → Option (Result (Unit {0})) × S
    → Option (Result (Unit {0})) × (S × CommandCancels)
unfolding set_command_cancel clear_command_cancel
with_cancel h fn m (none, s) = (none, (s, set_command_cancel h fn m))
with_cancel h fn m (some r, s) = (some r, (s, clear_command_cancel h (set_command_cancel h fn m)))

-- `C.yaasa_stats_t`
pub record CStats : Type 0 where
  pub stand_secs : ℕ
  pub sit_secs : ℕ

module _ {F S : Type 0} ⦃o : FloatOps F⦄ (c : Controller F S) where
  abbrev pub tolerance : F → F
  tolerance tol = if o.le tol (o.of_nat 0) then o.of_nat 2 else tol

  -- The handle of the desk is `h`, the cancel function of the call `fn`.
  unfoldable pub yaasa_wait_for_height :
      ℕ
      → ℕ
      → F
      → F
      → ℤ
      → List Event
      → S × CommandCancels
      → Option (Result (Unit {0})) × (S × CommandCancels)
  unfolding with_cancel
  yaasa_wait_for_height h fn height_mm tolerance_mm timeout_ms es (s, m) = with_cancel h fn m (
      c.wait_for_height (height_from_mm height_mm) (height_from_mm (tolerance tolerance_mm))
        (duration_or 30_000_000_000 timeout_ms) es s)

  unfoldable pub yaasa_wait_for_preset :
      ℕ
      → ℕ
      → ℤ
      → ℤ
      → ℤ
      → List Event
      → S × CommandCancels
      → Option (Result (Unit {0})) × (S × CommandCancels)
  unfolding with_cancel
  yaasa_wait_for_preset h fn preset timeout_ms quiescence_ms es (s, m) = with_cancel h fn m (
      c.wait_for_preset preset (duration_or 30_000_000_000 timeout_ms)
        (duration_or 500_000_000 quiescence_ms) es s)

  abbrev millimetres : Result F → Result F
  millimetres (ok h) = ok (mm h)
  millimetres (err e) = err e

  abbrev mapped :
      {A B : Type 0} → (Result A → Result B) → Option (Result A) × S → Option (Result B) × S
  mapped f (none, s) = (none, s)
  mapped f (some r, s) = (some (f r), s)

  unfoldable pub yaasa_current_height_mm : ℤ → List Event → S → Option (Result F) × S
  yaasa_current_height_mm timeout_ms es s =
      mapped millimetres (c.current_height (duration_or 5_000_000_000 timeout_ms) es s)

  abbrev seconds : Result SitStandTime → Result CStats
  seconds (ok t) = ok (record {
    stand_secs = whole_seconds (stand_duration t);
    sit_secs = whole_seconds (sit_duration t);
  })
  seconds (err e) = err e

  unfoldable pub yaasa_fetch_stats : ℤ → List Event → S → Option (Result CStats) × S
  yaasa_fetch_stats timeout_ms es s =
      mapped seconds (c.fetch_sit_stand_time (duration_or 10_000_000_000 timeout_ms) es s)

-- `yaasa_connect` for a given `desk.Connect`, and `yaasa_scan` for a given `desk.Scan`.
unfoldable pub yaasa_connect : {D : Type 0} → (String → ℤ → Result D) → String → ℤ → Result D
yaasa_connect connect addr connect_timeout_ms =
    connect addr (duration_or 15_000_000_000 connect_timeout_ms)

unfoldable pub yaasa_scan : {A : Type 0} → (ℤ → Result A) → ℤ → Result A
yaasa_scan scan timeout_ms = scan (duration_or 10_000_000_000 timeout_ms)
