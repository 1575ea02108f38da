-- ===== src/WaitHeight.antt =====
-- WaitForHeight of desk/monitor.go, as a machine that is run by a schedule. A tick of the pulse
-- ticker is taken wherever the schedule puts it.
pub mod Arrival
pub mod Steps
pub mod Stopping
pub mod Deadline
pub mod Ending
pub mod Effects
pub mod Listeners
pub mod Frames
use yaasa_go.Prelude.{
  ℕ, zero, suc, ◌+◌, Bool, true, false, ◌||◌, List, [], ◌∷◌, ◌++◌, Option, none, some, leb,
  if◌then◌else◌, Bytes,
}
use yaasa_go.Prelude.Int.{ℤ, pos_part}
use yaasa_go.Result.{Result, ok, err, Error, message, not_reached, wrap, ignore, and_then}
use yaasa_go.Float.{FloatOps}
use yaasa_go.Height.{near}
use yaasa_go.Desk.{Desk, add_height_listener, cancel_height_listener, handle_notification}
use yaasa_go.Desk.Notify.{height_calls}
use yaasa_go.Commands.{wake, stop, move_to_height}
use yaasa_go.Schedule.{
  Event, elapse, notify, proceed, ctx_done, received, quiet, timed_out, tick, Phase, waking, moving,
  selecting, returned, height_timeout_error, own,
}

-- The state of one call: the desk, the callback and its index, the heights that the callback was
-- given (`progress` gets the same), the buffer of the channel `arrived`, the clock, the deadline.
pub record Wait (F : Type 0) : Type 0 where
  pub desk : Desk F
  pub me : ℕ
  pub idx : ℕ
  pub seen : List F
  pub arrived : Bool
  pub now : ℕ
  pub deadline : ℕ
  pub phase : Phase (Unit {0})

-- The arguments of a call; a `Height` and a tolerance are in millimetres.
pub record Aim (F : Type 0) : Type 0 where
  pub target : F
  pub tolerance : F
  pub timeout : ℤ

module _ {F : Type 0} where
  -- The call registers its listener first.
  unfoldable pub start : ℕ → Desk F → Wait F
  start me d =
      let (idx, d') = add_height_listener me d in
      record {
        desk = d';
        me = me;
        idx = idx;
        seen = [];
        arrived = false;
        now = 0;
        deadline = 0;
        phase = waking;
      }

  -- `return r`, with the deferred `cancel`.
  pub finish : Result (Unit {0}) → Desk F → Wait F → Wait F
  finish r d w = record w { desk = cancel_height_listener w.idx d; phase = returned r }

  -- `d.Stop(); return r`
  pub stop_and_finish : Result (Unit {0}) → Wait F → Wait F
  unfolding finish
  stop_and_finish r w = finish r (ignore stop w.desk).1 w

  abbrev after_wake : Wait F → Result (Unit {0}) × Desk F → Wait F
  after_wake w (ok _, d) = record w { desk = d; phase = moving }
  after_wake w (err e, d) = finish (err e) d w

  abbrev after_first : ℤ → Wait F → Result (Unit {0}) × Desk F → Wait F
  after_first timeout w (ok _, d) = record w {
    desk = d;
    phase = selecting;
    deadline = w.now + pos_part timeout;
  }
  after_first timeout w (err e, d) = finish (err e) d w

  abbrev after_pulse : Wait F → Result (Unit {0}) × Desk F → Wait F
  after_pulse w (ok _, d) = record w { desk = d }
  after_pulse w (err e, d) = stop_and_finish (err e) (record w { desk = d })

  -- An event that is not possible does not happen.
  abbrev or_same : Wait F → Option (Wait F) → Wait F
  or_same w none = w
  or_same w (some w') = w'

module _ {F : Type 0} ⦃o : FloatOps F⦄ where
  any_near : Aim F → List F → Bool
  any_near a [] = false
  any_near a (h ∷ hs) = near h a.target a.tolerance || any_near a hs

  -- The listener runs on the goroutine of the BLE stack.
  pub deliver : Aim F → Bytes → Wait F → Wait F
  unfolding any_near
  deliver a buf w =
      let (d', calls) = handle_notification buf w.desk in
      let hs = own w.me (height_calls calls) in
      record w { desk = d'; seen = w.seen ++ hs; arrived = w.arrived || any_near a hs }

  -- The calls in front of the loop.
  go_on : Aim F → Phase (Unit {0}) → Wait F → Option (Wait F)
  unfolding finish
  go_on a waking w = some (after_wake w (wrap "wake" wake w.desk))
  go_on a moving w =
      some (after_first a.timeout w (wrap "move to height" (move_to_height a.target) w.desk))
  go_on a _ w = none

  timeout_error : Aim F → Wait F → Error
  timeout_error a w = height_timeout_error (not_reached (o.format1 a.target)) a.timeout w.desk

  -- One case of the `select`, if its channel is ready.
  choose : Aim F → Event → Wait F → Option (Wait F)
  unfolding stop_and_finish timeout_error
  choose a ctx_done w = some (stop_and_finish (err (message "move cancelled")) w)
  choose a received w =
      if w.arrived then some (stop_and_finish (ok tt) (record w { arrived = false })) else none
  choose a timed_out w =
      if leb w.deadline w.now then some (stop_and_finish (err (timeout_error a w)) w) else none
  choose a tick w = some (after_pulse w (wrap "move to height" (move_to_height a.target) w.desk))
  choose a _ w = none

  select : Aim F → Phase (Unit {0}) → Event → Wait F → Option (Wait F)
  unfolding choose
  select a selecting e w = choose a e w
  select a _ e w = none

  step : Aim F → Event → Wait F → Option (Wait F)
  unfolding deliver go_on select
  step a (elapse n) w = some (record w { now = w.now + n })
  step a (notify buf) w = some (deliver a buf w)
  step a proceed w = go_on a w.phase w
  step a e w = select a w.phase e w

  pub take_step : Aim F → Event → Wait F → Wait F
  unfolding step
  take_step a e w = or_same w (step a e w)

  unfoldable pub run : Aim F → List Event → Wait F → Wait F
  unfolding take_step
  run a [] w = w
  run a (e ∷ es) w = run a es (take_step a e w)

  -- `WaitForHeight` under a schedule.
  unfoldable pub wait_for_height : Aim F → ℕ → List Event → Desk F → Wait F
  unfolding run start
  wait_for_height a me es d = run a es (start me d)
