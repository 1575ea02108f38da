-- ===== src/WaitPreset.antt =====
-- WaitForPreset of desk/monitor.go, as a machine that is run by a schedule. A tick of the pulse
-- ticker is taken wherever the schedule puts it.
pub mod Steps
pub mod Stopping
pub mod Quiescence
pub mod Movement
pub mod Frames
pub mod Deadline
pub mod Ending
use yaasa_go.Prelude.{
  ℕ, zero, suc, ◌+◌, ◌-◌, List, [], ◌∷◌, ◌++◌, Option, none, some, leb, ltb, if◌then◌else◌, Bytes,
}
use yaasa_go.Prelude.Int.{ℤ, pos, is_nonpos, pos_part}
use yaasa_go.Result.{Result, ok, err, Error, message, preset_incomplete, wrap, ignore}
use yaasa_go.Float.{FloatOps}
use yaasa_go.Desk.{Desk, add_height_listener, cancel_height_listener, handle_notification}
use yaasa_go.Desk.Notify.{height_calls}
use yaasa_go.Commands.{wake, stop, go_preset}
use yaasa_go.Schedule.{
  Event, elapse, notify, proceed, ctx_done, received, quiet, timed_out, tick, Phase, waking, moving,
  selecting, returned, height_timeout_error, own,
}

-- The state of one call: as for WaitForHeight, with the number of heights in the channel
-- `heightCh`, and the time at which the quiescence timer fires, once it runs.
pub record Wait (F : Type 0) : Type 0 where
  pub desk : Desk F
  pub me : ℕ
  pub idx : ℕ
  pub seen : List F
  pub queued : ℕ
  pub quiet_at : Option ℕ
  pub now : ℕ
  pub deadline : ℕ
  pub phase : Phase (Unit {0})

pub record Aim : Type 0 where
  pub preset : ℤ
  pub timeout : ℤ
  pub quiescence : ℤ

-- `if quiescence <= 0 { quiescence = 500 * time.Millisecond }`
unfoldable pub quiet_time : Aim → ℕ
quiet_time a = if is_nonpos a.quiescence then 500_000_000 else pos_part a.quiescence

-- Non-blocking sends to a channel of four places.
pub fill : ℕ → ℕ → ℕ
fill zero queued = queued
fill (suc n) queued = fill n (if ltb queued 4 then queued + 1 else queued)

abbrev pub count : {A : Type 0} → List A → ℕ
count [] = 0
count (x ∷ xs) = suc (count xs)

module _ {F : Type 0} where
  unfoldable pub start : ℕ → Desk F → Wait F
  start me d =
      let (idx, d') = add_height_listener me d in
      record {
        desk = d';
        me = me;
        idx = idx;
        seen = [];
        queued = 0;
        quiet_at = none;
        now = 0;
        deadline = 0;
        phase = waking;
      }

  -- `return r`, with the deferred `cancel`.
  pub finish : Result (Unit {0}) → Desk F → Wait F → Wait F
  finish r d w = record w { desk = cancel_height_listener w.idx d; phase = returned r }

  -- `d.Stop(); return r`
  pub stop_and_finish : Result (Unit {0}) → Wait F → Wait F
  unfolding finish
  stop_and_finish r w = finish r (ignore stop w.desk).1 w

  abbrev pub after_wake : Wait F → Result (Unit {0}) × Desk F → Wait F
  after_wake w (ok _, d) = record w { desk = d; phase = moving }
  after_wake w (err e, d) = finish (err e) d w

  abbrev pub after_first : ℤ → Wait F → Result (Unit {0}) × Desk F → Wait F
  after_first timeout w (ok _, d) = record w {
    desk = d;
    phase = selecting;
    deadline = w.now + pos_part timeout;
  }
  after_first timeout w (err e, d) = finish (err e) d w

  abbrev pub after_pulse : Wait F → Result (Unit {0}) × Desk F → Wait F
  after_pulse w (ok _, d) = record w { desk = d }
  after_pulse w (err e, d) = stop_and_finish (err e) (record w { desk = d })

  -- A height is taken from the channel, and the quiescence timer starts anew.
  abbrev pub rearmed : Aim → Wait F → Wait F
  rearmed a w = record w { queued = w.queued - 1; quiet_at = some (w.now + quiet_time a) }

  -- Whether the quiescence timer has fired.
  abbrev pub fired : Option ℕ → ℕ → Wait F → Option (Wait F)
  fired none now w = none
  fired (some t) now w = if leb t now then some (stop_and_finish (ok tt) w) else none

  -- The calls in front of the loop.
  go_on : Aim → Phase (Unit {0}) → Wait F → Option (Wait F)
  unfolding finish
  go_on a waking w = some (after_wake w (wrap "wake" wake w.desk))
  go_on a moving w = some (after_first a.timeout w (wrap "go preset" (go_preset a.preset) w.desk))
  go_on a _ w = none

  pub timeout_error : Aim → Wait F → Error
  timeout_error a w = height_timeout_error (preset_incomplete a.preset) a.timeout w.desk

  -- One case of the `select`, if its channel is ready.
  choose : Aim → Event → Wait F → Option (Wait F)
  unfolding stop_and_finish timeout_error quiet_time
  choose a ctx_done w = some (stop_and_finish (err (message "preset cancelled")) w)
  choose a received w = if leb 1 w.queued then some (rearmed a w) else none
  choose a quiet w = fired w.quiet_at w.now w
  choose a timed_out w =
      if leb w.deadline w.now then some (stop_and_finish (err (timeout_error a w)) w) else none
  choose a tick w = some (after_pulse w (wrap "go preset" (go_preset a.preset) w.desk))
  choose a _ w = none

  select : Aim → Phase (Unit {0}) → Event → Wait F → Option (Wait F)
  unfolding choose
  select a selecting e w = choose a e w
  select a _ e w = none

  -- An event that is not possible does not happen.
  abbrev or_same : Wait F → Option (Wait F) → Wait F
  or_same w none = w
  or_same w (some w') = w'

module _ {F : Type 0} ⦃o : FloatOps F⦄ where
  -- The listener runs on the goroutine of the BLE stack.
  pub deliver : Bytes → Wait F → Wait F
  unfolding fill
  deliver buf w =
      let (d', calls) = handle_notification buf w.desk in
      let hs = own w.me (height_calls calls) in
      record w { desk = d'; seen = w.seen ++ hs; queued = fill (count hs) w.queued }

  step : Aim → Event → Wait F → Option (Wait F)
  unfolding deliver go_on select
  step a (elapse n) w = some (record w { now = w.now + n })
  step a (notify buf) w = some (deliver buf w)
  step a proceed w = go_on a w.phase w
  step a e w = select a w.phase e w

  pub take_step : Aim → Event → Wait F → Wait F
  unfolding step
  take_step a e w = or_same w (step a e w)

  unfoldable pub run : Aim → List Event → Wait F → Wait F
  unfolding take_step
  run a [] w = w
  run a (e ∷ es) w = run a es (take_step a e w)

  -- `WaitForPreset` under a schedule.
  unfoldable pub wait_for_preset : Aim → ℕ → List Event → Desk F → Wait F
  unfolding run start
  wait_for_preset a me es d = run a es (start me d)
