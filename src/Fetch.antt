-- ===== src/Fetch.antt =====
-- CurrentHeight of desk/monitor.go and FetchSitStandTime of desk/stats.go: a request, and the wait
-- for the notification that answers it, as machines that are run by a schedule.
pub mod Hearing
pub mod Answers
pub mod Frames
pub mod Ending
use yaasa_go.Prelude.{
  ℕ, ◌+◌, ◌-◌, List, [], ◌∷◌, ◌++◌, Option, none, some, Bool, true, false, leb, ltb, if◌then◌else◌,
  Bytes,
}
use yaasa_go.Prelude.Int.{ℤ, pos, pos_part, ltb_ℤ}
use yaasa_go.Result.{Result, ok, err, Error, message, no_response, wrap}
use yaasa_go.Float.{FloatOps}
use yaasa_go.Stats.{SitStandTime}
use yaasa_go.Desk.{
  Desk, Call, height_call, stats_call, add_height_listener, cancel_height_listener,
  add_sit_stand_listener, cancel_sit_stand_listener, handle_notification, last_known_height,
}
use yaasa_go.Desk.Notify.{height_calls, stats_calls}
use yaasa_go.Commands.{request_height_limits, request_sit_stand_time}
use yaasa_go.Schedule.{
  Event, elapse, notify, proceed, received, timed_out, Phase, waking, selecting, returned, own,
}

-- The state of one call that waits for a value of `A`: the value in its channel of one place, and
-- the time of its deadline.
pub record Wait (F A : Type 0) : Type 0 where
  pub desk : Desk F
  pub me : ℕ
  pub idx : ℕ
  pub got : Option A
  pub now : ℕ
  pub deadline : ℕ
  pub phase : Phase A

-- `wait := timeout; if wait < 5*time.Second { wait = 5 * time.Second }`
unfoldable pub effective_wait : ℤ → ℤ
effective_wait timeout = if ltb_ℤ timeout (pos 5_000_000_000) then pos 5_000_000_000 else timeout

-- What differs between the two functions.
pub record Query (F A : Type 0) : Type 0 where
  pub register : ℕ → Desk F → ℕ × Desk F
  pub cancel : ℕ → Desk F → Desk F
  pub request : Desk F → Result (Unit {0}) × Desk F
  pub calls : List (Call F) → List (ℕ × A)
  pub give_up : ℤ → Error

module _ {F A : Type 0} (q : Query F A) where
  -- A non-blocking send to a channel of one place.
  abbrev pub offered : Option A → List A → Option A
  offered (some x) xs = some x
  offered none [] = none
  offered none (x ∷ xs) = some x

  abbrev pub start : ℕ → Desk F → Wait F A
  start me d =
      let (idx, d') = q.register me d in
      record { desk = d'; me = me; idx = idx; got = none; now = 0; deadline = 0; phase = waking }

  -- `return r`, with the deferred `cancel`.
  abbrev pub finish : Result A → Wait F A → Wait F A
  finish r w = record w { desk = q.cancel w.idx w.desk; phase = returned r }

  abbrev pub after_request : ℤ → Wait F A → Result (Unit {0}) × Desk F → Wait F A
  after_request timeout w (ok _, d) = record w {
    desk = d;
    phase = selecting;
    deadline = w.now + pos_part (effective_wait timeout);
  }
  after_request timeout w (err e, d) = finish (err e) (record w { desk = d })

  pub ask : ℤ → Phase A → Wait F A → Wait F A
  ask timeout waking w = after_request timeout w (q.request w.desk)
  ask timeout _ w = w

  abbrev pub taken : Option A → Wait F A → Wait F A
  taken none w = w
  taken (some x) w = finish (ok x) w

  pub take : Phase A → Wait F A → Wait F A
  take selecting w = taken w.got w
  take _ w = w

  pub expire : ℤ → Phase A → Wait F A → Wait F A
  expire timeout selecting w =
      if leb w.deadline w.now then finish (err (q.give_up (effective_wait timeout))) w else w
  expire timeout _ w = w

  module _ ⦃o : FloatOps F⦄ where
    pub deliver : Bytes → Wait F A → Wait F A
    deliver buf w =
        let (d', cs) = handle_notification buf w.desk in
        record w { desk = d'; got = offered w.got (own w.me (q.calls cs)) }

    pub step : ℤ → Event → Wait F A → Wait F A
    unfolding deliver ask take expire
    step timeout (elapse n) w = record w { now = w.now + n }
    step timeout (notify buf) w = deliver buf w
    step timeout proceed w = ask timeout w.phase w
    step timeout received w = take w.phase w
    step timeout timed_out w = expire timeout w.phase w
    step timeout _ w = w

    unfoldable pub run : ℤ → List Event → Wait F A → Wait F A
    unfolding step
    run timeout [] w = w
    run timeout (e ∷ es) w = run timeout es (step timeout e w)

-- The result of a call, if it has returned.
abbrev pub returned_of : {A : Type 0} → Phase A → Option (Result A)
returned_of (returned r) = some r
returned_of _ = none

abbrev pub outcome_of : {F A : Type 0} → Wait F A → Option (Result A) × Desk F
outcome_of w = (returned_of w.phase, w.desk)

module _ {F : Type 0} ⦃o : FloatOps F⦄ where
  abbrev pub height_query : Query F F
  height_query = record {
    register = add_height_listener;
    cancel = cancel_height_listener;
    request = wrap "request height" request_height_limits;
    calls = height_calls;
    give_up = λ wait. message "no height data yet";
  }

  abbrev pub stats_query : Query F SitStandTime
  stats_query = record {
    register = add_sit_stand_listener;
    cancel = cancel_sit_stand_listener;
    request = wrap "request sit/stand time" request_sit_stand_time;
    calls = stats_calls;
    give_up = no_response;
  }

  -- The fast path, or the wait.
  abbrev pub cached : F × Bool → ℤ → ℕ → List Event → Desk F → Option (Result F) × Desk F
  cached (h, true) timeout me es d = (some (ok h), d)
  cached (h, false) timeout me es d =
      outcome_of (run height_query timeout es (start height_query me d))

  unfoldable pub current_height : ℤ → ℕ → List Event → Desk F → Option (Result F) × Desk F
  unfolding run
  current_height timeout me es d = cached (last_known_height d) timeout me es d

  unfoldable pub fetch_sit_stand_time :
      ℤ → ℕ → List Event → Desk F → Option (Result SitStandTime) × Desk F
  unfolding run
  fetch_sit_stand_time timeout me es d =
      outcome_of (run stats_query timeout es (start stats_query me d))
