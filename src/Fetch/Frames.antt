-- ===== src/Fetch/Frames.antt =====
-- CurrentHeight of desk/monitor.go and FetchSitStandTime of desk/stats.go: the commands they send.
use yaasa_go.Prelude.{
  ℕ, List, [], ◌∷◌, Bool, true, false, Option, none, some, ◌≡◌, refl, Bool-cases, inl, inr, leb,
}
use yaasa_go.Prelude.Int.{ℤ}
use yaasa_go.Result.{Result, ok, err}
use yaasa_go.Float.{FloatOps}
use yaasa_go.Desk.{
  Desk, add_height_listener, cancel_height_listener, add_sit_stand_listener,
  cancel_sit_stand_listener, last_known_height,
}
use yaasa_go.Desk.Notify.{handle_notification-Handled}
use yaasa_go.Schedule.{
  Event, elapse, notify, proceed, received, timed_out, Phase, waking, selecting,
}
use yaasa_go.Commands.{request_height_limits, request_sit_stand_time}
use yaasa_go.Commands.Wrote.{Wrote-trans, Wrote-conn, Wrote-refl}
use yaasa_go.Commands.Frames.{
  IsFramed, Framed, Frames, request_height_limits-Frames, request_sit_stand_time-Frames,
  wrap-Frames,
}
use yaasa_go.Fetch.{
  Wait, Query, start, finish, after_request, ask, taken, take, expire, deliver, step, run,
  height_query, stats_query, cached, current_height, fetch_sit_stand_time, effective_wait,
}

-- A query whose listeners leave the connection alone, and whose request is a command.
record IsPolite {F A : Type 0} (q : Query F A) : Type 0 where
  registers : (me : ℕ) (d : Desk F) → (q.register me d).1.conn ≡ d.conn
  cancels : (idx : ℕ) (d : Desk F) → (q.cancel idx d).conn ≡ d.conn
  requests : Frames q.request

module _ {F A : Type 0} (q : Query F A) (p : IsPolite q) (timeout : ℤ) (d : Desk F) where
  finish-Framed : (r : Result A) (w : Wait F A) → Framed d w.desk → Framed d (finish q r w).desk
  finish-Framed r w h = Wrote-conn IsFramed d w.desk _ (p.cancels w.idx w.desk) h

  after_request-Framed :
      (w : Wait F A) (x : Result (Unit {0}) × Desk F)
      → Framed d x.1
      → Framed d (after_request q timeout w x).desk
  after_request-Framed w (ok _, e) h = h
  after_request-Framed w (err r, e) h = finish-Framed (err r) (record w { desk = e }) h

  ask-Framed : (s : Phase A) (w : Wait F A) → Framed d w.desk → Framed d (ask q timeout s w).desk
  unfolding ask
  ask-Framed waking w h =
      after_request-Framed w (q.request w.desk)
        (Wrote-trans IsFramed d w.desk _ h (p.requests w.desk))
  ask-Framed _ w h = h

  taken-Framed : (x : Option A) (w : Wait F A) → Framed d w.desk → Framed d (taken q x w).desk
  taken-Framed none w h = h
  taken-Framed (some x) w h = finish-Framed (ok x) w h

  take-Framed : (s : Phase A) (w : Wait F A) → Framed d w.desk → Framed d (take q s w).desk
  unfolding take
  take-Framed selecting w h = taken-Framed w.got w h
  take-Framed _ w h = h

  expire-Framed :
      (s : Phase A) (w : Wait F A) → Framed d w.desk → Framed d (expire q timeout s w).desk
  unfolding expire
  expire-Framed selecting w h = elim (Bool-cases (leb w.deadline w.now)) [
    | inl b ↦ rw b (finish-Framed (err (q.give_up (effective_wait timeout))) w h)
    | inr b ↦ rw b h
  ]
  expire-Framed _ w h = h

  module _ ⦃o : FloatOps F⦄ where
    step-Framed : (e : Event) (w : Wait F A) → Framed d w.desk → Framed d (step q timeout e w).desk
    unfolding step deliver
    step-Framed (elapse n) w h = h
    step-Framed (notify buf) w h =
        Wrote-conn IsFramed d w.desk _ (handle_notification-Handled buf w.desk).conn_kept h
    step-Framed proceed w h = ask-Framed w.phase w h
    step-Framed received w h = take-Framed w.phase w h
    step-Framed timed_out w h = expire-Framed w.phase w h
    step-Framed _ w h = h

    run-Framed :
        (es : List Event) (w : Wait F A) → Framed d w.desk → Framed d (run q timeout es w).desk
    unfolding run
    run-Framed [] w h = h
    run-Framed (e ∷ es) w h = run-Framed es (step q timeout e w) (step-Framed e w h)

    fetch-Framed : (me : ℕ) (es : List Event) → Framed d (run q timeout es (start q me d)).desk
    fetch-Framed me es =
        run-Framed es (start q me d)
          (Wrote-conn IsFramed d d _ (p.registers me d) (Wrote-refl IsFramed d))

module _ {F : Type 0} ⦃o : FloatOps F⦄ where
  height_query-IsPolite : IsPolite (height_query {F = F})
  unfolding add_height_listener cancel_height_listener
  height_query-IsPolite = record {
    registers = λ me d. refl;
    cancels = λ idx d. refl;
    requests = wrap-Frames "request height" request_height_limits request_height_limits-Frames;
  }

  stats_query-IsPolite : IsPolite (stats_query {F = F})
  unfolding add_sit_stand_listener cancel_sit_stand_listener
  stats_query-IsPolite = record {
    registers = λ me d. refl;
    cancels = λ idx d. refl;
    requests =
        wrap-Frames "request sit/stand time" request_sit_stand_time request_sit_stand_time-Frames;
  }

  cached-Framed :
      (h : F × Bool) (timeout : ℤ) (me : ℕ) (es : List Event) (d : Desk F)
      → Framed d (cached h timeout me es d).1
  cached-Framed (h, true) timeout me es d = Wrote-refl IsFramed d
  cached-Framed (h, false) timeout me es d =
      fetch-Framed height_query height_query-IsPolite timeout d me es

  pub current_height-Framed :
      (timeout : ℤ) (me : ℕ) (es : List Event) (d : Desk F)
      → Framed d (current_height timeout me es d).1
  unfolding current_height
  current_height-Framed timeout me es d = cached-Framed (last_known_height d) timeout me es d

  pub fetch_sit_stand_time-Framed :
      (timeout : ℤ) (me : ℕ) (es : List Event) (d : Desk F)
      → Framed d (fetch_sit_stand_time timeout me es d).1
  unfolding fetch_sit_stand_time
  fetch_sit_stand_time-Framed timeout me es d =
      fetch-Framed stats_query stats_query-IsPolite timeout d me es
