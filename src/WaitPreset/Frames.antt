-- ===== src/WaitPreset/Frames.antt =====
-- WaitForPreset of desk/monitor.go: the commands that it sends.
use yaasa_go.Prelude.{ℕ, List, [], ◌∷◌, refl}
use yaasa_go.Prelude.Int.{ℤ}
use yaasa_go.Result.{Result, ok, err}
use yaasa_go.Float.{FloatOps}
use yaasa_go.Desk.{Desk, add_height_listener, cancel_height_listener}
use yaasa_go.Desk.Notify.{handle_notification-Handled}
use yaasa_go.Schedule.{Event}
use yaasa_go.Commands.{wake, go_preset}
use yaasa_go.Commands.Wrote.{Wrote-trans, Wrote-conn, Wrote-refl}
use yaasa_go.Commands.Frames.{
  IsFramed, Framed, wake-Frames, stop-Frames, go_preset-Frames, wrap-Frames,
}
use yaasa_go.WaitPreset.{
  Wait, Aim, start, finish, stop_and_finish, after_wake, after_first, after_pulse, deliver,
  take_step, run, wait_for_preset,
}
use yaasa_go.WaitPreset.Steps.{AllSteps, take_step_cases}

module _ {F : Type 0} where
  finish-Framed :
      (d e : Desk F) (r : Result (Unit {0})) (w : Wait F)
      → Framed d e
      → Framed d (finish r e w).desk
  unfolding finish cancel_height_listener
  finish-Framed d e r w h = Wrote-conn IsFramed d e _ refl h

  stop_and_finish-Framed :
      (d : Desk F) (r : Result (Unit {0})) (w : Wait F)
      → Framed d w.desk
      → Framed d (stop_and_finish r w).desk
  unfolding stop_and_finish
  stop_and_finish-Framed d r w h =
      finish-Framed d _ r w (Wrote-trans IsFramed d w.desk _ h (stop-Frames w.desk))

  after_wake-Framed :
      (d : Desk F) (w : Wait F) (x : Result (Unit {0}) × Desk F)
      → Framed d x.1
      → Framed d (after_wake w x).desk
  after_wake-Framed d w (ok _, e) h = h
  after_wake-Framed d w (err r, e) h = finish-Framed d e (err r) w h

  after_first-Framed :
      (d : Desk F) (t : ℤ) (w : Wait F) (x : Result (Unit {0}) × Desk F)
      → Framed d x.1
      → Framed d (after_first t w x).desk
  after_first-Framed d t w (ok _, e) h = h
  after_first-Framed d t w (err r, e) h = finish-Framed d e (err r) w h

  after_pulse-Framed :
      (d : Desk F) (w : Wait F) (x : Result (Unit {0}) × Desk F)
      → Framed d x.1
      → Framed d (after_pulse w x).desk
  after_pulse-Framed d w (ok _, e) h = h
  after_pulse-Framed d w (err r, e) h = stop_and_finish-Framed d (err r) (record w { desk = e }) h

module _ {F : Type 0} ⦃o : FloatOps F⦄ (a : Aim) where
  Framed-AllSteps :
      (d : Desk F) (w : Wait F) → Framed d w.desk → AllSteps a (λ v. Framed d v.desk) w
  Framed-AllSteps d w h = record {
    none_taken = h;
    woken = λ e.
        after_wake-Framed d w _
          (Wrote-trans IsFramed d w.desk _ h (wrap-Frames "wake" wake wake-Frames w.desk));
    first_sent = λ e. after_first-Framed d a.timeout w _ (
        Wrote-trans IsFramed d w.desk _ h
          (wrap-Frames "go preset" (go_preset a.preset) (go_preset-Frames a.preset) w.desk));
    pulsed = λ e. after_pulse-Framed d w _ (
        Wrote-trans IsFramed d w.desk _ h
          (wrap-Frames "go preset" (go_preset a.preset) (go_preset-Frames a.preset) w.desk));
    took = λ s q. h;
    settled = λ t s q k. stop_and_finish-Framed d (ok tt) w h;
    failed = λ e s. stop_and_finish-Framed d (err e) w h;
  }

  run-Framed :
      (d : Desk F) (es : List Event) (w : Wait F) → Framed d w.desk → Framed d (run a es w).desk
  unfolding run deliver
  run-Framed d [] w h = h
  run-Framed d (e ∷ es) w h = run-Framed d es (take_step a e w) (
      take_step_cases a (λ v. Framed d v.desk) e w (λ n q. h)
        (λ buf q.
          Wrote-conn IsFramed d w.desk _ (handle_notification-Handled buf w.desk).conn_kept h)
        (Framed-AllSteps d w h))

  pub wait_for_preset-Framed :
      (me : ℕ) (es : List Event) (d : Desk F) → Framed d (wait_for_preset a me es d).desk
  unfolding wait_for_preset start add_height_listener
  wait_for_preset-Framed me es d =
      run-Framed d es (start me d) (Wrote-conn IsFramed d d _ refl (Wrote-refl IsFramed d))
