-- ===== src/WaitPreset/Stopping.antt =====
-- WaitForPreset of desk/monitor.go: how its loop is left.
use yaasa_go.Prelude.{List, [], ◌∷◌, ◌≡◌, refl, subst, Bytes}
use yaasa_go.Result.{Result, ok, err, wrap}
use yaasa_go.Float.{FloatOps}
use yaasa_go.Desk.{Desk, cancel_height_listener}
use yaasa_go.Desk.Notify.{handle_notification-Handled}
use yaasa_go.Commands.{stop, go_preset}
use yaasa_go.Schedule.{Event, selecting, returned}
use yaasa_go.WaitHeight.Stopping.{EndsWithStop, Looping, Looping-conn}
use yaasa_go.WaitPreset.Steps.{AllSteps, take_step_cases}
use yaasa_go.WaitPreset.{Wait, Aim, finish, stop_and_finish, after_pulse, deliver, take_step, run}

module _ {F : Type 0} where
  abbrev LoopInv : Wait F → Type 0
  LoopInv w = Looping w.phase w.desk

  stop_and_finish-LoopInv : (r : Result (Unit {0})) (w : Wait F) → LoopInv (stop_and_finish r w)
  unfolding stop_and_finish finish stop cancel_height_listener
  stop_and_finish-LoopInv r w = (w.desk.conn.log, refl)

  after_pulse-LoopInv :
      (w : Wait F) (x : Result (Unit {0}) × Desk F)
      → w.phase ≡ selecting
      → LoopInv (after_pulse w x)
  after_pulse-LoopInv w (ok _, d) e = rw e tt
  after_pulse-LoopInv w (err x, d) e = stop_and_finish-LoopInv (err x) (record w { desk = d })

module _ {F : Type 0} ⦃o : FloatOps F⦄ (a : Aim) where
  LoopInv-AllSteps : (w : Wait F) → LoopInv w → AllSteps a LoopInv w
  LoopInv-AllSteps w v = record {
    none_taken = v;
    woken = λ h. elim (rw h at v) [ ];
    first_sent = λ h. elim (rw h at v) [ ];
    pulsed = after_pulse-LoopInv w (wrap "go preset" (go_preset a.preset) w.desk);
    took = λ h q. v;
    settled = λ t h q l. stop_and_finish-LoopInv (ok tt) w;
    failed = λ e h. stop_and_finish-LoopInv (err e) w;
  }

  deliver-LoopInv : (buf : Bytes) (w : Wait F) → LoopInv w → LoopInv (deliver buf w)
  unfolding deliver
  deliver-LoopInv buf w v =
      Looping-conn w.phase w.desk _ (handle_notification-Handled buf w.desk).conn_kept v

  run-LoopInv : (es : List Event) (w : Wait F) → LoopInv w → LoopInv (run a es w)
  unfolding run
  run-LoopInv [] w v = v
  run-LoopInv (e ∷ es) w v = run-LoopInv es (take_step a e w) (
      take_step_cases a LoopInv e w (λ n h. v) (λ buf q. deliver-LoopInv buf w v)
        (LoopInv-AllSteps w v))

  -- However the loop of `WaitForPreset` is left, by quiescence, timeout, cancellation or a failed
  -- write, the last frame that was sent to the desk is the stop frame.
  pub run-EndsWithStop_of_preset :
      (es : List Event) (w : Wait F) (r : Result (Unit {0}))
      → w.phase ≡ selecting
      → (run a es w).phase ≡ returned r
      → EndsWithStop (run a es w).desk.conn.log
  run-EndsWithStop_of_preset es w r h e =
      subst (λ p. Looping p (run a es w).desk) e (run-LoopInv es w (rw h tt))
