-- ===== src/WaitHeight/Stopping.antt =====
-- WaitForHeight of desk/monitor.go: how its loop is left.
use yaasa_go.Prelude.{List, [], ◌∷◌, ◌++◌, ◌≡◌, refl, subst}
use yaasa_go.Result.{Result, ok, err, wrap}
use yaasa_go.Float.{FloatOps}
use yaasa_go.Packet.{make_command}
use yaasa_go.Desk.{Desk, Action, tx, cancel_height_listener}
use yaasa_go.Desk.Notify.{handle_notification-Handled}
use yaasa_go.Commands.{stop, move_to_height, op_stop}
use yaasa_go.Schedule.{Event, Phase, waking, moving, selecting, returned}
use yaasa_go.WaitHeight.Steps.{AllSteps, run_inv}
use yaasa_go.WaitHeight.{Wait, Aim, finish, stop_and_finish, after_pulse, deliver, run}

-- The last thing that the desk was sent is the stop frame.
abbrev pub EndsWithStop : List Action → Type 0
EndsWithStop l = (before : List Action) × (l ≡ before ++ tx (make_command op_stop []) ∷ [])

module _ {F : Type 0} where
  -- In the loop, or returned from it with the desk stopped.
  abbrev pub Looping : Phase (Unit {0}) → Desk F → Type 0
  Looping waking d = ⊥
  Looping moving d = ⊥
  Looping selecting d = Unit
  Looping (returned r) d = EndsWithStop d.conn.log

  pub Looping-conn :
      (p : Phase (Unit {0})) (d d' : Desk F) → d'.conn ≡ d.conn → Looping p d → Looping p d'
  Looping-conn selecting d d' e v = tt
  Looping-conn waking d d' e v = v
  Looping-conn moving d d' e v = v
  Looping-conn (returned r) d d' e v = rw e v

  abbrev LoopInv : Wait F → Type 0
  LoopInv w = Looping w.phase w.desk

  stop_and_finish-LoopInv : (r : Result (Unit {0})) (w : Wait F) → LoopInv (stop_and_finish r w)
  unfolding stop_and_finish finish stop cancel_height_listener
  stop_and_finish-LoopInv r w = (w.desk.conn.log, refl)

  after_pulse-LoopInv :
      (w : Wait F) (x : Result (Unit {0}) × Desk F)
      → w.phase ≡ selecting
      → LoopInv (after_pulse w x)
  after_pulse-LoopInv w (ok _, d) e = rw e tt
  after_pulse-LoopInv w (err x, d) e = stop_and_finish-LoopInv (err x) (record w { desk = d })

module _ {F : Type 0} ⦃o : FloatOps F⦄ (a : Aim F) where
  LoopInv-AllSteps : (w : Wait F) → LoopInv w → AllSteps a LoopInv w
  unfolding deliver
  LoopInv-AllSteps w v = record {
    none_taken = v;
    elapsed = λ n. v;
    delivered =
        λ buf. Looping-conn w.phase w.desk _ (handle_notification-Handled buf w.desk).conn_kept v;
    woken = λ h. elim (rw h at v) [ ];
    first_sent = λ h. elim (rw h at v) [ ];
    pulsed = after_pulse-LoopInv w (wrap "move to height" (move_to_height a.target) w.desk);
    left = λ r b h. stop_and_finish-LoopInv r (record w { arrived = b });
  }

  -- However the loop of `WaitForHeight` is left, by arrival, timeout, cancellation or a failed
  -- write, the last frame that was sent to the desk is the stop frame.
  pub run-EndsWithStop :
      (es : List Event) (w : Wait F) (r : Result (Unit {0}))
      → w.phase ≡ selecting
      → (run a es w).phase ≡ returned r
      → EndsWithStop (run a es w).desk.conn.log
  run-EndsWithStop es w r h e =
      subst (λ p. Looping p (run a es w).desk) e (run_inv a LoopInv LoopInv-AllSteps es w (rw h tt))
