-- ===== src/WaitHeight/Deadline.antt =====
-- WaitForHeight of desk/monitor.go: how far each step is from the deadline.
use yaasa_go.Prelude.{ℕ, ◌+◌, ◌-◌, ◌≤◌, List, [], ◌∷◌, ◌≡◌, refl, ◌⊎◌, inl, inr, arith}
use yaasa_go.Prelude.Int.{pos_part}
use yaasa_go.Result.{Result, ok, err, wrap}
use yaasa_go.Float.{FloatOps}
use yaasa_go.Desk.{Desk}
use yaasa_go.Commands.{wake, move_to_height}
use yaasa_go.Schedule.{Event, elapse, waking, moving, selecting, IsReturned, spent, time_of}
use yaasa_go.WaitHeight.Steps.{AllSteps, run_inv, take_step_cases}
use yaasa_go.WaitHeight.{
  Wait, Aim, finish, stop_and_finish, after_wake, after_first, after_pulse, deliver, take_step, run,
}

module _ {F : Type 0} where
  -- In the loop with at most `n` nanoseconds to its deadline, or returned.
  abbrev pub Ending : ℕ → Wait F → Type 0
  Ending n w = ((w.phase ≡ selecting) × (w.deadline ≤ w.now + n)) ⊎ IsReturned w.phase

  -- Behind the wake, and anywhere.
  abbrev pub Awake : ℕ → Wait F → Type 0
  Awake n w = (w.phase ≡ moving) ⊎ Ending n w

  abbrev pub Begun : ℕ → Wait F → Type 0
  Begun n w = (w.phase ≡ waking) ⊎ Awake n w

  Ending-later : (n k : ℕ) (w : Wait F) → Ending n w → Ending n (record w { now = w.now + k })
  Ending-later n k w (inl (s, h)) = inl (s, omega arith)
  Ending-later n k w (inr h) = inr h

  Ending-elapse :
      (n m k : ℕ) (w : Wait F) → n ≤ m + k → Ending n w → Ending m (record w { now = w.now + k })
  Ending-elapse n m k w l (inl (s, h)) = inl (s, omega arith)
  Ending-elapse n m k w l (inr h) = inr h

  weaken : (n m : ℕ) (w : Wait F) → n ≤ m → Ending n w → Ending m w
  weaken n m w l (inl (s, h)) = inl (s, omega arith)
  weaken n m w l (inr h) = inr h

  Awake-later : (n k : ℕ) (w : Wait F) → Awake n w → Awake n (record w { now = w.now + k })
  Awake-later n k w (inl h) = inl h
  Awake-later n k w (inr h) = inr (Ending-later n k w h)

  Begun-later : (n k : ℕ) (w : Wait F) → Begun n w → Begun n (record w { now = w.now + k })
  Begun-later n k w (inl h) = inl h
  Begun-later n k w (inr h) = inr (Awake-later n k w h)

module _ {F : Type 0} ⦃o : FloatOps F⦄ (a : Aim F) where
  pub after_wake-Awake :
      (n : ℕ) (w : Wait F) (x : Result (Unit {0}) × Desk F) → Awake n (after_wake w x)
  unfolding finish
  after_wake-Awake n w (ok _, d) = inl refl
  after_wake-Awake n w (err e, d) = inr (inr (err e, refl))

  pub after_first-Ending :
      (w : Wait F) (x : Result (Unit {0}) × Desk F)
      → Ending (pos_part a.timeout) (after_first a.timeout w x)
  unfolding finish
  after_first-Ending w (ok _, d) = inl (refl, omega arith)
  after_first-Ending w (err e, d) = inr (err e, refl)

  after_pulse-Ending :
      (n : ℕ) (w : Wait F) (x : Result (Unit {0}) × Desk F)
      → w.phase ≡ selecting
      → Awake n w
      → Ending n (after_pulse w x)
  unfolding stop_and_finish
  after_pulse-Ending n w (ok _, d) e (inl m) = cc
  after_pulse-Ending n w (ok _, d) e (inr h) = h
  after_pulse-Ending n w (err r, d) e h = inr (err r, refl)

  pub Ending-AllSteps : (n : ℕ) (w : Wait F) → Ending n w → AllSteps a (Ending n) w
  unfolding deliver stop_and_finish
  Ending-AllSteps n w h = record {
    none_taken = h;
    elapsed = λ k. Ending-later n k w h;
    delivered = λ buf. h;
    woken = λ e. elim h [ inl (s, _) ↦ cc | inr (_, s) ↦ cc ];
    first_sent = λ e. elim h [ inl (s, _) ↦ cc | inr (_, s) ↦ cc ];
    pulsed = λ e.
        after_pulse-Ending n w (wrap "move to height" (move_to_height a.target) w.desk) e (inr h);
    left = λ r b e. inr (r, refl);
  }

  pub Awake-AllSteps :
      (w : Wait F) → Awake (pos_part a.timeout) w → AllSteps a (Awake (pos_part a.timeout)) w
  unfolding deliver stop_and_finish
  Awake-AllSteps w h = record {
    none_taken = h;
    elapsed = λ k. Awake-later (pos_part a.timeout) k w h;
    delivered = λ buf. h;
    woken = λ e. after_wake-Awake (pos_part a.timeout) w (wrap "wake" wake w.desk);
    first_sent =
        λ e. inr (after_first-Ending w (wrap "move to height" (move_to_height a.target) w.desk));
    pulsed = λ e. inr (
        after_pulse-Ending (pos_part a.timeout) w
          (wrap "move to height" (move_to_height a.target) w.desk) e h);
    left = λ r b e. inr (inr (r, refl));
  }

  pub Begun-AllSteps :
      (w : Wait F) → Begun (pos_part a.timeout) w → AllSteps a (Begun (pos_part a.timeout)) w
  unfolding deliver stop_and_finish
  Begun-AllSteps w h = record {
    none_taken = h;
    elapsed = λ k. Begun-later (pos_part a.timeout) k w h;
    delivered = λ buf. h;
    woken = λ e. inr (after_wake-Awake (pos_part a.timeout) w (wrap "wake" wake w.desk));
    first_sent = λ e.
        inr (inr (after_first-Ending w (wrap "move to height" (move_to_height a.target) w.desk)));
    pulsed = λ e. elim h [
      | inl s ↦ cc
      | inr s ↦ inr (
          inr (
            after_pulse-Ending (pos_part a.timeout) w
              (wrap "move to height" (move_to_height a.target) w.desk) e s))
    ];
    left = λ r b e. inr (inr (inr (r, refl)));
  }

  pub IsReturned-AllSteps :
      (w : Wait F) → IsReturned w.phase → AllSteps a (λ v. IsReturned v.phase) w
  unfolding deliver stop_and_finish
  IsReturned-AllSteps w (r, h) = record {
    none_taken = (r, h);
    elapsed = λ k. (r, h);
    delivered = λ buf. (r, h);
    woken = λ e. cc;
    first_sent = λ e. cc;
    pulsed = λ e. cc;
    left = λ r' b e. (r', refl);
  }

  pub run-IsReturned :
      (es : List Event) (w : Wait F) → IsReturned w.phase → IsReturned (run a es w).phase
  run-IsReturned es w h = run_inv a (λ v. IsReturned v.phase) IsReturned-AllSteps es w h

  -- The time that passes in a step counts towards the deadline.
  step-Ending :
      (n m : ℕ) (e : Event) (w : Wait F) → n ≤ m + spent e → Ending n w → Ending m (take_step a e w)
  step-Ending n m (elapse k) w l h = unfold take_step in Ending-elapse n m k w l h
  step-Ending n m e w l h =
      take_step_cases a (Ending m) e w (Ending-AllSteps m w (weaken n m w (omega arith) h))

  pub run-Ending :
      (n m : ℕ) (es : List Event) (w : Wait F)
      → n ≤ m + time_of es
      → Ending n w
      → Ending m (run a es w)
  unfolding run
  run-Ending n m [] w l h = weaken n m w (omega arith) h
  run-Ending n m (e ∷ es) w l h =
      run-Ending (n - spent e) m es (take_step a e w) (omega arith)
        (step-Ending n (n - spent e) e w (omega arith) h)
