-- ===== src/WaitPreset/Deadline.antt =====
-- WaitForPreset of desk/monitor.go: how far each step is from the deadline.
use yaasa_go.Prelude.{ℕ, ◌+◌, ◌-◌, ◌≤◌, List, [], ◌∷◌, ◌≡◌, refl, ◌⊎◌, inl, inr, arith}
use yaasa_go.Prelude.Int.{pos_part}
use yaasa_go.Result.{Result, ok, err, wrap}
use yaasa_go.Float.{FloatOps}
use yaasa_go.Desk.{Desk}
use yaasa_go.Commands.{wake, go_preset}
use yaasa_go.Schedule.{Event, elapse, waking, moving, selecting, IsReturned, spent, time_of}
use yaasa_go.WaitPreset.Steps.{AllSteps, take_step_cases}
use yaasa_go.WaitPreset.{
  Wait, Aim, finish, stop_and_finish, after_wake, after_first, after_pulse, deliver, step,
  take_step, run,
}

module _ {F : Type 0} where
  -- In the loop with at most `n` nanoseconds to its deadline, or returned.
  abbrev pub Ending : ℕ → Wait F → Type 0
  Ending n w = ((w.phase ≡ selecting) × (w.deadline ≤ w.now + n)) ⊎ IsReturned w.phase

  -- Behind the wake, and anywhere.
  abbrev pub Awake : ℕ → Wait F → Type 0
  Awake n w = (w.phase ≡ moving) ⊎ Ending n w

  abbrev pub Begun : ℕ → Wait F → Type 0
  Begun n w = (w.phase ≡ waking) ⊎ Awake n w

  Ending-later : (n k : ℕ) (w : Wait F) → Ending n w → Ending n (record w { now = w.now + k })
  Ending-later n k w (inl (s, h)) = inl (s, omega arith)
  Ending-later n k w (inr h) = inr h

  Ending-elapse :
      (n m k : ℕ) (w : Wait F) → n ≤ m + k → Ending n w → Ending m (record w { now = w.now + k })
  Ending-elapse n m k w l (inl (s, h)) = inl (s, omega arith)
  Ending-elapse n m k w l (inr h) = inr h

  weaken : (n m : ℕ) (w : Wait F) → n ≤ m → Ending n w → Ending m w
  weaken n m w l (inl (s, h)) = inl (s, omega arith)
  weaken n m w l (inr h) = inr h

  Awake-later : (n k : ℕ) (w : Wait F) → Awake n w → Awake n (record w { now = w.now + k })
  Awake-later n k w (inl h) = inl h
  Awake-later n k w (inr h) = inr (Ending-later n k w h)

  Begun-later : (n k : ℕ) (w : Wait F) → Begun n w → Begun n (record w { now = w.now + k })
  Begun-later n k w (inl h) = inl h
  Begun-later n k w (inr h) = inr (Awake-later n k w h)

module _ {F : Type 0} ⦃o : FloatOps F⦄ (a : Aim) where
  pub after_wake-Awake :
      (n : ℕ) (w : Wait F) (x : Result (Unit {0}) × Desk F) → Awake n (after_wake w x)
  unfolding finish
  after_wake-Awake n w (ok _, d) = inl refl
  after_wake-Awake n w (err e, d) = inr (inr (err e, refl))

  pub after_first-Ending :
      (w : Wait F) (x : Result (Unit {0}) × Desk F)
      → Ending (pos_part a.timeout) (after_first a.timeout w x)
  unfolding finish
  after_first-Ending w (ok _, d) = inl (refl, omega arith)
  after_first-Ending w (err e, d) = inr (err e, refl)

  after_pulse-Ending :
      (n : ℕ) (w : Wait F) (x : Result (Unit {0}) × Desk F)
      → w.phase ≡ selecting
      → Awake n w
      → Ending n (after_pulse w x)
  unfolding stop_and_finish
  after_pulse-Ending n w (ok _, d) e (inl m) = cc
  after_pulse-Ending n w (ok _, d) e (inr h) = h
  after_pulse-Ending n w (err r, d) e h = inr (err r, refl)

  pub Ending-AllSteps : (n : ℕ) (w : Wait F) → Ending n w → AllSteps a (Ending n) w
  unfolding stop_and_finish
  Ending-AllSteps n w h = record {
    none_taken = h;
    woken = λ e. elim h [ inl (s, _) ↦ cc | inr (_, s) ↦ cc ];
    first_sent = λ e. elim h [ inl (s, _) ↦ cc | inr (_, s) ↦ cc ];
    pulsed = λ e. after_pulse-Ending n w (wrap "go preset" (go_preset a.preset) w.desk) e (inr h);
    took = λ s q. h;
    settled = λ t s q k. inr (ok tt, refl);
    failed = λ e s. inr (err e, refl);
  }

  pub Awake-AllSteps :
      (w : Wait F) → Awake (pos_part a.timeout) w → AllSteps a (Awake (pos_part a.timeout)) w
  unfolding stop_and_finish
  Awake-AllSteps w h = record {
    none_taken = h;
    woken = λ e. after_wake-Awake (pos_part a.timeout) w (wrap "wake" wake w.desk);
    first_sent = λ e. inr (after_first-Ending w (wrap "go preset" (go_preset a.preset) w.desk));
    pulsed = λ e. inr (
        after_pulse-Ending (pos_part a.timeout) w (wrap "go preset" (go_preset a.preset) w.desk) e
          h);
    took = λ s q. h;
    settled = λ t s q k. inr (inr (ok tt, refl));
    failed = λ e s. inr (inr (err e, refl));
  }

  pub Begun-AllSteps :
      (w : Wait F) → Begun (pos_part a.timeout) w → AllSteps a (Begun (pos_part a.timeout)) w
  unfolding stop_and_finish
  Begun-AllSteps w h = record {
    none_taken = h;
    woken = λ e. inr (after_wake-Awake (pos_part a.timeout) w (wrap "wake" wake w.desk));
    first_sent =
        λ e. inr (inr (after_first-Ending w (wrap "go preset" (go_preset a.preset) w.desk)));
    pulsed = λ e. elim h [
      | inl s ↦ cc
      | inr s ↦ inr (
          inr (
            after_pulse-Ending (pos_part a.timeout) w (wrap "go preset" (go_preset a.preset) w.desk)
              e s))
    ];
    took = λ s q. h;
    settled = λ t s q k. inr (inr (inr (ok tt, refl)));
    failed = λ e s. inr (inr (inr (err e, refl)));
  }

  pub IsReturned-AllSteps :
      (w : Wait F) → IsReturned w.phase → AllSteps a (λ v. IsReturned v.phase) w
  unfolding stop_and_finish
  IsReturned-AllSteps w (r, h) = record {
    none_taken = (r, h);
    woken = λ e. cc;
    first_sent = λ e. cc;
    pulsed = λ e. cc;
    took = λ s q. (r, h);
    settled = λ t s q k. (ok tt, refl);
    failed = λ e s. (err e, refl);
  }

  pub step-Ending_same : (n : ℕ) (e : Event) (w : Wait F) → Ending n w → Ending n (take_step a e w)
  unfolding deliver
  step-Ending_same n e w h =
      take_step_cases a (Ending n) e w (λ k q. Ending-later n k w h) (λ buf q. h)
        (Ending-AllSteps n w h)

  pub step-Awake :
      (e : Event) (w : Wait F)
      → Awake (pos_part a.timeout) w
      → Awake (pos_part a.timeout) (take_step a e w)
  unfolding deliver
  step-Awake e w h =
      take_step_cases a (Awake (pos_part a.timeout)) e w
        (λ k q. Awake-later (pos_part a.timeout) k w h) (λ buf q. h) (Awake-AllSteps w h)

  pub step-Begun :
      (e : Event) (w : Wait F)
      → Begun (pos_part a.timeout) w
      → Begun (pos_part a.timeout) (take_step a e w)
  unfolding deliver
  step-Begun e w h =
      take_step_cases a (Begun (pos_part a.timeout)) e w
        (λ k q. Begun-later (pos_part a.timeout) k w h) (λ buf q. h) (Begun-AllSteps w h)

  pub step-IsReturned :
      (e : Event) (w : Wait F) → IsReturned w.phase → IsReturned (take_step a e w).phase
  unfolding deliver
  step-IsReturned e w h =
      take_step_cases a (λ v. IsReturned v.phase) e w (λ k q. h) (λ buf q. h)
        (IsReturned-AllSteps w h)

  pub run_inv :
      (P : Wait F → Type 0)
      → ((e : Event) (w : Wait F) → P w → P (take_step a e w))
      → (es : List Event) (w : Wait F) → P w
      → P (run a es w)
  unfolding run
  run_inv P keep [] w h = h
  run_inv P keep (e ∷ es) w h = run_inv P keep es (take_step a e w) (keep e w h)

  -- The time that passes in a step counts towards the deadline.
  step-Ending :
      (n m : ℕ) (e : Event) (w : Wait F) → n ≤ m + spent e → Ending n w → Ending m (take_step a e w)
  step-Ending n m (elapse k) w l h = unfold take_step step in Ending-elapse n m k w l h
  step-Ending n m e w l h = step-Ending_same m e w (weaken n m w (omega arith) h)

  pub run-Ending :
      (n m : ℕ) (es : List Event) (w : Wait F)
      → n ≤ m + time_of es
      → Ending n w
      → Ending m (run a es w)
  unfolding run
  run-Ending n m [] w l h = weaken n m w (omega arith) h
  run-Ending n m (e ∷ es) w l h =
      run-Ending (n - spent e) m es (take_step a e w) (omega arith)
        (step-Ending n (n - spent e) e w (omega arith) h)
