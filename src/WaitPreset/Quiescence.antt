-- ===== src/WaitPreset/Quiescence.antt =====
-- WaitForPreset of desk/monitor.go: its quiescence timer.
use yaasa_go.Prelude.{
  ℕ, ◌+◌, ◌-◌, ◌≤◌, ◌<◌, List, [], ◌∷◌, Option, none, some, ◌≡◌, ◌≢◌, refl, sym, subst, ◌⊎◌, inl,
  inr, arith, le→leb,
}
use yaasa_go.Result.{Result, ok, err, wrap, Error}
use yaasa_go.Float.{FloatOps}
use yaasa_go.Desk.{Desk}
use yaasa_go.Commands.{go_preset}
use yaasa_go.Schedule.{Event, elapse, received, selecting, returned}
use yaasa_go.WaitPreset.Steps.{AllSteps, take_step_cases}
use yaasa_go.WaitPreset.{
  Wait, Aim, stop_and_finish, after_pulse, deliver, rearmed, take_step, step, select, choose, run,
  quiet_time,
}

-- The time that passes in a step, and in a schedule.
unfoldable pub passing : Event → ℕ
passing (elapse n) = n
passing _ = 0

unfoldable pub passed : List Event → ℕ
unfolding passing
passed [] = 0
passed (e ∷ es) = passing e + passed es

-- The quiescence timer does not fire for `r` nanoseconds.
abbrev ArmedFor : ℕ → ℕ → Option ℕ → Type 0
ArmedFor r now none = Unit
ArmedFor r now (some t) = now + r ≤ t

ArmedFor-less : (r k now : ℕ) (q : Option ℕ) → k ≤ r → ArmedFor r now q → ArmedFor k now q
ArmedFor-less r k now none l h = tt
ArmedFor-less r k now (some t) l h = omega arith

ArmedFor-later :
    (r n now : ℕ) (q : Option ℕ) → n < r → ArmedFor r now q → ArmedFor (r - n) (now + n) q
ArmedFor-later r n now none l h = tt
ArmedFor-later r n now (some t) l h = omega arith

module _ {F : Type 0} where
  -- In the loop with a timer that has `r` nanoseconds to go, or returned with an error.
  abbrev Unsettled : ℕ → Wait F → Type 0
  Unsettled r w =
      ((w.phase ≡ selecting) × ArmedFor r w.now w.quiet_at)
      ⊎ ((e : Error) × (w.phase ≡ returned (err e)))

  Unsettled-not_ok : (r : ℕ) (w : Wait F) → Unsettled r w → w.phase ≢ returned (ok tt)
  Unsettled-not_ok r w (inl (s, h)) e = cc
  Unsettled-not_ok r w (inr (x, s)) e = cc

module _ {F : Type 0} ⦃o : FloatOps F⦄ (a : Aim) where
  after_pulse-Unsettled :
      (r : ℕ) (w : Wait F) (x : Result (Unit {0}) × Desk F)
      → Unsettled r w
      → Unsettled r (after_pulse w x)
  unfolding stop_and_finish
  after_pulse-Unsettled r w (ok _, d) h = h
  after_pulse-Unsettled r w (err e, d) h = inr (e, refl)

  settled-absurd :
      (r t : ℕ) (w : Wait F)
      → 0 < r
      → w.phase ≡ selecting
      → w.quiet_at ≡ some t
      → t ≤ w.now
      → Unsettled r w
      → ⊥
  settled-absurd r t w p s q l (inl (_, h)) = let k = rw q at h in omega arith
  settled-absurd r t w p s q l (inr (e, s')) = cc

  Unsettled-AllSteps :
      (r : ℕ) (w : Wait F) → 0 < r → r ≤ quiet_time a → Unsettled r w → AllSteps a (Unsettled r) w
  unfolding stop_and_finish
  Unsettled-AllSteps r w p l h = record {
    none_taken = h;
    woken = λ e. elim h [ inl (s, _) ↦ cc | inr (_, s) ↦ cc ];
    first_sent = λ e. elim h [ inl (s, _) ↦ cc | inr (_, s) ↦ cc ];
    pulsed = λ e. after_pulse-Unsettled r w (wrap "go preset" (go_preset a.preset) w.desk) h;
    took = λ s q. inl (s, omega arith);
    settled = λ t s q k. absurd (settled-absurd r t w p s q k h);
    failed = λ e s. inr (e, refl);
  }

  Unsettled-elapse :
      (r n : ℕ) (w : Wait F)
      → n < r
      → Unsettled r w
      → Unsettled (r - n) (record w { now = w.now + n })
  Unsettled-elapse r n w l (inl (s, h)) = inl (s, ArmedFor-later r n w.now w.quiet_at l h)
  Unsettled-elapse r n w l (inr h) = inr h

  Unsettled-less : (r k : ℕ) (w : Wait F) → k ≤ r → Unsettled r w → Unsettled k w
  Unsettled-less r k w l (inl (s, h)) = inl (s, ArmedFor-less r k w.now w.quiet_at l h)
  Unsettled-less r k w l (inr h) = inr h

  step-Unsettled :
      (e : Event) (r : ℕ) (w : Wait F)
      → passing e < r
      → r ≤ quiet_time a
      → Unsettled r w
      → Unsettled (r - passing e) (take_step a e w)
  unfolding passing deliver
  step-Unsettled e r w l k h =
      take_step_cases a (Unsettled (r - passing e)) e w
        (λ n q.
          subst (λ x. Unsettled (r - passing x) (record w { now = w.now + n })) (sym q)
            (Unsettled-elapse r n w (subst (λ x. passing x < r) q l) h))
        (λ buf q. Unsettled-less r (r - passing e) w (omega arith) h)
        (Unsettled-AllSteps (r - passing e) w (omega arith) (omega arith)
          (Unsettled-less r (r - passing e) w (omega arith) h))

  -- With less time in the schedule than the timer has to go.
  run-not_ok :
      (es : List Event) (r : ℕ) (w : Wait F)
      → passed es < r
      → r ≤ quiet_time a
      → Unsettled r w
      → (run a es w).phase ≢ returned (ok tt)
  unfolding run passed
  run-not_ok [] r w l k h = Unsettled-not_ok r w h
  run-not_ok (e ∷ es) r w l k h =
      run-not_ok es (r - passing e) (take_step a e w) (omega arith) (omega arith)
        (step-Unsettled e r w (omega arith) k h)

  received-rearms :
      (w : Wait F) → w.phase ≡ selecting → 1 ≤ w.queued → take_step a received w ≡ rearmed a w
  unfolding take_step step select choose
  received-rearms w s q = rw (s, le→leb 1 w.queued q) refl

  -- When the loop of `WaitForPreset` takes a height from its channel, the call does not report
  -- success until the quiescence time has passed, whatever happens in the meantime.
  pub received-not_ok :
      (es : List Event) (w : Wait F)
      → w.phase ≡ selecting
      → 1 ≤ w.queued
      → passed es < quiet_time a
      → (run a (received ∷ es) w).phase ≢ returned (ok tt)
  unfolding run
  received-not_ok es w s q l =
      subst (λ v. (run a es v).phase ≢ returned (ok tt)) (sym (received-rearms w s q))
        (run-not_ok es (quiet_time a) (rearmed a w) l (omega arith) (inl (s, omega arith)))
