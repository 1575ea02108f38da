-- ===== src/WaitPreset/Steps.antt =====
-- WaitForPreset of desk/monitor.go: the ways in which a step can change its state.
use yaasa_go.Prelude.{
  ℕ, ◌+◌, ◌≤◌, Bool, true, false, Option, none, some, ◌≡◌, refl, leb, leb→le, if◌then◌else◌, Bytes,
}
use yaasa_go.Result.{ok, err, wrap, message, Error}
use yaasa_go.Float.{FloatOps}
use yaasa_go.Commands.{wake, go_preset}
use yaasa_go.Schedule.{
  Event, elapse, notify, proceed, ctx_done, received, quiet, timed_out, tick, Phase, waking, moving,
  selecting, returned,
}
use yaasa_go.WaitPreset.{
  Wait, Aim, stop_and_finish, after_wake, after_first, after_pulse, or_same, deliver, go_on, choose,
  select, step, take_step, timeout_error, rearmed, fired,
}

module _ {F : Type 0} ⦃o : FloatOps F⦄ (a : Aim) where
  -- A property of the state that each kind of step from `w` establishes; the passing of time
  -- and the notifications are apart from these.
  pub record AllSteps {κ} (P : Wait F → Type κ) (w : Wait F) : Type κ where
    pub none_taken : P w
    pub woken : w.phase ≡ waking → P (after_wake w (wrap "wake" wake w.desk))
    pub first_sent :
        w.phase ≡ moving
        → P (after_first a.timeout w (wrap "go preset" (go_preset a.preset) w.desk))
    pub pulsed :
        w.phase ≡ selecting → P (after_pulse w (wrap "go preset" (go_preset a.preset) w.desk))
    pub took : w.phase ≡ selecting → 1 ≤ w.queued → P (rearmed a w)
    pub settled :
        (t : ℕ)
        → w.phase ≡ selecting
        → w.quiet_at ≡ some t
        → t ≤ w.now
        → P (stop_and_finish (ok tt) w)
    pub failed : (e : Error) → w.phase ≡ selecting → P (stop_and_finish (err e) w)

  module _ {κ} (P : Wait F → Type κ) where
    if_ready :
        (b : Bool) (w w' : Wait F)
        → P w
        → (b ≡ true → P w')
        → P (or_same w (if b then some w' else none))
    if_ready true w w' h h' = h' refl
    if_ready false w w' h h' = h

    fired_cases :
        (q : Option ℕ) (w : Wait F)
        → w.quiet_at ≡ q
        → w.phase ≡ selecting
        → AllSteps P w
        → P (or_same w (fired q w.now w))
    fired_cases none w e h s = s.none_taken
    fired_cases (some t) w e h s =
        if_ready (leb t w.now) w (stop_and_finish (ok tt) w) s.none_taken
          (λ l. s.settled t h e (leb→le t w.now l))

    choose_cases :
        (e : Event) (w : Wait F) → w.phase ≡ selecting → AllSteps P w → P (or_same w (choose a e w))
    unfolding choose
    choose_cases tick w h s = s.pulsed h
    choose_cases ctx_done w h s = s.failed (message "preset cancelled") h
    choose_cases received w h s =
        if_ready (leb 1 w.queued) w (rearmed a w) s.none_taken (λ l. s.took h (leb→le 1 w.queued l))
    choose_cases quiet w h s = fired_cases w.quiet_at w refl h s
    choose_cases timed_out w h s =
        if_ready (leb w.deadline w.now) w (stop_and_finish (err (timeout_error a w)) w) s.none_taken
          (λ l. s.failed (timeout_error a w) h)
    choose_cases _ w h s = s.none_taken

    select_cases :
        (p : Phase (Unit {0})) (e : Event) (w : Wait F)
        → w.phase ≡ p
        → AllSteps P w
        → P (or_same w (select a p e w))
    unfolding select
    select_cases selecting e w h s = choose_cases e w h s
    select_cases _ e w h s = s.none_taken

    go_on_cases :
        (p : Phase (Unit {0})) (w : Wait F)
        → w.phase ≡ p
        → AllSteps P w
        → P (or_same w (go_on a p w))
    unfolding go_on
    go_on_cases waking w h s = s.woken h
    go_on_cases moving w h s = s.first_sent h
    go_on_cases selecting w h s = s.none_taken
    go_on_cases (returned r) w h s = s.none_taken

    pub take_step_cases :
        (e : Event) (w : Wait F)
        → ((n : ℕ) → e ≡ elapse n → P (record w { now = w.now + n }))
        → ((buf : Bytes) → e ≡ notify buf → P (deliver buf w))
        → AllSteps P w
        → P (take_step a e w)
    unfolding take_step step
    take_step_cases (notify buf) w t d s = d buf refl
    take_step_cases (elapse n) w t d s = t n refl
    take_step_cases proceed w t d s = go_on_cases w.phase w refl s
    take_step_cases ctx_done w t d s = select_cases w.phase ctx_done w refl s
    take_step_cases received w t d s = select_cases w.phase received w refl s
    take_step_cases quiet w t d s = select_cases w.phase quiet w refl s
    take_step_cases timed_out w t d s = select_cases w.phase timed_out w refl s
    take_step_cases tick w t d s = select_cases w.phase tick w refl s
