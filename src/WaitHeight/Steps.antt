-- ===== src/WaitHeight/Steps.antt =====
-- WaitForHeight of desk/monitor.go: the ways in which a step can change its state.
use yaasa_go.Prelude.{
  ℕ, ◌+◌, Bool, true, false, List, [], ◌∷◌, none, some, ◌≡◌, refl, leb, if◌then◌else◌, Bytes,
}
use yaasa_go.Result.{Result, ok, err, wrap, message}
use yaasa_go.Float.{FloatOps}
use yaasa_go.Commands.{wake, move_to_height}
use yaasa_go.Schedule.{
  Event, elapse, notify, proceed, ctx_done, received, quiet, timed_out, tick, Phase, waking, moving,
  selecting, returned,
}
use yaasa_go.WaitHeight.{
  Wait, Aim, stop_and_finish, after_wake, after_first, after_pulse, or_same, deliver, go_on, choose,
  select, step, take_step, run, timeout_error,
}

module _ {F : Type 0} ⦃o : FloatOps F⦄ (a : Aim F) where
  -- A property of the state that each kind of step from `w` establishes.
  pub record AllSteps {κ} (P : Wait F → Type κ) (w : Wait F) : Type κ where
    pub none_taken : P w
    pub elapsed : (n : ℕ) → P (record w { now = w.now + n })
    pub delivered : (buf : Bytes) → P (deliver a buf w)
    pub woken : w.phase ≡ waking → P (after_wake w (wrap "wake" wake w.desk))
    pub first_sent :
        w.phase ≡ moving
        → P (after_first a.timeout w (wrap "move to height" (move_to_height a.target) w.desk))
    pub pulsed :
        w.phase ≡ selecting
        → P (after_pulse w (wrap "move to height" (move_to_height a.target) w.desk))
    pub left :
        (r : Result (Unit {0})) (b : Bool)
        → w.phase ≡ selecting
        → P (stop_and_finish r (record w { arrived = b }))

  module _ {κ} (P : Wait F → Type κ) where
    if_ready : (b : Bool) (w w' : Wait F) → P w → P w' → P (or_same w (if b then some w' else none))
    if_ready true w w' h h' = h'
    if_ready false w w' h h' = h

    choose_cases :
        (e : Event) (w : Wait F) → w.phase ≡ selecting → AllSteps P w → P (or_same w (choose a e w))
    unfolding choose
    choose_cases tick w h s = s.pulsed h
    choose_cases ctx_done w h s = s.left (err (message "move cancelled")) w.arrived h
    choose_cases received w h s =
        if_ready w.arrived w (stop_and_finish (ok tt) (record w { arrived = false })) s.none_taken
          (s.left (ok tt) false h)
    choose_cases timed_out w h s =
        if_ready (leb w.deadline w.now) w (stop_and_finish (err (timeout_error a w)) w) s.none_taken
          (s.left (err (timeout_error a w)) w.arrived h)
    choose_cases _ w h s = s.none_taken

    select_cases :
        (p : Phase (Unit {0})) (e : Event) (w : Wait F)
        → w.phase ≡ p
        → AllSteps P w
        → P (or_same w (select a p e w))
    unfolding select
    select_cases selecting e w h s = choose_cases e w h s
    select_cases _ e w h s = s.none_taken

    go_on_cases :
        (p : Phase (Unit {0})) (w : Wait F)
        → w.phase ≡ p
        → AllSteps P w
        → P (or_same w (go_on a p w))
    unfolding go_on
    go_on_cases waking w h s = s.woken h
    go_on_cases moving w h s = s.first_sent h
    go_on_cases selecting w h s = s.none_taken
    go_on_cases (returned r) w h s = s.none_taken

    pub take_step_cases : (e : Event) (w : Wait F) → AllSteps P w → P (take_step a e w)
    unfolding take_step step
    take_step_cases (notify buf) w s = s.delivered buf
    take_step_cases (elapse n) w s = s.elapsed n
    take_step_cases proceed w s = go_on_cases w.phase w refl s
    take_step_cases ctx_done w s = select_cases w.phase ctx_done w refl s
    take_step_cases received w s = select_cases w.phase received w refl s
    take_step_cases quiet w s = select_cases w.phase quiet w refl s
    take_step_cases timed_out w s = select_cases w.phase timed_out w refl s
    take_step_cases tick w s = select_cases w.phase tick w refl s

    -- An invariant of every schedule.
    pub run_inv :
        ((w : Wait F) → P w → AllSteps P w) → (es : List Event) (w : Wait F) → P w → P (run a es w)
    unfolding run
    run_inv keep [] w h = h
    run_inv keep (e ∷ es) w h = run_inv keep es (take_step a e w) (take_step_cases e w (keep w h))
