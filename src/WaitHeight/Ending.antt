-- ===== src/WaitHeight/Ending.antt =====
-- WaitForHeight of desk/monitor.go: how far each step is from the deadline.
use yaasa_go.Prelude.{
  ℕ, ◌≤◌, List, [], ◌∷◌, ◌++◌, ◌≡◌, refl, ap, subst, sym, ◌∙◌, inl, inr, arith, le→leb,
}
use yaasa_go.Prelude.Int.{pos_part}
use yaasa_go.Result.{wrap}
use yaasa_go.Float.{FloatOps}
use yaasa_go.Desk.{Desk}
use yaasa_go.Commands.{wake, move_to_height}
use yaasa_go.Schedule.{Event, proceed, ctx_done, timed_out, waking, moving, IsReturned, time_of}
use yaasa_go.WaitHeight.Steps.{run_inv, take_step_cases}
use yaasa_go.WaitHeight.Deadline.{
  Ending, Awake, Begun, after_wake-Awake, after_first-Ending, Ending-AllSteps, Awake-AllSteps,
  Begun-AllSteps, IsReturned-AllSteps, run-IsReturned, run-Ending,
}
use yaasa_go.WaitHeight.{
  Wait, Aim, start, stop_and_finish, after_wake, after_first, go_on, or_same, step, take_step, run,
  wait_for_height,
}

module _ {F : Type 0} ⦃o : FloatOps F⦄ (a : Aim F) where
  run-append : (xs ys : List Event) (w : Wait F) → run a (xs ++ ys) w ≡ run a ys (run a xs w)
  unfolding run
  run-append [] ys w = refl
  run-append (x ∷ xs) ys w = run-append xs ys (take_step a x w)

  -- The two calls in front of the loop.
  proceed-Awake :
      (w : Wait F)
      → Begun (pos_part a.timeout) w
      → Awake (pos_part a.timeout) (take_step a proceed w)
  proceed-Awake w (inl h) =
      subst (Awake (pos_part a.timeout)) (sym (woken h))
        (after_wake-Awake a (pos_part a.timeout) w (wrap "wake" wake w.desk))
    where
      woken : w.phase ≡ waking → take_step a proceed w ≡ after_wake w (wrap "wake" wake w.desk)
      woken h = unfold take_step in ap (λ p. or_same w (go_on a p w)) h
  proceed-Awake w (inr h) =
      take_step_cases a (Awake (pos_part a.timeout)) proceed w (Awake-AllSteps a w h)

  proceed-Ending :
      (w : Wait F)
      → Awake (pos_part a.timeout) w
      → Ending (pos_part a.timeout) (take_step a proceed w)
  proceed-Ending w (inl h) =
      subst (Ending (pos_part a.timeout)) (sym (sent h))
        (after_first-Ending a w (wrap "move to height" (move_to_height a.target) w.desk))
    where
      sent :
          w.phase ≡ moving
          → take_step a proceed w
            ≡ after_first a.timeout w (wrap "move to height" (move_to_height a.target) w.desk)
      sent h = unfold take_step in ap (λ p. or_same w (go_on a p w)) h
  proceed-Ending w (inr h) =
      take_step_cases a (Ending (pos_part a.timeout)) proceed w
        (Ending-AllSteps a (pos_part a.timeout) w h)

  -- The state in which the second of the two calls has been made.
  abbrev entered : List Event → List Event → Wait F → Wait F
  entered before between w =
      take_step a proceed (run a between (take_step a proceed (run a before w)))

  entered-Ending :
      (before between : List Event) (w : Wait F)
      → Begun (pos_part a.timeout) w
      → Ending (pos_part a.timeout) (entered before between w)
  entered-Ending before between w h = proceed-Ending _ (
      run_inv a (Awake (pos_part a.timeout)) (Awake-AllSteps a) between _
        (proceed-Awake _ (run_inv a (Begun (pos_part a.timeout)) (Begun-AllSteps a) before w h)))

  run-entered :
      (before between es : List Event) (w : Wait F)
      → run a (before ++ (proceed ∷ (between ++ (proceed ∷ es)))) w
        ≡ run a es (entered before between w)
  unfolding run
  run-entered before between es w =
      run-append before (proceed ∷ (between ++ (proceed ∷ es))) w
      ∙ run-append between (proceed ∷ es) (take_step a proceed (run a before w))

  -- The step that leaves the loop, and what comes behind it.
  timed_out-returns :
      (later : List Event) (w : Wait F)
      → Ending 0 w
      → IsReturned (run a (timed_out ∷ later) w).phase
  unfolding run
  timed_out-returns later w h = run-IsReturned a later (take_step a timed_out w) (left h)
    where
      left : Ending 0 w → IsReturned (take_step a timed_out w).phase
      left (inl (s, h)) =
          unfold take_step step stop_and_finish in
          rw (s, le→leb w.deadline w.now (omega arith)) (_, refl)
      left (inr h) =
          take_step_cases a (λ v. IsReturned v.phase) timed_out w (IsReturned-AllSteps a w h)

  ctx_done-returns :
      (n : ℕ) (later : List Event) (w : Wait F)
      → Ending n w
      → IsReturned (run a (ctx_done ∷ later) w).phase
  unfolding run
  ctx_done-returns n later w h = run-IsReturned a later (take_step a ctx_done w) (left h)
    where
      left : Ending n w → IsReturned (take_step a ctx_done w).phase
      left (inl (s, h)) = unfold take_step step stop_and_finish in rw s (_, refl)
      left (inr h) =
          take_step_cases a (λ v. IsReturned v.phase) ctx_done w (IsReturned-AllSteps a w h)

  -- `WaitForHeight` returns under every schedule in which its two calls in front of the loop are made,
  -- then its timeout passes, in any number of pieces and whatever else happens between them, and the
  -- timeout is chosen; and under every schedule in which it is cancelled behind the two calls.
  pub wait_for_height-returns :
      (me : ℕ) (before between inside until later : List Event) (d : Desk F)
      → pos_part a.timeout ≤ time_of inside
      → IsReturned
          (wait_for_height a me
            (before ++ (proceed ∷ (between ++ (proceed ∷ (inside ++ (timed_out ∷ later))))))
            d).phase
        × IsReturned
            (wait_for_height a me
              (before ++ (proceed ∷ (between ++ (proceed ∷ (until ++ (ctx_done ∷ later))))))
              d).phase
  unfolding wait_for_height start
  wait_for_height-returns me before between inside until later d l =
      let w = start me d in
      let v = entered before between w in
      let h : Ending (pos_part a.timeout) v = entered-Ending before between w (inl refl) in
      (
        rw
            (
              run-entered before between (inside ++ (timed_out ∷ later)) w,
              run-append inside (timed_out ∷ later) v,
            )
            (timed_out-returns later _
              (run-Ending a (pos_part a.timeout) 0 inside v (omega arith) h)),
        rw
            (
              run-entered before between (until ++ (ctx_done ∷ later)) w,
              run-append until (ctx_done ∷ later) v,
            )
            (ctx_done-returns (pos_part a.timeout) later _
              (run-Ending a (pos_part a.timeout) (pos_part a.timeout) until v (omega arith) h)),
      )
