-- ===== src/WaitHeight/Arrival.antt =====
-- WaitForHeight of desk/monitor.go: when it reports arrival.
use yaasa_go.Prelude.{
  ℕ, true, List, [], ◌∷◌, ◌++◌, ◌≡◌, ◌⊎◌, inl, inr, arith, Bool-cases, Bytes, append-nil,
}
use yaasa_go.Prelude.Int.{ℤ}
use yaasa_go.Result.{Result, ok, err, wrap}
use yaasa_go.Float.{FloatOps}
use yaasa_go.Height.{near}
use yaasa_go.Desk.{Desk}
use yaasa_go.Packet.{decode_responses}
use yaasa_go.Desk.Notify.{heights_of}
use yaasa_go.Commands.{wake, move_to_height}
use yaasa_go.Schedule.{
  Event, elapse, notify, proceed, ctx_done, received, quiet, timed_out, tick, Phase, waking, moving,
  selecting, returned, Among, Among-append_left, Among-append_right, reported, own-reported,
}
use yaasa_go.WaitHeight.{
  Wait, Aim, or_same, after_wake, after_first, after_pulse, any_near, start, deliver, go_on, choose,
  step, take_step, run, finish, stop_and_finish, wait_for_height, select,
}

module _ {F : Type 0} ⦃o : FloatOps F⦄ (a : Aim F) where
  abbrev IsNear : F → Type 0
  IsNear h = near h a.target a.tolerance ≡ true

  any_near-Among : (hs : List F) → any_near a hs ≡ true → Among IsNear hs
  unfolding any_near
  any_near-Among [] h = cc
  any_near-Among (x ∷ hs) h = elim (Bool-cases (near x a.target a.tolerance)) [
    | inl e ↦ inl e
    | inr e ↦ inr (any_near-Among hs (ground (arith, e)))
  ]

  -- A state that has seen a near height, or has returned with success.
  abbrev Due : Wait F → Type 0
  Due w = (w.arrived ≡ true) ⊎ (w.phase ≡ returned (ok tt))

  after_wake-Due : (w : Wait F) (x : Result (Unit {0}) × Desk F) → Due (after_wake w x) → Due w
  unfolding finish
  after_wake-Due w (ok _, d) h = ground arith
  after_wake-Due w (err e, d) h = ground arith

  after_first-Due :
      (t : ℤ) (w : Wait F) (x : Result (Unit {0}) × Desk F) → Due (after_first t w x) → Due w
  unfolding finish
  after_first-Due t w (ok _, d) h = ground arith
  after_first-Due t w (err e, d) h = ground arith

  after_pulse-Due : (w : Wait F) (x : Result (Unit {0}) × Desk F) → Due (after_pulse w x) → Due w
  unfolding stop_and_finish
  after_pulse-Due w (ok _, d) h = h
  after_pulse-Due w (err e, d) h = ground arith

  go_on-Due : (p : Phase (Unit {0})) (w : Wait F) → Due (or_same w (go_on a p w)) → Due w
  unfolding go_on
  go_on-Due waking w h = after_wake-Due w (wrap "wake" wake w.desk) h
  go_on-Due moving w h =
      after_first-Due a.timeout w (wrap "move to height" (move_to_height a.target) w.desk) h
  go_on-Due selecting w h = h
  go_on-Due (returned r) w h = h

  choose-Due : (e : Event) (w : Wait F) → Due (or_same w (choose a e w)) → Due w
  unfolding choose stop_and_finish
  choose-Due tick w h = after_pulse-Due w (wrap "move to height" (move_to_height a.target) w.desk) h
  choose-Due _ w h = ground arith

  select-Due :
      (p : Phase (Unit {0})) (e : Event) (w : Wait F) → Due (or_same w (select a p e w)) → Due w
  unfolding select
  select-Due selecting e w h = choose-Due e w h
  select-Due _ e w h = h

  deliver-Due :
      (buf : Bytes) (w : Wait F)
      → Due (deliver a buf w)
      → Among IsNear (heights_of (decode_responses buf) ++ []) ⊎ Due w
  unfolding deliver
  deliver-Due buf w (inr e) = inr (inr e)
  deliver-Due buf w (inl e) = elim (Bool-cases w.arrived) [
    | inl before ↦ inr (inl before)
    | inr empty ↦ inl (
        Among-append_left IsNear _ []
          (own-reported IsNear w.me buf w.desk (any_near-Among _ (rw empty at e))))
  ]

  -- Only a notification makes a state due, and it holds a near height.
  take_step-Due :
      (e : Event) (w : Wait F) → Due (take_step a e w) → Among IsNear (reported (e ∷ [])) ⊎ Due w
  unfolding take_step step
  take_step-Due (notify buf) w h = deliver-Due buf w h
  take_step-Due (elapse n) w h = inr h
  take_step-Due proceed w h = inr (go_on-Due w.phase w h)
  take_step-Due ctx_done w h = inr (select-Due w.phase ctx_done w h)
  take_step-Due received w h = inr (select-Due w.phase received w h)
  take_step-Due quiet w h = inr (select-Due w.phase quiet w h)
  take_step-Due timed_out w h = inr (select-Due w.phase timed_out w h)
  take_step-Due tick w h = inr (select-Due w.phase tick w h)

  reported-cons :
      (e : Event) (es : List Event)
      → Among IsNear (reported (e ∷ []))
      → Among IsNear (reported (e ∷ es))
  reported-cons (notify buf) es h =
      Among-append_left IsNear (heights_of (decode_responses buf)) (reported es)
        (rw append-nil at h)
  reported-cons (elapse n) es h = elim h [ ]
  reported-cons _ es h = elim h [ ]

  reported-later :
      (e : Event) (es : List Event) → Among IsNear (reported es) → Among IsNear (reported (e ∷ es))
  reported-later (notify buf) es h =
      Among-append_right IsNear (heights_of (decode_responses buf)) (reported es) h
  reported-later (elapse n) es h = h
  reported-later _ es h = h

  run-Due : (es : List Event) (w : Wait F) → Due (run a es w) → Among IsNear (reported es) ⊎ Due w
  unfolding run
  run-Due [] w h = inr h
  run-Due (e ∷ es) w h = elim (run-Due es (take_step a e w) h) [
    | inl later ↦ inl (reported-later e es later)
    | inr due ↦ elim (take_step-Due e w due) [
      | inl here ↦ inl (reported-cons e es here)
      | inr before ↦ inr before
    ]
  ]

  -- Under every schedule, `WaitForHeight` reports success only if the desk reported a height within
  -- the tolerance of the target while it ran.
  pub wait_for_height-arrived :
      (me : ℕ) (es : List Event) (d : Desk F)
      → (wait_for_height a me es d).phase ≡ returned (ok tt)
      → Among (λ h. near h a.target a.tolerance ≡ true) (reported es)
  unfolding wait_for_height start
  wait_for_height-arrived me es d h = elim (run-Due es (start me d) (inr h)) [
    | inl found ↦ found
    | inr (inl e) ↦ cc
    | inr (inr e) ↦ cc
  ]
