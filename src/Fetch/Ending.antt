-- ===== src/Fetch/Ending.antt =====
-- CurrentHeight of desk/monitor.go and FetchSitStandTime of desk/stats.go: their deadline.
use yaasa_go.Prelude.{
  ℕ, ◌+◌, ◌-◌, ◌∙◌, ◌≤◌, Bool, true, false, Option, some, none, List, [], ◌∷◌, ◌++◌, ◌≡◌, refl,
  subst, ◌⊎◌, inl, inr, arith, le→leb, leb, Bool-cases,
}
use yaasa_go.Prelude.Int.{ℤ, pos_part}
use yaasa_go.Result.{Result, ok, err}
use yaasa_go.Float.{FloatOps}
use yaasa_go.Stats.{SitStandTime}
use yaasa_go.Desk.{Desk, last_known_height}
use yaasa_go.Schedule.{
  Event, elapse, notify, proceed, received, timed_out, Phase, waking, moving, selecting, returned,
  IsReturned, spent, time_of,
}
use yaasa_go.Fetch.{
  Wait, Query, start, after_request, ask, taken, take, expire, deliver, step, run, effective_wait,
  returned_of, height_query, stats_query, cached, current_height, fetch_sit_stand_time,
}

module _ {F A : Type 0} ⦃o : FloatOps F⦄ (q : Query F A) (timeout : ℤ) where
  -- Waiting with at most `n` nanoseconds to the deadline, or returned.
  abbrev Ending : ℕ → Wait F A → Type 0
  Ending n w = ((w.phase ≡ selecting) × (w.deadline ≤ w.now + n)) ⊎ IsReturned w.phase

  taken-Ending : (n : ℕ) (x : Option A) (w : Wait F A) → Ending n w → Ending n (taken q x w)
  taken-Ending n none w h = h
  taken-Ending n (some x) w h = inr (ok x, refl)

  take-Ending :
      (n : ℕ) (p : Phase A) (w : Wait F A) → w.phase ≡ p → Ending n w → Ending n (take q p w)
  unfolding take
  take-Ending n selecting w e h = taken-Ending n w.got w h
  take-Ending n _ w e h = h

  expire-Ending :
      (n : ℕ) (p : Phase A) (w : Wait F A)
      → w.phase ≡ p
      → Ending n w
      → Ending n (expire q timeout p w)
  unfolding expire
  expire-Ending n selecting w e h = elim (Bool-cases (leb w.deadline w.now)) [
    | inl b ↦ rw b (inr (_, refl))
    | inr b ↦ rw b h
  ]
  expire-Ending n _ w e h = h

  ask-Ending :
      (n : ℕ) (p : Phase A) (w : Wait F A) → w.phase ≡ p → Ending n w → Ending n (ask q timeout p w)
  unfolding ask
  ask-Ending n waking w e (inl (s, h)) = cc
  ask-Ending n waking w e (inr (r, s)) = cc
  ask-Ending n _ w e h = h

  step-Ending : (n : ℕ) (e : Event) (w : Wait F A) → Ending n w → Ending n (step q timeout e w)
  unfolding step deliver
  step-Ending n (elapse k) w (inl (s, h)) = inl (s, omega arith)
  step-Ending n (elapse k) w (inr h) = inr h
  step-Ending n (notify buf) w h = h
  step-Ending n proceed w h = ask-Ending n w.phase w refl h
  step-Ending n received w h = take-Ending n w.phase w refl h
  step-Ending n timed_out w h = expire-Ending n w.phase w refl h
  step-Ending n _ w h = h

  abbrev limit : ℕ
  limit = pos_part (effective_wait timeout)

  -- Before the request, or behind it.
  abbrev Begun : Wait F A → Type 0
  Begun w = (w.phase ≡ waking) ⊎ Ending limit w

  asked-Ending :
      (w : Wait F A) (x : Result (Unit {0}) × Desk F) → Ending limit (after_request q timeout w x)
  asked-Ending w (ok _, d) = inl (refl, omega arith)
  asked-Ending w (err e, d) = inr (err e, refl)

  proceed-Ending : (w : Wait F A) → Begun w → Ending limit (step q timeout proceed w)
  unfolding step ask
  proceed-Ending w (inl h) = rw h (asked-Ending w (q.request w.desk))
  proceed-Ending w (inr h) = ask-Ending limit w.phase w refl h

  take-Begun : (p : Phase A) (w : Wait F A) → w.phase ≡ p → Begun w → Begun (take q p w)
  unfolding take
  take-Begun selecting w e (inl h) = cc
  take-Begun selecting w e (inr h) = inr (taken-Ending limit w.got w h)
  take-Begun _ w e h = h

  expire-Begun : (p : Phase A) (w : Wait F A) → w.phase ≡ p → Begun w → Begun (expire q timeout p w)
  unfolding expire
  expire-Begun selecting w e (inl h) = cc
  expire-Begun selecting w e (inr h) =
      inr
        (subst (λ p. Ending limit (expire q timeout p w)) e (expire-Ending limit w.phase w refl h))
  expire-Begun _ w e h = h

  step-Begun : (e : Event) (w : Wait F A) → Begun w → Begun (step q timeout e w)
  unfolding step deliver
  step-Begun (elapse k) w (inl h) = inl h
  step-Begun (elapse k) w (inr h) = inr (step-Ending limit (elapse k) w h)
  step-Begun (notify buf) w h = h
  step-Begun proceed w h = inr (proceed-Ending w h)
  step-Begun received w h = take-Begun w.phase w refl h
  step-Begun timed_out w h = expire-Begun w.phase w refl h
  step-Begun _ w h = h

  run-Begun : (es : List Event) (w : Wait F A) → Begun w → Begun (run q timeout es w)
  unfolding run
  run-Begun [] w h = h
  run-Begun (e ∷ es) w h = run-Begun es (step q timeout e w) (step-Begun e w h)

  weaken : (n m : ℕ) (w : Wait F A) → n ≤ m → Ending n w → Ending m w
  weaken n m w l (inl (s, h)) = inl (s, omega arith)
  weaken n m w l (inr h) = inr h

  elapse-Ending :
      (n m k : ℕ) (w : Wait F A) → n ≤ m + k → Ending n w → Ending m (record w { now = w.now + k })
  elapse-Ending n m k w l (inl (s, h)) = inl (s, omega arith)
  elapse-Ending n m k w l (inr h) = inr h

  -- The time that passes in a step counts towards the deadline.
  step-Ending_spent :
      (n m : ℕ) (e : Event) (w : Wait F A)
      → n ≤ m + spent e
      → Ending n w
      → Ending m (step q timeout e w)
  step-Ending_spent n m (elapse k) w l h = unfold step in elapse-Ending n m k w l h
  step-Ending_spent n m e w l h = step-Ending m e w (weaken n m w (omega arith) h)

  run-Ending :
      (n m : ℕ) (es : List Event) (w : Wait F A)
      → n ≤ m + time_of es
      → Ending n w
      → Ending m (run q timeout es w)
  unfolding run
  run-Ending n m [] w l h = weaken n m w (omega arith) h
  run-Ending n m (e ∷ es) w l h =
      run-Ending (n - spent e) m es (step q timeout e w) (omega arith)
        (step-Ending_spent n (n - spent e) e w (omega arith) h)

  step-IsReturned :
      (e : Event) (w : Wait F A) → IsReturned w.phase → IsReturned (step q timeout e w).phase
  unfolding step deliver ask take expire
  step-IsReturned (elapse k) w h = h
  step-IsReturned (notify buf) w h = h
  step-IsReturned proceed w (r, h) = rw h (r, refl)
  step-IsReturned received w (r, h) = rw h (r, refl)
  step-IsReturned timed_out w (r, h) = rw h (r, refl)
  step-IsReturned _ w h = h

  run-IsReturned :
      (es : List Event) (w : Wait F A) → IsReturned w.phase → IsReturned (run q timeout es w).phase
  unfolding run
  run-IsReturned [] w h = h
  run-IsReturned (e ∷ es) w h = run-IsReturned es (step q timeout e w) (step-IsReturned e w h)

  run-append :
      (xs ys : List Event) (w : Wait F A)
      → run q timeout (xs ++ ys) w ≡ run q timeout ys (run q timeout xs w)
  unfolding run
  run-append [] ys w = refl
  run-append (x ∷ xs) ys w = run-append xs ys (step q timeout x w)

  timed_out-returns : (w : Wait F A) → Ending 0 w → IsReturned (step q timeout timed_out w).phase
  unfolding step expire
  timed_out-returns w (inl (s, h)) = rw (s, le→leb w.deadline w.now (omega arith)) (_, refl)
  timed_out-returns w (inr (r, h)) = rw h (r, refl)

  run-split :
      (before inside later : List Event) (w : Wait F A)
      → run q timeout (before ++ (proceed ∷ (inside ++ (timed_out ∷ later)))) w
        ≡ run q timeout later (
            step q timeout timed_out
              (run q timeout inside (step q timeout proceed (run q timeout before w))))
  unfolding run
  run-split before inside later w =
      run-append before (proceed ∷ (inside ++ (timed_out ∷ later))) w
      ∙ run-append inside (timed_out ∷ later) (step q timeout proceed (run q timeout before w))

  run-returns :
      (before inside later : List Event) (w : Wait F A)
      → w.phase ≡ waking
      → limit ≤ time_of inside
      → IsReturned (run q timeout (before ++ (proceed ∷ (inside ++ (timed_out ∷ later)))) w).phase
  run-returns before inside later w s k = rw (run-split before inside later w) (
      run-IsReturned later _ (
        timed_out-returns _ (
          run-Ending limit 0 inside _ (omega arith)
            (proceed-Ending _ (run-Begun before w (inl s))))))

returned_of-answers :
    {A : Type 0} (p : Phase A) → IsReturned p → (r : Result A) × (returned_of p ≡ some r)
returned_of-answers (returned r) h = (r, refl)
returned_of-answers waking (r, h) = cc
returned_of-answers moving (r, h) = cc
returned_of-answers selecting (r, h) = cc

module _ {F : Type 0} ⦃o : FloatOps F⦄ where
  cached-returns :
      (h : F × Bool) (timeout : ℤ) (me : ℕ) (before inside later : List Event) (d : Desk F)
      → pos_part (effective_wait timeout) ≤ time_of inside
      → (r : Result F) × ((cached h timeout me
            (before ++ (proceed ∷ (inside ++ (timed_out ∷ later))))
            d).0
          ≡ some r)
  cached-returns (h, true) timeout me before inside later d k = (ok h, refl)
  cached-returns (h, false) timeout me before inside later d k =
      returned_of-answers _
        (run-returns height_query timeout before inside later (start height_query me d) refl k)

  -- `CurrentHeight` and `FetchSitStandTime` return under every schedule in which the request is made,
  -- then their effective timeout passes, in any number of pieces and whatever else happens between
  -- them, and the timeout is chosen.
  pub fetches-return :
      (timeout : ℤ) (me : ℕ) (before inside later : List Event) (d : Desk F)
      → pos_part (effective_wait timeout) ≤ time_of inside
      → ((r : Result F) × ((current_height timeout me
              (before ++ (proceed ∷ (inside ++ (timed_out ∷ later))))
              d).0
            ≡ some r))
        × ((r : Result SitStandTime) × ((fetch_sit_stand_time timeout me
                (before ++ (proceed ∷ (inside ++ (timed_out ∷ later))))
                d).0
              ≡ some r))
  unfolding current_height fetch_sit_stand_time
  fetches-return timeout me before inside later d k = (
    cached-returns (last_known_height d) timeout me before inside later d k,
    returned_of-answers _
        (run-returns stats_query timeout before inside later (start stats_query me d) refl k),
  )
