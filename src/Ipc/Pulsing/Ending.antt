-- ===== src/Ipc/Pulsing/Ending.antt =====
-- internal/ipc/server.go: the end of the loop of "up" and "down".
use yaasa_go.Prelude.{
  ℕ, ◌+◌, ◌-◌, ◌≤◌, List, [], ◌∷◌, ◌++◌, some, ◌≡◌, refl, sym, subst, ◌⊎◌, inl, inr, arith, leb,
  le→leb, Bool-cases,
}
use yaasa_go.Result.{Result, ok, err, M}
use yaasa_go.Schedule.{
  Event, elapse, notify, ctx_done, timed_out, tick, Phase, waking, moving, selecting, returned,
  IsReturned, spent, time_of,
}
use yaasa_go.Ipc.Controller.{Controller}
use yaasa_go.Ipc.Server.{
  Loop, after_pulse, turn, turns, after_loop, loop_from, first_pulse, woken, pulsing,
}

module _ {F S : Type 0} (c : Controller F S) (pulse : M S (Unit {0})) where
  -- In the loop with at most `n` nanoseconds to its deadline, or left.
  abbrev Ending : ℕ → Loop S → Type 0
  Ending n l = ((l.phase ≡ selecting) × (l.deadline ≤ l.now + n)) ⊎ IsReturned l.phase

  turn-IsReturned :
      (p : Phase (Unit {0})) (e : Event) (l : Loop S)
      → l.phase ≡ p
      → IsReturned p
      → IsReturned (turn c pulse p e l).phase
  unfolding turn
  turn-IsReturned (returned r) e l h k = (r, h)
  turn-IsReturned waking e l h (r, k) = cc
  turn-IsReturned moving e l h (r, k) = cc
  turn-IsReturned selecting e l h (r, k) = cc

  turns-IsReturned :
      (es : List Event) (l : Loop S) → IsReturned l.phase → IsReturned (turns c pulse es l).phase
  unfolding turns
  turns-IsReturned [] l h = h
  turns-IsReturned (e ∷ es) l h =
      turns-IsReturned es (turn c pulse l.phase e l) (turn-IsReturned l.phase e l refl h)

  after_pulse-Ending :
      (n : ℕ) (l : Loop S) (x : Result (Unit {0}) × S)
      → Ending n l
      → Ending n (after_pulse c pulse l x)
  after_pulse-Ending n l (ok _, s) h = h
  after_pulse-Ending n l (err e, s) h = inr (err e, refl)

  turn-Ending :
      (n : ℕ) (p : Phase (Unit {0})) (e : Event) (l : Loop S)
      → l.phase ≡ p
      → Ending n l
      → Ending n (turn c pulse p e l)
  unfolding turn
  turn-Ending n selecting tick l h v = after_pulse-Ending n l (pulse l.state) v
  turn-Ending n selecting ctx_done l h v = inr (ok tt, refl)
  turn-Ending n selecting timed_out l h v = elim (Bool-cases (leb l.deadline l.now)) [
    | inl b ↦ rw b (inr (ok tt, refl))
    | inr b ↦ rw b v
  ]
  turn-Ending n selecting (elapse k) l h (inl (s, d)) = inl (s, omega arith)
  turn-Ending n selecting (elapse k) l h (inr (r, q)) = cc
  turn-Ending n selecting (notify buf) l h v = v
  turn-Ending n _ e l h v = v

  weaken : (n m : ℕ) (l : Loop S) → n ≤ m → Ending n l → Ending m l
  weaken n m l k (inl (s, h)) = inl (s, omega arith)
  weaken n m l k (inr h) = inr h

  -- The time that passes in a turn counts towards the deadline.
  turn-Ending_elapse :
      (n m k : ℕ) (p : Phase (Unit {0})) (l : Loop S)
      → l.phase ≡ p
      → n ≤ m + k
      → Ending n l
      → Ending m (turn c pulse p (elapse k) l)
  unfolding turn
  turn-Ending_elapse n m k selecting l h j (inl (s, d)) = inl (s, omega arith)
  turn-Ending_elapse n m k selecting l h j (inr (r, q)) = cc
  turn-Ending_elapse n m k (returned r) l h j v = inr (r, h)
  turn-Ending_elapse n m k waking l h j (inl (s, d)) = cc
  turn-Ending_elapse n m k waking l h j (inr (r, q)) = cc
  turn-Ending_elapse n m k moving l h j (inl (s, d)) = cc
  turn-Ending_elapse n m k moving l h j (inr (r, q)) = cc

  turn-Ending_spent :
      (n m : ℕ) (e : Event) (l : Loop S)
      → n ≤ m + spent e
      → Ending n l
      → Ending m (turn c pulse l.phase e l)
  turn-Ending_spent n m (elapse k) l j v = turn-Ending_elapse n m k l.phase l refl j v
  turn-Ending_spent n m e l j v = turn-Ending m l.phase e l refl (weaken n m l (omega arith) v)

  turns-Ending :
      (n m : ℕ) (es : List Event) (l : Loop S)
      → n ≤ m + time_of es
      → Ending n l
      → Ending m (turns c pulse es l)
  unfolding turns
  turns-Ending n m [] l j h = weaken n m l (omega arith) h
  turns-Ending n m (e ∷ es) l j h =
      turns-Ending (n - spent e) m es (turn c pulse l.phase e l) (omega arith)
        (turn-Ending_spent n (n - spent e) e l (omega arith) h)

  turns-append :
      (xs ys : List Event) (l : Loop S)
      → turns c pulse (xs ++ ys) l ≡ turns c pulse ys (turns c pulse xs l)
  unfolding turns
  turns-append [] ys l = refl
  turns-append (x ∷ xs) ys l = turns-append xs ys (turn c pulse l.phase x l)

  late-IsReturned :
      (later : List Event) (l : Loop S)
      → Ending 0 l
      → IsReturned (turns c pulse (timed_out ∷ later) l).phase
  unfolding turns turn
  late-IsReturned later l (inl (s, h)) =
      turns-IsReturned later (turn c pulse l.phase timed_out l)
        (rw (s, le→leb l.deadline l.now (omega arith)) (ok tt, refl))
  late-IsReturned later l (inr h) = turns-IsReturned (timed_out ∷ later) l h

  after_loop-answers :
      (p : Phase (Unit {0})) (s : S)
      → IsReturned p
      → (r : Result (Unit {0})) × ((after_loop c pulse p s).0 ≡ some r)
  after_loop-answers (returned (ok _)) s h = (ok tt, refl)
  after_loop-answers (returned (err e)) s h = (err e, refl)
  after_loop-answers waking s (r, h) = cc
  after_loop-answers moving s (r, h) = cc
  after_loop-answers selecting s (r, h) = cc

  loop-answers :
      (dur : ℕ) (inside later : List Event) (l : Loop S)
      → dur ≤ time_of inside
      → Ending dur l
      → (r : Result (Unit {0})) × ((loop_from c pulse l (inside ++ (timed_out ∷ later))).0 ≡ some r)
  loop-answers dur inside later l k h =
      after_loop-answers (turns c pulse (inside ++ (timed_out ∷ later)) l).phase
        (turns c pulse (inside ++ (timed_out ∷ later)) l).state
        (subst (λ v. IsReturned v.phase) (sym (turns-append inside (timed_out ∷ later) l))
          (late-IsReturned later (turns c pulse inside l)
            (turns-Ending dur 0 inside l (omega arith) h)))

  first_pulse-answers :
      (dur : ℕ) (inside later : List Event) (x : Result (Unit {0}) × S)
      → dur ≤ time_of inside
      → (r : Result (Unit {0})) × ((first_pulse c pulse dur (inside ++ (timed_out ∷ later)) x).0
          ≡ some r)
  first_pulse-answers dur inside later (err e, s) h = (err e, refl)
  first_pulse-answers dur inside later (ok _, s) h =
      loop-answers dur inside later
        (record { state = s; now = 0; deadline = dur; phase = selecting }) h
        (inl (refl, omega arith))

  woken-answers :
      (dur : ℕ) (inside later : List Event) (x : Result (Unit {0}) × S)
      → dur ≤ time_of inside
      → (r : Result (Unit {0})) × ((woken c pulse dur (inside ++ (timed_out ∷ later)) x).0 ≡ some r)
  woken-answers dur inside later (err e, s) h = (err e, refl)
  woken-answers dur inside later (ok _, s) h = first_pulse-answers dur inside later (pulse s) h

  -- "up" and "down" answer under every schedule in which their time passes, in any number of pieces
  -- and whatever else happens between them, and the deadline is then taken.
  pub pulsing-answers :
      (dur : ℕ) (inside later : List Event) (s : S)
      → dur ≤ time_of inside
      → (r : Result (Unit {0})) × ((pulsing c pulse dur (inside ++ (timed_out ∷ later)) s).0
          ≡ some r)
  unfolding pulsing
  pulsing-answers dur inside later s h = woken-answers dur inside later (c.wake s) h
