-- ===== src/Darwin/Connecting/Ending.antt =====
-- desk/adapter_darwin.go: the two deadlines of the wait of `Connect`.
use yaasa_go.Prelude.{
  ℕ, ◌+◌, ◌≤◌, List, [], ◌∷◌, ◌++◌, Option, none, some, Bool, true, false, ◌≡◌, refl, sym, subst,
  ◌∙◌, ◌⊎◌, inl, inr, arith, ◌==◌, leb, le→leb, Bool-cases,
}
use yaasa_go.Prelude.Int.{pos_part}
use yaasa_go.Result.{Error}
use yaasa_go.Schedule.{Phase, selecting, IsReturned}
use yaasa_go.Darwin.Connecting.{
  Event, elapse, reports, registers, received, deadline, Attempt, Target, five_seconds, start,
  complete_pending, received_from, expired, registered, turn, run, await_peripheral,
}

module _ (t : Target) (n : ℕ) where
  -- Waiting with at most `n` nanoseconds to the next deadline, or returned.
  abbrev Timely : Attempt → Type 0
  Timely a = ((a.phase ≡ selecting) × (a.due ≤ a.now + n)) ⊎ IsReturned a.phase

  registered-Timely : (id ch : ℕ) (a : Attempt) → Timely a → Timely (registered t id ch a)
  registered-Timely id ch a v = elim (Bool-cases (ch == t.channel)) [
    | inl q ↦ rw q v
    | inr q ↦ rw q v
  ]

  received_from-Timely :
      (connected : Bool) (o : Option (Option Error)) (a : Attempt)
      → Timely a
      → Timely (received_from t connected o a)
  received_from-Timely connected none a v = v
  received_from-Timely connected (some r) a v = inr (_, refl)

  expired-Timely :
      (b : Bool) (a : Attempt) → five_seconds ≤ n → a.phase ≡ selecting → Timely (expired t b a)
  expired-Timely true a l h = inr (_, refl)
  expired-Timely false a l h = inl (h, omega arith)

  turn-Timely :
      (p : Phase (Unit {0})) (e : Event) (a : Attempt)
      → five_seconds ≤ n
      → a.phase ≡ p
      → Timely a
      → Timely (turn t p e a)
  unfolding turn complete_pending
  turn-Timely p (elapse k) a l h (inl (s, d)) = inl (s, omega arith)
  turn-Timely p (elapse k) a l h (inr r) = inr r
  turn-Timely p (reports id e) a l h v = v
  turn-Timely p (registers id ch) a l h v = registered-Timely id ch a v
  turn-Timely selecting (received connected) a l h v = received_from-Timely connected a.box a v
  turn-Timely selecting deadline a l h v = elim (Bool-cases (leb a.due a.now)) [
    | inl b ↦ rw b (expired-Timely a.timed_out a l h)
    | inr b ↦ rw b v
  ]
  turn-Timely _ (received connected) a l h v = v
  turn-Timely _ deadline a l h v = v

  run-Timely : (es : List Event) (a : Attempt) → five_seconds ≤ n → Timely a → Timely (run t es a)
  unfolding run
  run-Timely [] a l v = v
  run-Timely (e ∷ es) a l v =
      run-Timely es (turn t a.phase e a) l (turn-Timely a.phase e a l refl v)

  run-append : (xs ys : List Event) (a : Attempt) → run t (xs ++ ys) a ≡ run t ys (run t xs a)
  unfolding run
  run-append [] ys a = refl
  run-append (x ∷ xs) ys a = run-append xs ys (turn t a.phase x a)

  -- The time passes, and the deadline is taken.
  abbrev pub late : List Event
  late = elapse n ∷ deadline ∷ []

  -- A wait whose deadline has passed before returns at the next one.
  abbrev Closing : Attempt → Type 0
  Closing a =
      ((a.phase ≡ selecting) × ((a.timed_out ≡ true) × (a.due ≤ a.now + n))) ⊎ IsReturned a.phase

  expired-Closing :
      (b : Bool) (a : Attempt) → five_seconds ≤ n → a.phase ≡ selecting → Closing (expired t b a)
  expired-Closing true a l h = inr (_, refl)
  expired-Closing false a l h = inl (h, (refl, omega arith))

  late-Closing : (a : Attempt) → five_seconds ≤ n → Timely a → Closing (run t late a)
  unfolding run turn
  late-Closing a l (inl (s, d)) =
      let a' : Attempt = record a { now = a.now + n } in
      subst (λ p. Closing (turn t p deadline a')) (sym s)
        (rw (le→leb a.due (a.now + n) d) (expired-Closing a.timed_out a' l s))
  late-Closing a l (inr (r, q)) = rw q (inr (r, refl))

  Closing-late : (a : Attempt) → Closing a → IsReturned (run t late a).phase
  unfolding run turn
  Closing-late a (inl (s, (b, d))) = rw (s, le→leb a.due (a.now + n) d, b) (_, refl)
  Closing-late a (inr (r, q)) = rw q (r, refl)

  -- The wait of `Connect` returns under every schedule in which its deadline passes twice, where `n`
  -- is at least the timeout and the five seconds of grace, whatever else happens before.
  pub await_peripheral-returns :
      (pending : ℕ → Option ℕ) (es : List Event)
      → pos_part t.timeout ≤ n
      → five_seconds ≤ n
      → IsReturned (await_peripheral t pending (es ++ (late ++ late))).phase
  unfolding await_peripheral start
  await_peripheral-returns pending es k l =
      let a = run t es (start t pending) in
      subst (λ v. IsReturned v.phase)
        (sym (run-append es (late ++ late) (start t pending) ∙ run-append late late a))
        (Closing-late (run t late a)
          (late-Closing a l (run-Timely es (start t pending) l (inl (refl, omega arith)))))
