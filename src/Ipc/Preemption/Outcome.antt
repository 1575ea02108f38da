-- ===== src/Ipc/Preemption/Outcome.antt =====
-- internal/ipc/server.go: the states that the preemption of `handle` can reach.
use yaasa_go.Prelude.{
  ℕ, suc, ◌<◌, true, ◌≡◌, ◌≢◌, ◌↔◌, sym, subst, ◌∙◌, ◌⊎◌, inl, inr, arith, Bool-cases, Option-cases,
}
use yaasa_go.Ipc.Preemption.{
  waiting, dispatching, preempted, State, bail, enter, answer, Step, bails, enters, answers,
  Reachable,
}
use yaasa_go.Ipc.Preemption.Order.{IsLive, some-inj, live-known, Reachable-Ordered}

-- In every reachable state at most one command is in `dispatch`.
pub one_dispatch :
    (s : State)
    → Reachable s
    → (i j : ℕ) → s.stage i ≡ dispatching
    → s.stage j ≡ dispatching
    → i ≡ j
one_dispatch s r i j a b =
    let o = Reachable-Ordered s r in sym (some-inj i j (sym (o.in_holder i a) ∙ o.in_holder j b))

-- A command is told that it was preempted only if a newer one has arrived.
pub preempted-newer : (s : State) → Reachable s → (i : ℕ) → s.stage i ≡ preempted → suc i < s.next
preempted-newer s r i e = (Reachable-Ordered s r).superseded i e

-- The context of a command that is in `dispatch` is cancelled exactly if a newer command has
-- arrived.
pub dispatching-cancelled :
    (s : State)
    → Reachable s
    → (i : ℕ) → s.stage i ≡ dispatching
    → (s.cancelled i ≡ true) ↔ (suc i < s.next)
dispatching-cancelled s r i d =
    let o = Reachable-Ordered s r in
    let l = subst IsLive (sym d) tt in
    let k = live-known s o i l in
    (
      λ c. let n : suc i ≢ s.next = λ q. let f = o.last_live i q l in cc in omega arith,
      λ n. elim (Bool-cases (s.cancelled i)) [
        | inl c ↦ c
        | inr c ↦ let q = o.live_last i l c in absurd (omega arith)
      ],
    )

-- No deadlock: while a command waits, it can go on, or the one in `dispatch` can answer.
pub waiting-Step :
    (s : State)
    → Reachable s
    → (i : ℕ) → s.stage i ≡ waiting
    → (Step s (bail i s) ⊎ Step s (enter i s)) ⊎ ((j : ℕ) × Step s (answer j s))
waiting-Step s r i w = elim (Option-cases s.holder) [
  | inl h ↦ elim (Bool-cases (s.cancelled i)) [
    | inl c ↦ inl (inl (bails i s w h c))
    | inr c ↦ inl (inr (enters i s w h c))
  ]
  | inr (j, h) ↦ inr (j, answers j s ((Reachable-Ordered s r).holder_in j h))
]
