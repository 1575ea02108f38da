-- ===== src/Darwin/Connecting/Results.antt =====
-- desk/adapter_darwin.go: how the wait of `Connect` ends, and what it leaves in `pending`.
use yaasa_go.Prelude.{
  ℕ, List, [], ◌∷◌, Option, some, ◌≡◌, ◌≢◌, refl, ◌⊎◌, inl, inr, leb, Bool-cases,
}
use yaasa_go.Result.{ok}
use yaasa_go.Schedule.{Phase, selecting, returned, Among, IsReturned}
use yaasa_go.Darwin.Connecting.{
  Event, elapse, reports, registers, received, deadline, connect, Attempt, Target, start,
  received_from, expired, registered, turn, run, await_peripheral,
}
use yaasa_go.Darwin.Connecting.Steps.{
  set-cases, IsConnection, Inv, reports-Inv, registers-Inv, received-Inv, expired-Inv, Inv-map,
}

module _ (t : Target) where
  turn-Inv :
      (P : Type 0) (p : Phase (Unit {0})) (e : Event) (a : Attempt)
      → a.phase ≡ p
      → Inv t P a
      → Inv t (P ⊎ IsConnection t e) (turn t p e a)
  unfolding turn
  turn-Inv P p (elapse n) a h v = record {
    own = v.own;
    free = v.free;
    drained = v.drained;
    told = λ q. inl (v.told q);
    success = λ q. (inl (v.success q).0, (v.success q).1);
    calls = v.calls;
  }
  turn-Inv P p (reports id e) a h v = reports-Inv t P id e a v
  turn-Inv P p (registers id ch) a h v =
      Inv-map t P _ (registered t id ch a) inl (registers-Inv t P id ch a v)
  turn-Inv P selecting (received connected) a h v =
      Inv-map t P _ (received_from t connected a.box a) inl
        (received-Inv t P connected a.box a refl v)
  turn-Inv P selecting deadline a h v = elim (Bool-cases (leb a.due a.now)) [
    | inl b ↦
        rw b (Inv-map t P _ (expired t a.timed_out a) inl (expired-Inv t P a.timed_out a refl h v))
    | inr b ↦ rw b (Inv-map t P _ a inl v)
  ]
  turn-Inv P _ (received connected) a h v = Inv-map t P _ a inl v
  turn-Inv P _ deadline a h v = Inv-map t P _ a inl v

  run-Inv :
      (es : List Event) (P : Type 0) (a : Attempt)
      → Inv t P a
      → Inv t (P ⊎ Among (IsConnection t) es) (run t es a)
  unfolding run
  run-Inv [] P a v = Inv-map t P _ a inl v
  run-Inv (e ∷ es) P a v =
      Inv-map t _ _ (run t es (turn t a.phase e a))
        (λ h. elim h [ inl (inl p) ↦ inl p | inl (inr c) ↦ inr (inl c) | inr c ↦ inr (inr c) ])
        (run-Inv es (P ⊎ IsConnection t e) (turn t a.phase e a) (turn-Inv P a.phase e a refl v))

  start-Inv :
      (pending : ℕ → Option ℕ) → ((i : ℕ) → pending i ≢ some t.channel) → Inv t ⊥ (start t pending)
  unfolding start
  start-Inv pending fresh = record {
    own = λ i h. elim (set-cases t.id (some t.channel) pending i (some t.channel) h) [
      | inl k ↦ k.0
      | inr k ↦ absurd (fresh i k.1)
    ];
    free = λ i h. refl;
    drained = λ i (r, q) h. cc;
    told = λ h. cc;
    success = λ h. cc;
    calls = λ h. refl;
  }

  -- Under every order of reports, other calls and timers: when the wait of `Connect` has returned, its
  -- channel, which was in use for nothing else, is stored for no peripheral any more.
  pub await_peripheral-drained :
      (pending : ℕ → Option ℕ) (es : List Event) (i : ℕ)
      → ((j : ℕ) → pending j ≢ some t.channel)
      → IsReturned (await_peripheral t pending es).phase
      → (await_peripheral t pending es).pending i ≢ some t.channel
  unfolding await_peripheral
  await_peripheral-drained pending es i fresh r =
      (run-Inv es ⊥ (start t pending) (start-Inv pending fresh)).drained i r

  -- Under every order of events: the wait succeeds only if the peripheral was reported as connected
  -- during the call, and then the manager was asked for the connection and for nothing else.
  pub await_peripheral-connected :
      (pending : ℕ → Option ℕ) (es : List Event)
      → ((j : ℕ) → pending j ≢ some t.channel)
      → (await_peripheral t pending es).phase ≡ returned (ok tt)
      → Among (IsConnection t) es × ((await_peripheral t pending es).calls ≡ connect ∷ [])
  unfolding await_peripheral
  await_peripheral-connected pending es fresh h =
      let v = run-Inv es ⊥ (start t pending) (start-Inv pending fresh) in
      let (told, b) = v.success h in (elim told [ inl k ↦ absurd k | inr k ↦ k ], v.calls b)
