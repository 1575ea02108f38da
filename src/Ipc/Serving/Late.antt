-- ===== src/Ipc/Serving/Late.antt =====
-- internal/ipc/server.go: how long a move that succeeds has taken.
use yaasa_go.Prelude.{
  ℕ, ◌+◌, ◌≤◌, List, [], ◌∷◌, some, ◌≡◌, ◌≢◌, refl, arith, leb, leb→le, Bool-cases, inl, inr, All,
}
use yaasa_go.Result.{Result, ok, err, M}
use yaasa_go.Schedule.{
  Event, elapse, notify, proceed, ctx_done, received, quiet, timed_out, tick, Phase, waking, moving,
  selecting, returned,
}
use yaasa_go.Ipc.Controller.{Controller}
use yaasa_go.Ipc.Server.{Loop, after_pulse, turn, turns, after_loop, first_pulse, woken, pulsing}
use yaasa_go.Ipc.Serving.{spent}

module _ {F S : Type 0} (c : Controller F S) (pulse : M S (Unit {0})) where
  -- A loop that was left without an error was left at its deadline.
  abbrev Punctual : Loop S → Type 0
  Punctual l = l.phase ≡ returned (ok tt) → l.deadline ≤ l.now

  -- One event that is no cancellation.
  record Turned (e : Event) (l l' : Loop S) : Type 0 where
    punctual : Punctual l'
    deadline : l'.deadline ≡ l.deadline
    time : l'.now ≤ l.now + spent (e ∷ [])

  pulsed-Turned :
      (l : Loop S) (x : Result (Unit {0}) × S)
      → Punctual l
      → Turned tick l (after_pulse c pulse l x)
  pulsed-Turned l (ok _, s) v = record { punctual = v; deadline = refl; time = omega arith }
  pulsed-Turned l (err e, s) v = record { punctual = λ q. cc; deadline = refl; time = omega arith }

  turn-Turned :
      (p : Phase (Unit {0})) (e : Event) (l : Loop S)
      → l.phase ≡ p
      → e ≢ ctx_done
      → Punctual l
      → Turned e l (turn c pulse p e l)
  unfolding turn
  turn-Turned selecting tick l h n v = pulsed-Turned l (pulse l.state) v
  turn-Turned selecting ctx_done l h n v = absurd (n refl)
  turn-Turned selecting timed_out l h n v = elim (Bool-cases (leb l.deadline l.now)) [
    | inl b ↦
        rw b (record {
          punctual = λ q. leb→le l.deadline l.now b;
          deadline = refl;
          time = omega arith;
        })
    | inr b ↦ rw b (record { punctual = v; deadline = refl; time = omega arith })
  ]
  turn-Turned selecting (elapse k) l h n v = record {
    punctual = λ q. cc;
    deadline = refl;
    time = omega arith;
  }
  turn-Turned selecting (notify buf) l h n v = record {
    punctual = λ q. cc;
    deadline = refl;
    time = omega arith;
  }
  turn-Turned _ e l h n v = record { punctual = v; deadline = refl; time = omega arith }

  spent-split : (e : Event) (es : List Event) → spent (e ∷ es) ≡ spent (e ∷ []) + spent es
  spent-split (elapse n) es = omega arith
  spent-split (notify buf) es = omega arith
  spent-split proceed es = omega arith
  spent-split ctx_done es = omega arith
  spent-split received es = omega arith
  spent-split quiet es = omega arith
  spent-split timed_out es = omega arith
  spent-split tick es = omega arith

  turns-late :
      (es : List Event) (l : Loop S)
      → All (λ e. e ≢ ctx_done) es
      → Punctual l
      → (turns c pulse es l).phase ≡ returned (ok tt)
      → l.deadline ≤ l.now + spent es
  unfolding turns
  turns-late [] l h v q = let k = v q in omega arith
  turns-late (e ∷ es) l (n, h) v q =
      let t = turn-Turned l.phase e l refl n v in
      let k = turns-late es (turn c pulse l.phase e l) h t.punctual q in
      let d = t.deadline in let b = t.time in let p = spent-split e es in omega arith

  after_loop-phase :
      (p : Phase (Unit {0})) (s : S)
      → (after_loop c pulse p s).0 ≡ some (ok tt)
      → p ≡ returned (ok tt)
  after_loop-phase (returned (ok _)) s h = refl
  after_loop-phase (returned (err e)) s h = cc
  after_loop-phase waking s h = cc
  after_loop-phase moving s h = cc
  after_loop-phase selecting s h = cc

  first_pulse-late :
      (dur : ℕ) (es : List Event) (x : Result (Unit {0}) × S)
      → All (λ e. e ≢ ctx_done) es
      → (first_pulse c pulse dur es x).0 ≡ some (ok tt)
      → dur ≤ spent es
  first_pulse-late dur es (err e, s) n h = cc
  first_pulse-late dur es (ok _, s) n h =
      let l : Loop S = record { state = s; now = 0; deadline = dur; phase = selecting } in
      let k =
        turns-late es l n (λ q. cc)
          (after_loop-phase (turns c pulse es l).phase (turns c pulse es l).state h) in
      omega arith

  woken-late :
      (dur : ℕ) (es : List Event) (x : Result (Unit {0}) × S)
      → All (λ e. e ≢ ctx_done) es
      → (woken c pulse dur es x).0 ≡ some (ok tt)
      → dur ≤ spent es
  woken-late dur es (err e, s) n h = cc
  woken-late dur es (ok _, s) n h = first_pulse-late dur es (pulse s) n h

  -- Without a cancellation, "up" or "down" that answers with success has taken its whole time.
  pub pulsing-late :
      (dur : ℕ) (es : List Event) (s : S)
      → All (λ e. e ≢ ctx_done) es
      → (pulsing c pulse dur es s).0 ≡ some (ok tt)
      → dur ≤ spent es
  unfolding pulsing
  pulsing-late dur es s n h = woken-late dur es (c.wake s) n h
