-- ===== src/Ipc/Pulsing.antt =====
-- internal/ipc/server.go: the loop of "up" and "down".
pub mod Ending
use yaasa_go.Prelude.{
  ℕ, ◌+◌, ◌≤◌, List, [], ◌∷◌, ◌++◌, some, ◌≡◌, refl, sym, subst, ◌⊎◌, inl, inr, arith, leb, le→leb,
  Bool-cases,
}
use yaasa_go.Result.{Result, ok, err, Error, M}
use yaasa_go.Schedule.{
  Event, elapse, notify, ctx_done, timed_out, tick, Phase, waking, moving, selecting, returned,
  IsReturned,
}
use yaasa_go.Ipc.Controller.{Controller}
use yaasa_go.Ipc.Server.{
  Loop, after_pulse, turn, turns, after_loop, loop_from, first_pulse, woken, pulsing,
}

module _ {F S : Type 0} (c : Controller F S) where
  -- The last call on the controller was `Stop`.
  abbrev pub IsStopped : S → Type 0
  IsStopped s = (before : S) × (s ≡ (c.stop before).1)

  -- A loop that was left by an error has stopped the desk.
  abbrev StoppedOnError : Loop S → Type 0
  StoppedOnError l = (e : Error) → l.phase ≡ returned (err e) → IsStopped l.state

module _ {F S : Type 0} (c : Controller F S) (pulse : M S (Unit {0})) where
  after_pulse-StoppedOnError :
      (l : Loop S) (x : Result (Unit {0}) × S)
      → l.phase ≡ selecting
      → StoppedOnError c (after_pulse c pulse l x)
  after_pulse-StoppedOnError l (ok _, s) h e q = cc
  after_pulse-StoppedOnError l (err x, s) h e q = (s, refl)

  turn-StoppedOnError :
      (p : Phase (Unit {0})) (e : Event) (l : Loop S)
      → l.phase ≡ p
      → StoppedOnError c l
      → StoppedOnError c (turn c pulse p e l)
  unfolding turn
  turn-StoppedOnError selecting tick l h v = after_pulse-StoppedOnError l (pulse l.state) h
  turn-StoppedOnError selecting ctx_done l h v = λ e q. cc
  turn-StoppedOnError selecting timed_out l h v = elim (Bool-cases (leb l.deadline l.now)) [
    | inl b ↦ rw b (λ e q. cc)
    | inr b ↦ rw b v
  ]
  turn-StoppedOnError selecting (elapse n) l h v = v
  turn-StoppedOnError selecting (notify buf) l h v = λ e q. cc
  turn-StoppedOnError _ e l h v = v

  turns-StoppedOnError :
      (es : List Event) (l : Loop S) → StoppedOnError c l → StoppedOnError c (turns c pulse es l)
  unfolding turns
  turns-StoppedOnError [] l v = v
  turns-StoppedOnError (e ∷ es) l v =
      turns-StoppedOnError es (turn c pulse l.phase e l) (turn-StoppedOnError l.phase e l refl v)

  after_loop-IsStopped :
      (p : Phase (Unit {0})) (s : S) (r : Result (Unit {0}))
      → ((e : Error) → p ≡ returned (err e) → IsStopped c s)
      → (after_loop c pulse p s).0 ≡ some r
      → IsStopped c (after_loop c pulse p s).1
  after_loop-IsStopped (returned (ok _)) s r v e = (s, refl)
  after_loop-IsStopped (returned (err x)) s r v e = v x refl
  after_loop-IsStopped waking s r v e = cc
  after_loop-IsStopped moving s r v e = cc
  after_loop-IsStopped selecting s r v e = cc

  first_pulse-IsStopped :
      (dur : ℕ) (es : List Event) (x : Result (Unit {0}) × S) (r : Result (Unit {0}))
      → (first_pulse c pulse dur es x).0 ≡ some r
      → IsStopped c (first_pulse c pulse dur es x).1
  first_pulse-IsStopped dur es (err e, s) r h = (s, refl)
  first_pulse-IsStopped dur es (ok _, s) r h =
      let l = turns c pulse es (record { state = s; now = 0; deadline = dur; phase = selecting }) in
      after_loop-IsStopped l.phase l.state r
        (turns-StoppedOnError es (record { state = s; now = 0; deadline = dur; phase = selecting })
          (λ e q. cc))
        h

  woken-IsStopped :
      (dur : ℕ) (es : List Event) (x : Result (Unit {0}) × S) (r : Result (Unit {0}))
      → (woken c pulse dur es x).0 ≡ some r
      → ((e : Error) × (x.0 ≡ err e)) ⊎ IsStopped c (woken c pulse dur es x).1
  woken-IsStopped dur es (err e, s) r h = inl (e, refl)
  woken-IsStopped dur es (ok _, s) r h = inr (first_pulse-IsStopped dur es (pulse s) r h)

  -- Whatever the controller does and under every schedule: when "up" or "down" answers, the wake
  -- failed, or the last call on the desk was `Stop`.
  pub pulsing-IsStopped :
      (dur : ℕ) (es : List Event) (s : S) (r : Result (Unit {0}))
      → (pulsing c pulse dur es s).0 ≡ some r
      → ((e : Error) × ((c.wake s).0 ≡ err e)) ⊎ IsStopped c (pulsing c pulse dur es s).1
  unfolding pulsing
  pulsing-IsStopped dur es s r h = woken-IsStopped dur es (c.wake s) r h
