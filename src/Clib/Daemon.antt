-- ===== src/Clib/Daemon.antt =====
-- clib/clib.go against internal/ipc/server.go: the timed moves of both.
use yaasa_go.Prelude.{ℕ, List, [], ◌∷◌, ◌≡◌, ◌≢◌, refl, ap, ◌∙◌}
use yaasa_go.Prelude.Int.{ℤ, pos_part}
use yaasa_go.Result.{Result, ok, err, M}
use yaasa_go.Schedule.{
  Event, elapse, notify, proceed, ctx_done, received, quiet, timed_out, tick, Phase, waking, moving,
  selecting, returned,
}
use yaasa_go.Ipc.Controller.{Controller}
use yaasa_go.Ipc.Server
use yaasa_go.Ipc.Server.{Loop, answer, serve, move, duration_or, pulsing}
use yaasa_go.Clib.{move_pulse, after_pulse, turn, turns, after_loop, first_pulse, woken}

-- No event of the schedule cancels.
abbrev IsUncancelled : List Event → Type 0
IsUncancelled [] = Unit
IsUncancelled (e ∷ es) = (e ≢ ctx_done) × IsUncancelled es

module _ {F S : Type 0} (c : Controller F S) (pulse : M S (Unit {0})) where
  after_pulse-after_pulse :
      (l : Loop S) (x : Result (Unit {0}) × S)
      → after_pulse c pulse l x ≡ Server.after_pulse c pulse l x
  after_pulse-after_pulse l (ok _, s) = refl
  after_pulse-after_pulse l (err e, s) = refl

  turn-turn :
      (p : Phase (Unit {0})) (e : Event) (l : Loop S)
      → e ≢ ctx_done
      → turn c pulse p e l ≡ Server.turn c pulse p e l
  unfolding turn Server.turn
  turn-turn selecting ctx_done l h = absurd (h refl)
  turn-turn selecting timed_out l h = refl
  turn-turn selecting tick l h = after_pulse-after_pulse l (pulse l.state)
  turn-turn selecting (elapse n) l h = refl
  turn-turn selecting (notify buf) l h = refl
  turn-turn selecting proceed l h = refl
  turn-turn selecting received l h = refl
  turn-turn selecting quiet l h = refl
  turn-turn waking e l h = refl
  turn-turn moving e l h = refl
  turn-turn (returned r) e l h = refl

  turns-turns :
      (es : List Event) (l : Loop S)
      → IsUncancelled es
      → turns c pulse es l ≡ Server.turns c pulse es l
  unfolding turns Server.turns
  turns-turns [] l h = refl
  turns-turns (e ∷ es) l (h, hs) =
      ap (turns c pulse es) (turn-turn l.phase e l h)
      ∙ turns-turns es (Server.turn c pulse l.phase e l) hs

  after_loop-state :
      (p : Phase (Unit {0})) (s : S)
      → (after_loop c pulse p s).1 ≡ (Server.after_loop c pulse p s).1
  after_loop-state (returned (ok _)) s = refl
  after_loop-state (returned (err e)) s = refl
  after_loop-state waking s = refl
  after_loop-state moving s = refl
  after_loop-state selecting s = refl

  first_pulse-state :
      (dur : ℕ) (es : List Event) (x : Result (Unit {0}) × S)
      → IsUncancelled es
      → (first_pulse c pulse dur es x).1 ≡ (Server.first_pulse c pulse dur es x).1
  first_pulse-state dur es (err e, s) h = refl
  first_pulse-state dur es (ok _, s) h =
      let l : Loop S = record { state = s; now = 0; deadline = dur; phase = selecting } in
      ap (λ v. (after_loop c pulse v.phase v.state).1) (turns-turns es l h)
      ∙ after_loop-state (Server.turns c pulse es l).phase (Server.turns c pulse es l).state

  woken-state :
      (dur : ℕ) (es : List Event) (x : Result (Unit {0}) × S)
      → IsUncancelled es
      → (woken c pulse dur es x).1 ≡ (Server.woken c pulse dur es x).1
  woken-state dur es (err e, s) h = refl
  woken-state dur es (ok _, s) h = first_pulse-state dur es (pulse s) h

  -- Under every schedule that cancels nothing, a timed move through the C interface leaves the desk
  -- as the daemon's "up" or "down" with the same duration does, failures of any call included.
  pub move_pulse-pulsing :
      (ms : ℤ) (es : List Event) (s : S)
      → IsUncancelled es
      → (move_pulse c pulse ms es s).1
        ≡ (pulsing c pulse (pos_part (duration_or 500_000_000 ms)) es s).1
  unfolding move_pulse Server.pulsing
  move_pulse-pulsing ms es s h = woken-state (pos_part (duration_or 500_000_000 ms)) es (c.wake s) h
