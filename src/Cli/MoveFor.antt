-- ===== src/Cli/MoveFor.antt =====
-- cmd/yaasa/main.go: `moveFor`, which moves the desk without the daemon. No command calls it.
use yaasa_go.Prelude.{
  ℕ, ◌+◌, List, [], ◌∷◌, Option, none, some, Bool, leb, if◌then◌else◌, ◌≡◌, ◌≢◌, refl, ap, sym, ◌∙◌,
  All, subst,
}
use yaasa_go.Result.{Result, ok, err, M}
use yaasa_go.Schedule.{
  Event, elapse, notify, proceed, ctx_done, received, quiet, timed_out, tick, Phase, waking, moving,
  selecting, returned,
}
use yaasa_go.Ipc.Controller.{Controller}
use yaasa_go.Ipc.Server.{
  Loop, turn, turns, after_pulse, after_loop, loop_from, first_pulse, woken, pulsing,
}

module _ {F S : Type 0} (d : Controller F S) where
  -- `pulse := d.MoveDown; if up { pulse = d.MoveUp }`
  abbrev pub pulse_of : Bool → M S (Unit {0})
  pulse_of up = if up then d.move_up else d.move_down

module _ {F S : Type 0} (d : Controller F S) (pulse : M S (Unit {0})) where
  -- `if err := pulse(); err != nil { return err }`
  abbrev pub pulsed : Loop S → Result (Unit {0}) × S → Loop S
  pulsed l (ok _, s) = record l { state = s }
  pulsed l (err e, s) = record l { state = s; phase = returned (err e) }

  -- One round of the `select`.
  unfoldable pub move_turn : Phase (Unit {0}) → Event → Loop S → Loop S
  move_turn selecting timed_out l =
      if leb l.deadline l.now then record l { phase = returned (ok tt) } else l
  move_turn selecting tick l = pulsed l (pulse l.state)
  move_turn selecting (elapse n) l = record l { now = l.now + n }
  move_turn selecting (notify buf) l = record l { state = d.happens (notify buf) l.state }
  move_turn _ e l = l

  unfoldable pub move_turns : List Event → Loop S → Loop S
  unfolding move_turn
  move_turns [] l = l
  move_turns (e ∷ es) l = move_turns es (move_turn l.phase e l)

  -- `return d.Stop()` behind the loop; a failed pulse has returned by then.
  abbrev pub at_last : Phase (Unit {0}) → S → Option (Result (Unit {0})) × S
  at_last (returned (ok _)) s = let (r, s') = d.stop s in (some r, s')
  at_last (returned (err e)) s = (some (err e), s)
  at_last _ s = (none, s)

  abbrev pub move_from : Loop S → List Event → Option (Result (Unit {0})) × S
  move_from l es = at_last (move_turns es l).phase (move_turns es l).state

  abbrev pub first_moved : ℕ → List Event → Result (Unit {0}) × S → Option (Result (Unit {0})) × S
  first_moved dur es (ok _, s) =
      move_from (record { state = s; now = 0; deadline = dur; phase = selecting }) es
  first_moved dur es (err e, s) = (some (err e), s)

  abbrev pub awake : ℕ → List Event → Result (Unit {0}) × S → Option (Result (Unit {0})) × S
  awake dur es (ok _, s) = first_moved dur es (pulse s)
  awake dur es (err e, s) = (some (err e), s)

module _ {F S : Type 0} (d : Controller F S) where
  -- `moveFor` for `dur` nanoseconds, under a schedule.
  unfoldable pub move_for : ℕ → Bool → List Event → S → Option (Result (Unit {0})) × S
  unfolding move_turns
  move_for dur up es s = awake d (pulse_of d up) dur es (d.wake s)

module _ {F S : Type 0} (d : Controller F S) (pulse : M S (Unit {0})) where
  -- The pulses never fail.
  abbrev pub AlwaysPulses : Type 0
  AlwaysPulses = (s : S) → (pulse s).0 ≡ ok tt

  pulsed-after_pulse :
      (l : Loop S) (x : Result (Unit {0}) × S)
      → x.0 ≡ ok tt
      → pulsed d pulse l x ≡ after_pulse d pulse l x
  pulsed-after_pulse l (ok _, s) h = refl
  pulsed-after_pulse l (err e, s) h = cc

  move_turn-turn :
      (p : Phase (Unit {0})) (e : Event) (l : Loop S)
      → AlwaysPulses
      → e ≢ ctx_done
      → move_turn d pulse p e l ≡ turn d pulse p e l
  unfolding move_turn turn
  move_turn-turn selecting timed_out l a n = refl
  move_turn-turn selecting tick l a n = pulsed-after_pulse l (pulse l.state) (a l.state)
  move_turn-turn selecting ctx_done l a n = absurd (n refl)
  move_turn-turn selecting (elapse k) l a n = refl
  move_turn-turn selecting (notify buf) l a n = refl
  move_turn-turn selecting proceed l a n = refl
  move_turn-turn selecting received l a n = refl
  move_turn-turn selecting quiet l a n = refl
  move_turn-turn waking e l a n = refl
  move_turn-turn moving e l a n = refl
  move_turn-turn (returned r) e l a n = refl

  move_turns-turns :
      (es : List Event) (l : Loop S)
      → AlwaysPulses
      → All (λ e. e ≢ ctx_done) es
      → move_turns d pulse es l ≡ turns d pulse es l
  unfolding move_turns turns
  move_turns-turns [] l a n = refl
  move_turns-turns (e ∷ es) l a (n, ns) =
      ap (move_turns d pulse es) (move_turn-turn l.phase e l a n)
      ∙ move_turns-turns es (turn d pulse l.phase e l) a ns

  -- The same state, and a result just if the other has one.
  abbrev pub SameEffect : Option (Result (Unit {0})) × S → Option (Result (Unit {0})) × S → Type 0
  SameEffect x y = (x.1 ≡ y.1) × (x.0 ≡ none → y.0 ≡ none) × (y.0 ≡ none → x.0 ≡ none)

  at_last-after_loop :
      (p : Phase (Unit {0})) (s : S) → SameEffect (at_last d pulse p s) (after_loop d pulse p s)
  at_last-after_loop (returned (ok _)) s = (refl, λ e. cc, λ e. cc)
  at_last-after_loop (returned (err x)) s = (refl, λ e. cc, λ e. cc)
  at_last-after_loop waking s = (refl, λ e. refl, λ e. refl)
  at_last-after_loop moving s = (refl, λ e. refl, λ e. refl)
  at_last-after_loop selecting s = (refl, λ e. refl, λ e. refl)

  first_moved-first_pulse :
      (dur : ℕ) (es : List Event) (x : Result (Unit {0}) × S)
      → AlwaysPulses
      → All (λ e. e ≢ ctx_done) es
      → x.0 ≡ ok tt
      → SameEffect (first_moved d pulse dur es x) (first_pulse d pulse dur es x)
  first_moved-first_pulse dur es (err e, s) a n h = cc
  first_moved-first_pulse dur es (ok _, s) a n h =
      let l : Loop S = record { state = s; now = 0; deadline = dur; phase = selecting } in
      subst (λ v. SameEffect (at_last d pulse v.phase v.state) (loop_from d pulse l es))
        (sym (move_turns-turns es l a n))
        (at_last-after_loop (turns d pulse es l).phase (turns d pulse es l).state)

  awake-woken :
      (dur : ℕ) (es : List Event) (x : Result (Unit {0}) × S)
      → AlwaysPulses
      → All (λ e. e ≢ ctx_done) es
      → SameEffect (awake d pulse dur es x) (woken d pulse dur es x)
  awake-woken dur es (err e, s) a n = (refl, λ e. cc, λ e. cc)
  awake-woken dur es (ok _, s) a n = first_moved-first_pulse dur es (pulse s) a n (a s)

module _ {F S : Type 0} (d : Controller F S) where
  -- Where the pulses never fail and nothing cancels the daemon's move, `moveFor` leaves the desk as
  -- the "up" or "down" of the daemon does, and returns just if that answers.
  pub move_for-pulsing :
      (dur : ℕ) (up : Bool) (es : List Event) (s : S)
      → AlwaysPulses d (pulse_of d up)
      → All (λ e. e ≢ ctx_done) es
      → SameEffect d (pulse_of d up) (move_for d dur up es s) (pulsing d (pulse_of d up) dur es s)
  unfolding move_for pulsing
  move_for-pulsing dur up es s a n = awake-woken d (pulse_of d up) dur es (d.wake s) a n
