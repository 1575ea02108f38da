-- ===== src/Ipc/Sockets/Alone.antt =====
-- internal/ipc/unix.go: daemons whose calls of `Listen` come one after the other.
use yaasa_go.Prelude.{
  ℕ, Option, none, some, List, [], ◌∷◌, ◌≡◌, ◌≢◌, refl, sym, ap, ◌∙◌, set, set-same, set-other,
  set-cases, true, false, subst, Bool-cases, inl, inr, some-inj,
}
use yaasa_go.Ipc.Sockets.{
  Stage, idle, probed, cleared, listening, leaving, ended, Machine, probe, remove, bind, close,
  unlink, crash, call, calls, is_answering, probed_by, removed_by, bound_by, closed_by, unlinked_by,
  to, bare, answering_at, is_listening,
}
use yaasa_go.Ipc.Sockets.Races.{probe-step, unlink-step, clear-bind}

-- What happens to whole daemons: one calls `Listen`, is closed behind its serving, or dies.
pub data Move : Type 0 where
  start stop die : ℕ → Move

unfoldable pub move : Move → Machine → Machine
unfolding calls
move (start i) m = calls (probe i ∷ remove i ∷ bind i ∷ []) m
move (stop i) m = calls (close i ∷ unlink i ∷ []) m
move (die i) m = call (crash i) m

unfoldable pub moves : List Move → Machine → Machine
unfolding move
moves [] m = m
moves (v ∷ vs) m = moves vs (move v m)

-- Only a daemon that `Listen` has not refused goes on to the deferred `os.Remove` of its command; a
-- refused one may die before it.
abbrev pub Orderly : List Move → Machine → Type 0
Orderly [] m = Unit
Orderly (stop i ∷ vs) m = (m.stage i ≢ leaving) × Orderly vs (move (stop i) m)
Orderly (v ∷ vs) m = Orderly vs (move v m)

-- No process is within its call of `Listen`.
abbrev IsResting : Stage → Type 0
IsResting idle = Unit
IsResting listening = Unit
IsResting leaving = Unit
IsResting ended = Unit
IsResting _ = ⊥

-- Whoever listens is the one that the path names.
record Alone (m : Machine) : Type 0 where
  pub named : (i : ℕ) → m.stage i ≡ listening → m.file ≡ some i
  pub resting : (i : ℕ) → IsResting (m.stage i)

listening-answers : (m : Machine) (i : ℕ) → Alone m → m.stage i ≡ listening → is_answering m ≡ true
unfolding is_answering
listening-answers m i v h = ap (λ o. answering_at o m.stage) (v.named i h) ∙ ap is_listening h

started-Alone :
    (i : ℕ) (m : Machine)
    → Alone m
    → is_answering m ≡ false
    → Alone
        (record { file = some i; stage = set i listening (set i cleared (set i probed m.stage)) })
started-Alone i m v a = record {
  named = λ j.
      set-cases (λ k x. x ≡ listening → some i ≡ some k) i listening
        (set i cleared (set i probed m.stage)) j (λ e q. ap some (sym e))
        (λ n q.
          let h =
            sym (set-other i cleared (set i probed m.stage) j n ∙ set-other i probed m.stage j n)
            ∙ q in
          let e = listening-answers m j v h in cc);
  resting = λ j.
      set-cases (λ k x. IsResting x) i listening (set i cleared (set i probed m.stage)) j (λ e. tt)
        (λ n.
          subst IsResting
            (sym (set-other i cleared (set i probed m.stage) j n ∙ set-other i probed m.stage j n))
            (v.resting j));
}

-- A daemon that `Listen` refuses changes nothing but its own stage.
refused-Alone : (i : ℕ) (m : Machine) → Alone m → m.stage i ≡ idle → Alone (to i leaving m)
refused-Alone i m v h = record {
  named = λ j.
      set-cases (λ k x. x ≡ listening → m.file ≡ some k) i leaving m.stage j (λ e q. cc)
        (λ n q. v.named j q);
  resting = λ j. set-cases (λ k x. IsResting x) i leaving m.stage j (λ e. tt) (λ n. v.resting j);
}

-- Where a process is not at a call of `Listen`, the calls do nothing.
no_listen :
    (i : ℕ) (m : Machine)
    → removed_by (m.stage i) i m ≡ m
    → bound_by (m.stage i) i m ≡ m
    → calls (remove i ∷ bind i ∷ []) m ≡ m
unfolding calls call
no_listen i m r b = ap (call (bind i)) r ∙ b

start-Alone : (i : ℕ) (m : Machine) → Alone m → Alone (calls (probe i ∷ remove i ∷ bind i ∷ []) m)
unfolding calls call
start-Alone i m v = at_stage (m.stage i) refl
  where
    nothing_happens :
        (s : Stage)
        → m.stage i ≡ s
        → probed_by s i m ≡ m
        → removed_by s i m ≡ m
        → bound_by s i m ≡ m
        → Alone (calls (probe i ∷ remove i ∷ bind i ∷ []) m)
    nothing_happens s h p r b =
        let first : call (probe i) m ≡ m = ap (λ x. probed_by x i m) h ∙ p in
        subst Alone
          (sym (
            ap (λ x. calls (remove i ∷ bind i ∷ []) x) first
            ∙ no_listen i m (ap (λ x. removed_by x i m) h ∙ r) (ap (λ x. bound_by x i m) h ∙ b)))
          v

    at_stage : (s : Stage) → m.stage i ≡ s → Alone (calls (probe i ∷ remove i ∷ bind i ∷ []) m)
    at_stage idle h = elim (Bool-cases (is_answering m)) [
      | inl a ↦
          let gone = set-same i leaving m.stage in
          let m1 : Machine = to i leaving m in
          subst (λ x. Alone (calls (remove i ∷ bind i ∷ []) x)) (sym (probe-step i true m h a))
            (subst Alone
              (sym (
                no_listen i m1 (ap (λ x. removed_by x i m1) gone) (ap (λ x. bound_by x i m1) gone)))
              (refused-Alone i m v h))
      | inr a ↦
          subst (λ x. Alone (calls (remove i ∷ bind i ∷ []) x)) (sym (probe-step i false m h a))
            (subst Alone (sym (clear-bind i (to i probed m) (set-same i probed m.stage)))
              (started-Alone i m v a))
    ]
    at_stage listening h = nothing_happens listening h refl refl refl
    at_stage ended h = nothing_happens ended h refl refl refl
    at_stage leaving h = nothing_happens leaving h refl refl refl
    at_stage probed h = absurd (subst IsResting h (v.resting i))
    at_stage cleared h = absurd (subst IsResting h (v.resting i))

-- A process that ends, with the path gone or as it was.
ended-Alone :
    (i : ℕ) (o : Option ℕ) (f : ℕ → Stage) (m : Machine)
    → Alone m
    → ((j : ℕ) → j ≢ i → f j ≡ m.stage j)
    → ((j : ℕ) → j ≢ i → m.file ≡ some j → o ≡ some j)
    → Alone (record { file = o; stage = set i ended f })
ended-Alone i o f m v h k = record {
  named = λ j.
      set-cases (λ l x. x ≡ listening → o ≡ some l) i ended f j (λ e q. cc)
        (λ n q. k j n (v.named j (sym (h j n) ∙ q)));
  resting = λ j.
      set-cases (λ l x. IsResting x) i ended f j (λ e. tt)
        (λ n. subst IsResting (sym (h j n)) (v.resting j));
}

stop-Alone :
    (i : ℕ) (m : Machine)
    → Alone m
    → m.stage i ≢ leaving
    → Alone (calls (close i ∷ unlink i ∷ []) m)
unfolding calls call
stop-Alone i m v n = at_stage (m.stage i) refl
  where
    unchanged :
        (s : Stage)
        → m.stage i ≡ s
        → closed_by s i m ≡ m
        → unlinked_by s i m ≡ m
        → Alone (calls (close i ∷ unlink i ∷ []) m)
    unchanged s h c u =
        let first : call (close i) m ≡ m = ap (λ s. closed_by s i m) h ∙ c in
        let second : call (unlink i) m ≡ m = ap (λ s. unlinked_by s i m) h ∙ u in
        subst Alone (sym (ap (call (unlink i)) first ∙ second)) v

    at_stage : (s : Stage) → m.stage i ≡ s → Alone (calls (close i ∷ unlink i ∷ []) m)
    at_stage listening h =
        let m1 : Machine = record { file = none; stage = set i leaving m.stage } in
        let first : call (close i) m ≡ m1 = ap (λ s. closed_by s i m) h in
        subst Alone
          (sym (ap (call (unlink i)) first ∙ unlink-step i m1 (set-same i leaving m.stage)))
          (ended-Alone i none m1.stage m v (λ j n. set-other i leaving m.stage j n)
            (λ j n q. absurd (n (some-inj j i (sym q ∙ v.named i h)))))
    at_stage idle h = unchanged idle h refl refl
    at_stage ended h = unchanged ended h refl refl
    at_stage probed h = absurd (subst IsResting h (v.resting i))
    at_stage cleared h = absurd (subst IsResting h (v.resting i))
    at_stage leaving h = absurd (n h)

die-Alone : (i : ℕ) (m : Machine) → Alone m → Alone (move (die i) m)
unfolding move call
die-Alone i m v = ended-Alone i m.file m.stage m v (λ j n. refl) (λ j n q. q)

moves-Alone : (cs : List Move) (m : Machine) → Alone m → Orderly cs m → Alone (moves cs m)
unfolding moves
moves-Alone [] m v o = v
moves-Alone (start i ∷ cs) m v o =
    moves-Alone cs (move (start i) m) (unfold move in start-Alone i m v) o
moves-Alone (stop i ∷ cs) m v (n, o) =
    moves-Alone cs (move (stop i) m) (unfold move in stop-Alone i m v n) o
moves-Alone (die i ∷ cs) m v o = moves-Alone cs (move (die i) m) (die-Alone i m v) o

-- When daemons start and end one after the other, each getting through its `Listen`, or through its
-- close and its `os.Remove`, before the next begins, and none that `Listen` has refused reaches the
-- deferred `os.Remove` of its command, then whatever is started, closed or dies in between, at most one
-- listens, and the path leads to it.
pub moves-one :
    (cs : List Move) (i j : ℕ)
    → Orderly cs bare
    → (moves cs bare).stage i ≡ listening
    → (moves cs bare).stage j ≡ listening
    → (i ≡ j) × (is_answering (moves cs bare) ≡ true)
moves-one cs i j o a b =
    let v = moves-Alone cs bare (record { named = λ i q. cc; resting = λ i. tt }) o in
    (some-inj i j (sym (v.named i a) ∙ v.named j b), listening-answers (moves cs bare) i v a)
