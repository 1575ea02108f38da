-- ===== src/Ipc/Preemption/Latest.antt =====
-- internal/ipc/server.go: what the preemption of `handle` promises, as a specification without
-- goroutines, locks and contexts.
use yaasa_go.Prelude.{
  ℕ, suc, ◌<◌, Bool, true, false, Option, none, some, List, [], ◌∷◌, ◌≡◌, ◌∙◌, ap, ==_iff, refl,
  sym, subst, set, ◌==◌, Bool-cases, inl, inr,
}
use mathlib.Core.Path.{fun_ext}
use yaasa_go.Ipc.Preemption.{
  Stage, absent, waiting, dispatching, preempted, answered, State, initial, register, bail, enter,
  answer, Step, registers, bails, enters, answers, Reachable, begin, onward,
}
use yaasa_go.Ipc.Preemption.Order.{IsLive, Reachable-Ordered, cancelled-superseded}

-- What becomes visible of a request: that it has arrived, was told that it is preempted, was started,
-- and was answered.
pub data Action : Type 0 where
  arrived refused started completed : ℕ → Action

-- The specification: how many requests have arrived, which of them wait, and which one runs.
pub record Latest : Type 0 where
  pub count : ℕ
  pub waits : ℕ → Bool
  pub running : Option ℕ

-- A request that waits is refused if a newer one has arrived, and started if it is the newest and
-- nothing runs; either ends its waiting. What runs is completed.
pub data Move : Action → Latest → Latest → Type 0 where
  arrive :
      (i : ℕ) (l : Latest)
      → i ≡ l.count
      → Move (arrived i) l (record l { count = suc i; waits = set i true l.waits })
  refuse :
      (i : ℕ) (l : Latest)
      → l.waits i ≡ true
      → suc i < l.count
      → Move (refused i) l (record l { waits = set i false l.waits })
  launch :
      (i : ℕ) (l : Latest)
      → l.waits i ≡ true
      → l.running ≡ none
      → suc i ≡ l.count
      → Move (started i) l (record l { waits = set i false l.waits; running = some i })
  complete :
      (i : ℕ) (l : Latest) → l.running ≡ some i → Move (completed i) l (record l { running = none })

-- The histories that the specification allows, the last action first, and where they lead.
pub data Allowed : List Action → Latest → Type 0 where
  nothing : Allowed [] (record { count = 0; waits = λ i. false; running = none })
  more :
      (a : Action) (as' : List Action) (l m : Latest)
      → Allowed as' l
      → Move a l m
      → Allowed (a ∷ as') m

-- The histories of the daemon.
abbrev pub action : {s t : State} → Step s t → Action
action (registers quit s) = arrived s.next
action (bails i s w h c) = refused i
action (enters i s w h c) = started i
action (answers i s d) = completed i

pub data History : List Action → State → Type 0 where
  empty : History [] initial
  longer :
      (a : Action) (as' : List Action) (s t : State)
      → History as' s
      → (p : Step s t) → a ≡ action p
      → History (a ∷ as') t

pub History-Reachable : (as' : List Action) (s : State) → History as' s → Reachable s
History-Reachable _ _ empty = begin
History-Reachable _ _ (longer a as' s t h p e) = onward s t (History-Reachable as' s h) p

abbrev pub is_waiting : Stage → Bool
is_waiting waiting = true
is_waiting absent = false
is_waiting dispatching = false
is_waiting preempted = false
is_waiting answered = false

abbrev waits_of : (ℕ → Stage) → ℕ → Bool
waits_of f i = is_waiting (f i)

abbrev pub view : State → Latest
view s = record { count = s.next; waits = waits_of s.stage; running = s.holder }

waits_of-set :
    (i : ℕ) (x : Stage) (f : ℕ → Stage) → set i (is_waiting x) (waits_of f) ≡ waits_of (set i x f)
waits_of-set i x f =
    fun_ext (λ j. elim (Bool-cases (j == i)) [ inl e ↦ rw e refl | inr e ↦ rw e refl ])

-- A request that runs did not wait.
waits_of-answered :
    (i : ℕ) (f : ℕ → Stage) → f i ≡ dispatching → waits_of f ≡ waits_of (set i answered f)
waits_of-answered i f h = fun_ext (λ j. elim (Bool-cases (j == i)) [
  | inl e ↦ rw e (ap (λ k. is_waiting (f k)) ((==_iff j i).0 e) ∙ ap is_waiting h)
  | inr e ↦ rw e refl
])

-- Each step of the daemon from a reachable state is a move of the specification.
Step-Move : (s t : State) → Reachable s → (p : Step s t) → Move (action p) (view s) (view t)
unfolding register bail enter answer
Step-Move _ _ r (registers quit s) =
    subst
      (λ w.
        Move (arrived s.next) (view s)
          (record { count = suc s.next; waits = w; running = s.holder }))
      (waits_of-set s.next waiting s.stage) (arrive s.next (view s) refl)
Step-Move _ _ r (bails i s w h c) =
    subst
      (λ v. Move (refused i) (view s) (record { count = s.next; waits = v; running = s.holder }))
      (waits_of-set i preempted s.stage)
      (refuse i (view s) (rw w refl) (cancelled-superseded s (Reachable-Ordered s r) i w c))
Step-Move _ _ r (enters i s w h c) =
    subst (λ v. Move (started i) (view s) (record { count = s.next; waits = v; running = some i }))
      (waits_of-set i dispatching s.stage)
      (launch i (view s) (rw w refl) h
        ((Reachable-Ordered s r).live_last i (subst IsLive (sym w) tt) c))
Step-Move _ _ r (answers i s d) =
    subst (λ v. Move (completed i) (view s) (record { count = s.next; waits = v; running = none }))
      (waits_of-answered i s.stage d) (complete i (view s) ((Reachable-Ordered s r).in_holder i d))

-- The daemon refines the specification: each of its histories is allowed, with the same requests
-- waiting and the same one running at its end.
pub History-Allowed : (as' : List Action) (s : State) → History as' s → Allowed as' (view s)
unfolding initial
History-Allowed _ _ empty = nothing
History-Allowed _ _ (longer a as' s t h p e) =
    more a as' (view s) (view t) (History-Allowed as' s h)
      (subst (λ b. Move b (view s) (view t)) (sym e) (Step-Move s t (History-Reachable as' s h) p))
