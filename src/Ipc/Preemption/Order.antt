-- ===== src/Ipc/Preemption/Order.antt =====
-- internal/ipc/server.go: the invariant of the preemption of `handle`.
use yaasa_go.Prelude.{
  set, set-cases, set-other, ℕ, suc, ◌<◌, Bool, true, false, ◌||◌, Option, none, some, ◌≡◌, ◌≢◌,
  refl, ap, sym, subst, ◌∙◌, arith,
}
use yaasa_go.Ipc.Preemption.{
  Stage, absent, waiting, dispatching, preempted, answered, State, cancel_current, initial,
  register, bail, enter, answer, Step, registers, bails, enters, answers, Reachable, begin, onward,
}

-- A goroutine that has not finished.
abbrev pub IsLive : Stage → Type 0
IsLive waiting = Unit
IsLive dispatching = Unit
IsLive _ = ⊥

pub record Ordered (s : State) : Type 0 where
  pub holder_in : (i : ℕ) → s.holder ≡ some i → s.stage i ≡ dispatching
  pub in_holder : (i : ℕ) → s.stage i ≡ dispatching → s.holder ≡ some i
  pub known : (i : ℕ) → s.stage i ≢ absent → i < s.next
  pub current_last : (i : ℕ) → suc i ≡ s.next → s.current ≡ some i
  pub live_last : (i : ℕ) → IsLive (s.stage i) → s.cancelled i ≡ false → suc i ≡ s.next
  pub last_live : (i : ℕ) → suc i ≡ s.next → IsLive (s.stage i) → s.cancelled i ≡ false
  pub superseded : (i : ℕ) → s.stage i ≡ preempted → suc i < s.next
  pub quit_answered : s.closed ≡ true → (i : ℕ) × ((s.stage i ≡ answered) × (s.is_quit i ≡ true))

initial-Ordered : Ordered initial
unfolding initial
initial-Ordered = record {
  holder_in = λ i e. cc;
  in_holder = λ i e. cc;
  known = λ i e. absurd (e refl);
  current_last = λ i e. absurd (omega arith);
  live_last = λ i h e. absurd h;
  last_live = λ i e h. absurd h;
  superseded = λ i e. cc;
  quit_answered = λ e. cc;
}

pub some-inj : (j i : ℕ) → some j ≡ some i → i ≡ j
some-inj j i r = cc

cancel_current-false :
    (c : Option ℕ) (f : ℕ → Bool) (i : ℕ)
    → cancel_current c f i ≡ false
    → (f i ≡ false) × (c ≢ some i)
cancel_current-false none f i e = (e, λ q. cc)
cancel_current-false (some j) f i e =
    set-cases (λ k x. x ≡ false → (f i ≡ false) × (some j ≢ some i)) j true f i (λ q h. cc)
      (λ q h. (h, λ r. q (some-inj j i r))) e

module _ (s : State) (o : Ordered s) where
  pub live-known : (i : ℕ) → IsLive (s.stage i) → i < s.next
  live-known i h = o.known i (λ e. subst IsLive e h)

  stage-known : (i : ℕ) (x : Stage) → s.stage i ≡ x → x ≢ absent → i ≢ s.next
  stage-known i x e h q = let k = o.known i (λ a. h (sym e ∙ a)) in omega arith

  register-Ordered : (quit : Bool) → Ordered (register quit s)
  unfolding register
  register-Ordered quit = record {
    holder_in = λ i e.
        set-cases (λ j x. x ≡ dispatching) s.next waiting s.stage i
          (λ q. absurd (stage-known i dispatching (o.holder_in i e) (λ h. cc) q))
          (λ q. o.holder_in i e);
    in_holder = λ i.
        set-cases (λ j x. x ≡ dispatching → s.holder ≡ some j) s.next waiting s.stage i (λ q e. cc)
          (λ q. o.in_holder i);
    known = λ i.
        set-cases (λ j x. x ≢ absent → j < suc s.next) s.next waiting s.stage i (λ q e. omega arith)
          (λ q e. let k = o.known i e in omega arith);
    current_last = λ i e. ap some (omega arith);
    live_last = λ i.
        set-cases
          (λ j x.
            IsLive x
            → set s.next false (cancel_current s.current s.cancelled) j ≡ false
            → suc j ≡ suc s.next)
          s.next waiting s.stage i (λ q h e. omega arith)
          (λ q h e.
            let (f, n) =
              cancel_current-false s.current s.cancelled i
                (sym (set-other s.next false (cancel_current s.current s.cancelled) i q) ∙ e) in
            absurd (n (o.current_last i (o.live_last i h f))));
    last_live = λ i e h.
        set-cases (λ j x. x ≡ false) s.next false (cancel_current s.current s.cancelled) i
          (λ q. refl) (λ q. absurd (q (omega arith)));
    superseded = λ i.
        set-cases (λ j x. x ≡ preempted → suc j < suc s.next) s.next waiting s.stage i (λ q e. cc)
          (λ q e. let k = o.superseded i e in omega arith);
    quit_answered = λ e.
        let (i, (a, b)) = o.quit_answered e in
        let q = stage-known i answered a (λ h. cc) in
        (i, (set-other s.next waiting s.stage i q ∙ a, set-other s.next quit s.is_quit i q ∙ b));
  }

  -- `bail` and `enter` find the mutex free, so that nothing is in `dispatch`.
  free-none : (i : ℕ) → s.holder ≡ none → s.stage i ≢ dispatching
  free-none i h e = let k = o.in_holder i e in cc

  pub cancelled-superseded : (i : ℕ) → s.stage i ≡ waiting → s.cancelled i ≡ true → suc i < s.next
  cancelled-superseded i w c =
      let l = subst IsLive (sym w) tt in
      let k = live-known i l in
      let n : suc i ≢ s.next = λ q. let f = o.last_live i q l in cc in omega arith

  bail-Ordered :
      (i : ℕ) → s.stage i ≡ waiting → s.holder ≡ none → s.cancelled i ≡ true → Ordered (bail i s)
  unfolding bail
  bail-Ordered i w h c = record {
    holder_in = λ j e. cc;
    in_holder = λ j.
        set-cases (λ k x. x ≡ dispatching → s.holder ≡ some k) i preempted s.stage j (λ q e. cc)
          (λ q. o.in_holder j);
    known = λ j.
        set-cases (λ k x. x ≢ absent → k < s.next) i preempted s.stage j
          (λ q e. o.known j (λ r. let t = ap s.stage q in cc)) (λ q. o.known j);
    current_last = o.current_last;
    live_last = λ j.
        set-cases (λ k x. IsLive x → set i true s.cancelled k ≡ false → suc k ≡ s.next) i preempted
          s.stage j (λ q. absurd)
          (λ q l e. o.live_last j l (sym (set-other i true s.cancelled j q) ∙ e));
    last_live = λ j n.
        set-cases (λ k x. IsLive x → set i true s.cancelled k ≡ false) i preempted s.stage j
          (λ q. absurd) (λ q l. set-other i true s.cancelled j q ∙ o.last_live j n l);
    superseded = λ j.
        set-cases (λ k x. x ≡ preempted → suc k < s.next) i preempted s.stage j
          (λ q e. let k = cancelled-superseded i w c in omega arith) (λ q. o.superseded j);
    quit_answered = λ e.
        let (j, (a, b)) = o.quit_answered e in
        (j, (set-other i preempted s.stage j (λ q. let t = ap s.stage q in cc) ∙ a, b));
  }

  enter-Ordered :
      (i : ℕ) → s.stage i ≡ waiting → s.holder ≡ none → s.cancelled i ≡ false → Ordered (enter i s)
  unfolding enter
  enter-Ordered i w h c = record {
    holder_in = λ j e.
        set-cases (λ k x. x ≡ dispatching) i dispatching s.stage j (λ q. refl)
          (λ q. absurd (q (some-inj i j e)));
    in_holder = λ j.
        set-cases (λ k x. x ≡ dispatching → some i ≡ some k) i dispatching s.stage j
          (λ q e. ap some (sym q)) (λ q e. absurd (free-none j h e));
    known = λ j.
        set-cases (λ k x. x ≢ absent → k < s.next) i dispatching s.stage j
          (λ q e. o.known j (λ r. let t = ap s.stage q in cc)) (λ q. o.known j);
    current_last = o.current_last;
    live_last = λ j.
        set-cases (λ k x. IsLive x → s.cancelled k ≡ false → suc k ≡ s.next) i dispatching s.stage j
          (λ q l e. o.live_last j (subst IsLive (sym (ap s.stage q ∙ w)) tt) e)
          (λ q. o.live_last j);
    last_live = λ j n.
        set-cases (λ k x. IsLive x → s.cancelled k ≡ false) i dispatching s.stage j
          (λ q l. ap s.cancelled q ∙ c) (λ q. o.last_live j n);
    superseded = λ j.
        set-cases (λ k x. x ≡ preempted → suc k < s.next) i dispatching s.stage j (λ q e. cc)
          (λ q. o.superseded j);
    quit_answered = λ e.
        let (j, (a, b)) = o.quit_answered e in
        (j, (set-other i dispatching s.stage j (λ q. let t = ap s.stage q in cc) ∙ a, b));
  }

  answer-quit :
      (i : ℕ) (b : Bool)
      → s.is_quit i ≡ b
      → (b || s.closed) ≡ true
      → s.stage i ≡ dispatching
      → (j : ℕ) × ((set i answered s.stage j ≡ answered) × (s.is_quit j ≡ true))
  answer-quit i true q e d = (
    i,
    (set-cases (λ k x. x ≡ answered) i answered s.stage i (λ h. refl) (λ h. absurd (h refl)), q),
  )
  answer-quit i false q e d =
      let (j, (a, b)) = o.quit_answered e in
      (j, (set-other i answered s.stage j (λ h. let t = ap s.stage h in cc) ∙ a, b))

  answer-Ordered : (i : ℕ) → s.stage i ≡ dispatching → Ordered (answer i s)
  unfolding answer
  answer-Ordered i d = record {
    holder_in = λ j e. cc;
    in_holder = λ j.
        set-cases (λ k x. x ≡ dispatching → none ≡ some k) i answered s.stage j (λ q e. cc)
          (λ q e. absurd (q (some-inj i j (sym (o.in_holder i d) ∙ o.in_holder j e))));
    known = λ j.
        set-cases (λ k x. x ≢ absent → k < s.next) i answered s.stage j
          (λ q e. o.known j (λ r. let t = ap s.stage q in cc)) (λ q. o.known j);
    current_last = o.current_last;
    live_last = λ j.
        set-cases (λ k x. IsLive x → set i true s.cancelled k ≡ false → suc k ≡ s.next) i answered
          s.stage j (λ q. absurd)
          (λ q l e. o.live_last j l (sym (set-other i true s.cancelled j q) ∙ e));
    last_live = λ j n.
        set-cases (λ k x. IsLive x → set i true s.cancelled k ≡ false) i answered s.stage j
          (λ q. absurd) (λ q l. set-other i true s.cancelled j q ∙ o.last_live j n l);
    superseded = λ j.
        set-cases (λ k x. x ≡ preempted → suc k < s.next) i answered s.stage j (λ q e. cc)
          (λ q. o.superseded j);
    quit_answered = λ e. answer-quit i (s.is_quit i) refl e d;
  }

Step-Ordered : (s t : State) → Step s t → Ordered s → Ordered t
Step-Ordered _ _ (registers quit s) o = register-Ordered s o quit
Step-Ordered _ _ (bails i s w h c) o = bail-Ordered s o i w h c
Step-Ordered _ _ (enters i s w h c) o = enter-Ordered s o i w h c
Step-Ordered _ _ (answers i s d) o = answer-Ordered s o i d

pub Reachable-Ordered : (s : State) → Reachable s → Ordered s
Reachable-Ordered _ begin = initial-Ordered
Reachable-Ordered _ (onward r s p q) = Step-Ordered r s q (Reachable-Ordered r p)
