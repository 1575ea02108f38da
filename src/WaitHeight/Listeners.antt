-- ===== src/WaitHeight/Listeners.antt =====
-- WaitForHeight of desk/monitor.go, while other goroutines add and cancel height listeners of the same
-- desk.
use yaasa_go.Prelude.{
  ℕ, suc, zero, ◌+◌, ◌-◌, ◌<◌, List, [], ◌∷◌, ◌++◌, ◌≡◌, ◌≢◌, refl, ap, subst, sym, ◌∙◌, arith,
  length, All, All-append, append_assoc,
}
use yaasa_go.Result.{Result}
use yaasa_go.Float.{FloatOps}
use yaasa_go.Desk.{Desk, add_height_listener, cancel_height_listener, remove_at}
use yaasa_go.Commands.Wrote.{Wrote-conn}
use yaasa_go.Schedule.{Event, Phase, waking, moving, selecting, returned}
use yaasa_go.WaitHeight.Steps.{take_step_cases}
use yaasa_go.WaitHeight.Effects.{IsOfMove, Listens, Inv, Inv-AllSteps, start-Inv}
use yaasa_go.WaitHeight.{Wait, Aim, start, take_step}

-- A step of the call, and what others do: a listener is added, or the cancel function of the listener
-- with that index is called.
pub data Doing : Type 0 where
  by_call : Event → Doing
  registers cancels : ℕ → Doing

module _ {F : Type 0} ⦃o : FloatOps F⦄ where
  pub happens : Aim F → Doing → Wait F → Wait F
  unfolding take_step
  happens a (by_call e) w = take_step a e w
  happens a (registers cb) w = record w { desk = (add_height_listener cb w.desk).1 }
  happens a (cancels idx) w = record w { desk = cancel_height_listener idx w.desk }

  unfoldable pub run_among : Aim F → List Doing → Wait F → Wait F
  unfolding happens
  run_among a [] w = w
  run_among a (x ∷ xs) w = run_among a xs (happens a x w)

  -- `WaitForHeight` among what others do.
  unfoldable pub wait_among : Aim F → ℕ → List Doing → Desk F → Wait F
  unfolding run_among start
  wait_among a me xs d = run_among a xs (start me d)

remove_at-suc : (i x : ℕ) (xs : List ℕ) → remove_at (suc i) (x ∷ xs) ≡ x ∷ remove_at i xs
remove_at-suc i x xs = let e : suc i + 1 ≡ suc (i + 1) = omega arith in rw e (ground arith)

remove_at-nil : (k : ℕ) → remove_at k [] ≡ []
remove_at-nil k = ground arith

remove_at-zero : (x : ℕ) (xs : List ℕ) → remove_at zero (x ∷ xs) ≡ xs
remove_at-zero x xs = ground arith

remove_at-right :
    (k : ℕ) (ls ms : List ℕ) → remove_at (length ls + k) (ls ++ ms) ≡ ls ++ remove_at k ms
remove_at-right k [] ms = let e : 0 + k ≡ k = omega arith in rw e refl
remove_at-right k (l ∷ ls) ms =
    let e : suc (length ls) + k ≡ suc (length ls + k) = omega arith in
    rw e (remove_at-suc (length ls + k) l (ls ++ ms) ∙ ap (◌∷◌ l) (remove_at-right k ls ms))

All-remove_at : (P : ℕ → Type 0) (k : ℕ) (xs : List ℕ) → All P xs → All P (remove_at k xs)
All-remove_at P zero [] h = tt
All-remove_at P (suc k) [] h = subst (All P) (sym (remove_at-nil (suc k))) tt
All-remove_at P zero (x ∷ xs) h = subst (All P) (sym (remove_at-zero x xs)) h.1
All-remove_at P (suc k) (x ∷ xs) h =
    subst (All P) (sym (remove_at-suc k x xs)) (h.0, All-remove_at P k xs h.1)

-- Others add listeners of their own, and cancel only such as were added after that of the call.
abbrev pub IsLater : ℕ → List ℕ → Doing → Type 0
IsLater me ls (by_call e) = Unit
IsLater me ls (registers cb) = cb ≢ me
IsLater me ls (cancels idx) = length ls < idx

module _ {F : Type 0} ⦃o : FloatOps F⦄ (a : Aim F) where
  registers-Listens :
      (ls later : List ℕ) (cb : ℕ) (p : Phase (Unit {0})) (w : Wait F)
      → Listens ls later p w
      → Listens ls (later ++ cb ∷ []) p (happens a (registers cb) w)
  unfolding happens add_height_listener
  registers-Listens ls later cb (returned r) w h =
      ap (λ x. x ++ cb ∷ []) h ∙ append_assoc ls later (cb ∷ [])
  registers-Listens ls later cb waking w (h, k) =
      (ap (λ x. x ++ cb ∷ []) h ∙ append_assoc ls (w.me ∷ later) (cb ∷ []), k)
  registers-Listens ls later cb moving w (h, k) =
      (ap (λ x. x ++ cb ∷ []) h ∙ append_assoc ls (w.me ∷ later) (cb ∷ []), k)
  registers-Listens ls later cb selecting w (h, k) =
      (ap (λ x. x ++ cb ∷ []) h ∙ append_assoc ls (w.me ∷ later) (cb ∷ []), k)

  -- What is left of the later listeners.
  abbrev left_of : Phase (Unit {0}) → ℕ → List ℕ → List ℕ
  left_of (returned r) k later = remove_at (suc k) later
  left_of _ k later = remove_at k later

  removed :
      (ls later xs : List ℕ) (k me : ℕ)
      → xs ≡ ls ++ me ∷ later
      → remove_at (length ls + suc k) xs ≡ ls ++ me ∷ remove_at k later
  removed ls later xs k me h =
      ap (remove_at (length ls + suc k)) h
      ∙ remove_at-right (suc k) ls (me ∷ later)
      ∙ ap (◌++◌ ls) (remove_at-suc k me later)

  cancels-Listens :
      (ls later : List ℕ) (k : ℕ) (p : Phase (Unit {0})) (w : Wait F)
      → Listens ls later p w
      → Listens ls (left_of p k later) p (happens a (cancels (length ls + suc k)) w)
  unfolding happens cancel_height_listener
  cancels-Listens ls later k (returned r) w h =
      ap (remove_at (length ls + suc k)) h ∙ remove_at-right (suc k) ls later
  cancels-Listens ls later k waking w (h, e) = (removed ls later w.desk.listeners k w.me h, e)
  cancels-Listens ls later k moving w (h, e) = (removed ls later w.desk.listeners k w.me h, e)
  cancels-Listens ls later k selecting w (h, e) = (removed ls later w.desk.listeners k w.me h, e)

  All-left_of :
      (P : ℕ → Type 0) (p : Phase (Unit {0})) (k : ℕ) (later : List ℕ)
      → All P later
      → All P (left_of p k later)
  All-left_of P (returned r) k later h = All-remove_at P (suc k) later h
  All-left_of P waking k later h = All-remove_at P k later h
  All-left_of P moving k later h = All-remove_at P k later h
  All-left_of P selecting k later h = All-remove_at P k later h

  -- The invariant, with some list of later listeners without the own one.
  abbrev AmongOthers : ℕ → Desk F → Wait F → Type 0
  AmongOthers me d w =
      (later : List ℕ) × (All (λ l. l ≢ me) later × Inv (IsOfMove a.target) d later w)

  happens-AmongOthers :
      (me : ℕ) (d : Desk F) (x : Doing) (w : Wait F)
      → IsLater me d.listeners x
      → AmongOthers me d w
      → AmongOthers me d (happens a x w)
  unfolding happens add_height_listener cancel_height_listener
  happens-AmongOthers me d (by_call e) w h (later, (v, i)) = (
    later,
    (v, take_step_cases a (Inv (IsOfMove a.target) d later) e w (Inv-AllSteps a d later w i)),
  )
  happens-AmongOthers me d (registers cb) w h (later, (v, (wrote, l))) = (
    later ++ cb ∷ [],
    (
      All-append (λ l. l ≢ me) later (cb ∷ []) v (h, tt),
      (
        Wrote-conn (IsOfMove a.target) d w.desk _ refl wrote,
        registers-Listens d.listeners later cb w.phase w l,
      ),
    ),
  )
  happens-AmongOthers me d (cancels idx) w h (later, (v, (wrote, l))) =
      let k = idx - length d.listeners - 1 in
      let e : length d.listeners + suc k ≡ idx = omega arith in
      (
        left_of w.phase k later,
        (
          All-left_of (λ l. l ≢ me) w.phase k later v,
          (
            Wrote-conn (IsOfMove a.target) d w.desk _ refl wrote,
            subst
                (λ i.
                  Listens d.listeners (left_of w.phase k later) w.phase (happens a (cancels i) w))
                e (cancels-Listens d.listeners later k w.phase w l),
          ),
        ),
      )

  run-AmongOthers :
      (me : ℕ) (d : Desk F) (xs : List Doing) (w : Wait F)
      → All (IsLater me d.listeners) xs
      → AmongOthers me d w
      → AmongOthers me d (run_among a xs w)
  unfolding run_among
  run-AmongOthers me d [] w h v = v
  run-AmongOthers me d (x ∷ xs) w (h, hs) v =
      run-AmongOthers me d xs (happens a x w) hs (happens-AmongOthers me d x w h v)

  -- While other goroutines add height listeners of their own, and cancel none that was added before
  -- that of the call: when `WaitForHeight` has returned, its own listener is gone, and those from
  -- before the call are all there, in order.
  pub wait_among-listeners :
      (me : ℕ) (xs : List Doing) (d : Desk F) (r : Result (Unit {0}))
      → All (IsLater me d.listeners) xs
      → (wait_among a me xs d).phase ≡ returned r
      → (later : List ℕ) × (All (λ l. l ≢ me) later
          × ((wait_among a me xs d).desk.listeners ≡ d.listeners ++ later))
  unfolding wait_among
  wait_among-listeners me xs d r h e =
      let (later, (v, (wrote, l))) =
        run-AmongOthers me d xs (start me d) h ([], (tt, start-Inv a me d)) in
      (later, (v, subst (λ p. Listens d.listeners later p (run_among a xs (start me d))) e l))
