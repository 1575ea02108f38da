-- ===== src/Clib/Cancelling.antt =====
-- clib/clib.go: the registry of cancel functions of listeners.
use yaasa_go.Prelude.{
  set, ℕ, ◌+◌, ◌%◌, ◌^◌, Option, none, some, ◌≡◌, ◌≢◌, refl, ◌==◌, ==_iff, Bool-cases, inl, inr,
}
use yaasa_go.Clib.{Registry, register_cancel, invoke_cancel}

set-same : (i : ℕ) (a : Option ℕ) (f : ℕ → Option ℕ) → set i a f i ≡ a
set-same i a f = rw ((==_iff i i).1 refl) refl

set-other : (i : ℕ) (a : Option ℕ) (f : ℕ → Option ℕ) (j : ℕ) → j ≢ i → set i a f j ≡ f j
set-other i a f j h = elim (Bool-cases (j == i)) [
  | inl e ↦ absurd (h ((==_iff j i).0 e))
  | inr e ↦ rw e refl
]

-- The token of a listener calls its cancel function once, and a second time nothing; the other
-- tokens keep theirs.
pub invoke_cancel-register_cancel :
    (fn : ℕ) (r : Registry)
    → ((invoke_cancel (register_cancel fn r).0 (register_cancel fn r).1).0 ≡ some fn)
      × (((invoke_cancel
              (register_cancel fn r).0
              (invoke_cancel (register_cancel fn r).0 (register_cancel fn r).1).1).0
            ≡ none)
          × ((j : ℕ)
              → j ≢ (register_cancel fn r).0
              → (invoke_cancel j (register_cancel fn r).1).0 ≡ (invoke_cancel j r).0))
unfolding register_cancel invoke_cancel
invoke_cancel-register_cancel fn r =
    let id = (r.seq + 1) % 2 ^ 64 in
    let held = set id (some fn) r.handles in
    (set-same id (some fn) r.handles, (set-same id none held, set-other id (some fn) r.handles))
