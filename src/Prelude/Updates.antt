-- ===== src/Prelude/Updates.antt =====
-- Functions on numbers that are changed at one place.
use Prim.Native.Nat.{ℕ}
use mathlib.Core.Path.{◌≡◌, refl}
use mathlib.Core.Logic.{◌≢◌, inl, inr}
use yaasa_go.Prelude.Tests.{◌==◌, if◌then◌else◌, ==_iff, Bool-cases}

abbrev pub set {ℓ} : {A : Type ℓ} → ℕ → A → (ℕ → A) → ℕ → A
set i a f j = if j == i then a else f j

-- What holds of the changed place and of every other one holds everywhere.
pub set-cases {ℓ κ} :
    {A : Type ℓ} (P : ℕ → A → Type κ) (i : ℕ) (a : A) (f : ℕ → A) (j : ℕ)
    → (j ≡ i → P j a)
    → (j ≢ i → P j (f j))
    → P j (set i a f j)
set-cases P i a f j h k = elim (Bool-cases (j == i)) [
  | inl e ↦ rw e (h ((==_iff j i).0 e))
  | inr e ↦ rw e (k (λ q. let t = (==_iff j i).1 q in cc))
]

pub set-same {ℓ} : {A : Type ℓ} (i : ℕ) (a : A) (f : ℕ → A) → set i a f i ≡ a
set-same i a f = set-cases (λ k x. x ≡ a) i a f i (λ q. refl) (λ q. absurd (q refl))

pub set-other {ℓ} : {A : Type ℓ} (i : ℕ) (a : A) (f : ℕ → A) (j : ℕ) → j ≢ i → set i a f j ≡ f j
set-other i a f j h = set-cases (λ k x. x ≡ f j) i a f j (λ q. absurd (h q)) (λ q. refl)
