-- ===== src/Result.antt =====
-- Go's `error` values, and functions that change a state and may fail.
use yaasa_go.Prelude.{ℕ, String, ◌≡◌}
use yaasa_go.Prelude.Int.{ℤ}

-- `foreign` is an error of the BLE stack, the operating system or another library, by number.
-- The others are the errors that the program makes, with their arguments in place of their text:
-- `after e t` is "<e> after <t>", and `hinted e cause` adds the advice of `heightTimeoutError`.
pub data Error : Type 0 where
  foreign : ℕ → Error
  message : String → Error
  wrapped : String → Error → Error
  unsupported_preset : ℤ → Error
  unknown_command : String → Error
  not_reached : String → Error
  preset_incomplete : ℤ → Error
  no_response : ℤ → Error
  after : Error → ℤ → Error
  hinted : Error → Error → Error

pub data Result {ℓ} (A : Type ℓ) : Type ℓ where
  ok : A → Result A
  err : Error → Result A

pub ok-inj : {A : Type 0} (x y : A) → ok x ≡ ok y → x ≡ y
ok-inj x y e = cc

-- A function that returns a value or an error, and the state that it leaves.
abbrev pub M : Type 0 → Type 0 → Type 0
M S A = S → Result A × S

-- `if err != nil { return err }` behind a call.
abbrev pub and_then : {S A B : Type 0} → Result A × S → (A → M S B) → Result B × S
and_then (ok a, s) f = f a s
and_then (err e, s) f = (err e, s)

infixl 5 ◌>>=◌ ◌>>◌
abbrev pub ◌>>=◌ : {S A B : Type 0} → M S A → (A → M S B) → M S B
◌>>=◌ m f s = and_then (m s) f

abbrev pub ◌>>◌ : {S B : Type 0} → M S (Unit {0}) → M S B → M S B
◌>>◌ m k s = and_then (m s) (λ _. k)

abbrev pub return : {S A : Type 0} → A → M S A
return a s = (ok a, s)

abbrev pub throw : {S A : Type 0} → Error → M S A
throw e s = (err e, s)

abbrev pub wrap_result : {S A : Type 0} → String → Result A × S → Result A × S
wrap_result text (ok a, s) = (ok a, s)
wrap_result text (err e, s) = (err (wrapped text e), s)

-- `fmt.Errorf("text: %w", err)` on the error of a call.
abbrev pub wrap : {S A : Type 0} → String → M S A → M S A
wrap text m s = wrap_result text (m s)

abbrev pub ignore_result : {S A : Type 0} → Result A × S → Result (Unit {0}) × S
ignore_result (_, s) = (ok tt, s)

-- A call whose error is dropped, `_ = f()`.
abbrev pub ignore : {S A : Type 0} → M S A → M S (Unit {0})
ignore m s = ignore_result (m s)

abbrev pub undo_after : {S A : Type 0} → M S (Unit {0}) → Result A × S → Result A × S
undo_after undo (ok a, s) = (ok a, s)
undo_after undo (err e, s) = (err e, (undo s).1)

-- A call after whose failure `undo` runs, with its own error dropped: the first error is returned.
abbrev pub on_error : {S A : Type 0} → M S A → M S (Unit {0}) → M S A
on_error m undo s = undo_after undo (m s)
