-- ===== src/Clib/Returns.antt =====
-- clib/clib.go: what the functions of the C interface give back to C: their return codes, the error
-- text behind `err_out`, and the counters behind `out`. A text is the error that it shows.
use yaasa_go.Prelude.{ℕ, List, Option, none, some, String, true, ◌≡◌, refl, sym, ap, ◌∙◌, some-inj}
use yaasa_go.Prelude.Int.{ℤ, pos, negsuc}
use yaasa_go.Result.{Result, ok, err, Error}
use yaasa_go.Float.{FloatOps}
use yaasa_go.Height.{near}
use yaasa_go.Desk.{Desk}
use yaasa_go.Schedule.{Event, Among, reported}
use yaasa_go.Fetch.Hearing.{returned_of-returned}
use yaasa_go.WaitHeight.Arrival.{wait_for_height-arrived}
use yaasa_go.Ipc.Controller.{Controller, desk_controller}
use yaasa_go.Clib.{
  CommandCancels, CStats, yaasa_stop, yaasa_wake, yaasa_move_up, yaasa_move_down, tolerance,
  yaasa_wait_for_height, yaasa_wait_for_preset, yaasa_fetch_stats, yaasa_connect, with_cancel,
}

-- `err_out`: NULL, or a place that holds NULL or a text.
abbrev pub ErrOut : Type 0
ErrOut = Option (Option Error)

-- `setErr`
unfoldable pub set_err : ErrOut → Option Error → ErrOut
set_err none e = none
set_err (some before) e = some e

abbrev pub error_in : {A : Type 0} → Result A → Option Error
error_in (ok a) = none
error_in (err e) = some e

-- `setErr(errOut, err); if err != nil { return -1 }; return 0`
abbrev code : {A : Type 0} → Result A → ℤ
code (ok a) = pos 0
code (err e) = negsuc 0

-- A call that has returned, with its code and the place of its error.
abbrev pub given_back : {A S : Type 0} → ErrOut → Option (Result A) × S → Option (ℤ × ErrOut) × S
given_back p (none, s) = (none, s)
given_back p (some r, s) = (some (code r, set_err p (error_in r)), s)

abbrev at_once : {A S : Type 0} → Result A × S → Option (Result A) × S
at_once (r, s) = (some r, s)

module _ {F S : Type 0} (c : Controller F S) (p : ErrOut) where
  unfoldable pub c_stop : S → Option (ℤ × ErrOut) × S
  unfolding set_err yaasa_stop
  c_stop s = given_back p (at_once (yaasa_stop c s))

  unfoldable pub c_wake : S → Option (ℤ × ErrOut) × S
  unfolding set_err yaasa_wake
  c_wake s = given_back p (at_once (yaasa_wake c s))

  unfoldable pub c_move_up : ℤ → List Event → S → Option (ℤ × ErrOut) × S
  unfolding set_err yaasa_move_up
  c_move_up ms es s = given_back p (yaasa_move_up c ms es s)

  unfoldable pub c_move_down : ℤ → List Event → S → Option (ℤ × ErrOut) × S
  unfolding set_err yaasa_move_down
  c_move_down ms es s = given_back p (yaasa_move_down c ms es s)

-- The counters are written when the call succeeds.
abbrev written_out : Result CStats → CStats → CStats
written_out (ok t) out = t
written_out (err e) out = out

abbrev with_out :
    {S : Type 0} → ErrOut → CStats → Option (Result CStats) × S → Option (ℤ × ErrOut × CStats) × S
with_out p out (none, s) = (none, s)
with_out p out (some r, s) = (some (code r, set_err p (error_in r), written_out r out), s)

-- The handle of the desk `D`, and 0 where there is none.
abbrev connected : {D : Type 0} → (D → ℕ) → Result D → ℕ
connected new_handle (ok d) = new_handle d
connected new_handle (err e) = 0

unfoldable pub c_connect :
    {D : Type 0} → (String → ℤ → Result D) → (D → ℕ) → String → ℤ → ErrOut → ℕ × ErrOut
unfolding set_err yaasa_connect
c_connect connect new_handle addr ms p =
    let r = yaasa_connect connect addr ms in (connected new_handle r, set_err p (error_in r))

module _ {F S : Type 0} ⦃o : FloatOps F⦄ (c : Controller F S) (p : ErrOut) where
  unfoldable pub c_wait_for_height :
      ℕ
      → ℕ
      → F
      → F
      → ℤ
      → List Event
      → S × CommandCancels
      → Option (ℤ × ErrOut) × (S × CommandCancels)
  unfolding set_err yaasa_wait_for_height
  c_wait_for_height h fn height tol ms es x =
      given_back p (yaasa_wait_for_height c h fn height tol ms es x)

  unfoldable pub c_wait_for_preset :
      ℕ
      → ℕ
      → ℤ
      → ℤ
      → ℤ
      → List Event
      → S × CommandCancels
      → Option (ℤ × ErrOut) × (S × CommandCancels)
  unfolding set_err yaasa_wait_for_preset
  c_wait_for_preset h fn n ms quiet_ms es x =
      given_back p (yaasa_wait_for_preset c h fn n ms quiet_ms es x)

  unfoldable pub c_fetch_stats : ℤ → CStats → List Event → S → Option (ℤ × ErrOut × CStats) × S
  unfolding set_err yaasa_fetch_stats
  c_fetch_stats ms out es s = with_out p out (yaasa_fetch_stats c ms es s)

given_back-success :
    {A S : Type 0} (p q : ErrOut) (x : Option (Result A) × S)
    → (given_back p x).0 ≡ some (pos 0, q)
    → ((a : A) × (x.0 ≡ some (ok a))) × (q ≡ set_err p none)
given_back-success p q (none, s) h = cc
given_back-success p q (some (ok a), s) h =
    ((a, refl), sym (ap (λ z. z.1) (some-inj (pos 0, set_err p none) (pos 0, q) h)))
given_back-success p q (some (err e), s) h =
    let k = ap (λ z. z.0) (some-inj (negsuc 0, set_err p (some e)) (pos 0, q) h) in cc

with_cancel-result :
    {S : Type 0} (h fn : ℕ) (m : CommandCancels) (x : Option (Result (Unit {0})) × S)
    → (with_cancel h fn m x).0 ≡ x.0
unfolding with_cancel
with_cancel-result h fn m (none, s) = refl
with_cancel-result h fn m (some r, s) = refl

module _ {F : Type 0} ⦃o : FloatOps F⦄ (me : ℕ) (es : List Event) (d : Desk F) where
  -- `yaasa_wait_for_height` returns 0 only if the desk reported a height within the tolerance of the
  -- target during the call, 2 mm if the tolerance is not positive, and then no error text is left
  -- behind `err_out`.
  pub c_wait_for_height-arrived :
      (p q : ErrOut) (h fn : ℕ) (height tol : F) (ms : ℤ) (m : CommandCancels)
      → (c_wait_for_height (desk_controller me) p h fn height tol ms es (d, m)).0 ≡ some (pos 0, q)
      → Among (λ x. near x height (tolerance (desk_controller me) tol) ≡ true) (reported es)
        × (q ≡ set_err p none)
  unfolding c_wait_for_height yaasa_wait_for_height desk_controller
  c_wait_for_height-arrived p q h fn height tol ms m e =
      let ((a, good), cleared) = given_back-success p q _ e in
      (
        wait_for_height-arrived _ me es d
            (returned_of-returned _ (ok tt) (sym (with_cancel-result h fn m _) ∙ good)),
        cleared,
      )
