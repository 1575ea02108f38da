-- ===== src/Clib/Handles.antt =====
-- clib/clib.go: the handles of desks, and the listeners that C registers and cancels. Desks and cancel
-- functions are shared objects, kept by number; a callback of C is a number.
use yaasa_go.Prelude.{
  set, ℕ, ◌+◌, [], append-nil, Option, none, some, String, ◌==◌, ==_iff, if◌then◌else◌, ◌≡◌, refl,
  ap, sym, ◌∙◌, subst, Bool-cases, inl, inr,
}
use yaasa_go.Result.{ignore}
use yaasa_go.Desk.{
  Desk, disconnect_desk, add_height_listener, cancel_height_listener, add_sit_stand_listener,
  cancel_sit_stand_listener,
}
use yaasa_go.Desk.Listeners.{new_index, remove_at-append}
use yaasa_go.Clib.{Registry, register_cancel, invoke_cancel}
use yaasa_go.Clib.Cancelling.{invoke_cancel-register_cancel}

-- A cancel function: the desk that it holds on to, and the index in its list.
pub data Closure : Type 0 where
  of_height of_stats : ℕ → ℕ → Closure

-- The desks, the handles of `runtime/cgo` with the last one that was given, the cancel functions that
-- were made, and the registry of tokens for these.
pub record Library (F : Type 0) : Type 0 where
  pub desks : ℕ → Desk F
  pub handle : ℕ → Option ℕ
  pub last : ℕ
  pub closures : ℕ → Closure
  pub made : ℕ
  pub registry : Registry

-- `cgo.Handle(handle).Value()`, which panics without a value.
abbrev pub on_value : {A : Type 0} → Option ℕ → (ℕ → A) → Option A
on_value none f = none
on_value (some k) f = some (f k)

set-at : {A : Type 0} (i : ℕ) (a : A) (f : ℕ → A) → set i a f i ≡ a
set-at i a f = rw ((==_iff i i).1 refl) refl

put_back :
    {A : Type 0} (k : ℕ) (y x : A) (f : ℕ → A) (j : ℕ) → y ≡ f k → set k y (set k x f) j ≡ f j
put_back k y x f j e = elim (Bool-cases (j == k)) [
  | inl q ↦ rw q (e ∙ ap f (sym ((==_iff j k).0 q)))
  | inr q ↦ rw q refl
]

module _ {F : Type 0} where
  -- The end of `yaasa_connect`: `cgo.NewHandle` of a new desk.
  unfoldable pub new_handle : Desk F → Library F → ℕ × Library F
  new_handle d lib = (
    lib.last + 1,
    record lib {
      desks = set (lib.last + 1) d lib.desks;
      handle = set (lib.last + 1) (some (lib.last + 1)) lib.handle;
      last = lib.last + 1;
    },
  )

  abbrev deleted : ℕ → Library F → ℕ → Library F
  deleted h lib k = record lib {
    desks = set k (ignore disconnect_desk (lib.desks k)).1 lib.desks;
    handle = set h none lib.handle;
  }

  unfoldable pub yaasa_disconnect : ℕ → Library F → Option (Library F)
  yaasa_disconnect h lib = if h == 0 then some lib else on_value (lib.handle h) (deleted h lib)

  -- `registerCancel` of a new cancel function.
  abbrev pub registered : Closure → Library F → ℕ × Library F
  registered fn lib =
      let (id, r) = register_cancel lib.made lib.registry in
      (
        id,
        record lib { closures = set lib.made fn lib.closures; made = lib.made + 1; registry = r },
      )

  abbrev pub height_listened : ℕ → Library F → ℕ → ℕ × Library F
  height_listened cb lib k =
      let (idx, d) = add_height_listener cb (lib.desks k) in
      registered (of_height k idx) (record lib { desks = set k d lib.desks })

  unfoldable pub yaasa_add_height_listener : ℕ → ℕ → Library F → Option (ℕ × Library F)
  yaasa_add_height_listener h cb lib = on_value (lib.handle h) (height_listened cb lib)

  abbrev stats_listened : ℕ → Library F → ℕ → ℕ × Library F
  stats_listened cb lib k =
      let (idx, d) = add_sit_stand_listener cb (lib.desks k) in
      registered (of_stats k idx) (record lib { desks = set k d lib.desks })

  unfoldable pub yaasa_add_stats_listener : ℕ → ℕ → Library F → Option (ℕ × Library F)
  yaasa_add_stats_listener h cb lib = on_value (lib.handle h) (stats_listened cb lib)

  -- A call of a cancel function.
  abbrev pub called : Closure → Library F → Library F
  called (of_height k idx) lib = record lib {
    desks = set k (cancel_height_listener idx (lib.desks k)) lib.desks;
  }
  called (of_stats k idx) lib = record lib {
    desks = set k (cancel_sit_stand_listener idx (lib.desks k)) lib.desks;
  }

  abbrev pub called_if : Option ℕ → Library F → Library F
  called_if none lib = lib
  called_if (some fn) lib = called (lib.closures fn) lib

  unfoldable pub yaasa_cancel_listener : ℕ → Library F → Library F
  yaasa_cancel_listener id lib =
      let (fn, r) = invoke_cancel id lib.registry in called_if fn (record lib { registry = r })

  unfoldable pub yaasa_device_name : ℕ → Library F → Option String
  yaasa_device_name h lib = on_value (lib.handle h) (λ k. (lib.desks k).info.device_name)

  unfoldable pub yaasa_device_model : ℕ → Library F → Option String
  yaasa_device_model h lib = on_value (lib.handle h) (λ k. (lib.desks k).info.model)

  cancelled-added :
      (cb : ℕ) (d : Desk F)
      → cancel_height_listener (add_height_listener cb d).0 (add_height_listener cb d).1 ≡ d
  unfolding cancel_height_listener add_height_listener
  cancelled-added cb d =
      ap (λ ls. record d { listeners = ls })
        (rw (new_index d.listeners cb)
          (remove_at-append d.listeners [] cb ∙ append-nil d.listeners))

  -- The library when the height listener of a desk is registered and cancelled.
  listened-cancelled :
      (cb k : ℕ) (lib : Library F) (j : ℕ)
      → (yaasa_cancel_listener (height_listened cb lib k).0 (height_listened cb lib k).1).desks j
        ≡ lib.desks j
  unfolding yaasa_cancel_listener
  listened-cancelled cb k lib j =
      let found = (invoke_cancel-register_cancel lib.made lib.registry).0 in
      let (idx, d) = add_height_listener cb (lib.desks k) in
      rw (found, set-at lib.made (of_height k idx) lib.closures)
        (put_back k (cancel_height_listener idx (set k d lib.desks k)) d lib.desks j (
          ap (cancel_height_listener idx) (set-at k d lib.desks)
          ∙ cancelled-added cb (lib.desks k)))

  -- A height listener that C registers and then cancels by its token leaves every desk as it was.
  pub yaasa_cancel_listener-add :
      (h cb id : ℕ) (lib lib' : Library F) (j : ℕ)
      → yaasa_add_height_listener h cb lib ≡ some (id, lib')
      → (yaasa_cancel_listener id lib').desks j ≡ lib.desks j
  unfolding yaasa_add_height_listener
  yaasa_cancel_listener-add h cb id lib lib' j e = go (lib.handle h) e
    where
      go :
          (o : Option ℕ)
          → on_value o (height_listened cb lib) ≡ some (id, lib')
          → (yaasa_cancel_listener id lib').desks j ≡ lib.desks j
      go none q = cc
      go (some k) q =
          let p : height_listened cb lib k ≡ (id, lib') = cc in
          subst (λ x. (yaasa_cancel_listener x.0 x.1).desks j ≡ lib.desks j) p
            (listened-cancelled cb k lib j)
