-- ===== src/Cli/Session/Success.antt =====
-- cmd/yaasa/main.go: what the success of a command says of its parts.
use yaasa_go.Prelude.{
  some-inj, Option, none, some, true, ◌≡◌, refl, sym, subst, if◌then◌else◌, Bool-cases, inl, inr,
  ap, ◌∙◌,
}
use yaasa_go.Result.{ok-inj, Result, ok, err}
use yaasa_go.Float.{FloatOps}
use yaasa_go.Ipc.{Request, Response}
use yaasa_go.Ipc.Client.{do_request, deadline_of, after_send, error_of}
use yaasa_go.Cli.Daemon.{run_interruptible}
use yaasa_go.Cli.Session.{
  Host, Trail, Cmd, then_run, ◌>>=◌, give, closing, response_of, ask, never, interruptible,
}

module _ {F : Type 0} (P : Type 0) where
  -- When the command succeeds, `P` holds.
  abbrev pub Implies : {A : Type 0} → Cmd F A → Type 0
  Implies {A} m = (t : Trail F) (a : A) → (m t).0 ≡ some (ok a) → P

  pub then-Implies :
      {A B : Type 0} (m : Cmd F A) (f : A → Cmd F B) → ((a : A) → Implies (f a)) → Implies (m >>= f)
  then-Implies {A} {B} m f v t b h = then_run-Implies (m t) h
    where
      then_run-Implies : (x : Option (Result A) × Trail F) → (then_run x f).0 ≡ some (ok b) → P
      then_run-Implies (none, u) k = cc
      then_run-Implies (some (err e), u) k = cc
      then_run-Implies (some (ok a), u) k = v a u b k

  pub first-Implies : {A B : Type 0} (m : Cmd F A) (f : A → Cmd F B) → Implies m → Implies (m >>= f)
  first-Implies {A} {B} m f v t b h = then_run-Implies (m t) refl h
    where
      then_run-Implies :
          (x : Option (Result A) × Trail F) → m t ≡ x → (then_run x f).0 ≡ some (ok b) → P
      then_run-Implies (none, u) e k = cc
      then_run-Implies (some (err e'), u) e k = cc
      then_run-Implies (some (ok a), u) e k = v t a (ap (λ z. z.0) e)

  pub closing-Implies : {A : Type 0} (m : Cmd F A) → Implies m → Implies (closing m)
  closing-Implies {A} m v t a h = closed_after-Implies (m t) refl h
    where
      closed_after-Implies :
          (x : Option (Result A) × Trail F) → m t ≡ x → (closing (λ _. x) t).0 ≡ some (ok a) → P
      closed_after-Implies (none, u) e k = cc
      closed_after-Implies (some r, u) e k = v t a (ap (λ z. z.0) e ∙ k)

  pub given-Implies :
      {A B : Type 0} (r : Result A) (a : A) (f : A → Cmd F B)
      → r ≡ ok a
      → Implies (f a)
      → Implies (give r >>= f)
  given-Implies r a f e v = subst (λ x. Implies (give x >>= f)) (sym e) v

module _ {F : Type 0} ⦃o : FloatOps F⦄ (P : Type 0) where
  pub interruptible-Implies :
      (m : Cmd F (Unit {0})) → Implies P m → Implies P (interruptible never m)
  unfolding interruptible run_interruptible
  interruptible-Implies m v t a h = result_by-Implies (m t) refl h
    where
      result_by-Implies :
          (x : Option (Result (Unit {0})) × Trail F)
          → m t ≡ x
          → (interruptible never (λ _. x) t).0 ≡ some (ok a)
          → P
      result_by-Implies (none, u) e k = cc
      result_by-Implies (some r, u) e k = v t a (ap (λ z. z.0) e ∙ k)

module _ {F : Type 0} (h : Host F) where
  response_of-received :
      (sent : Result (Unit {0})) (received : Result (Response F)) (r : Response F)
      → response_of (after_send received sent) ≡ ok r
      → (received ≡ ok r) × (r.is_ok ≡ true)
  response_of-received (err e) x r k = cc
  response_of-received (ok _) (err e) r k = cc
  response_of-received (ok _) (ok x) r k = elim (Bool-cases x.is_ok) [
    | inl b ↦
        let same : ok x ≡ ok r =
          sym (ap (λ z. response_of (some x, if z then none else some (error_of x.error))) b) ∙ k in
        (same, ap (λ y. y.is_ok) (sym (ok-inj x r same)) ∙ b)
    | inr b ↦
        let same : err (error_of x.error) ≡ ok r =
          sym (ap (λ z. response_of (some x, if z then none else some (error_of x.error))) b) ∙ k in
        absurd cc
  ]

  -- A request is answered with success by a response that was received and says so.
  pub ask-Implies :
      (P : Type 0) (q : Request F)
      → ((r : Response F) → h.link.receive (deadline_of q) q ≡ ok r → r.is_ok ≡ true → P)
      → Implies P (ask h q)
  unfolding ask do_request
  ask-Implies P q v t r k =
      let (received, good) =
        response_of-received (h.link.send (deadline_of q) q) (h.link.receive (deadline_of q) q) r
          (some-inj _ _ k) in
      v r received good
