-- ===== src/Cli/Session/Balance.antt =====
-- cmd/yaasa/main.go: counting the connections to the daemon.
use yaasa_go.Prelude.{
  ℕ, ◌+◌, suc, List, [], ◌∷◌, ◌++◌, Option, none, some, Bool, true, false, Text, ◌≡◌, arith,
}
use yaasa_go.Result.{Result, ok, err}
use yaasa_go.Float.{FloatOps}
use yaasa_go.Ipc.{Request}
use yaasa_go.Ipc.Client.{do_request, stop_request}
use yaasa_go.Cli.{World, resolve_address, save_default_address}
use yaasa_go.Cli.Daemon.{run_interruptible, Ending, returned, signalled, ensure_daemon_client}
use yaasa_go.Cli.Session.{
  Host, Trail, Cmd, Line, Action, opened, closed, asked, ◌>>=◌, then_run, give, does, show, closing,
  ignore, ask, saved, ensured, resolved, auto_daemon_client, Signal, never, early, late,
  interruptible, result_by, stops, stops_after, response_of,
}

-- The connections that are opened, and those that are closed.
unfoldable pub opens : {F : Type 0} → List (Action F) → ℕ
opens [] = 0
opens (opened ∷ as') = suc (opens as')
opens (_ ∷ as') = opens as'

unfoldable pub closes : {F : Type 0} → List (Action F) → ℕ
closes [] = 0
closes (closed ∷ as') = suc (closes as')
closes (_ ∷ as') = closes as'

opens-append : {F : Type 0} (xs ys : List (Action F)) → opens (xs ++ ys) ≡ opens xs + opens ys
unfolding opens
opens-append [] ys = omega arith
opens-append (opened ∷ xs) ys = omega (arith, opens-append xs ys)
opens-append (closed ∷ xs) ys = opens-append xs ys
opens-append (asked q ∷ xs) ys = opens-append xs ys

closes-append : {F : Type 0} (xs ys : List (Action F)) → closes (xs ++ ys) ≡ closes xs + closes ys
unfolding closes
closes-append [] ys = omega arith
closes-append (opened ∷ xs) ys = closes-append xs ys
closes-append (closed ∷ xs) ys = omega (arith, closes-append xs ys)
closes-append (asked q ∷ xs) ys = closes-append xs ys

-- With `n` connections that are open.
abbrev pub Open : {F : Type 0} → ℕ → Trail F → Type 0
Open n t = opens t.log ≡ n + closes t.log

module _ {F : Type 0} where
  pub does-opened : (n : ℕ) (t : Trail F) → Open n t → Open (suc n) (does opened t)
  unfolding opens closes
  does-opened n t v =
      omega (arith, opens-append t.log (opened ∷ []), closes-append t.log (opened ∷ []))

  does-closed : (n : ℕ) (t : Trail F) → Open (suc n) t → Open n (does closed t)
  unfolding opens closes
  does-closed n t v =
      omega (arith, opens-append t.log (closed ∷ []), closes-append t.log (closed ∷ []))

  does-asked : (n : ℕ) (q : Request F) (t : Trail F) → Open n t → Open n (does (asked q) t)
  unfolding opens closes
  does-asked n q t v =
      omega (arith, opens-append t.log (asked q ∷ []), closes-append t.log (asked q ∷ []))

  -- What is open when a command has returned: `b` with a value, and `c` with an error.
  abbrev pub Ends : {A : Type 0} → ℕ → ℕ → Option (Result A) × Trail F → Type 0
  Ends b c (none, t) = Unit
  Ends b c (some (ok a), t) = Open b t
  Ends b c (some (err e), t) = Open c t

  abbrev pub IsEven : {A : Type 0} → Cmd F A → Type 0
  IsEven m = (n : ℕ) (t : Trail F) → Open n t → Ends n n (m t)

  pub some-Ends :
      {A : Type 0} (n : ℕ) (r : Result A) (t : Trail F) → Open n t → Ends n n (some r, t)
  some-Ends n (ok a) t v = v
  some-Ends n (err e) t v = v

  pub then_run-Ends :
      {A B : Type 0} (n b : ℕ) (x : Option (Result A) × Trail F) (f : A → Cmd F B)
      → Ends b n x
      → ((a : A) (t : Trail F) → Open b t → Ends n n (f a t))
      → Ends n n (then_run x f)
  then_run-Ends n b (none, t) f v w = tt
  then_run-Ends n b (some (ok a), t) f v w = w a t v
  then_run-Ends n b (some (err e), t) f v w = v

  pub then-IsEven :
      {A B : Type 0} (m : Cmd F A) (f : A → Cmd F B)
      → IsEven m
      → ((a : A) → IsEven (f a))
      → IsEven (m >>= f)
  then-IsEven m f v w n t o = then_run-Ends n n (m t) f (v n t o) (λ a u p. w a n u p)

  pub give-IsEven : {A : Type 0} (r : Result A) → IsEven (give r)
  give-IsEven r n t o = some-Ends n r t o

  pub show-IsEven : (ls : List (Line F)) → IsEven (show ls)
  show-IsEven ls n t o = o

  closed-Ends :
      {A : Type 0} (n : ℕ) (x : Option (Result A) × Trail F)
      → Ends (suc n) (suc n) x
      → Ends n n (closing (λ _. x) x.1)
  closed-Ends n (none, t) v = tt
  closed-Ends n (some (ok a), t) v = does-closed n t v
  closed-Ends n (some (err e), t) v = does-closed n t v

  pub closing-Ends :
      {A : Type 0} (m : Cmd F A) (n : ℕ) (t : Trail F)
      → IsEven m
      → Open (suc n) t
      → Ends n n (closing m t)
  closing-Ends m n t v o = closed-Ends n (m t) (v (suc n) t o)

  ignored-Ends :
      {A : Type 0} (n : ℕ) (x : Option (Result A) × Trail F)
      → Ends n n x
      → Ends n n (ignore (λ _. x) x.1)
  ignored-Ends n (none, t) v = tt
  ignored-Ends n (some (ok a), t) v = v
  ignored-Ends n (some (err e), t) v = v

  pub ignore-IsEven : {A : Type 0} (m : Cmd F A) → IsEven m → IsEven (ignore m)
  ignore-IsEven m v n t o = ignored-Ends n (m t) (v n t o)

  result_by-Ends :
      (n : ℕ) (f : Result (Unit {0}) → Ending) (x : Option (Result (Unit {0})) × Trail F)
      → Ends n n x
      → Ends n n (result_by f x)
  result_by-Ends n f (none, t) v = tt
  result_by-Ends n f (some (ok a), t) v = some-Ends n (run_interruptible (f (ok a))).0 t v
  result_by-Ends n f (some (err e), t) v = some-Ends n (run_interruptible (f (err e))).0 t v

module _ {F : Type 0} ⦃o : FloatOps F⦄ where
  stops-Open : (b : Bool) (n : ℕ) (t : Trail F) → Open n t → Open n (stops b t)
  stops-Open false n t v = v
  stops-Open true n t v =
      let u = does opened t in
      let w = does (asked stop_request) u in
      does-closed n w (does-asked (suc n) stop_request u (does-opened n t v))

  stops_after-Ends :
      (b : Bool) (n : ℕ) (x : Option (Result (Unit {0})) × Trail F)
      → Ends n n x
      → Ends n n (stops_after b x)
  stops_after-Ends b n (none, t) v = tt
  stops_after-Ends b n (some (ok a), t) v = stops-Open b n t v
  stops_after-Ends b n (some (err e), t) v = stops-Open b n t v

  pub interruptible-IsEven :
      (s : Signal) (m : Cmd F (Unit {0})) → IsEven m → IsEven (interruptible s m)
  unfolding interruptible
  interruptible-IsEven never m v n t w = result_by-Ends n returned (m t) (v n t w)
  interruptible-IsEven (early d) m v n t w =
      let u = stops (run_interruptible (signalled d)).1 t in
      result_by-Ends n (λ r. signalled d) (m u)
        (v n u (stops-Open (run_interruptible (signalled d)).1 n t w))
  interruptible-IsEven (late d) m v n t w =
      stops_after-Ends (run_interruptible (signalled d)).1 n (result_by (λ r. signalled d) (m t))
        (result_by-Ends n (λ r. signalled d) (m t) (v n t w))

module _ {F : Type 0} (h : Host F) where
  pub ask-IsEven : (q : Request F) → IsEven (ask h q)
  unfolding ask
  ask-IsEven q n t v =
      some-Ends n (response_of (do_request h.link q)) (does (asked q) t) (does-asked n q t v)

  saved-Ends :
      (n : ℕ) (addr : Text) (t : Trail F) (x : Result (Unit {0}) × World)
      → Open (suc n) t
      → Ends (suc n) n (saved h addr t x)
  saved-Ends n addr t (ok _, w) v = v
  saved-Ends n addr t (err e, w) v = does-closed n (record t { world = w }) v

  ensured-Ends :
      (n : ℕ) (addr : Text) (r : Option (Result (Unit {0}))) (t : Trail F)
      → Open n t
      → Ends (suc n) n (ensured h addr r t)
  ensured-Ends n addr none t v = tt
  ensured-Ends n addr (some (err e)) t v = v
  ensured-Ends n addr (some (ok _)) t v =
      saved-Ends n addr (does opened t) (save_default_address addr t.world) (does-opened n t v)

  resolved-Ends :
      (n : ℕ) (r : Result Text) (t : Trail F) → Open n t → Ends (suc n) n (resolved h r t)
  resolved-Ends n (err e) t v = v
  resolved-Ends n (ok addr) t v =
      ensured-Ends n addr
        (ensure_daemon_client h.connect_timeout (h.answers addr) (h.start addr) h.probes) t v

  -- A command that gets a client and closes it.
  pub with_client-IsEven :
      (args : List Text) (m : Cmd F (Unit {0}))
      → IsEven m
      → IsEven (auto_daemon_client h args >>= λ addr. closing m)
  unfolding auto_daemon_client
  with_client-IsEven args m v n t w =
      then_run-Ends n (suc n) (resolved h (resolve_address args t.world) t) (λ addr. closing m)
        (resolved-Ends n (resolve_address args t.world) t w) (λ a u p. closing-Ends m n u v p)
