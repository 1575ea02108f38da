-- ===== src/Cli/Session/Logs.antt =====
-- cmd/yaasa/main.go: what the commands do with the daemon, each for itself.
use yaasa_go.Prelude.{List, [], ◌∷◌, Option, none, some, Bool, true, false, Text, All, All-append}
use yaasa_go.Result.{Result, ok, err}
use yaasa_go.Float.{FloatOps}
use yaasa_go.Ipc.{Request}
use yaasa_go.Ipc.Client.{stop_request}
use yaasa_go.Cli.{World, resolve_address, save_default_address}
use yaasa_go.Cli.Daemon.{run_interruptible, Ending, returned, signalled, ensure_daemon_client}
use yaasa_go.Cli.Session.{
  Host, Trail, Cmd, Line, Action, opened, closed, asked, ◌>>=◌, then_run, give, does, show, closing,
  ask, saved, ensured, resolved, auto_daemon_client, Signal, never, early, late, interruptible,
  result_by, stops, stops_after,
}

-- Connections are no matter, and each request has the property.
abbrev pub Asks : {F : Type 0} → (Request F → Type 0) → Action F → Type 0
Asks P opened = Unit
Asks P closed = Unit
Asks P (asked q) = P q

module _ {F : Type 0} (P : Request F → Type 0) where
  abbrev pub IsLogged : Trail F → Type 0
  IsLogged t = All (Asks P) t.log

  -- The command asks only for what has the property.
  abbrev pub AsksOnly : {A : Type 0} → Cmd F A → Type 0
  AsksOnly m = (t : Trail F) → IsLogged t → IsLogged (m t).1

  does-IsLogged : (a : Action F) (t : Trail F) → Asks P a → IsLogged t → IsLogged (does a t)
  does-IsLogged a t p v = All-append (Asks P) t.log (a ∷ []) v (p, tt)

  pub then-AsksOnly :
      {A B : Type 0} (m : Cmd F A) (f : A → Cmd F B)
      → AsksOnly m
      → ((a : A) → AsksOnly (f a))
      → AsksOnly (m >>= f)
  then-AsksOnly {A} {B} m f v w t l = then_run-IsLogged (m t) (v t l)
    where
      then_run-IsLogged :
          (x : Option (Result A) × Trail F) → IsLogged x.1 → IsLogged (then_run x f).1
      then_run-IsLogged (none, u) k = k
      then_run-IsLogged (some (ok a), u) k = w a u k
      then_run-IsLogged (some (err e), u) k = k

  pub give-AsksOnly : {A : Type 0} (r : Result A) → AsksOnly (give r)
  give-AsksOnly r t v = v

  pub show-AsksOnly : (ls : List (Line F)) → AsksOnly (show ls)
  show-AsksOnly ls t v = v

  closed-IsLogged :
      {A : Type 0} (x : Option (Result A) × Trail F)
      → IsLogged x.1
      → IsLogged (closing (λ _. x) x.1).1
  closed-IsLogged (none, t) v = v
  closed-IsLogged (some r, t) v = does-IsLogged closed t tt v

  pub ask-AsksOnly : (h : Host F) (q : Request F) → P q → AsksOnly (ask h q)
  unfolding ask
  ask-AsksOnly h q p t v = does-IsLogged (asked q) t p v

  saved-IsLogged :
      (h : Host F) (addr : Text) (t : Trail F) (x : Result (Unit {0}) × World)
      → IsLogged t
      → IsLogged (saved h addr t x).1
  saved-IsLogged h addr t (ok _, w) v = v
  saved-IsLogged h addr t (err e, w) v = does-IsLogged closed (record t { world = w }) tt v

  ensured-AsksOnly :
      (h : Host F) (addr : Text) (r : Option (Result (Unit {0}))) → AsksOnly (ensured h addr r)
  ensured-AsksOnly h addr none t v = v
  ensured-AsksOnly h addr (some (err e)) t v = v
  ensured-AsksOnly h addr (some (ok _)) t v =
      saved-IsLogged h addr (does opened t) (save_default_address addr t.world)
        (does-IsLogged opened t tt v)

  resolved-AsksOnly : (h : Host F) (r : Result Text) → AsksOnly (resolved h r)
  resolved-AsksOnly h (err e) t v = v
  resolved-AsksOnly h (ok addr) t v =
      ensured-AsksOnly h addr
        (ensure_daemon_client h.connect_timeout (h.answers addr) (h.start addr) h.probes) t v

  pub with_client-AsksOnly :
      (h : Host F) (args : List Text) (m : Cmd F (Unit {0}))
      → AsksOnly m
      → AsksOnly (auto_daemon_client h args >>= λ addr. closing m)
  unfolding auto_daemon_client
  with_client-AsksOnly h args m v =
      then-AsksOnly (auto_daemon_client h args) (λ addr. closing m)
        (λ t l. resolved-AsksOnly h (resolve_address args t.world) t l)
        (λ a t l. closed-IsLogged (m t) (v t l))

  result_by-IsLogged :
      (f : Result (Unit {0}) → Ending) (x : Option (Result (Unit {0})) × Trail F)
      → IsLogged x.1
      → IsLogged (result_by f x).1
  result_by-IsLogged f (none, t) v = v
  result_by-IsLogged f (some r, t) v = v

  module _ ⦃o : FloatOps F⦄ (p : P stop_request) where
    stops-IsLogged : (b : Bool) (t : Trail F) → IsLogged t → IsLogged (stops b t)
    stops-IsLogged false t v = v
    stops-IsLogged true t v =
        let u = does opened t in
        let w = does (asked stop_request) u in
        does-IsLogged closed w tt
          (does-IsLogged (asked stop_request) u p (does-IsLogged opened t tt v))

    stops_after-IsLogged :
        (b : Bool) (x : Option (Result (Unit {0})) × Trail F)
        → IsLogged x.1
        → IsLogged (stops_after b x).1
    stops_after-IsLogged b (none, t) v = v
    stops_after-IsLogged b (some r, t) v = stops-IsLogged b t v

    pub interruptible-AsksOnly :
        (s : Signal) (m : Cmd F (Unit {0})) → AsksOnly m → AsksOnly (interruptible s m)
    unfolding interruptible
    interruptible-AsksOnly never m v t l = result_by-IsLogged returned (m t) (v t l)
    interruptible-AsksOnly (early d) m v t l =
        let u = stops (run_interruptible (signalled d)).1 t in
        result_by-IsLogged (λ r. signalled d) (m u)
          (v u (stops-IsLogged (run_interruptible (signalled d)).1 t l))
    interruptible-AsksOnly (late d) m v t l =
        stops_after-IsLogged (run_interruptible (signalled d)).1
          (result_by (λ r. signalled d) (m t)) (result_by-IsLogged (λ r. signalled d) (m t) (v t l))
