-- ===== src/Cli/Session.antt =====
-- cmd/yaasa/main.go: what the commands share: a client of the daemon that serves the desk, its
-- requests, and their interruption. Progress messages are left out.
pub mod Balance
pub mod Logs
pub mod Success
pub mod Default
use yaasa_go.Prelude.{ℕ, List, [], ◌∷◌, ◌++◌, Option, none, some, Bool, true, false, Text, String}
use yaasa_go.Prelude.Int.{ℤ}
use yaasa_go.Result.{Result, ok, err, Error, message}
use yaasa_go.Float.{FloatOps}
use yaasa_go.Stats.{Hms}
use yaasa_go.Ipc.{Request, Response}
use yaasa_go.Ipc.Client.{Link, do_request, stop_request}
use yaasa_go.Cli.{World, resolve_address, save_default_address}
use yaasa_go.Cli.Daemon.{ensure_daemon_client, Ending, returned, signalled, run_interruptible}

-- What a command does with the daemon. `opened` and `closed` are a connection.
pub data Action (F : Type 0) : Type 0 where
  opened closed : Action F
  asked : Request F → Action F

-- What a command prints. A height has the flag `--inches`.
pub data Line (F : Type 0) : Type 0 where
  address_line : String → Line F
  field : String → String → Line F
  notifications connected : Bool → Line F
  height_line : F → Bool → Line F
  stand_line sit_line : Hms → Line F
  not_running running stopped : Text → Line F
  arrived : F → Line F

-- What a command meets outside: whether a daemon answers at the socket of an address, how starting
-- one goes and what the probes for it find, the connection, and `strconv.ParseFloat` and `Atoi`.
pub record Host (F : Type 0) : Type 0 where
  pub connect_timeout : ℕ
  pub answers : Text → Bool
  pub start : Text → Result (Unit {0})
  pub probes : List (ℕ × Bool)
  pub link : Link F
  pub parse_float : Text → Result F
  pub atoi : Text → Option ℤ

-- What a command leaves.
pub record Trail (F : Type 0) : Type 0 where
  pub world : World
  pub log : List (Action F)
  pub shown : List (Line F)

-- A command has a result once it has returned.
abbrev pub Cmd : Type 0 → Type 0 → Type 0
Cmd F A = Trail F → Option (Result A) × Trail F

abbrev pub then_run :
    {F A B : Type 0} → Option (Result A) × Trail F → (A → Cmd F B) → Option (Result B) × Trail F
then_run (none, t) f = (none, t)
then_run (some (err e), t) f = (some (err e), t)
then_run (some (ok a), t) f = f a t

infixl 5 ◌>>=◌
abbrev pub ◌>>=◌ : {F A B : Type 0} → Cmd F A → (A → Cmd F B) → Cmd F B
◌>>=◌ m f t = then_run (m t) f

abbrev pub give : {F A : Type 0} → Result A → Cmd F A
give r t = (some r, t)

abbrev pub does : {F : Type 0} → Action F → Trail F → Trail F
does a t = record t { log = t.log ++ a ∷ [] }

abbrev pub show : {F : Type 0} → List (Line F) → Cmd F (Unit {0})
show ls t = (some (ok tt), record t { shown = t.shown ++ ls })

-- `defer c.Close()`
abbrev closed_after : {F A : Type 0} → Option (Result A) × Trail F → Option (Result A) × Trail F
closed_after (none, t) = (none, t)
closed_after (some r, t) = (some r, does closed t)

abbrev pub closing : {F A : Type 0} → Cmd F A → Cmd F A
closing m t = closed_after (m t)

-- A call that drops the error.
abbrev ignored : {F A : Type 0} → Option (Result A) × Trail F → Option (Result (Unit {0})) × Trail F
ignored (none, t) = (none, t)
ignored (some r, t) = (some (ok tt), t)

abbrev pub ignore : {F A : Type 0} → Cmd F A → Cmd F (Unit {0})
ignore m t = ignored (m t)

-- The response and error of a client method; `Do` gives one of them.
abbrev pub response_of : {F : Type 0} → Option (Response F) × Option Error → Result (Response F)
response_of (r, some e) = err e
response_of (some r, none) = ok r
response_of (none, none) = err (message "")

module _ {F : Type 0} (h : Host F) where
  -- A method of the client.
  unfoldable pub ask : Request F → Cmd F (Response F)
  ask q t = (some (response_of (do_request h.link q)), does (asked q) t)

  -- `if err := saveDefaultAddress(addr); err != nil { c.Close(); ... }`
  abbrev pub saved : Text → Trail F → Result (Unit {0}) × World → Option (Result Text) × Trail F
  saved addr t (ok _, w) = (some (ok addr), record t { world = w })
  saved addr t (err e, w) = (some (err e), does closed (record t { world = w }))

  abbrev pub ensured : Text → Option (Result (Unit {0})) → Cmd F Text
  ensured addr none t = (none, t)
  ensured addr (some (err e)) t = (some (err e), t)
  ensured addr (some (ok _)) t = saved addr (does opened t) (save_default_address addr t.world)

  abbrev pub resolved : Result Text → Cmd F Text
  resolved (err e) t = (some (err e), t)
  resolved (ok addr) t =
      ensured addr (ensure_daemon_client h.connect_timeout (h.answers addr) (h.start addr) h.probes)
        t

  -- `autoDaemonClient`: the address, with a client that is open.
  unfoldable pub auto_daemon_client : List Text → Cmd F Text
  auto_daemon_client args t = resolved (resolve_address args t.world) t

-- When a signal comes: not before the command returns, or before or after its request is sent, with
-- whether the fresh connection can be made.
pub data Signal : Type 0 where
  never : Signal
  early late : Bool → Signal

abbrev pub result_by :
    {F : Type 0}
    → (Result (Unit {0}) → Ending)
    → Option (Result (Unit {0})) × Trail F
    → Option (Result (Unit {0})) × Trail F
result_by f (none, t) = (none, t)
result_by f (some r, t) = (some (run_interruptible (f r)).0, t)

module _ {F : Type 0} ⦃o : FloatOps F⦄ where
  -- The stop over a connection of its own, if one is made.
  abbrev pub stops : Bool → Trail F → Trail F
  stops false t = t
  stops true t = does closed (does (asked stop_request) (does opened t))

  abbrev pub stops_after :
      Bool → Option (Result (Unit {0})) × Trail F → Option (Result (Unit {0})) × Trail F
  stops_after b (none, t) = (none, t)
  stops_after b (some r, t) = (some r, stops b t)

  -- `runInterruptible` around the function `m`.
  unfoldable pub interruptible : Signal → Cmd F (Unit {0}) → Cmd F (Unit {0})
  interruptible never m t = result_by returned (m t)
  interruptible (early d) m t =
      result_by (λ r. signalled d) (m (stops (run_interruptible (signalled d)).1 t))
  interruptible (late d) m t =
      stops_after (run_interruptible (signalled d)).1 (result_by (λ r. signalled d) (m t))
