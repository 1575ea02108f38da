-- ===== src/Cli/Detached.antt =====
-- cmd/yaasa/main.go: `ensureDaemonClient` with `startDetachedDaemon`, the start of a daemon in the
-- background. The operating system's calls are parameters.
pub mod Launches
use yaasa_go.Prelude.{
  ℕ, ◌+◌, ◌≤◌, Bool, true, false, Option, none, some, List, [], ◌∷◌, ◌++◌, Text, String, ◌≡◌, refl,
  if◌then◌else◌, arith, ◌⊎◌, inl, inr, ap, sym, ◌∙◌, append_assoc, ◌<◌, Bool-cases, leb,
}
use yaasa_go.Result.{Result, ok, err, Error, M, ◌>>=◌, ◌>>◌, return, wrap}
use yaasa_go.Cli.Daemon.{Places, daemon_log_path, ensure_daemon_client, await_daemon}
use yaasa_go.Schedule.{Among}

-- An argument of the new process: a word of the program, or a text.
pub data Arg : Type 0 where
  word : String → Arg
  text : Text → Arg

-- What the calls of the operating system do, in order.
pub data Effect : Type 0 where
  log_opened : Text → Effect
  log_closed : Effect
  process_started : Text → List Arg → Effect
  process_released : Effect

-- What these calls return, and the flags `--connect-timeout`, also as a text, and `--verbose`.
pub record System : Type 0 where
  pub executable : Result Text
  pub open_log : Result (Unit {0})
  pub start : Result (Unit {0})
  pub release : Result (Unit {0})
  pub places : Places
  pub connect_timeout : ℕ
  pub timeout_text : Text
  pub flag_verbose : Bool

-- A call with an effect when it succeeds.
abbrev pub effected : Result (Unit {0}) → Effect → M (List Effect) (Unit {0})
effected (ok _) e s = (ok tt, s ++ e ∷ [])
effected (err x) e s = (err x, s)

-- `defer logFile.Close()`
abbrev pub log_closing : {A : Type 0} → Result A × List Effect → Result A × List Effect
log_closing (r, s) = (r, s ++ log_closed ∷ [])

module _ (sys : System) (addr : Text) where
  unfoldable pub daemon_args : List Arg
  daemon_args =
      (word "--connect-timeout" ∷ text sys.timeout_text ∷ [])
      ++ (if sys.flag_verbose then word "--verbose" ∷ [] else [])
      ++ word "daemon" ∷ text addr ∷ []

  abbrev pub log_path : Text
  log_path = daemon_log_path sys.places addr

  -- Behind the opening of the log file.
  abbrev pub launched : Text → M (List Effect) Text
  launched exe s = log_closing (
      (wrap "start daemon process" (effected sys.start (process_started exe daemon_args))
          >> wrap "release daemon process" (effected sys.release process_released)
          >> return log_path)
        s)

  abbrev pub launched_by : Result Text → M (List Effect) Text
  launched_by (err e) = wrap "find executable" (λ s. (err e, s))
  launched_by (ok exe) =
      wrap "open daemon log" (effected sys.open_log (log_opened log_path)) >>= λ _. launched exe

  unfoldable pub start_detached_daemon : M (List Effect) Text
  unfolding daemon_args
  start_detached_daemon = launched_by sys.executable

  abbrev forgotten : Result Text → Result (Unit {0})
  forgotten (ok path) = ok tt
  forgotten (err e) = err e

  -- The probes for the new daemon follow its start.
  abbrev pub awaited :
      List (ℕ × Bool) → Result Text × List Effect → Option (Result (Unit {0})) × List Effect
  awaited probes (r, s) = (ensure_daemon_client sys.connect_timeout false (forgotten r) probes, s)

  -- `ensureDaemonClient`, where `running` says whether the first dial succeeds.
  unfoldable pub ensure_daemon :
      Bool → List (ℕ × Bool) → List Effect → Option (Result (Unit {0})) × List Effect
  unfolding start_detached_daemon
  ensure_daemon true probes s = (some (ok tt), s)
  ensure_daemon false probes s = awaited probes (start_detached_daemon s)
