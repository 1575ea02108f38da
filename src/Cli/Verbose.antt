-- ===== src/Cli/Verbose.antt =====
-- cmd/yaasa/main.go: the log that the flag `--verbose` puts around every command. The tree of
-- commands is the one that `main` hands over to cobra; what cobra does with it is left out.
pub mod Transparent
use yaasa_go.Prelude.{
  ℕ, zero, suc, ◌-◌, List, [], ◌∷◌, ◌++◌, Option, none, some, Bool, true, false, if◌then◌else◌,
  Text, String,
}
use yaasa_go.Result.{Result, ok, err, Error, M}

-- A line of the log, with its time in nanoseconds.
pub data Entry : Type 0 where
  started : String → List Text → ℕ → Entry
  ended : String → String → ℕ → ℕ → Entry

-- What a command works on, and the log.
pub record Logged (S : Type 0) : Type 0 where
  pub inner : S
  pub entries : List Entry

-- A command of cobra: its path, and its functions `RunE` and `Run`, which may be nil.
pub record Command (S : Type 0) : Type 0 where
  pub path : String
  pub run_e : Option (List Text → M S (Unit {0}))
  pub run : Option (List Text → S → S)

mutual
  -- A command with its children.
  pub data Tree (S : Type 0) : Type 0 where
    node : Command S → Forest S → Tree S

  pub data Forest (S : Type 0) : Type 0 where
    no_child : Forest S
    child : Tree S → Forest S → Forest S

abbrev pub log : {S : Type 0} → Entry → Logged S → Logged S
log e s = record s { entries = s.entries ++ e ∷ [] }

-- A function that does not touch the log.
abbrev pub lifted :
    {S : Type 0} → (List Text → M S (Unit {0})) → List Text → M (Logged S) (Unit {0})
lifted m args s = let (r, i) = m args s.inner in (r, record s { inner = i })

abbrev pub lifted_run : {S : Type 0} → (List Text → S → S) → List Text → Logged S → Logged S
lifted_run m args s = record s { inner = m args s.inner }

-- `status := "ok"; if err != nil { status = "error" }`
abbrev pub status : Result (Unit {0}) → String
status (ok _) = "ok"
status (err e) = "error"

module _ {S : Type 0} (clock : S → ℕ) (flag_verbose : Bool) where
  -- `logVerboseCommandStart`
  abbrev log_verbose_command_start : String → List Text → ℕ → Logged S → Logged S
  log_verbose_command_start path args t s = log (started path args t) s

  -- `logVerboseCommandEnd`
  abbrev log_verbose_command_end : String → ℕ → ℕ → Result (Unit {0}) → Logged S → Logged S
  log_verbose_command_end path t dur r s = log (ended path (status r) t dur) s

  -- The deferred function, behind `origRunE`.
  abbrev at_end : String → ℕ → Result (Unit {0}) × Logged S → Result (Unit {0}) × Logged S
  at_end path start (r, s) =
      (r, log_verbose_command_end path (clock s.inner) (clock s.inner - start) r s)

  abbrev pub wrapped_run_e :
      String → (List Text → M S (Unit {0})) → List Text → M (Logged S) (Unit {0})
  wrapped_run_e path m args s =
      if flag_verbose
      then at_end path (clock s.inner)
          (lifted m args (log_verbose_command_start path args (clock s.inner) s))
      else lifted m args s

  abbrev pub wrapped_run : String → (List Text → S → S) → List Text → Logged S → Logged S
  wrapped_run path m args s =
      if flag_verbose
      then (at_end path (clock s.inner)
          (ok tt, lifted_run m args (log_verbose_command_start path args (clock s.inner) s))).1
      else lifted_run m args s

  abbrev pub mapped : {A B : Type 0} → (A → B) → Option A → Option B
  mapped f none = none
  mapped f (some a) = some (f a)

  -- A command that is not wrapped.
  abbrev pub unwrapped : Command S → Command (Logged S)
  unwrapped c = record {
    path = c.path;
    run_e = mapped lifted c.run_e;
    run = mapped lifted_run c.run;
  }

  -- `Run` is wrapped only where there is no `RunE`.
  abbrev pub wrapped_functions :
      Command S → Option (List Text → M S (Unit {0})) → Command (Logged S)
  wrapped_functions c (some m) = record (unwrapped c) { run_e = some (wrapped_run_e c.path m) }
  wrapped_functions c none = record {
    path = c.path;
    run_e = none;
    run = mapped (wrapped_run c.path) c.run;
  }

  -- `wrapVerboseCommandLogging`
  unfoldable pub wrap_verbose_command_logging : Command S → Command (Logged S)
  wrap_verbose_command_logging c = wrapped_functions c c.run_e

  -- The loop of `installVerboseCommandLogging` over the children of a command.
  unfoldable pub install_all : Forest S → Forest (Logged S)
  install_all no_child = no_child
  install_all (child (node c below) later) =
      child (node (wrap_verbose_command_logging c) (install_all below)) (install_all later)

  -- The command itself is not wrapped.
  unfoldable pub install_verbose_command_logging : Tree S → Tree (Logged S)
  unfolding install_all
  install_verbose_command_logging (node c below) = node (unwrapped c) (install_all below)
