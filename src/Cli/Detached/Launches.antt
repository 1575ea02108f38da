-- ===== src/Cli/Detached/Launches.antt =====
-- cmd/yaasa/main.go: what `ensureDaemonClient` leaves behind.
use yaasa_go.Prelude.{
  ℕ, ◌+◌, ◌≤◌, Bool, true, false, some, List, [], ◌∷◌, Text, ◌≡◌, refl, arith, ◌⊎◌, inl, inr, ◌<◌,
  Bool-cases, leb,
}
use yaasa_go.Result.{Result, ok, err}
use yaasa_go.Cli.Daemon.{Places, ensure_daemon_client, await_daemon}
use yaasa_go.Schedule.{Among}
use yaasa_go.Cli.Detached.{
  Effect, log_opened, log_closed, process_started, process_released, System, daemon_args, log_path,
  awaited, start_detached_daemon, ensure_daemon,
}

abbrev pub processes : List Effect → ℕ
processes [] = 0
processes (process_started exe args ∷ es) = 1 + processes es
processes (log_opened path ∷ es) = processes es
processes (log_closed ∷ es) = processes es
processes (process_released ∷ es) = processes es

abbrev pub logs_opened : List Effect → ℕ
logs_opened [] = 0
logs_opened (log_opened path ∷ es) = 1 + logs_opened es
logs_opened (process_started exe args ∷ es) = logs_opened es
logs_opened (log_closed ∷ es) = logs_opened es
logs_opened (process_released ∷ es) = logs_opened es

abbrev pub logs_closed : List Effect → ℕ
logs_closed [] = 0
logs_closed (log_closed ∷ es) = 1 + logs_closed es
logs_closed (process_started exe args ∷ es) = logs_closed es
logs_closed (log_opened path ∷ es) = logs_closed es
logs_closed (process_released ∷ es) = logs_closed es

-- A start on its own: its log file does not stay open, at most one process comes of it, and on success
-- one does, that is released, with these arguments.
record Tidy (sys : System) (addr : Text) (x : Result Text × List Effect) : Type 0 where
  balanced : logs_opened x.1 ≡ logs_closed x.1
  once : processes x.1 ≤ 1
  complete :
      (path : Text)
      → x.0 ≡ ok path
      → (exe : Text) × (sys.executable ≡ ok exe)
        × (x.1
            ≡ log_opened (log_path sys addr)
              ∷ process_started exe (daemon_args sys addr)
              ∷ process_released
              ∷ log_closed
              ∷ [])

module _ (places : Places) (timeout : ℕ) (timeout_text : Text) (verbose : Bool) (addr : Text) where
  abbrev system_of :
      Result Text → Result (Unit {0}) → Result (Unit {0}) → Result (Unit {0}) → System
  system_of x o s r = record {
    executable = x;
    open_log = o;
    start = s;
    release = r;
    places = places;
    connect_timeout = timeout;
    timeout_text = timeout_text;
    flag_verbose = verbose;
  }

  start-Tidy :
      (x : Result Text) (o s r : Result (Unit {0}))
      → Tidy (system_of x o s r) addr (start_detached_daemon (system_of x o s r) addr [])
  unfolding start_detached_daemon
  start-Tidy (err e) o s r = record { balanced = refl; once = omega arith; complete = λ p h. cc }
  start-Tidy (ok exe) (err e) s r = record {
    balanced = refl;
    once = omega arith;
    complete = λ p h. cc;
  }
  start-Tidy (ok exe) (ok _) (err e) r = record {
    balanced = refl;
    once = omega arith;
    complete = λ p h. cc;
  }
  start-Tidy (ok exe) (ok _) (ok _) (err e) = record {
    balanced = refl;
    once = omega arith;
    complete = λ p h. cc;
  }
  start-Tidy (ok exe) (ok _) (ok _) (ok _) = record {
    balanced = refl;
    once = omega arith;
    complete = λ p h. (exe, refl, refl);
  }

-- A probe that is made before the deadline finds a daemon.
await_daemon-found :
    (deadline : ℕ) (probes : List (ℕ × Bool))
    → await_daemon deadline probes ≡ some (ok tt)
    → Among (λ p. (p.0 < deadline) × (p.1 ≡ true)) probes
unfolding await_daemon
await_daemon-found deadline [] h = cc
await_daemon-found deadline ((now, true) ∷ later) h = elim (Bool-cases (leb deadline now)) [
  | inl b ↦ let k = rw b at h in cc
  | inr b ↦ inl (ground arith, refl)
]
await_daemon-found deadline ((now, false) ∷ later) h = elim (Bool-cases (leb deadline now)) [
  | inl b ↦ let k = rw b at h in cc
  | inr b ↦ inr (await_daemon-found deadline later (rw b at h))
]

module _ (sys : System) (addr : Text) where
  -- What `ensureDaemonClient` has done when it succeeds without a daemon that runs.
  pub record Launched (probes : List (ℕ × Bool)) (es : List Effect) : Type 0 where
    pub exe : Text
    pub is_exe : sys.executable ≡ ok exe
    pub effects :
        es
        ≡ log_opened (log_path sys addr)
          ∷ process_started exe (daemon_args sys addr)
          ∷ process_released
          ∷ log_closed
          ∷ []
    pub found : Among (λ p. (p.0 < sys.connect_timeout + 5_000_000_000) × (p.1 ≡ true)) probes

  awaited-Launched :
      (probes : List (ℕ × Bool)) (x : Result Text × List Effect)
      → Tidy sys addr x
      → (awaited sys addr probes x).0 ≡ some (ok tt)
      → Launched probes x.1
  unfolding ensure_daemon_client
  awaited-Launched probes (err e, es) t h = cc
  awaited-Launched probes (ok path, es) t h =
      let (exe, found_exe, effects) = t.complete path refl in
      record {
        exe = exe;
        is_exe = found_exe;
        effects = effects;
        found = await_daemon-found (sys.connect_timeout + 5_000_000_000) probes h;
      }

  -- `ensureDaemonClient` starts nothing where a daemon answers, never more than one process, and
  -- leaves no log file open, errors included. When it succeeds without a daemon that runs, it has
  -- started one process, with the flags and the address, has released it, and a probe before its
  -- deadline has found a daemon.
  pub ensure_daemon-Launched :
      (running : Bool) (probes : List (ℕ × Bool))
      → (logs_opened (ensure_daemon sys addr running probes []).1
          ≡ logs_closed (ensure_daemon sys addr running probes []).1)
        × (processes (ensure_daemon sys addr running probes []).1 ≤ 1)
        × ((ensure_daemon sys addr running probes []).0 ≡ some (ok tt)
            → ((running ≡ true) × ((ensure_daemon sys addr running probes []).1 ≡ []))
              ⊎ Launched probes (ensure_daemon sys addr running probes []).1)
  unfolding ensure_daemon
  ensure_daemon-Launched true probes = (refl, omega arith, λ h. inl (refl, refl))
  ensure_daemon-Launched false probes =
      let t =
        start-Tidy sys.places sys.connect_timeout sys.timeout_text sys.flag_verbose addr
          sys.executable sys.open_log sys.start sys.release in
      (
        t.balanced,
        t.once,
        λ h. inr (awaited-Launched probes (start_detached_daemon sys addr []) t h),
      )
