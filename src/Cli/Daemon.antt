-- ===== src/Cli/Daemon.antt =====
-- internal/ipc/unix.go and cmd/yaasa/main.go: the socket of a daemon, and the client that finds one.
use yaasa_go.Prelude.{
  ℕ, ◌+◌, Bool, true, false, List, [], ◌∷◌, ◌++◌, Option, none, some, ◌≡◌, refl, leb, if◌then◌else◌,
  Text,
}
use yaasa_go.Result.{Result, ok, err, message, wrapped, foreign}
use yaasa_go.Cli.{is_empty, safe_address}

-- The environment that the paths depend on; `join` is `filepath.Join`.
pub record Places : Type 0 where
  pub xdg_runtime_dir : Text
  pub temp_dir : Text
  pub join : Text → Text → Text

unfoldable pub runtime_dir : Places → Text
runtime_dir p = if is_empty p.xdg_runtime_dir then p.temp_dir else p.xdg_runtime_dir

-- "yaasa-"
abbrev prefix : Text
prefix = 121 ∷ 97 ∷ 97 ∷ 115 ∷ 97 ∷ 45 ∷ []

-- "yaasa-" + safeAddress(addr) + ".sock"
unfoldable pub socket_path : Places → Text → Text
unfolding runtime_dir
socket_path p addr =
    p.join (runtime_dir p) (prefix ++ (safe_address addr ++ 46 ∷ 115 ∷ 111 ∷ 99 ∷ 107 ∷ []))

-- "yaasa-" + safeAddress(addr) + ".log"
unfoldable pub daemon_log_path : Places → Text → Text
unfolding runtime_dir
daemon_log_path p addr =
    p.join (runtime_dir p) (prefix ++ (safe_address addr ++ 46 ∷ 108 ∷ 111 ∷ 103 ∷ []))

-- A socket path as the operating system sees it: whether the file is there, whether a daemon answers
-- at it, and whether binding fails otherwise.
pub record Socket : Type 0 where
  pub present : Bool
  pub answering : Bool
  pub bind_fate : Option ℕ

-- `os.Remove`
abbrev removed : Socket → Socket
removed s = record s { present = false }

-- `net.Listen` on a path without a file.
abbrev bind : Option ℕ → Socket → Result (Unit {0}) × Socket
bind none s = (ok tt, record s { present = true; answering = true })
bind (some n) s = (err (wrapped "listen" (foreign n)), s)

unfoldable pub listen : Socket → Result (Unit {0}) × Socket
listen s =
    if s.answering
    then (err (message "a daemon is already running"), s)
    else bind s.bind_fate (removed s)

bind-answering : (f : Option ℕ) (s : Socket) → (bind f s).0 ≡ ok tt → (bind f s).1.answering ≡ true
bind-answering none s h = refl
bind-answering (some n) s h = cc

abbrev refused_or_bound : Bool → Socket → Result (Unit {0}) × Socket
refused_or_bound b s =
    if b then (err (message "a daemon is already running"), s) else bind s.bind_fate (removed s)

refused_or_bound-answering :
    (b : Bool) (s : Socket)
    → (refused_or_bound b s).0 ≡ ok tt
    → (refused_or_bound b s).1.answering ≡ true
refused_or_bound-answering true s h = cc
refused_or_bound-answering false s h = bind-answering s.bind_fate (removed s) h

pub listen-answering : (s : Socket) → (listen s).0 ≡ ok tt → (listen s).1.answering ≡ true
unfolding listen
listen-answering s h = refused_or_bound-answering s.answering s h

-- When a daemon listens at a path, a second one at it is refused, and leaves the socket as it is.
pub listen-listen :
    (s : Socket)
    → (listen s).0 ≡ ok tt
    → listen (listen s).1 ≡ (err (message "a daemon is already running"), (listen s).1)
unfolding listen
listen-listen s h = rw (refused_or_bound-answering s.answering s h) refl

-- The probes of the loop of `ensureDaemonClient`: the time of each, and whether a daemon answers.
unfoldable pub await_daemon : ℕ → List (ℕ × Bool) → Option (Result (Unit {0}))
await_daemon deadline [] = none
await_daemon deadline ((now, answers) ∷ later) =
    let rest = await_daemon deadline later in
    if leb deadline now
    then some (err (message "daemon did not become ready before timeout"))
    else if answers
    then some (ok tt)
    else rest

abbrev started : ℕ → List (ℕ × Bool) → Result (Unit {0}) → Option (Result (Unit {0}))
started deadline probes (ok _) = await_daemon deadline probes
started deadline probes (err e) = some (err e)

-- The first probe, then the start of a daemon and the loop. Times count from that start.
unfoldable pub ensure_daemon_client :
    ℕ → Bool → Result (Unit {0}) → List (ℕ × Bool) → Option (Result (Unit {0}))
unfolding await_daemon
ensure_daemon_client connect_timeout running start probes =
    if running then some (ok tt) else started (connect_timeout + 5_000_000_000) probes start

-- How the wait of `runInterruptible` ends: the function returns first, or a signal comes first and a
-- fresh connection to the daemon is made or not.
pub data Ending : Type 0 where
  returned : Result (Unit {0}) → Ending
  signalled : Bool → Ending

-- The result, and whether a stop request was sent.
unfoldable pub run_interruptible : Ending → Result (Unit {0}) × Bool
run_interruptible (returned r) = (r, false)
run_interruptible (signalled dialled) = (ok tt, dialled)
