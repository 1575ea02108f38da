-- ===== src/Ipc/Sockets.antt =====
-- internal/ipc/unix.go with "daemon" of cmd/yaasa/main.go: the socket file of a desk, which the
-- daemons of several processes share. Each system call is a step of its own, so that the steps of
-- two processes can be mixed. A listener that is closed unlinks its path, as Go's do.
pub mod Alone
pub mod Races
use yaasa_go.Prelude.{ℕ, Bool, true, false, Option, none, some, List, [], ◌∷◌, set, if◌then◌else◌}

-- Where the daemon of a process stands: `probed` is between the dial and the `os.Remove` of `Listen`,
-- `cleared` before its `net.Listen`, and `leaving` before the deferred `os.Remove` of the command.
pub data Stage : Type 0 where
  idle probed cleared listening leaving ended : Stage

-- The process whose socket the path names, if there is a file, and the processes.
pub record Machine : Type 0 where
  pub file : Option ℕ
  pub stage : ℕ → Stage

pub data Call : Type 0 where
  probe remove bind close unlink crash : ℕ → Call

abbrev pub is_listening : Stage → Bool
is_listening listening = true
is_listening _ = false

abbrev pub answering_at : Option ℕ → (ℕ → Stage) → Bool
answering_at none stage = false
answering_at (some j) stage = is_listening (stage j)

-- Whether a dial of the path succeeds.
unfoldable pub is_answering : Machine → Bool
is_answering m = answering_at m.file m.stage

abbrev pub to : ℕ → Stage → Machine → Machine
to i s m = record m { stage = set i s m.stage }

-- `if conn, err := net.DialTimeout(...); err == nil { ...; return nil, ... }`
abbrev pub probed_by : Stage → ℕ → Machine → Machine
probed_by idle i m = if is_answering m then to i leaving m else to i probed m
probed_by _ i m = m

abbrev pub removed_by : Stage → ℕ → Machine → Machine
removed_by probed i m = record { file = none; stage = set i cleared m.stage }
removed_by _ i m = m

-- `net.Listen`, which fails where there is a file.
abbrev pub bound : Option ℕ → ℕ → Machine → Machine
bound none i m = record { file = some i; stage = set i listening m.stage }
bound (some j) i m = to i leaving m

abbrev pub bound_by : Stage → ℕ → Machine → Machine
bound_by cleared i m = bound m.file i m
bound_by _ i m = m

-- `srv.Close()`
abbrev pub closed_by : Stage → ℕ → Machine → Machine
closed_by listening i m = record { file = none; stage = set i leaving m.stage }
closed_by _ i m = m

abbrev pub unlinked_by : Stage → ℕ → Machine → Machine
unlinked_by leaving i m = record { file = none; stage = set i ended m.stage }
unlinked_by _ i m = m

-- A call that the process is not at does not happen.
unfoldable pub call : Call → Machine → Machine
unfolding is_answering
call (probe i) m = probed_by (m.stage i) i m
call (remove i) m = removed_by (m.stage i) i m
call (bind i) m = bound_by (m.stage i) i m
call (close i) m = closed_by (m.stage i) i m
call (unlink i) m = unlinked_by (m.stage i) i m
call (crash i) m = to i ended m

unfoldable pub calls : List Call → Machine → Machine
unfolding call
calls [] m = m
calls (c ∷ cs) m = calls cs (call c m)

-- No file and no daemon.
abbrev pub bare : Machine
bare = record { file = none; stage = λ i. idle }
