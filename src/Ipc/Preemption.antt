-- ===== src/Ipc/Preemption.antt =====
-- internal/ipc/server.go: how `handle` lets a new command preempt the running one. Each connection
-- has its goroutine; `cancelMu` and `dispatchMu` cut these into the steps below, in any order. A
-- connection whose request cannot be read takes none of them.
pub mod Order
pub mod Outcome
pub mod Latest
use yaasa_go.Prelude.{
  set, ℕ, suc, Bool, true, false, ◌||◌, Option, none, some, ◌≡◌, ◌==◌, if◌then◌else◌, List, [], ◌∷◌,
}
use yaasa_go.Result.{Result, ok, err, Error}

-- Where the goroutine of a connection stands: not there yet, waiting for `dispatchMu`, in
-- `dispatch`, told "preempted by newer command", or answered.
pub data Stage : Type 0 where
  absent waiting dispatching preempted answered : Stage

-- `next` counts the requests so far, which also are the names of the goroutines; `cancelled i` is
-- `ctx.Err() != nil` of the i-th, `current` the owner of `cancelCurrent`, `holder` the owner of
-- `dispatchMu`, and `closed` says that `quitCh` and the listener are closed.
pub record State : Type 0 where
  pub next : ℕ
  pub stage : ℕ → Stage
  pub cancelled : ℕ → Bool
  pub is_quit : ℕ → Bool
  pub current : Option ℕ
  pub holder : Option ℕ
  pub closed : Bool

-- `if s.cancelCurrent != nil { s.cancelCurrent() }`
abbrev pub cancel_current : Option ℕ → (ℕ → Bool) → ℕ → Bool
cancel_current none f = f
cancel_current (some i) f = set i true f

unfoldable pub initial : State
initial = record {
  next = 0;
  stage = λ i. absent;
  cancelled = λ i. false;
  is_quit = λ i. false;
  current = none;
  holder = none;
  closed = false;
}

-- What `Accept` gives: a connection, or an error, with whether `quitCh` is closed by then.
pub data Accepted : Type 0 where
  connection : ℕ → Accepted
  failed : Bool → Error → Accepted

abbrev handled_too : ℕ → List ℕ × Option (Result (Unit {0})) → List ℕ × Option (Result (Unit {0}))
handled_too conn (conns, r) = (conn ∷ conns, r)

-- `Serve`: the connections that are handed to `handle`, and the result, if the loop has ended.
unfoldable pub accept_loop : List Accepted → List ℕ × Option (Result (Unit {0}))
accept_loop [] = ([], none)
accept_loop (connection conn ∷ rest) = handled_too conn (accept_loop rest)
accept_loop (failed quit_closed e ∷ rest) = ([], some (if quit_closed then ok tt else err e))

-- A request has been read; the section under `cancelMu`.
unfoldable pub register : Bool → State → State
register quit s = record s {
  next = suc s.next;
  stage = set s.next waiting s.stage;
  cancelled = set s.next false (cancel_current s.current s.cancelled);
  is_quit = set s.next quit s.is_quit;
  current = some s.next;
}

-- `dispatchMu` is taken, the context is cancelled: the reply, and the deferred unlock and cancel.
unfoldable pub bail : ℕ → State → State
bail i s = record s { stage = set i preempted s.stage; cancelled = set i true s.cancelled }

-- `dispatchMu` is taken, and `dispatch` starts.
unfoldable pub enter : ℕ → State → State
enter i s = record s { stage = set i dispatching s.stage; holder = some i }

-- `dispatch` has returned: the answer, the shutdown on "quit", and the deferred calls.
unfoldable pub answer : ℕ → State → State
answer i s = record s {
  stage = set i answered s.stage;
  cancelled = set i true s.cancelled;
  holder = none;
  closed = s.is_quit i || s.closed;
}

pub data Step : State → State → Type 0 where
  registers : (quit : Bool) (s : State) → Step s (register quit s)
  bails :
      (i : ℕ) (s : State)
      → s.stage i ≡ waiting
      → s.holder ≡ none
      → s.cancelled i ≡ true
      → Step s (bail i s)
  enters :
      (i : ℕ) (s : State)
      → s.stage i ≡ waiting
      → s.holder ≡ none
      → s.cancelled i ≡ false
      → Step s (enter i s)
  answers : (i : ℕ) (s : State) → s.stage i ≡ dispatching → Step s (answer i s)

pub data Reachable : State → Type 0 where
  begin : Reachable initial
  onward : (s t : State) → Reachable s → Step s t → Reachable t
