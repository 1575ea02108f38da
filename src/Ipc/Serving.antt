-- ===== src/Ipc/Serving.antt =====
-- internal/ipc/server.go: `handle` for one connection, with the deadline that it sets. Times count
-- from its acceptance. A request and a response pass through JSON unchanged.
pub mod Late
pub mod Minute
pub mod Success
use yaasa_go.Prelude.{
  ℕ, ◌+◌, List, [], ◌∷◌, Option, none, some, Bool, true, false, leb, if◌then◌else◌,
}
use yaasa_go.Prelude.Int.{ℤ}
use yaasa_go.Result.{Result, ok, err, Error, message, foreign}
use yaasa_go.Float.{FloatOps}
use yaasa_go.Schedule.{Event, elapse}
use yaasa_go.Ipc.{Request, Response, err_r}
use yaasa_go.Ipc.Controller.{Controller}
use yaasa_go.Ipc.Server.{dispatch}
use yaasa_go.Ipc.Client.{Link}

-- `60 * time.Second` of `conn.SetDeadline`
abbrev pub conn_deadline : ℕ
conn_deadline = 60_000_000_000

-- The time that passes in a schedule.
abbrev pub spent : List Event → ℕ
spent [] = 0
spent (elapse n ∷ es) = n + spent es
spent (_ ∷ es) = spent es

-- A connection: its request, if one can be read in time, when its goroutine has `dispatchMu`, and
-- whether its context is cancelled then.
pub record Visit (F : Type 0) : Type 0 where
  pub request : Option (Request F)
  pub at_lock : ℕ
  pub cancelled : Bool

-- `Encode` to the connection, whose error is dropped: what reaches the client.
unfoldable pub written : {F : Type 0} → ℕ → Response F → Option (Response F)
written now r = if leb now conn_deadline then some r else none

module _ {F S : Type 0} ⦃o : FloatOps F⦄ (c : Controller F S) where
  abbrev pub encoded : ℕ → Option (Response F) × S → Option (Option (Response F)) × S
  encoded now (none, s) = (none, s)
  encoded now (some r, s) = (some (written now r), s)

  abbrev pub handle_request :
      Visit F → List Event → S → Option (Request F) → Option (Option (Response F)) × S
  handle_request v es s none = (some none, s)
  handle_request v es s (some q) =
      if v.cancelled
      then (some (written v.at_lock (err_r (message "preempted by newer command"))), s)
      else encoded (v.at_lock + spent es) (dispatch c es q s)

  -- What is written, once `handle` has returned; `es` is what happens until `dispatch` returns.
  unfoldable pub handle : Visit F → List Event → S → Option (Option (Response F)) × S
  unfolding written
  handle v es s = handle_request v es s v.request

  -- What the client receives: the answer, or the end of the connection.
  abbrev pub received_of : Option (Option (Response F)) → Result (Response F)
  received_of (some (some r)) = ok r
  received_of _ = err (message "EOF")

  -- A connection to a daemon that serves the request at once, when the lock is free at `at_lock`.
  unfoldable pub daemon_link : ℕ → List Event → S → Link F
  unfolding handle
  daemon_link at_lock es s = record {
    send = λ deadline q. ok tt;
    receive = λ deadline q.
        received_of
          (handle (record { request = some q; at_lock = at_lock; cancelled = false }) es s).0;
  }
