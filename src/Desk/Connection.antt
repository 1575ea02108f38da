-- ===== src/Desk/Connection.antt =====
-- desk/adapter.go: the interface Connection, and the connection that a desk of the model has.
use yaasa_go.Prelude.{ℕ, ◌+◌, List, [], ◌∷◌, ◌++◌, Option, none, some, Bytes}
use yaasa_go.Result.{Result, ok, err, foreign, M}

-- The interface `Connection`, over the state `S` of its BLE stack. What the callback of the
-- notifications does is modelled where it is called.
pub record Connection (S : Type 0) : Type 0 where
  pub writes : Bytes → M S (Unit {0})
  pub enables : M S (Unit {0})
  pub reads : M S Bytes
  pub disconnects : M S (Unit {0})

-- What the program does at the connection, and the pauses it makes, in milliseconds.
pub data Action : Type 0 where
  subscribe : Action
  tx : Bytes → Action
  read : Action
  disconnect : Action
  sleep : ℕ → Action

-- A `Connection` of the adapter: what was done with it, and what it answers. The answers are
-- given from outside: `write_fate n` is the error of the n-th write, if it has one.
pub record Conn : Type 0 where
  pub log : List Action
  pub sent : ℕ
  pub write_fate : ℕ → Option ℕ
  pub subscribe_fate : Option ℕ
  pub read_fate : Result Bytes
  pub disconnect_fate : Option ℕ

abbrev pub outcome : Option ℕ → Result (Unit {0})
outcome none = ok tt
outcome (some n) = err (foreign n)

abbrev pub logged : Action → Conn → Conn
logged a c = record c { log = c.log ++ a ∷ [] }

abbrev pub write_command : Bytes → M Conn (Unit {0})
write_command pkt c =
    (outcome (c.write_fate c.sent), record (logged (tx pkt) c) { sent = c.sent + 1 })

abbrev pub enable_notifications : M Conn (Unit {0})
enable_notifications c = (outcome c.subscribe_fate, logged subscribe c)

abbrev pub read_response : M Conn Bytes
read_response c = (c.read_fate, logged read c)

abbrev pub close : M Conn (Unit {0})
close c = (outcome c.disconnect_fate, logged disconnect c)

abbrev pub recorded_connection : Connection Conn
recorded_connection = record {
  writes = write_command;
  enables = enable_notifications;
  reads = read_response;
  disconnects = close;
}
