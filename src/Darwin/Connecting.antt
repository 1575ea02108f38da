-- ===== src/Darwin/Connecting.antt =====
-- desk/adapter_darwin.go: the pending requests of the manager, and the wait of `Connect` for its
-- peripheral. A peripheral and a channel are numbers. Delegates and other calls run in between.
pub mod Steps
pub mod Results
pub mod Ending
use yaasa_go.Prelude.{
  set, ℕ, ◌+◌, List, [], ◌∷◌, ◌++◌, Option, none, some, Bool, true, false, not, ◌==◌, leb,
  if◌then◌else◌, Bytes,
}
use yaasa_go.Prelude.Int.{ℤ, pos, pos_part}
use yaasa_go.Result.{Result, ok, err, Error, message, wrapped, after}
use yaasa_go.Schedule.{Phase, selecting, returned}

pub data Event : Type 0 where
  -- time passes
  elapse : ℕ → Event
  -- a delegate reports a peripheral: connected, or with an error failed or disconnected
  reports : ℕ → Option Error → Event
  -- another call of `Connect` stores its channel for a peripheral
  registers : ℕ → ℕ → Event
  -- the cases of the `select`; whether the peripheral then is in the connected state
  received : Bool → Event
  deadline : Event

-- What the central manager was asked.
pub data Call : Type 0 where
  connect cancel : Call

-- The state of one call: the map `pending` that it shares, the contents of its channel of one
-- place, and its locals.
pub record Attempt : Type 0 where
  pub pending : ℕ → Option ℕ
  pub box : Option (Option Error)
  pub timed_out : Bool
  pub now : ℕ
  pub due : ℕ
  pub calls : List Call
  pub phase : Phase (Unit {0})

-- What does not change during a call.
pub record Target : Type 0 where
  pub id : ℕ
  pub channel : ℕ
  pub timeout : ℤ

abbrev pub five_seconds : ℕ
five_seconds = 5_000_000_000

unfoldable pub start : Target → (ℕ → Option ℕ) → Attempt
start t pending = record {
  pending = set t.id (some t.channel) pending;
  box = none;
  timed_out = false;
  now = 0;
  due = pos_part t.timeout;
  calls = connect ∷ [];
  phase = selecting;
}

-- `ch <- connectResult{...}` of `completePending`. A send to a full channel waits.
abbrev pub sent : Target → Option Error → Option ℕ → Option (Option Error) → Option (Option Error)
sent t e none box = box
sent t e (some ch) none = if ch == t.channel then some e else none
sent t e (some ch) (some x) = some x

unfoldable pub complete_pending : Target → ℕ → Option Error → Attempt → Attempt
complete_pending t id e a = record a {
  pending = set id none a.pending;
  box = sent t e (a.pending id) a.box;
}

abbrev finish : Result (Unit {0}) → Attempt → Attempt
finish r a = record a { phase = returned r }

-- What is made of a result from the channel.
abbrev pub outcome : Target → Bool → Bool → Option Error → Result (Unit {0})
outcome t true connected r = err (after (message "connect timed out") t.timeout)
outcome t false connected (some e) = err (wrapped "connect" e)
outcome t false true none = ok tt
outcome t false false none = err (message "peripheral did not enter connected state")

abbrev pub received_from : Target → Bool → Option (Option Error) → Attempt → Attempt
received_from t connected none a = a
received_from t connected (some r) a = record a {
  box = none;
  phase = returned (outcome t a.timed_out connected r);
}

-- The first time the deadline passes, the connect is cancelled; the second time the call gives up.
abbrev pub expired : Target → Bool → Attempt → Attempt
expired t true a = record a {
  pending = set t.id none a.pending;
  phase =
      returned (err (after (message "connect timed out, no disconnect after cancel") t.timeout));
}
expired t false a = record a {
  timed_out = true;
  calls = a.calls ++ cancel ∷ [];
  due = a.now + five_seconds;
}

-- Another call has a channel of its own.
abbrev pub registered : Target → ℕ → ℕ → Attempt → Attempt
registered t id ch a =
    if ch == t.channel then a else record a { pending = set id (some ch) a.pending }

unfoldable pub turn : Target → Phase (Unit {0}) → Event → Attempt → Attempt
turn t p (elapse n) a = record a { now = a.now + n }
turn t p (reports id e) a = complete_pending t id e a
turn t p (registers id ch) a = registered t id ch a
turn t selecting (received connected) a = received_from t connected a.box a
turn t selecting deadline a = if leb a.due a.now then expired t a.timed_out a else a
turn t _ e a = a

unfoldable pub run : Target → List Event → Attempt → Attempt
unfolding turn
run t [] a = a
run t (e ∷ es) a = run t es (turn t a.phase e a)

-- The wait of `Connect`, on the map as other calls have left it.
unfoldable pub await_peripheral : Target → (ℕ → Option ℕ) → List Event → Attempt
unfolding run start
await_peripheral t pending es = run t es (start t pending)
