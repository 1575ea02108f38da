-- ===== src/Darwin/Signals.antt =====
-- desk/adapter_darwin.go: a connection's channels, which its delegates fill and its calls wait for.
-- Each channel has one place. A schedule says what the delegates report and how time passes while a
-- call waits, and which case of its `select` is taken.
pub mod Stale
use yaasa_go.Prelude.{
  ℕ, ◌+◌, ◌*◌, List, [], ◌∷◌, ◌++◌, Option, none, some, Bool, true, false, not, ◌&&◌, ◌==◌, leb,
  ltb, if◌then◌else◌, Bytes, String,
}
use yaasa_go.Prelude.Int.{ℤ, pos}
use yaasa_go.Result.{Result, ok, err, Error, message, after}

-- The four channels.
pub data Which : Type 0 where
  services chars reads notify : Which

-- The channels' contents, the notification callback and whether the characteristics are known;
-- `value` is that of FE62 as the stack last saw it, and `heard` are the calls of the callback.
pub record Channels : Type 0 where
  pub services_ch : Option (Option Error)
  pub chars_ch : Option (Option Error)
  pub read_ch : Option (Option Error)
  pub notify_ch : Option (Option Error)
  pub have_cmd : Bool
  pub have_resp : Bool
  pub notify_cb : Option ℕ
  pub value : Bytes
  pub heard : List (ℕ × Bytes)
  pub asked : ℕ
  pub now : ℕ

-- `newDarwinConnection`
unfoldable pub new_channels : Channels
new_channels = record {
  services_ch = none;
  chars_ch = none;
  read_ch = none;
  notify_ch = none;
  have_cmd = false;
  have_resp = false;
  notify_cb = none;
  value = [];
  heard = [];
  asked = 0;
  now = 0;
}

-- `deliver`: a send that does not wait.
abbrev pub put : Option Error → Option (Option Error) → Option (Option Error)
put e none = some e
put e (some x) = some x

unfoldable pub deliver : Which → Option Error → Channels → Channels
deliver services e c = record c { services_ch = put e c.services_ch }
deliver chars e c = record c { chars_ch = put e c.chars_ch }
deliver reads e c = record c { read_ch = put e c.read_ch }
deliver notify e c = record c { notify_ch = put e c.notify_ch }

abbrev pub content : Which → Channels → Option (Option Error)
content services c = c.services_ch
content chars c = c.chars_ch
content reads c = c.read_ch
content notify c = c.notify_ch

abbrev pub emptied : Which → Channels → Channels
emptied services c = record c { services_ch = none }
emptied chars c = record c { chars_ch = none }
emptied reads c = record c { read_ch = none }
emptied notify c = record c { notify_ch = none }

-- The test in front of the callback.
abbrev pub is_notification : Bool → Bool → Option Error → Bool
is_notification have_resp is_resp none = have_resp && is_resp
is_notification have_resp is_resp (some e) = false

-- `cb(out)`, if the value is a notification and there is a callback.
abbrev pub calls_of : Bool → Option ℕ → Bytes → List (ℕ × Bytes)
calls_of true (some cb) v = (cb, v) ∷ []
calls_of _ _ v = []

-- `DidUpdateValueForCharacteristic`, for a read and for a notification alike. The stack keeps the
-- value, if it is that of FE62.
unfoldable pub did_update_value : Bool → Bytes → Option Error → Channels → Channels
did_update_value is_resp v e c = record c {
  value = if is_resp then v else c.value;
  heard = c.heard ++ calls_of (is_notification c.have_resp is_resp e) c.notify_cb v;
  read_ch = put e c.read_ch;
}

pub data Event : Type 0 where
  -- time passes
  elapse : ℕ → Event
  -- the delegates: services, characteristics, a value, a notification state
  did_discover_services did_discover_chars did_update_state : Option Error → Event
  did_update : Bool → Bytes → Option Error → Event
  -- the cases of the `select` of `waitWithTimeout`
  received expired : Event

abbrev ten_seconds : ℕ
ten_seconds = 10_000_000_000

-- What an event does to the channels.
unfoldable pub happens : Event → Channels → Channels
unfolding deliver did_update_value
happens (elapse n) c = record c { now = c.now + n }
happens (did_discover_services e) c = deliver services e c
happens (did_discover_chars e) c = deliver chars e c
happens (did_update_state e) c = deliver notify e c
happens (did_update is_resp v e) c = did_update_value is_resp v e c
happens _ c = c

abbrev result_of : Option Error → Result (Unit {0})
result_of none = ok tt
result_of (some e) = err e

abbrev taken : Option (Option Error) → Which → Channels → Option (Result (Unit {0}) × Channels)
taken none w c = none
taken (some e) w c = some (result_of e, emptied w c)

-- The wait has a result, or it goes on.
abbrev pub ready : Which → Event → ℕ → Channels → Option (Result (Unit {0}) × Channels)
ready w received due c = taken (content w c) w c
ready w expired due c =
    if leb due c.now then some (err (after (message "timeout") (pos ten_seconds)), c) else none
ready w _ due c = none

abbrev done_or :
    Option (Result (Unit {0}) × Channels)
    → Option (Result (Unit {0})) × (Channels × List Event)
    → List Event
    → Option (Result (Unit {0})) × (Channels × List Event)
done_or none rest es = rest
done_or (some (r, c)) rest es = (some r, (c, es))

-- `waitWithTimeout` with ten seconds, until `due`: its result, if it has one, and what is left of the
-- schedule.
unfoldable pub wait_until :
    ℕ → Which → List Event → Channels → Option (Result (Unit {0})) × (Channels × List Event)
unfolding happens
wait_until due w [] c = (none, (c, []))
wait_until due w (e ∷ es) c =
    let rest = wait_until due w es (happens e c) in done_or (ready w e due c) rest es

unfoldable pub wait_with_timeout :
    Which → List Event → Channels → Option (Result (Unit {0})) × (Channels × List Event)
unfolding wait_until
wait_with_timeout w es c = wait_until (c.now + ten_seconds) w es c

abbrev read_value :
    Option (Result (Unit {0})) × (Channels × List Event)
    → Option (Result Bytes) × (Channels × List Event)
read_value (none, (c, es)) = (none, (c, es))
read_value (some (ok _), (c, es)) = (some (ok c.value), (c, es))
read_value (some (err e), (c, es)) = (some (err e), (c, es))

-- `ReadResponse`
unfoldable pub read_response :
    List Event → Channels → Option (Result Bytes) × (Channels × List Event)
unfolding wait_with_timeout
read_response es c =
    if not c.have_resp
    then (some (err (message "FE62 characteristic not discovered")), (c, es))
    else read_value (wait_with_timeout reads es (record c { asked = c.asked + 1 }))

-- `EnableNotifications`
unfoldable pub enable_notifications :
    ℕ → List Event → Channels → Option (Result (Unit {0})) × (Channels × List Event)
unfolding wait_with_timeout
enable_notifications cb es c =
    if not c.have_resp
    then (some (err (message "FE62 characteristic not discovered")), (c, es))
    else wait_with_timeout notify es (record c { notify_cb = some cb })

-- `WriteCommand`: each probe asks whether the module takes the write, at a time. The result, and
-- whether the data was written.
unfoldable pub write_loop : ℕ → List (ℕ × Bool) → Option (Result (Unit {0}) × Bool)
write_loop due [] = none
write_loop due ((now, can_send) ∷ later) =
    let rest = write_loop due later in
    if can_send
    then some (ok tt, true)
    else if ltb due now
    then some (err (message "WriteCommand: timed out waiting for buffer space"), false)
    else rest

unfoldable pub write_command : Bool → ℕ → List (ℕ × Bool) → Option (Result (Unit {0}) × Bool)
unfolding write_loop
write_command have_cmd now probes =
    if not have_cmd
    then some (err (message "FE61 characteristic not discovered"), false)
    else write_loop (now + ten_seconds) probes
