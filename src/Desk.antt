-- ===== src/Desk.antt =====
-- desk/desk.go and the listeners of desk/stats.go: the connection, the caches and the fanout of
-- notifications. A listener is the identity of its callback; what a callback does is modelled
-- where it is registered. The mutexes make each of these functions one step; logging is left out.
pub mod Connection
pub mod Notify
pub mod Listeners
pub mod Connect
pub use yaasa_go.Desk.Connection.{
  Action, subscribe, tx, read, disconnect, sleep, Conn, outcome, logged, write_command,
  enable_notifications, read_response, close,
}
use yaasa_go.Prelude.{
  ℕ, suc, ◌+◌, ◌-◌, ◌*◌, ◌/◌, ◌%◌, Bool, true, false, not, ◌||◌, List, [], ◌∷◌, ◌++◌, map, Option,
  none, some, String, ltb, ◌==◌, if◌then◌else◌, Bytes, length, get_or, take, drop,
}
use yaasa_go.Prelude.Int.{ℤ}
use yaasa_go.Result.{Error, foreign, Result, ok, err, M, ◌>>=◌, ◌>>◌, return, ignore, and_then}
use yaasa_go.Float.{FloatOps}
use yaasa_go.Height.{height_from_mm}
use yaasa_go.Packet.{Notification, make_command, decode_responses, decode_response}
use yaasa_go.Stats.{SitStandTime, no_time, decode_sit_stand_time}

pub record Info : Type 0 where
  pub model : String
  pub manufacturer : String
  pub serial : String
  pub firmware_rev : String
  pub hardware_rev : String
  pub software_rev : String
  pub device_name : String

abbrev pub no_info : Info
no_info = record {
  model = "";
  manufacturer = "";
  serial = "";
  firmware_rev = "";
  hardware_rev = "";
  software_rev = "";
  device_name = "";
}

pub record Desk (F : Type 0) : Type 0 where
  pub info : Info
  pub address : String
  pub conn : Conn
  pub verbose : Bool
  pub notify_err : Option Error
  pub last_height : F
  pub has_height : Bool
  pub listeners : List ℕ
  pub last_stats : SitStandTime
  pub has_stats : Bool
  pub stats_listeners : List ℕ

-- A call of a registered callback.
pub data Call (F : Type 0) : Type 0 where
  height_call : ℕ → F → Call F
  stats_call : ℕ → SitStandTime → Call F

-- `d.conn.f(...)`
abbrev on_conn : {F A : Type 0} → M Conn A → M (Desk F) A
on_conn {F} {A} m d = put (m d.conn)
  where
    put : Result A × Conn → Result A × Desk F
    put (r, c) = (r, record d { conn = c })

abbrev pub pause : {F : Type 0} → ℕ → M (Desk F) (Unit {0})
pause ms d = (ok tt, record d { conn = logged (sleep ms) d.conn })

-- `Desk.write` of desk/commands.go.
abbrev pub write : {F : Type 0} → Bytes → M (Desk F) (Unit {0})
write pkt = on_conn (write_command pkt)

-- `Desk.Disconnect`
unfoldable pub disconnect_desk : {F : Type 0} → M (Desk F) (Unit {0})
disconnect_desk = on_conn close

-- `if err != nil { x = err }`
abbrev noted : {A : Type 0} → Result A → Option Error → Option Error
noted (ok a) before = before
noted (err e) before = some e

-- `slice[:idx]` and `slice[idx+1:]` joined, where `idx` is in range.
abbrev pub remove_at : ℕ → List ℕ → List ℕ
remove_at idx ls = if ltb idx (length ls) then take idx ls ++ drop (idx + 1) ls else ls

-- `AddHeightListener` returns the index that its cancel function keeps.
unfoldable pub add_height_listener : {F : Type 0} → ℕ → Desk F → ℕ × Desk F
add_height_listener cb d =
    (length (d.listeners ++ cb ∷ []) - 1, record d { listeners = d.listeners ++ cb ∷ [] })

-- The cancel function of `AddHeightListener`.
unfoldable pub cancel_height_listener : {F : Type 0} → ℕ → Desk F → Desk F
cancel_height_listener idx d = record d { listeners = remove_at idx d.listeners }

unfoldable pub add_sit_stand_listener : {F : Type 0} → ℕ → Desk F → ℕ × Desk F
add_sit_stand_listener cb d = (
  length (d.stats_listeners ++ cb ∷ []) - 1,
  record d { stats_listeners = d.stats_listeners ++ cb ∷ [] },
)

unfoldable pub cancel_sit_stand_listener : {F : Type 0} → ℕ → Desk F → Desk F
cancel_sit_stand_listener idx d = record d { stats_listeners = remove_at idx d.stats_listeners }

abbrev pub last_known_height : {F : Type 0} → Desk F → F × Bool
last_known_height d = (d.last_height, d.has_height)

abbrev pub last_known_sit_stand_time : {F : Type 0} → Desk F → SitStandTime × Bool
last_known_sit_stand_time d = (d.last_stats, d.has_stats)

module _ {F : Type 0} ⦃o : FloatOps F⦄ where
  -- The bytes of `uint16(payload[0]) << 8 | uint16(payload[1])` do not overlap.
  unfoldable pub decode_height_payload : ℕ → Bytes → Option F
  decode_height_payload opcode payload =
      if not (opcode == 0x01) || ltb (length payload) 3
      then none
      else some (height_from_mm (o.of_nat (get_or payload 0 0 * 256 + get_or payload 1 0)))

  abbrev decode_first : Option (ℕ × Bytes) → Option F
  decode_first none = none
  decode_first (some (opcode, payload)) = decode_height_payload opcode payload

  unfoldable pub decode_height_notification : Bytes → Option F
  decode_height_notification buf = decode_first (decode_response buf)

  abbrev store_stats : Option SitStandTime → Desk F → Desk F × List (Call F)
  store_stats none d = (d, [])
  store_stats (some s) d =
      (record d { last_stats = s; has_stats = true }, map (λ l. stats_call l s) d.stats_listeners)

  -- One round of the loop of `handleNotification`: the new state and the callbacks, in order.
  abbrev store_packet : Option F → Notification → Desk F → Desk F × List (Call F)
  store_packet (some h) n d =
      (record d { last_height = h; has_height = true }, map (λ l. height_call l h) d.listeners)
  store_packet none n d = store_stats (decode_sit_stand_time n.opcode n.payload) d

  pub handle_packet : Notification → Desk F → Desk F × List (Call F)
  handle_packet n d = store_packet (decode_height_payload n.opcode n.payload) n d

  pub handle_packets : List Notification → Desk F → Desk F × List (Call F)
  handle_packets [] d = (d, [])
  handle_packets (n ∷ ns) d =
      let (d', calls) = handle_packet n d in
      let (d'', later) = handle_packets ns d' in (d'', calls ++ later)

  unfoldable pub handle_notification : Bytes → Desk F → Desk F × List (Call F)
  unfolding handle_packets handle_packet
  handle_notification buf d = handle_packets (decode_responses buf) d

  -- The callbacks that a poll runs come with its result.
  abbrev handle_read : Result Bytes × Desk F → Result (List (Call F)) × Desk F
  handle_read (err e, d) = (err e, d)
  handle_read (ok [], d) = (ok [], d)
  handle_read (ok (b ∷ bs), d) = let (d', calls) = handle_notification (b ∷ bs) d in (ok calls, d')

  unfoldable pub poll_height_direct : M (Desk F) (List (Call F))
  poll_height_direct d = handle_read (on_conn read_response d)

  -- `&Desk{}`, with the connection that the adapter gives.
  abbrev pub new_desk : Conn → Desk F
  new_desk c = record {
    info = no_info;
    address = "";
    conn = c;
    verbose = false;
    notify_err = none;
    last_height = o.of_nat 0;
    has_height = false;
    listeners = [];
    last_stats = no_time;
    has_stats = false;
    stats_listeners = [];
  }

  abbrev with_verbose : Bool → Desk F → Desk F
  with_verbose v d = record d { verbose = v }

  abbrev apply_options : List (Desk F → Desk F) → Desk F → Desk F
  apply_options [] d = d
  apply_options (f ∷ fs) d = apply_options fs (f d)

  -- The steps behind a connect that succeeded.
  abbrev subscribed : Result (Unit {0}) × Desk F → Desk F
  subscribed (r, d) = record d { notify_err = noted r d.notify_err }

  abbrev set_up : Desk F → Desk F
  set_up d =
      (ignore (write (make_command 0x07 []))
        (ignore (write (make_command 0x00 [])) (subscribed (on_conn enable_notifications d))).1).1

  -- `ConnectWith`, for an adapter given by the result of its `Connect`.
  unfoldable pub connect_with :
      (String → ℤ → Result (Conn × Info)) → String → ℤ → List (Desk F → Desk F) → Result (Desk F)
  connect_with adapter_connect address timeout options = elim (adapter_connect address timeout) [
    | err e ↦ err e
    | ok (c, info) ↦ ok (
        set_up (record (apply_options options (new_desk c)) {
          address = address;
          info = info;
          conn = c;
        }))
  ]
