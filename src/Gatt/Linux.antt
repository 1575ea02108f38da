-- ===== src/Gatt/Linux.antt =====
-- desk/adapter_other.go: `Connect` of the adapter for Linux and Windows, over its BLE library.
pub mod Connection
use yaasa_go.Prelude.{
  ℕ, zero, suc, List, [], ◌∷◌, ◌++◌, Bool, true, false, some, not, ◌==◌, if◌then◌else◌, String,
}
use yaasa_go.Desk.{Info}
use yaasa_go.Prelude.Int.{ℤ}
use yaasa_go.Result.{Result, ok, err, message, wrapped, after}
use yaasa_go.Gatt.{Char, Service, Handles, no_handles, Action, opened, slept}

abbrev pub service_desk : ℕ
service_desk = 0xFE60

abbrev pub service_info : ℕ
service_info = 0x180A

abbrev pub char_command : ℕ
char_command = 0xFE61

abbrev pub char_response : ℕ
char_response = 0xFE62

abbrev pub char_name : ℕ
char_name = 0xFE63

-- What fits into a buffer of `n` bytes.
unfoldable pub take_text : ℕ → String → String
take_text zero s = String.[]
take_text (suc n) String.[] = String.[]
take_text (suc n) (String.◌∷◌ c s) = String.◌∷◌ c (take_text n s)

-- `readStr`, with its buffer of 128 bytes; its error is dropped.
abbrev pub read_str : Char → String
read_str ch = if ch.read_fails then ch.failed_text else take_text 128 ch.text

-- The body of the loop over the characteristics of the desk service.
abbrev pub with_desk_char : Char → Handles → Handles
with_desk_char ch h =
    if ch.uuid == char_command
    then record h { cmd = some ch }
    else if ch.uuid == char_response
    then record h { resp = some ch }
    else if ch.uuid == char_name
    then record h { info = record h.info { device_name = read_str ch } }
    else h

abbrev pub with_desk_chars : List Char → Handles → Handles
with_desk_chars [] h = h
with_desk_chars (ch ∷ chs) h = with_desk_chars chs (with_desk_char ch h)

abbrev pub offers : ℕ → List Char → Bool
offers u [] = false
offers u (ch ∷ chs) = if ch.uuid == u then true else offers u chs

-- The body of the loop over the characteristics of the Device Information Service.
abbrev pub with_info : Char → Info → Info
with_info ch i =
    if ch.uuid == 0x2A29
    then record i { manufacturer = read_str ch }
    else if ch.uuid == 0x2A24
    then record i { model = read_str ch }
    else if ch.uuid == 0x2A25
    then record i { serial = read_str ch }
    else if ch.uuid == 0x2A26
    then record i { firmware_rev = read_str ch }
    else if ch.uuid == 0x2A27
    then record i { hardware_rev = read_str ch }
    else if ch.uuid == 0x2A28
    then record i { software_rev = read_str ch }
    else i

abbrev pub with_all_info : List Char → Info → Info
with_all_info [] i = i
with_all_info (ch ∷ chs) i = with_all_info chs (with_info ch i)

-- `discoverDeskChars`: the handles are kept also when it fails. `foundCmd` and `foundResp` are set for
-- this service alone.
abbrev pub desk_chars : Result (List Char) → Handles → Result (Unit {0}) × Handles
desk_chars (err e) h = (err (wrapped "discover FE60 characteristics" e), h)
desk_chars (ok chs) h = (
  if not (offers char_command chs)
      then err (message "FE61 (command) characteristic not found")
      else if not (offers char_response chs)
      then err (message "FE62 (response) characteristic not found")
      else ok tt,
  with_desk_chars chs h,
)

-- `discoverInfoChars`
abbrev pub info_chars : Result (List Char) → Handles → Handles
info_chars (err e) h = h
info_chars (ok chs) h = record h { info = with_all_info chs h.info }

abbrev pub service_step : Service → Handles → Result (Unit {0}) × Handles
service_step svc h =
    if svc.uuid == service_desk
    then desk_chars svc.chars h
    else if svc.uuid == service_info
    then (ok tt, info_chars svc.chars h)
    else (ok tt, h)

abbrev pub go_on : (Handles → Result Handles) → Result (Unit {0}) × Handles → Result Handles
go_on rest (ok _, h) = rest h
go_on rest (err e, h) = err e

-- The loop over the services.
unfoldable pub discover : List Service → Handles → Result Handles
discover [] h = ok h
discover (svc ∷ svcs) h = go_on (discover svcs) (service_step svc h)

-- The race between the library's connect and the timeout.
pub data Race : Type 0 where
  -- the connect ends first: with what `DiscoverServices` then gives, or with an error
  in_time : Result (Result (List Service)) → Race
  too_late : Race

abbrev pub set_up : Result Handles → Result Handles × List Action
set_up (ok h) = (ok h, opened ∷ slept 300 ∷ [])
set_up (err e) = (err e, opened ∷ [])

abbrev discovered : Result (List Service) → Result Handles × List Action
discovered (err e) = (err (wrapped "discover services" e), opened ∷ [])
discovered (ok svcs) = set_up (discover svcs no_handles)

abbrev raced : ℤ → Race → Result Handles × List Action
raced timeout too_late = (err (after (message "connect timed out") timeout), [])
raced timeout (in_time (err e)) = (err (wrapped "connect" e), [])
raced timeout (in_time (ok device)) = discovered device

-- `Connect`, with what `Enable` returns; and what it did with the device.
unfoldable pub connect_linux : Result (Unit {0}) → ℤ → Race → Result Handles × List Action
unfolding discover
connect_linux (err e) timeout race = (err (wrapped "enable BLE adapter" e), [])
connect_linux (ok _) timeout race = raced timeout race

-- The callback of `Scan`, for results with whether they have the desk's service.
abbrev sighted : List (String × Bool) → List String
sighted [] = []
sighted ((addr, has_service) ∷ rest) = (if has_service then addr ∷ [] else []) ++ sighted rest

-- `Scan`, with what `Enable` returns: the addresses that its callback gets.
unfoldable pub scan_linux :
    Result (Unit {0}) → List (String × Bool) → Result (Unit {0}) × List String
scan_linux (err e) found = (err (wrapped "enable BLE adapter" e), [])
scan_linux (ok _) found = (ok tt, sighted found)
