-- ===== src/Gatt/Mac.antt =====
-- desk/adapter_darwin.go: the discovery of `Connect` on macOS, given what each of its waits gives.
use yaasa_go.Prelude.{ℕ, List, [], ◌∷◌, Bool, some, not, ◌==◌, if◌then◌else◌, String}
use yaasa_go.Desk.{Info}
use yaasa_go.Result.{Result, ok, err, message}
use yaasa_go.Gatt.{Char, Service, Handles, no_handles, Action, opened, closed, slept, is_found}

abbrev pub uuid_service_desk : ℕ
uuid_service_desk = 0xFE60

abbrev pub uuid_char_command : ℕ
uuid_char_command = 0xFE61

abbrev pub uuid_char_response : ℕ
uuid_char_response = 0xFE62

abbrev pub uuid_char_name : ℕ
uuid_char_name = 0xFE63

abbrev pub uuid_service_dis : ℕ
uuid_service_dis = 0x180A

abbrev pub uuid_dis_mfg : ℕ
uuid_dis_mfg = 0x2A29

abbrev pub uuid_dis_model : ℕ
uuid_dis_model = 0x2A24

abbrev pub uuid_dis_serial : ℕ
uuid_dis_serial = 0x2A25

abbrev pub uuid_dis_fw_rev : ℕ
uuid_dis_fw_rev = 0x2A26

abbrev pub uuid_dis_hw_rev : ℕ
uuid_dis_hw_rev = 0x2A27

abbrev pub uuid_dis_sw_rev : ℕ
uuid_dis_sw_rev = 0x2A28

-- `readString`: errors give the empty text.
abbrev pub read_string : Char → String
read_string ch = if ch.read_fails then "" else ch.text

-- The body of the loop over the characteristics of the desk service.
abbrev pub with_desk_char : Char → Handles → Handles
with_desk_char ch h =
    if ch.uuid == uuid_char_command
    then record h { cmd = some ch }
    else if ch.uuid == uuid_char_response
    then record h { resp = some ch }
    else if ch.uuid == uuid_char_name
    then record h { info = record h.info { device_name = read_string ch } }
    else h

abbrev pub with_desk_chars : List Char → Handles → Handles
with_desk_chars [] h = h
with_desk_chars (ch ∷ chs) h = with_desk_chars chs (with_desk_char ch h)

-- The body of the loop over the characteristics of the Device Information Service.
abbrev pub with_info : Char → Info → Info
with_info ch i =
    if ch.uuid == uuid_dis_mfg
    then record i { manufacturer = read_string ch }
    else if ch.uuid == uuid_dis_model
    then record i { model = read_string ch }
    else if ch.uuid == uuid_dis_serial
    then record i { serial = read_string ch }
    else if ch.uuid == uuid_dis_fw_rev
    then record i { firmware_rev = read_string ch }
    else if ch.uuid == uuid_dis_hw_rev
    then record i { hardware_rev = read_string ch }
    else if ch.uuid == uuid_dis_sw_rev
    then record i { software_rev = read_string ch }
    else i

abbrev pub with_all_info : List Char → Info → Info
with_all_info [] i = i
with_all_info (ch ∷ chs) i = with_all_info chs (with_info ch i)

-- `discoverDeskChars`
abbrev pub discover_desk_chars : Result (List Char) → Handles → Result (Unit {0}) × Handles
discover_desk_chars (err e) h = (err e, h)
discover_desk_chars (ok chs) h = (ok tt, with_desk_chars chs h)

-- `discoverInfoChars`
abbrev pub discover_info_chars : Result (List Char) → Handles → Handles
discover_info_chars (err e) h = h
discover_info_chars (ok chs) h = record h { info = with_all_info chs h.info }

abbrev pub service_step : Service → Handles → Result (Unit {0}) × Handles
service_step svc h =
    if svc.uuid == uuid_service_desk
    then discover_desk_chars svc.chars h
    else if svc.uuid == uuid_service_dis
    then (ok tt, discover_info_chars svc.chars h)
    else (ok tt, h)

abbrev pub go_on : (Handles → Result Handles) → Result (Unit {0}) × Handles → Result Handles
go_on rest (ok _, h) = rest h
go_on rest (err e, h) = err e

-- The tests behind the loop.
abbrev pub complete_of : Bool → Bool → Handles → Result Handles
complete_of have_cmd have_resp h =
    if not have_cmd
    then err (message "FE61 (command) characteristic not found")
    else if not have_resp
    then err (message "FE62 (response) characteristic not found")
    else ok h

abbrev pub complete : Handles → Result Handles
complete h = complete_of (is_found h.cmd) (is_found h.resp) h

unfoldable pub walk : List Service → Handles → Result Handles
walk [] h = complete h
walk (svc ∷ svcs) h = go_on (walk svcs) (service_step svc h)

-- `discoverAll`
unfoldable pub discover_all : Result (List Service) → Result Handles
unfolding walk
discover_all (err e) = err e
discover_all (ok svcs) = walk svcs no_handles

abbrev pub set_up : Result Handles → Result Handles × List Action
set_up (ok h) = (ok h, opened ∷ slept 300 ∷ [])
set_up (err e) = (err e, opened ∷ closed ∷ [])

-- `Connect` behind the label `connected`; and what it did with the device.
unfoldable pub connect_mac : Result (List Service) → Result Handles × List Action
unfolding discover_all
connect_mac device = set_up (discover_all device)
