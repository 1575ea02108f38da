-- ===== src/Tests/Adapters.antt =====
-- Runs of the adapters, and instances of their theorems.
use yaasa_go.Prelude.{
  ℕ, [], ◌∷◌, List, Option, none, some, true, false, ◌≡◌, ◌≢◌, refl, map, inl, inr, Bytes, String,
  All, arith,
}
use yaasa_go.Prelude.Int.{pos, negsuc}
use yaasa_go.Result.{ok, foreign}
use yaasa_go.Desk.{no_info}
use yaasa_go.Schedule.{Among, IsReturned, returned}
use yaasa_go.Darwin.Signals
use yaasa_go.Darwin.Connecting.{
  Target, Event, elapse, reports, registers, received, deadline, await_peripheral, start, run,
  connect, complete_pending, turn,
}
use yaasa_go.Darwin.Connecting.Steps.{IsConnection}
use yaasa_go.Darwin.Connecting.Results.{await_peripheral-drained, await_peripheral-connected}
use yaasa_go.Darwin.Scanning.{
  Scans, Discovery, Happening, discovered, scans_too, scan, desks, desk_service, scan-desks,
}
use yaasa_go.Darwin.Signals.{Channels, new_channels, did_update_value, read_response}
use yaasa_go.Darwin.Signals.Stale.{read_response-stale}
use yaasa_go.Gatt.{Char, Service, Handles}
use yaasa_go.Gatt.Linux.{connect_linux, in_time, discover, service_desk, take_text}
use yaasa_go.Gatt.Mac.{connect_mac, discover_all, walk}
use yaasa_go.Gatt.Sound.{HasBoth, discover_all-HasBoth}
use yaasa_go.Gatt.Agreement.{IsReadableService, connect-agree}

-- One second to connect to peripheral 7 on channel 1.
abbrev target : Target
target = record { id = 7; channel = 1; timeout = pos 1_000_000_000 }

abbrev unused : ℕ → Option ℕ
unused i = none

unused-fresh : (j : ℕ) → unused j ≢ some 1
unused-fresh j h = cc

-- The timeout passes, and the cancellation is reported.
abbrev cancelled : List Event
cancelled = elapse 1_000_000_000 ∷ deadline ∷ reports 7 (some (foreign 1)) ∷ received false ∷ []

cancelled_ends : IsReturned (await_peripheral target unused cancelled).phase
unfolding await_peripheral run start turn complete_pending
cancelled_ends = (_, refl)

await_peripheral-drained_example : (await_peripheral target unused cancelled).pending 7 ≢ some 1
await_peripheral-drained_example =
    await_peripheral-drained target unused cancelled 7 unused-fresh cancelled_ends

-- Another call waits for peripheral 8, and peripheral 7 is connected.
abbrev connecting : List Event
connecting = registers 8 2 ∷ reports 8 none ∷ reports 7 none ∷ received true ∷ []

connecting_ends : (await_peripheral target unused connecting).phase ≡ returned (ok tt)
unfolding await_peripheral run start turn complete_pending
connecting_ends = refl

await_peripheral-connected_example :
    Among (IsConnection target) connecting
    × ((await_peripheral target unused connecting).calls ≡ connect ∷ [])
await_peripheral-connected_example =
    await_peripheral-connected target unused connecting unused-fresh connecting_ends

abbrev idle : Scans
idle = record { callback = none; filter = none }

abbrev seen : Discovery
seen = record { addr = "A"; name = "desk"; rssi = negsuc 59; services = desk_service ∷ [] }

abbrev lamp : Discovery
lamp = record { addr = "B"; name = "lamp"; rssi = negsuc 59; services = 0x180A ∷ [] }

abbrev sights : List Happening
sights = discovered lamp ∷ scans_too (ok tt) 4 ∷ discovered seen ∷ []

scan-desks_example :
    scan (ok tt) 3 sights idle
    ≡ (ok tt, (map (λ x. (3, x)) (desks sights), record { callback = none; filter = none }))
scan-desks_example = scan-desks 3 sights idle refl

-- Notifications are on, and nothing is signalled.
abbrev quiet : Channels
unfolding new_channels
quiet = record new_channels { have_cmd = true; have_resp = true; notify_cb = some 5 }

abbrev reported : Bytes
reported = 0xF2 ∷ 0xF2 ∷ []

read_response-stale_example :
    (read_response (Signals.received ∷ []) (did_update_value true reported none quiet)).0
    ≡ some (ok reported)
unfolding quiet
read_response-stale_example = read_response-stale reported [] quiet refl refl

abbrev char : ℕ → String → Char
char uuid text = record { uuid = uuid; text = text; read_fails = false; failed_text = "" }

abbrev command_char : Char
command_char = char 0xFE61 ""

abbrev response_char : Char
response_char = char 0xFE62 ""

-- A desk with its name and its model.
abbrev desk : List Service
desk =
    record { uuid = 0x180A; chars = ok (char 0x2A24 "Frame" ∷ []) }
    ∷ record {
      uuid = service_desk;
      chars = ok (command_char ∷ response_char ∷ char 0xFE63 "Desk" ∷ []);
    }
    ∷ []

abbrev found : Handles
found = record {
  cmd = some command_char;
  resp = some response_char;
  info = record no_info { device_name = "Desk"; model = "Frame" };
}

desk_found : discover_all (ok desk) ≡ ok found
unfolding discover_all walk
desk_found = refl

discover_all-HasBoth_example : HasBoth found
discover_all-HasBoth_example = discover_all-HasBoth (ok desk) found desk_found

desk_readable : All IsReadableService desk
desk_readable = (
  ((refl, omega arith), tt),
  (((refl, omega arith), ((refl, omega arith), ((refl, omega arith), tt))), tt),
)

linux_found : (connect_linux (ok tt) (pos 1) (in_time (ok (ok desk)))).0 ≡ ok found
unfolding connect_linux discover take_text
linux_found = refl

connect-agree_example :
    connect_mac (ok desk) ≡ connect_linux (ok tt) (pos 1) (in_time (ok (ok desk)))
connect-agree_example = connect-agree desk (pos 1) found desk_readable (inr (inl refl)) linux_found
