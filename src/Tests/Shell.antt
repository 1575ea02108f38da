-- ===== src/Tests/Shell.antt =====
-- Runs of the command line, and instances of its theorems.
use yaasa_go.Prelude.{List, [], ◌∷◌, none, some, true, false, Bytes, ◌≡◌, refl, All}
use yaasa_go.Prelude.Int.{ℤ, pos}
use yaasa_go.Result.{ok, err, message}
use yaasa_go.Schedule.{selecting}
use yaasa_go.Packet.{decode_responses}
use yaasa_go.Desk.{decode_height_payload, add_height_listener, handle_notification}
use yaasa_go.Commands.{request_height_limits}
use yaasa_go.Ipc.{ok_r}
use yaasa_go.Cli.{trim_space, resolve_address, save_default_address, read_default_address, is_space}
use yaasa_go.Cli.Daemon.{ensure_daemon_client, run_interruptible}
use yaasa_go.Cli.Session.{Host, Trail, Signal, late, never, auto_daemon_client, interruptible, ask}
use yaasa_go.Ipc.Client.{do_request}
use yaasa_go.Cli.Session.Balance.{opens, closes}
use yaasa_go.Cli.Session.Default.{auto_daemon_client-resolve_address}
use yaasa_go.Cli.Session.Logs.{Asks}
use yaasa_go.Cli.Verbs.{Motion, Travel, Storing, run_verb, up, up_cmd, preset_cmd}
use yaasa_go.Cli.Verbs.Balance.{run_verb-closes}
use yaasa_go.Cli.Verbs.Stored.{ServedPreset, preset_cmd-ServedPreset}
use yaasa_go.Cli.Direct.{Watching, Site, quit, keep_alive, daemon_cmd, monitor, notified, polled}
use yaasa_go.Cli.Direct.Refused.{daemon_cmd-unlinks}
use yaasa_go.Float.Whole.{whole}
use yaasa_go.Tests.{fresh}
use yaasa_go.Tests.Requests.{counter, going}
use yaasa_go.Tests.Tools.{room}

-- A daemon that answers every request; every text is the number 2.
abbrev pub host : Host ℤ
host = record {
  connect_timeout = 0;
  answers = λ a. true;
  start = λ a. ok tt;
  probes = [];
  link = record { send = λ n q. ok tt; receive = λ n q. ok ok_r };
  parse_float = λ t. ok (pos 2);
  atoi = λ t. some (pos 2);
}

abbrev pub start : Trail ℤ
start = record { world = room; log = []; shown = [] }

-- Half a second up, and two seconds until a height is reached.
abbrev pub half_a_second : Motion ℤ
half_a_second = record { dur = pos 500_000_000; distance = pos 0; speed = pos 50 }

abbrev interrupted_up : Signal
interrupted_up = late true

up_returns : (run_verb host (up interrupted_up half_a_second) [] start).0 ≡ some (ok tt)
unfolding run_verb up_cmd auto_daemon_client ensure_daemon_client resolve_address
    save_default_address is_space read_default_address interruptible run_interruptible ask
    do_request
up_returns = refl

run_verb-closes_example :
    opens (run_verb host (up interrupted_up half_a_second) [] start).1.log
    ≡ closes (run_verb host (up interrupted_up half_a_second) [] start).1.log
run_verb-closes_example =
    run_verb-closes host (up interrupted_up half_a_second) [] start (ok tt) refl up_returns

-- "A"
abbrev pub first_desk : Bytes
first_desk = 65 ∷ []

has_client : (auto_daemon_client host [] start).0 ≡ some (ok first_desk)
unfolding auto_daemon_client ensure_daemon_client resolve_address save_default_address
    read_default_address is_space
has_client = refl

auto_daemon_client-resolve_address_example :
    resolve_address [] (auto_daemon_client host [] start).1.world ≡ ok (trim_space first_desk)
auto_daemon_client-resolve_address_example =
    auto_daemon_client-resolve_address host [] first_desk start has_client

abbrev pub travel : Travel ℤ
travel = record { move_timeout = pos 2_000_000_000; tolerance = pos 2; in_inches = false }

abbrev going_there : Storing
going_there = record { saves = false; move_timeout = pos 2_000_000_000 }

preset_cmd-ServedPreset_example :
    All
      (Asks (ServedPreset host counter going going_there))
      (preset_cmd host never going_there (first_desk ∷ []) start).1.log
preset_cmd-ServedPreset_example =
    preset_cmd-ServedPreset host counter going never going_there (first_desk ∷ []) start refl

-- A daemon serves the desk "A".
abbrev taken : Site ℤ
taken = record {
  world = room;
  socket = record { present = true; answering = true; bind_fate = none };
  desk = none;
}

room_is_for : resolve_address [] room ≡ ok first_desk
unfolding resolve_address read_default_address is_space
room_is_for = refl

room_saves : (save_default_address first_desk room).0 ≡ ok tt
unfolding save_default_address is_space
room_saves = refl

daemon_cmd-unlinks_example :
    ((daemon_cmd (λ a. ok fresh) (keep_alive ∷ []) quit [] taken).0
      ≡ some (err (message "a daemon is already running")))
    × ((daemon_cmd (λ a. ok fresh) (keep_alive ∷ []) quit [] taken).1.socket.answering ≡ false)
daemon_cmd-unlinks_example =
    daemon_cmd-unlinks (λ a. ok fresh) (keep_alive ∷ []) quit [] taken first_desk fresh room_is_for
      refl room_saves refl

-- A report of 720 mm, and a poll.
abbrev watching : List Watching
watching =
    notified (0xF2 ∷ 0xF2 ∷ 0x01 ∷ 0x03 ∷ 0x02 ∷ 0xD0 ∷ 0x00 ∷ 0xD6 ∷ 0x7E ∷ []) ∷ polled ∷ []

fresh_waits : (monitor (pos 1_000_000_000) 1 watching fresh).phase ≡ selecting
unfolding monitor add_height_listener request_height_limits handle_notification decode_responses
    decode_height_payload
fresh_waits = refl

fresh_alone : fresh.listeners ≡ []
fresh_alone = refl
