-- ===== src/Tests/Outcomes.antt =====
-- Runs of whole stacks, of daemons side by side and of the command line's surroundings.
use yaasa_go.Prelude.{
  ℕ, ◌≤◌, ◌+◌, List, [], ◌∷◌, ◌++◌, Bool, some, none, true, false, ◌≡◌, ◌≢◌, ◌⊎◌, refl, arith,
}
use yaasa_go.Prelude.Int.{ℤ, pos}
use yaasa_go.Result.{ok}
use yaasa_go.Float.Whole.{whole}
use yaasa_go.Height.{near}
use yaasa_go.Packet.{decode_responses}
use yaasa_go.Packet.Frame.{frame}
use yaasa_go.Stats.{decode_sit_stand_time}
use yaasa_go.Desk.{
  add_height_listener, cancel_height_listener, decode_height_payload, handle_notification,
}
use yaasa_go.Commands
use yaasa_go.Commands.Frames.{Framed}
use yaasa_go.Schedule.{Event, elapse, notify, proceed, received, tick, own}
use yaasa_go.WaitHeight.{wait_for_height}
use yaasa_go.Ipc.Controller.{desk_controller}
use yaasa_go.Ipc.Server.{dispatch}
use yaasa_go.Ipc.Client.{do_request, up_request}
use yaasa_go.Ipc.Frames.{dispatch-Framed}
use yaasa_go.Ipc.Serving.{daemon_link, handle, written}
use yaasa_go.Ipc.Serving.Success.{SeenNear}
use yaasa_go.Ipc.Sockets.{
  Machine, bare, listening, probed, probe, remove, bind, calls, call, is_answering, leaving,
}
use yaasa_go.Ipc.Sockets.Alone.{Move, start, stop, die, moves, moves-one}
use yaasa_go.Ipc.Sockets.Races.{Split, both_probed-Split}
use yaasa_go.Cli.{
  resolve_address, save_default_address, read_default_address, is_space,
  split_optional_address_value,
}
use yaasa_go.Cli.Daemon.{ensure_daemon_client, run_interruptible}
use yaasa_go.Cli.Session.{Host, never, auto_daemon_client, interruptible, ask}
use yaasa_go.Cli.Verbs.{Motion, move_cmd, up_cmd, down_cmd, target_of}
use yaasa_go.Cli.Verbs.Outcome.{move_cmd-arrived, up_cmd-refused}
use yaasa_go.Cli.Verbose.{Tree, node, no_child, child, Command, install_verbose_command_logging}
use yaasa_go.Cli.Verbose.Transparent.{BothOr, Verbosely, command_in, install-Verbosely}
use yaasa_go.Cli.Detached.{System, ensure_daemon}
use yaasa_go.Cli.Detached.Launches.{
  Launched, logs_opened, logs_closed, processes, ensure_daemon-Launched,
}
use yaasa_go.Tests.{fresh, report_720}
use yaasa_go.Tests.Requests.{counter}
use yaasa_go.Tests.Shell

-- A move to 721 mm over a daemon, on a desk that reports 720 mm.
abbrev arriving : List Event
arriving = proceed ∷ proceed ∷ tick ∷ notify (frame report_720) ∷ received ∷ []

abbrev over_daemon : Host ℤ
over_daemon = record Shell.host {
  link = daemon_link (desk_controller 1) 0 arriving fresh;
  parse_float = λ t. ok (pos 721);
}

arrives :
    (move_cmd over_daemon never Shell.travel (Shell.first_desk ∷ []) Shell.start).0 ≡ some (ok tt)
unfolding move_cmd auto_daemon_client ensure_daemon_client resolve_address save_default_address
    is_space read_default_address interruptible run_interruptible ask do_request daemon_link handle
    written dispatch desk_controller wait_for_height Commands.wake Commands.stop
    Commands.move_to_height handle_notification decode_responses near own decode_height_payload
    decode_sit_stand_time add_height_listener cancel_height_listener split_optional_address_value
arrives = refl

move_cmd-arrived_example : SeenNear 1 arriving (target_of over_daemon false (pos 721)) (pos 2)
unfolding split_optional_address_value
move_cmd-arrived_example =
    move_cmd-arrived over_daemon 1 0 arriving fresh refl Shell.travel (Shell.first_desk ∷ []) []
      Shell.first_desk (pos 721) Shell.start refl refl arrives

-- Two minutes up.
abbrev two_minutes : Motion ℤ
two_minutes = record Shell.half_a_second { dur = pos 120_000_000_000 }

abbrev over_counter : Host ℤ
over_counter = record Shell.host {
  link = daemon_link counter 0 (tick ∷ elapse 120_000_000_000 ∷ []) 0;
}

up_cmd-refused_example :
    ¬ ((up_cmd over_counter never two_minutes [] Shell.start).0 ≡ some (ok tt))
    × ¬ ((down_cmd over_counter never two_minutes [] Shell.start).0 ≡ some (ok tt))
up_cmd-refused_example =
    up_cmd-refused over_counter counter 0 (tick ∷ elapse 120_000_000_000 ∷ []) 0 refl two_minutes
      120_000_000_000 [] Shell.start refl refl (omega arith) (omega arith) (λ e. cc, (λ e. cc, tt))

dispatch-Framed_example :
    Framed fresh (dispatch (desk_controller 1) arriving (up_request (pos 500)) fresh).1
dispatch-Framed_example = dispatch-Framed 1 arriving fresh (up_request (pos 500))

-- One daemon after another, and a third one that the second refuses, and that dies.
abbrev successive : List Move
successive = start 0 ∷ stop 0 ∷ start 1 ∷ start 2 ∷ die 2 ∷ []

second_listens : (moves successive bare).stage 1 ≡ listening
unfolding moves calls call is_answering
second_listens = refl

first_closes : (moves (start 0 ∷ []) bare).stage 0 ≢ leaving
unfolding moves calls call is_answering
first_closes h = cc

moves-one_example : ◌≡◌ {A = ℕ} 1 1 × (is_answering (moves successive bare) ≡ true)
unfolding moves
moves-one_example = moves-one successive 1 1 (first_closes, tt) second_listens second_listens

-- Two starts that have both found nobody.
abbrev dialled_twice : Machine
dialled_twice = calls (probe 0 ∷ probe 1 ∷ []) bare

first_probed : dialled_twice.stage 0 ≡ probed
unfolding calls call is_answering
first_probed = refl

second_probed : dialled_twice.stage 1 ≡ probed
unfolding calls call is_answering
second_probed = refl

both_probed-Split_example :
    Split 0 1 (calls (remove 0 ∷ bind 0 ∷ remove 1 ∷ bind 1 ∷ []) dialled_twice)
both_probed-Split_example =
    both_probed-Split 0 1 dialled_twice (omega arith) first_probed second_probed

-- A tree with one command, which takes five nanoseconds.
abbrev five : Command ℕ
five = record { path = "yaasa five"; run_e = some (λ args n. (ok tt, n + 5)); run = none }

abbrev root : Command ℕ
root = record { path = "yaasa"; run_e = none; run = none }

abbrev tree : Tree ℕ
tree = node root (child (node five no_child) no_child)

install-Verbosely_example :
    BothOr
      (Verbosely (λ n. n) true)
      (command_in (0 ∷ []) tree)
      (command_in (0 ∷ []) (install_verbose_command_logging (λ n. n) true tree))
install-Verbosely_example = install-Verbosely (λ n. n) true 0 [] tree

-- Every call succeeds, and the second probe finds the daemon.
abbrev system : System
system = record {
  executable = ok (121 ∷ []);
  open_log = ok tt;
  start = ok tt;
  release = ok tt;
  places = record { xdg_runtime_dir = []; temp_dir = 47 ∷ []; join = λ a b. a ++ 47 ∷ b };
  connect_timeout = 15_000_000_000;
  timeout_text = 49 ∷ [];
  flag_verbose = true;
}

abbrev probes : List (ℕ × Bool)
probes = (0, false) ∷ (200_000_000, true) ∷ []

ensure_daemon-Launched_example :
    (logs_opened (ensure_daemon system Shell.first_desk false probes []).1
      ≡ logs_closed (ensure_daemon system Shell.first_desk false probes []).1)
    × (processes (ensure_daemon system Shell.first_desk false probes []).1 ≤ 1)
    × ((ensure_daemon system Shell.first_desk false probes []).0 ≡ some (ok tt)
        → ((false ≡ true) × ((ensure_daemon system Shell.first_desk false probes []).1 ≡ []))
          ⊎ Launched system Shell.first_desk probes
              (ensure_daemon system Shell.first_desk false probes []).1)
ensure_daemon-Launched_example = ensure_daemon-Launched system Shell.first_desk false probes
