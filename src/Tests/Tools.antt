-- ===== src/Tests/Tools.antt =====
-- Runs of the command line's helpers and of the C interface, and instances of their theorems.
use yaasa_go.Prelude.{if◌then◌else◌, ◌==◌, [], ◌∷◌, ◌≡◌, refl, true, false, none, some, Bytes}
use yaasa_go.Prelude.Int.{ℤ, pos, pos_part}
use yaasa_go.Result.{ok}
use yaasa_go.Ipc.Server.{pulsing, duration_or}
use yaasa_go.Cli.{World, is_space, save_default_address, scan_by_name}
use yaasa_go.Cli.Daemon.{Socket, listen}
use yaasa_go.Clib.{move_pulse}
use yaasa_go.Clib.Handles.{Library, of_height, height_listened, yaasa_add_height_listener}
use yaasa_go.Float.Whole.{whole}
use yaasa_go.Tests.{fresh}
use yaasa_go.Clib.Daemon.{move_pulse-pulsing}
use yaasa_go.Tests.Requests.{counter, going}

-- "A" in range, a desk that is found by any name.
abbrev pub room : World
room = record {
  default_file = none;
  write_fate = none;
  scan = ok (record { addr = 65 ∷ []; name = [] } ∷ []);
  contains_fold = λ p n. true;
}

-- " A"
abbrev typed : Bytes
typed = 32 ∷ 65 ∷ []

saves : (save_default_address typed room).0 ≡ ok tt
unfolding save_default_address is_space
saves = refl

finds : scan_by_name (66 ∷ []) room ≡ ok (65 ∷ [])
unfolding scan_by_name
finds = refl

move_pulse-pulsing_example :
    (move_pulse counter counter.move_up (pos 500) going 0).1
    ≡ (pulsing counter counter.move_up (pos_part (duration_or 500_000_000 (pos 500))) going 0).1
move_pulse-pulsing_example =
    move_pulse-pulsing counter counter.move_up (pos 500) going 0
      ((λ e. cc), ((λ e. cc), ((λ e. cc), tt)))

abbrev no_socket : Socket
no_socket = record { present = true; answering = false; bind_fate = none }

listens : (listen no_socket).0 ≡ ok tt
unfolding listen
listens = refl

-- One desk with the handle 1, and another desk without one.
abbrev library : Library ℤ
library = record {
  desks = λ k. fresh;
  handle = λ h. if h == 1 then some 1 else none;
  last = 1;
  closures = λ n. of_height 0 0;
  made = 0;
  registry = record { handles = λ i. none; seq = 0 };
}

library_adds :
    yaasa_add_height_listener 1 9 library
    ≡ some ((height_listened 9 library 1).0, (height_listened 9 library 1).1)
unfolding yaasa_add_height_listener
library_adds = refl
