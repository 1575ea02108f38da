-- ===== src/Tests.antt =====
-- Data for the tests and the instances of the theorems, with whole numbers for `float64`.
mod Packets
mod Desks
mod Heights
mod Presets
mod Requests
mod Adapters
mod Shell
mod Tools
mod Outcomes
use yaasa_go.Prelude.{ℕ, zero, suc, List, [], ◌∷◌, ◌++◌, Option, none, some, Bytes}
use yaasa_go.Prelude.Int.{ℤ, pos}
use yaasa_go.Result.{ok}
use yaasa_go.Float.Whole.{whole}
use yaasa_go.Height.{put_uint16}
use yaasa_go.Packet.{Notification, make_command}
use yaasa_go.Packet.Recover.{packet}
use yaasa_go.Desk.{Desk, Conn, new_desk}

-- A connection on which every write succeeds.
abbrev pub good_conn : Conn
good_conn = record {
  log = [];
  sent = 0;
  write_fate = λ n. none;
  subscribe_fate = none;
  read_fate = ok [];
  disconnect_fate = none;
}

abbrev pub fresh : Desk ℤ
fresh = new_desk good_conn

-- The reports of desk_test.go and packet_test.go.
abbrev pub report_720 : Notification
report_720 = record { opcode = 0x01; payload = 0x02 ∷ 0xD0 ∷ 0x00 ∷ []; checksum = 0xD6 }

abbrev pub units : Notification
units = record { opcode = 0x0E; payload = 0x01 ∷ []; checksum = 0x10 }
