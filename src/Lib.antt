-- ===== src/Lib.antt =====
-- Yaasa standing desks over Bluetooth: the Go library (desk, internal/protocol), its daemon and client
-- (internal/ipc), the command line (cmd/yaasa) and the C interface (clib).
--
-- A desk answers commands that are written as frames, and reports its height and its sit/stand counters in
-- notifications. The library caches what is reported, passes it on to listeners, and drives the desk to a
-- height or a preset by sending the same command again and again until a report, a quiet time, a timeout
-- or a cancellation ends the loop. A daemon holds the connection and serves the requests of the command
-- line, a newer command preempting the running one. The C interface drives the library directly.
--
-- Files and code:
--   Packet             internal/protocol/packet.go: MakeCommand, DecodeResponses, DecodeResponse
--   Height             desk/height.go: the conversions of heights, Near
--   Stats              desk/stats.go: the counters, their decoding and display
--   Desk               desk/desk.go: ConnectWith, handleNotification, the listeners and caches
--   Desk.Connection    desk/adapter.go: the interface Connection, and the connection of the model
--   Commands           desk/commands.go: every command
--   WaitHeight         desk/monitor.go: WaitForHeight; WaitHeight.Listeners runs it beside the others'
--                      AddHeightListener of desk/desk.go and its cancel functions
--   WaitPreset         desk/monitor.go: WaitForPreset
--   Fetch              desk/monitor.go: CurrentHeight; desk/stats.go: FetchSitStandTime
--   Schedule           what the waiting functions run against: events in an order
--   Ipc                internal/ipc/protocol.go: Request, Response
--   Ipc.Controller     internal/ipc/server.go: the interface Controller, and the desk as one
--   Ipc.Server         internal/ipc/server.go: dispatch
--   Ipc.Preemption     internal/ipc/server.go: handle, as steps of concurrent goroutines;
--                      Ipc.Preemption.Latest is its specification
--   Ipc.Serving        internal/ipc/server.go: handle on one connection, with its deadline
--   Ipc.Transport      internal/ipc/transport.go, with UnixTransport, ListenWith and DialWith
--   Ipc.Sockets        internal/ipc/unix.go: the calls of Listen in several processes at once
--   Ipc.Client         internal/ipc/client.go: Do and its wrappers
--   Cli                cmd/yaasa/main.go: the helpers; internal/ipc/unix.go: safeAddress
--   Cli.Daemon         internal/ipc/unix.go: the paths and Listen; cmd/yaasa/main.go: the wait for a
--                      daemon and for an interrupted command
--   Cli.Session        cmd/yaasa/main.go: autoDaemonClient, the requests of a command, runInterruptible
--   Cli.Verbs          cmd/yaasa/main.go: the commands that speak to the daemon
--   Cli.Direct         cmd/yaasa/main.go: "scan", "daemon" and "monitor"
--   Cli.Detached       cmd/yaasa/main.go: the start of a daemon in the background
--   Cli.Verbose        cmd/yaasa/main.go: the log of --verbose around the commands
--   Cli.Flags          cmd/yaasa/main.go: the flags of the commands and their defaults
--   Cli.MoveFor        cmd/yaasa/main.go: moveFor
--   Clib               clib/clib.go: the registries, timed moves and waits; Clib.Handles has the
--                      handles of desks and their listeners, Clib.Returns the codes for C
--   Darwin             desk/adapter_darwin.go: the power state, the wait for a peripheral, the scan, and
--                      the channels of a connection
--   Gatt               the discovery of both adapters: Gatt.Linux for desk/adapter_other.go and Gatt.Mac
--                      for desk/adapter_darwin.go
--   Float              the operations of float64 that are used, as an interface, with the laws of IEEE
--                      754 on whole numbers; Float.Whole fills it with whole numbers
--   Result             error values and functions that change a state and may fail
--   Prelude            shared names and lemmas; Prelude.Int has int64 with its wrap-around
--   Tests              runs at concrete inputs
--
-- How the code is modelled. A byte slice is a list of numbers below 256. The BLE stack is a record
-- of what it answers, and a log of what it was asked. A function that waits is a machine: its state
-- has the locals, the channels as what is in them, the timers as times in nanoseconds, and a
-- schedule is any list of what happens: time passes, a buffer is delivered, the function goes on to
-- its next call, or a case of its select is taken if it is ready. A theorem for every schedule is
-- one for every interleaving of these. The listeners that other goroutines add or cancel come in
-- between in WaitHeight.Listeners alone; the writes of the keep-alive of cmd/yaasa/main.go come
-- between the requests in Cli.Direct, and in no schedule. The decoder has the length of its buffer
-- as fuel, since each round drops a byte. A pause inside a command is an entry of the log. Mutexes
-- make each function on shared state one step; for the daemon the sections under cancelMu and
-- dispatchMu are the steps. A text of the command line is the list of its code points.
--
-- A command of the command line leaves a trail: the connections that it opens and closes, its requests and
-- the lines that it prints. A device under an adapter is data: its services, their characteristics, and
-- what reading these gives.
--
-- The daemon's commands that are concurrent are the steps of Ipc.Preemption; Ipc.Serving follows one
-- connection, whose request is served at the time at which the lock is free.
--
-- Not modelled: CoreBluetooth and BlueZ themselves, JSON, the operating system's sockets and processes beyond
-- what their calls answer, the parsing of flags, progress messages, the memory of C
-- strings, and the texts of errors, which are kept as data.
pub mod Prelude
pub mod Result
pub mod Packet
pub mod Float
pub mod Height
pub mod Stats
pub mod Desk
pub mod Commands
pub mod Schedule
pub mod WaitHeight
pub mod WaitPreset
pub mod Fetch
pub mod Ipc
pub mod Cli
pub mod Clib
pub mod Darwin
pub mod Gatt
mod Tests
