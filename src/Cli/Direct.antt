-- ===== src/Cli/Direct.antt =====
-- cmd/yaasa/main.go: the commands "scan", "daemon" and "monitor", which use the desk directly.
-- Progress messages are left out, and a height is printed as such.
pub mod Scanned
pub mod Refused
pub mod Left
pub mod Monitored
use yaasa_go.Prelude.{
  ℕ, List, [], ◌∷◌, ◌++◌, Option, none, some, Bool, true, false, ◌||◌, ◌==◌, Text, Bytes,
  if◌then◌else◌, length,
}
use yaasa_go.Prelude.Int.{ℤ, is_nonpos}
use yaasa_go.Result.{Result, ok, err, Error, M, wrapped, ignore}
use yaasa_go.Schedule.{Phase, selecting, returned, own}
use yaasa_go.Float.{FloatOps}
use yaasa_go.Desk.{Desk, Call, disconnect_desk, add_height_listener, handle_notification}
use yaasa_go.Desk.Notify.{height_calls}
use yaasa_go.Commands.{request_height_limits}
use yaasa_go.Cli.{World, Found, resolve_address, save_default_address, is_empty}
use yaasa_go.Cli.Daemon.{Socket, listen}

-- Equality of addresses, the keys of `seen`.
abbrev pub same : Text → Text → Bool
same [] [] = true
same [] (c ∷ cs) = false
same (b ∷ bs) [] = false
same (b ∷ bs) (c ∷ cs) = if b == c then same bs cs else false

unfoldable pub member : Text → List Text → Bool
member a [] = false
member a (b ∷ bs) = same a b || member a bs

-- `label`, "(unknown)" without a name
abbrev pub label : Text → Text
label name = if is_empty name then 40 ∷ 117 ∷ 110 ∷ 107 ∷ 110 ∷ 111 ∷ 119 ∷ 110 ∷ 41 ∷ [] else name

abbrev pub labelled : Found → Found
labelled f = record { addr = f.addr; name = label f.name }

-- The callback of "scan", for each desk that is found, and the desks that it prints.
unfoldable pub print_new : List Text → List Found → List Found
unfolding member
print_new seen [] = []
print_new seen (f ∷ fs) =
    let others = print_new (f.addr ∷ seen) fs in
    let rest = print_new seen fs in if member f.addr seen then rest else labelled f ∷ others

-- "scan": the printed desks, none for "No desks found.", and its error.
unfoldable pub scan_cmd : World → Result (Unit {0}) × List Found
unfolding print_new
scan_cmd w = elim w.scan [ err e ↦ (err e, []) | ok fs ↦ (ok tt, print_new [] fs) ]

-- What "daemon" and "monitor" work with: the files, the socket of the address, and the connection that
-- they make, if they have made one.
pub record Site (F : Type 0) : Type 0 where
  pub world : World
  pub socket : Socket
  pub desk : Option (Desk F)

-- `os.Remove` of the socket's path: nobody can connect to it any more.
abbrev pub unlinked : Socket → Socket
unlinked s = record s { present = false; answering = false }

-- What happens while the daemon serves: a keep-alive, or what a request does to the desk.
pub data Serving (F : Type 0) : Type 0 where
  keep_alive : Serving F
  serves : (Desk F → Desk F) → Serving F

-- How the `select` of "daemon" ends.
pub data Shutdown : Type 0 where
  signal quit : Shutdown
  serve_ended : Result (Unit {0}) → Shutdown

abbrev pub shut_down : Shutdown → Result (Unit {0})
shut_down (serve_ended (err e)) = err (wrapped "daemon" e)
shut_down _ = ok tt

-- What happens while "monitor" waits: a buffer arrives, or a case of its `select`.
pub data Watching : Type 0 where
  notified : Bytes → Watching
  interrupted polled : Watching

-- The state of "monitor", with the heights that it has printed.
pub record Watch (F : Type 0) : Type 0 where
  pub desk : Desk F
  pub shown : List F
  pub phase : Phase (Unit {0})

-- The result of a command, once it has returned, and what it leaves.
abbrev pub Ended : Type 0 → Type 0
Ended F = Option (Result (Unit {0})) × Site F

module _ {F : Type 0} where
  -- `d.Disconnect()`, whose error is dropped.
  abbrev pub left : Desk F → Desk F
  left d = (ignore disconnect_desk d).1

  -- Both commands start with an address and a connection, which is closed if the address is not saved.
  abbrev pub kept :
      (Desk F → Site F → Ended F) → Desk F → Site F → Result (Unit {0}) × World → Ended F
  kept f d s (ok _, w) = f d (record s { world = w })
  kept f d s (err e, w) = (some (err e), record s { world = w; desk = some (left d) })

  abbrev pub connected : (Desk F → Site F → Ended F) → Text → Result (Desk F) → Site F → Ended F
  connected f addr (err e) s = (some (err e), s)
  connected f addr (ok d) s = kept f d s (save_default_address addr s.world)

  abbrev pub with_address :
      (Text → Result (Desk F)) → (Desk F → Site F → Ended F) → Result Text → Site F → Ended F
  with_address connect f (err e) s = (some (err e), s)
  with_address connect f (ok addr) s = connected f addr (connect addr) s

  unfoldable pub with_desk :
      (Text → Result (Desk F)) → (Desk F → Site F → Ended F) → List Text → Site F → Ended F
  with_desk connect f args s = with_address connect f (resolve_address args s.world) s

  unfoldable pub meanwhile : List (Serving F) → Desk F → Desk F
  meanwhile [] d = d
  meanwhile (keep_alive ∷ es) d = meanwhile es (ignore request_height_limits d).1
  meanwhile (serves f ∷ es) d = meanwhile es (f d)

  -- The deferred function of "daemon".
  abbrev pub leave : Desk F → Site F → Site F
  leave d s = record s { socket = unlinked s.socket; desk = some (left d) }

  abbrev pub served :
      List (Serving F) → Shutdown → Desk F → Site F → Result (Unit {0}) × Socket → Ended F
  served es end d s (err e, sock) = (some (err e), leave d (record s { socket = sock }))
  served es end d s (ok _, sock) =
      (some (shut_down end), leave (meanwhile es d) (record s { socket = unlinked sock }))

  unfoldable pub serve_desk : List (Serving F) → Shutdown → Desk F → Site F → Ended F
  unfolding meanwhile
  serve_desk es end d s = served es end d s (listen s.socket)

  -- "daemon", with how the desk is connected, what happens while it serves and how that ends.
  unfoldable pub daemon_cmd :
      (Text → Result (Desk F)) → List (Serving F) → Shutdown → List Text → Site F → Ended F
  unfolding with_desk serve_desk
  daemon_cmd connect es end args s = with_desk connect (serve_desk es end) args s

  -- The deferred `d.Disconnect()`.
  abbrev pub watched : Site F → Phase (Unit {0}) → Watch F → Ended F
  watched s (returned r) w = (some r, record s { desk = some (left w.desk) })
  watched s _ w = (none, record s { desk = some w.desk })

module _ {F : Type 0} ⦃o : FloatOps F⦄ (interval : ℤ) (me : ℕ) where
  abbrev pub after_poll : Result (Unit {0}) × Desk F → Watch F → Watch F
  after_poll (ok _, d) w = record w { desk = d }
  after_poll (err e, d) w = record w {
    desk = d;
    phase = returned (err (wrapped "request height limits" e));
  }

  -- The desk calls the listener `me`, which prints.
  abbrev pub heard : Desk F × List (Call F) → Watch F → Watch F
  heard (d, calls) w = record w { desk = d; shown = w.shown ++ own me (height_calls calls) }

  -- Without an interval there is no ticker.
  unfoldable pub watch_turn : Phase (Unit {0}) → Watching → Watch F → Watch F
  watch_turn selecting (notified buf) w = heard (handle_notification buf w.desk) w
  watch_turn selecting interrupted w = record w { phase = returned (ok tt) }
  watch_turn selecting polled w =
      if is_nonpos interval then w else after_poll (request_height_limits w.desk) w
  watch_turn _ e w = w

  unfoldable pub watch_run : List Watching → Watch F → Watch F
  unfolding watch_turn
  watch_run [] w = w
  watch_run (e ∷ es) w = watch_run es (watch_turn w.phase e w)

  abbrev pub asked_first : Result (Unit {0}) × Desk F → Watch F
  asked_first (ok _, d) = record { desk = d; shown = []; phase = selecting }
  asked_first (err e, d) = record { desk = d; shown = []; phase = returned (err e) }

  -- "monitor" behind its connection.
  unfoldable pub monitor : List Watching → Desk F → Watch F
  unfolding watch_run
  monitor es d = watch_run es (asked_first (request_height_limits (add_height_listener me d).1))

  -- "monitor"
  unfoldable pub monitor_cmd :
      (Text → Result (Desk F)) → List Watching → List Text → Site F → Ended F
  unfolding with_desk monitor
  monitor_cmd connect es args s =
      with_desk connect (λ d s'. watched s' (monitor es d).phase (monitor es d)) args s
