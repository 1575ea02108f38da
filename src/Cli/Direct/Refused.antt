-- ===== src/Cli/Direct/Refused.antt =====
-- cmd/yaasa/main.go: a second "daemon" for the same desk, and how both commands end.
use yaasa_go.Prelude.{List, some, true, false, Text, ◌≡◌, refl}
use yaasa_go.Result.{Result, ok, err, message}
use yaasa_go.Desk.{Desk}
use yaasa_go.Cli.{World, resolve_address, save_default_address}
use yaasa_go.Cli.Daemon.{listen}
use yaasa_go.Cli.Direct.{Site, Ended, kept, Serving, Shutdown, with_desk, serve_desk, daemon_cmd}

kept-ok :
    {F : Type 0} (f : Desk F → Site F → Ended F) (d : Desk F) (s : Site F)
    (x : Result (Unit {0}) × World)
    → x.0 ≡ ok tt
    → kept f d s x ≡ f d (record s { world = x.1 })
kept-ok f d s (ok u, w) e = refl
kept-ok f d s (err z, w) e = cc

pub with_desk-ok :
    {F : Type 0} (connect : Text → Result (Desk F)) (f : Desk F → Site F → Ended F)
    (args : List Text) (s : Site F) (addr : Text) (d : Desk F)
    → resolve_address args s.world ≡ ok addr
    → connect addr ≡ ok d
    → (save_default_address addr s.world).0 ≡ ok tt
    → with_desk connect f args s ≡ f d (record s { world = (save_default_address addr s.world).1 })
unfolding with_desk
with_desk-ok connect f args s addr d r c v =
    rw (r, c) (kept-ok f d s (save_default_address addr s.world) v)

serve_desk-answering :
    {F : Type 0} (es : List (Serving F)) (end : Shutdown) (d : Desk F) (s : Site F)
    → s.socket.answering ≡ true
    → ((serve_desk es end d s).0 ≡ some (err (message "a daemon is already running")))
      × ((serve_desk es end d s).1.socket.answering ≡ false)
unfolding serve_desk listen
serve_desk-answering es end d s a = rw a (refl, refl)

-- "daemon" for a desk that a running daemon serves: when the connection succeeds all the same, the new
-- one is refused, but its end unlinks the socket, so that nobody can connect to the running one.
pub daemon_cmd-unlinks :
    {F : Type 0} (connect : Text → Result (Desk F)) (es : List (Serving F)) (end : Shutdown)
    (args : List Text) (s : Site F) (addr : Text) (d : Desk F)
    → resolve_address args s.world ≡ ok addr
    → connect addr ≡ ok d
    → (save_default_address addr s.world).0 ≡ ok tt
    → s.socket.answering ≡ true
    → ((daemon_cmd connect es end args s).0 ≡ some (err (message "a daemon is already running")))
      × ((daemon_cmd connect es end args s).1.socket.answering ≡ false)
unfolding daemon_cmd
daemon_cmd-unlinks connect es end args s addr d r c v a =
    let q = with_desk-ok connect (serve_desk es end) args s addr d r c v in
    rw q
      (serve_desk-answering es end d (record s { world = (save_default_address addr s.world).1 }) a)
