-- ===== src/Cli/Direct/Left.antt =====
-- cmd/yaasa/main.go: how "daemon" and "monitor" leave the connection.
use yaasa_go.Prelude.{ℕ, List, [], ◌∷◌, ◌++◌, Option, none, some, Text, ◌≡◌, refl, sym, subst}
use yaasa_go.Prelude.Int.{ℤ}
use yaasa_go.Result.{Result, ok, err}
use yaasa_go.Float.{FloatOps}
use yaasa_go.Schedule.{Phase, returned}
use yaasa_go.Desk.{Desk, Action, disconnect, disconnect_desk}
use yaasa_go.Cli.{World, resolve_address, save_default_address}
use yaasa_go.Cli.Daemon.{Socket, listen}
use yaasa_go.Cli.Direct.{
  Site, Ended, Serving, Shutdown, Watching, Watch, left, with_desk, kept, connected, with_address,
  meanwhile, served, serve_desk, daemon_cmd, watched, monitor, monitor_cmd,
}

-- The last action at the connection, if there is one, was to close it.
abbrev pub IsLeft : {F : Type 0} → Option (Desk F) → Type 0
IsLeft none = Unit
IsLeft (some d) = (l : List Action) × (d.conn.log ≡ l ++ disconnect ∷ [])

-- A command that has returned has left its connection.
abbrev pub HasLeft : {F : Type 0} → Ended F → Type 0
HasLeft (none, s) = Unit
HasLeft (some r, s) = IsLeft s.desk

module _ {F : Type 0} where
  left-IsLeft : (d : Desk F) → IsLeft (some (left d))
  unfolding disconnect_desk
  left-IsLeft d = (d.conn.log, refl)

  kept-HasLeft :
      (f : Desk F → Site F → Ended F) (d : Desk F) (s : Site F) (x : Result (Unit {0}) × World)
      → ((d : Desk F) (s : Site F) → HasLeft (f d s))
      → HasLeft (kept f d s x)
  kept-HasLeft f d s (ok _, w) v = v d (record s { world = w })
  kept-HasLeft f d s (err e, w) v = left-IsLeft d

  connected-HasLeft :
      (f : Desk F → Site F → Ended F) (addr : Text) (r : Result (Desk F)) (s : Site F)
      → s.desk ≡ none
      → ((d : Desk F) (s : Site F) → HasLeft (f d s))
      → HasLeft (connected f addr r s)
  connected-HasLeft f addr (err e) s n v = subst IsLeft (sym n) tt
  connected-HasLeft f addr (ok d) s n v = kept-HasLeft f d s (save_default_address addr s.world) v

  with_address-HasLeft :
      (connect : Text → Result (Desk F)) (f : Desk F → Site F → Ended F) (r : Result Text)
      (s : Site F)
      → s.desk ≡ none
      → ((d : Desk F) (s : Site F) → HasLeft (f d s))
      → HasLeft (with_address connect f r s)
  with_address-HasLeft connect f (err e) s n v = subst IsLeft (sym n) tt
  with_address-HasLeft connect f (ok addr) s n v = connected-HasLeft f addr (connect addr) s n v

  served-HasLeft :
      (es : List (Serving F)) (end : Shutdown) (d : Desk F) (s : Site F)
      (x : Result (Unit {0}) × Socket)
      → HasLeft (served es end d s x)
  served-HasLeft es end d s (err e, sock) = left-IsLeft d
  served-HasLeft es end d s (ok _, sock) = left-IsLeft (meanwhile es d)

  -- However "daemon" returns, the last that it does with a connection that it has made is to close it.
  pub daemon_cmd-HasLeft :
      (connect : Text → Result (Desk F)) (es : List (Serving F)) (end : Shutdown) (args : List Text)
      (s : Site F)
      → s.desk ≡ none
      → HasLeft (daemon_cmd connect es end args s)
  unfolding daemon_cmd with_desk serve_desk
  daemon_cmd-HasLeft connect es end args s n =
      with_address-HasLeft connect (serve_desk es end) (resolve_address args s.world) s n
        (λ d t. served-HasLeft es end d t (listen t.socket))

  watched-HasLeft : (s : Site F) (p : Phase (Unit {0})) (w : Watch F) → HasLeft (watched s p w)
  watched-HasLeft s (returned r) w = left-IsLeft w.desk
  watched-HasLeft s _ w = tt

-- However "monitor" returns, the last that it does with a connection that it has made is to close it.
pub monitor_cmd-HasLeft :
    {F : Type 0} ⦃o : FloatOps F⦄ (interval : ℤ) (me : ℕ) (connect : Text → Result (Desk F))
    (es : List Watching) (args : List Text) (s : Site F)
    → s.desk ≡ none
    → HasLeft (monitor_cmd interval me connect es args s)
unfolding monitor_cmd with_desk
monitor_cmd-HasLeft interval me connect es args s n =
    with_address-HasLeft connect
      (λ d s'. watched s' (monitor interval me es d).phase (monitor interval me es d))
      (resolve_address args s.world) s n
      (λ d t. watched-HasLeft t (monitor interval me es d).phase (monitor interval me es d))
