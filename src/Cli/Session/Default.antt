-- ===== src/Cli/Session/Default.antt =====
-- cmd/yaasa/main.go: the default desk behind `autoDaemonClient`.
use yaasa_go.Prelude.{List, [], Option, none, some, Text, ◌≡◌, refl, ap, subst}
use yaasa_go.Result.{Result, ok, err}
use yaasa_go.Cli.{World, resolve_address, save_default_address, read_default_address, trim_space}
use yaasa_go.Cli.Address.{read_default_address-save}
use yaasa_go.Cli.Daemon.{ensure_daemon_client}
use yaasa_go.Cli.Session.{Host, Trail, opened, does, saved, ensured, resolved, auto_daemon_client}

resolve_address-read :
    (w : World) (a : Text) → read_default_address w ≡ some a → resolve_address [] w ≡ ok a
unfolding resolve_address
resolve_address-read w a h = rw h refl

module _ {F : Type 0} (h : Host F) where
  -- What is saved and opened when there is a client for `addr`.
  abbrev IsDefault : Text → Option (Result Text) × Trail F → Type 0
  IsDefault addr x = x.0 ≡ some (ok addr) → read_default_address x.1.world ≡ some (trim_space addr)

  saved-IsDefault :
      (a addr : Text) (w : World) (t : Trail F) (x : Result (Unit {0}) × World)
      → save_default_address a w ≡ x
      → IsDefault addr (saved h a t x)
  saved-IsDefault a addr w t (ok u, w') q e =
      let b : a ≡ addr = cc in
      subst (λ z. read_default_address w' ≡ some (trim_space z)) b
        (subst (λ z. read_default_address z ≡ some (trim_space a)) (ap (λ y. y.1) q)
          (read_default_address-save a w (ap (λ y. y.0) q)))
  saved-IsDefault a addr w t (err z, w') q e = cc

  ensured-IsDefault :
      (a addr : Text) (r : Option (Result (Unit {0}))) (t : Trail F)
      → IsDefault addr (ensured h a r t)
  ensured-IsDefault a addr none t e = cc
  ensured-IsDefault a addr (some (err z)) t e = cc
  ensured-IsDefault a addr (some (ok u)) t e =
      saved-IsDefault a addr t.world (does opened t) (save_default_address a t.world) refl e

  resolved-IsDefault :
      (addr : Text) (r : Result Text) (t : Trail F) → IsDefault addr (resolved h r t)
  resolved-IsDefault addr (err z) t e = cc
  resolved-IsDefault addr (ok a) t e =
      ensured-IsDefault a addr
        (ensure_daemon_client h.connect_timeout (h.answers a) (h.start a) h.probes) t e

  -- After a command has got a client for an address, a command without an argument is for the same
  -- address, up to the spaces around it.
  pub auto_daemon_client-resolve_address :
      (args : List Text) (addr : Text) (t : Trail F)
      → (auto_daemon_client h args t).0 ≡ some (ok addr)
      → resolve_address [] (auto_daemon_client h args t).1.world ≡ ok (trim_space addr)
  unfolding auto_daemon_client
  auto_daemon_client-resolve_address args addr t e =
      resolve_address-read (auto_daemon_client h args t).1.world (trim_space addr)
        (resolved-IsDefault addr (resolve_address args t.world) t e)
