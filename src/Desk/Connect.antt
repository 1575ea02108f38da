-- ===== src/Desk/Connect.antt =====
-- ConnectWith of desk/desk.go.
use yaasa_go.Prelude.{◌≡◌, refl, ◌∙◌, List, [], ◌∷◌, ◌++◌, append_assoc, String}
use yaasa_go.Prelude.Int.{ℤ}
use yaasa_go.Float.{FloatOps}
use yaasa_go.Packet.{make_command}
use yaasa_go.Result.{Result, ok}
use yaasa_go.Desk.{Desk, Conn, Info, connect_with, set_up, apply_options, new_desk, subscribe, tx}

module _ {F : Type 0} ⦃o : FloatOps F⦄ where
  -- The connection of a new desk is set up in the order that the BLE module needs: the
  -- subscription, then the wake frame, then the request that warms the cache, whether or not these
  -- succeed.
  pub connect_with-log :
      (connected : String → ℤ → Result (Conn × Info)) (address : String) (timeout : ℤ)
      (options : List (Desk F → Desk F)) (c : Conn) (info : Info)
      → connected address timeout ≡ ok (c, info)
      → (d : Desk F) × (connect_with connected address timeout options ≡ ok d)
        × (d.conn.log
            ≡ c.log ++ subscribe ∷ tx (make_command 0x00 []) ∷ tx (make_command 0x07 []) ∷ [])
        × (d.address ≡ address)
        × (d.info ≡ info)
  unfolding connect_with
  connect_with-log connected address timeout options c info e =
      let d = record (apply_options options (new_desk c)) {
        address = address;
        info = info;
        conn = c;
      } in
      (
        set_up d,
        rw (e, connect_with),
        append_assoc (c.log ++ subscribe ∷ []) (tx (make_command 0x00 []) ∷ []) _
            ∙ append_assoc c.log (subscribe ∷ []) _,
        refl,
        refl,
      )
