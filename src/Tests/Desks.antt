-- ===== src/Tests/Desks.antt =====
-- Tests of the desk, its commands, heights and counters, and instances of their theorems.
use yaasa_go.Prelude.{[], ◌∷◌, ◌++◌, ◌≡◌, refl, none, some}
use yaasa_go.Prelude.Int.{ℤ, pos}
use yaasa_go.Float.Whole.{whole}
use yaasa_go.Height.{millimetre_bytes, raw_bytes}
use yaasa_go.Stats.{SitStandTime}
use yaasa_go.Packet.{decode_response, decode_responses}
use yaasa_go.Packet.Frame.{frame}
use yaasa_go.Desk.{
  decode_height_payload, Desk, handle_notification, decode_height_notification, add_height_listener,
  cancel_height_listener,
}
use yaasa_go.Desk.Notify.{Handled, handle_notification-Handled}
use yaasa_go.Desk.Listeners.{cancel_height_listener_in_order}
use yaasa_go.Tests.{fresh, report_720, units}

rejects_two_bytes :
    decode_height_notification {F = ℤ} (0xF2 ∷ 0xF2 ∷ 0x01 ∷ 0x02 ∷ 0x02 ∷ 0xD1 ∷ 0xD6 ∷ 0x7E ∷ [])
    ≡ none
unfolding decode_height_notification decode_response decode_responses decode_height_payload
rejects_two_bytes = refl

accepts_720 : decode_height_notification (frame report_720) ≡ some (pos 720)
unfolding decode_height_notification decode_response decode_responses decode_height_payload
accepts_720 = refl

tenths : raw_bytes (pos 720) ≡ 0x1C ∷ 0x20 ∷ []
unfolding raw_bytes
tenths = refl

whole_millimetres : millimetre_bytes (pos 1372) ≡ 0x05 ∷ 0x5C ∷ []
unfolding millimetre_bytes
whole_millimetres = refl

abbrev counters : SitStandTime
counters = record { stand_h = 1; stand_m = 59; stand_s = 7; sit_h = 30; sit_m = 0; sit_s = 48 }

abbrev heard : Desk ℤ
heard = record fresh { listeners = 4 ∷ 9 ∷ [] }

handle_notification-Handled_example :
    Handled
      (decode_responses (frame report_720 ++ frame units))
      heard
      (handle_notification (frame report_720 ++ frame units) heard).0
      (handle_notification (frame report_720 ++ frame units) heard).1
handle_notification-Handled_example =
    handle_notification-Handled (frame report_720 ++ frame units) heard

-- The second cancel function takes listener 3 off in place of its own, 2.
cancel_height_listener_in_order_example :
    ((cancel_height_listener 1
        (cancel_height_listener 0 (record fresh { listeners = 1 ∷ 2 ∷ [] }))).listeners
      ≡ 2 ∷ [])
    × ((cancel_height_listener 1
          (cancel_height_listener 0 (record fresh { listeners = 1 ∷ 2 ∷ 3 ∷ [] }))).listeners
        ≡ 2 ∷ [])
unfolding add_height_listener
cancel_height_listener_in_order_example = cancel_height_listener_in_order 1 2 3 fresh
