-- ===== src/Ipc/Controller.antt =====
-- The interface `Controller` of internal/ipc/server.go, and the desk as one.
use yaasa_go.Prelude.{ℕ, Bool, true, String, List, Option}
use yaasa_go.Prelude.Int.{ℤ}
use yaasa_go.Result.{Result, M}
use yaasa_go.Float.{FloatOps}
use yaasa_go.Stats.{SitStandTime}
use yaasa_go.Desk.{Desk, Info, handle_notification}
use yaasa_go.Commands.{wake, move_up, move_down, stop, save_preset}
use yaasa_go.Schedule.{Event, notify}
use yaasa_go.WaitHeight.{wait_for_height}
use yaasa_go.WaitPreset.{wait_for_preset}
use yaasa_go.Fetch.{current_height, fetch_sit_stand_time, returned_of}

-- The operations that wait take the schedule under which they run, the cancellation of their
-- context included, and give no result if they have not returned in it. `happens` is what an event
-- does to the desk while the server itself waits.
pub record Controller (F S : Type 0) : Type 0 where
  pub wake : M S (Unit {0})
  pub move_up : M S (Unit {0})
  pub move_down : M S (Unit {0})
  pub stop : M S (Unit {0})
  pub wait_for_height : F → F → ℤ → List Event → S → Option (Result (Unit {0})) × S
  pub wait_for_preset : ℤ → ℤ → ℤ → List Event → S → Option (Result (Unit {0})) × S
  pub fetch_sit_stand_time : ℤ → List Event → S → Option (Result SitStandTime) × S
  pub current_height : ℤ → List Event → S → Option (Result F) × S
  pub save_preset : ℤ → M S (Unit {0})
  pub device_info : S → Info
  pub device_address : S → String
  pub notifications_available : S → Bool
  pub happens : Event → S → S

module _ {F : Type 0} ⦃o : FloatOps F⦄ where
  abbrev meanwhile : Event → Desk F → Desk F
  meanwhile (notify buf) d = (handle_notification buf d).0
  meanwhile _ d = d

  -- `*desk.Desk`; the callback that a call registers is `me`.
  unfoldable pub desk_controller : ℕ → Controller F (Desk F)
  desk_controller me = record {
    wake = wake;
    move_up = move_up;
    move_down = move_down;
    stop = stop;
    wait_for_height = λ h tol t es d.
        let w = wait_for_height (record { target = h; tolerance = tol; timeout = t }) me es d in
        (returned_of w.phase, w.desk);
    wait_for_preset = λ n t quiescence es d.
        let w =
          wait_for_preset (record { preset = n; timeout = t; quiescence = quiescence }) me es d in
        (returned_of w.phase, w.desk);
    fetch_sit_stand_time = λ t es d. fetch_sit_stand_time t me es d;
    current_height = λ t es d. current_height t me es d;
    save_preset = save_preset;
    device_info = λ d. d.info;
    device_address = λ d. d.address;
    -- `NotificationsAvailable` always returns true.
    notifications_available = λ d. true;
    happens = meanwhile;
  }
