-- ===== src/Ipc.antt =====
-- internal/ipc/protocol.go: the messages between a client and the daemon. A response keeps the
-- error itself where the program keeps its text; their JSON form is the library's.
pub mod Controller
pub mod Server
pub mod Pulsing
pub mod Replies
pub mod Preemption
pub mod Client
pub mod Serving
pub mod Sockets
pub mod Transport
pub mod Frames
use yaasa_go.Prelude.{ℕ, Bool, true, false, String, Option, none, some}
use yaasa_go.Prelude.Int.{ℤ, pos}
use yaasa_go.Result.{Result, ok, err, Error}
use yaasa_go.Float.{FloatOps}
use yaasa_go.Desk.{Info}

pub record Request (F : Type 0) : Type 0 where
  pub cmd : String
  pub duration_ms : ℤ
  pub height_mm : F
  pub tolerance_mm : F
  pub timeout_ms : ℤ
  pub preset : ℤ
  pub save : Bool

pub record Response (F : Type 0) : Type 0 where
  pub is_ok : Bool
  pub error : Option Error
  pub height_mm : F
  pub stand_secs : ℕ
  pub sit_secs : ℕ
  pub connected : Bool
  pub notifications : Bool
  pub address : String
  pub device_name : String
  pub model : String
  pub manufacturer : String
  pub serial : String
  pub firmware_rev : String
  pub hardware_rev : String
  pub software_rev : String

module _ {F : Type 0} ⦃o : FloatOps F⦄ where
  -- `okR()`, `Response{OK: true}`
  abbrev pub ok_r : Response F
  ok_r = record {
    is_ok = true;
    error = none;
    height_mm = o.of_nat 0;
    stand_secs = 0;
    sit_secs = 0;
    connected = false;
    notifications = false;
    address = "";
    device_name = "";
    model = "";
    manufacturer = "";
    serial = "";
    firmware_rev = "";
    hardware_rev = "";
    software_rev = "";
  }

  abbrev pub err_r : Error → Response F
  err_r e = record ok_r { is_ok = false; error = some e }

  -- `if err != nil { return errR(err) }; return okR()`
  abbrev pub reply : Result (Unit {0}) → Response F
  reply (ok _) = ok_r
  reply (err e) = err_r e
