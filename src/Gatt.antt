-- ===== src/Gatt.antt =====
-- The discovery of services and characteristics that desk/adapter_darwin.go and desk/adapter_other.go
-- have in common. What a device offers is data; a UUID is the number of its short form.
pub mod Linux
pub mod Mac
pub mod Found
pub mod Sound
pub mod Agreement
use yaasa_go.Prelude.{
  ℕ, List, [], ◌∷◌, Option, none, some, Bool, true, false, ◌==◌, if◌then◌else◌, String,
}
use yaasa_go.Result.{Result, ok, err, Error}
use yaasa_go.Desk.{Info, no_info}

-- A characteristic: its UUID, its value as a text of bytes, and, if reads of it fail, what the
-- library for Linux has then put into the buffer.
pub record Char : Type 0 where
  pub uuid : ℕ
  pub text : String
  pub read_fails : Bool
  pub failed_text : String

-- A service, with what the discovery of its characteristics gives.
pub record Service : Type 0 where
  pub uuid : ℕ
  pub chars : Result (List Char)

-- The handles of FE61 and FE62, and what is known of the device.
pub record Handles : Type 0 where
  pub cmd : Option Char
  pub resp : Option Char
  pub info : Info

abbrev pub no_handles : Handles
no_handles = record { cmd = none; resp = none; info = no_info }

-- What was done with the device: the connection opened and closed, and a pause in milliseconds.
pub data Action : Type 0 where
  opened closed : Action
  slept : ℕ → Action

abbrev pub is_found : {A : Type 0} → Option A → Bool
is_found none = false
is_found (some x) = true
