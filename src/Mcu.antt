-- ===== src/Mcu.antt =====
-- The BLE commands and states of a device, bhumi-mcu/src/ble.rs, with the command bytes of
-- bhumi-proto/src/ble.rs.
use bhumi.Base.{ℕ, Bool, ◌⊎◌, inl, inr, if◌then◌else◌, ascii}
use bhumi.Proto.Buffer.{Bytes}

abbrev pub reset : ℕ
reset = 0x01

abbrev pub provision : ℕ
provision = 0x02

abbrev pub reset_auth : ℕ
reset_auth = 0x11

abbrev pub provision_auth : ℕ
provision_auth = 0x12

pub record PendingCredentials : Type 0 where
  pub ssid : Bytes
  pub password : Bytes

pub data BleCommand : Type 0 where
  nothing : BleCommand
  resets : BleCommand
  provisions : PendingCredentials → BleCommand
  resets_auth : Bytes → BleCommand
  provisions_auth : PendingCredentials → Bytes → BleCommand

pub data DeviceStatus : Type 0 where
  unpaired : DeviceStatus
  paired : DeviceStatus
  connected : DeviceStatus
  wifi_failed : DeviceStatus

unfoldable pub as_bytes : DeviceStatus → Bytes
as_bytes unpaired = ascii "unpaired"
as_bytes paired = ascii "paired"
as_bytes connected = ascii "connected"
as_bytes wifi_failed = ascii "wifi_failed"

-- The error, or that the command is allowed.
unfoldable pub validate_command : BleCommand → Bool → Bytes ⊎ (Unit {0})
validate_command nothing is_paired = inr tt
validate_command resets is_paired =
    if is_paired then inl (ascii "device is paired, authentication required") else inr tt
validate_command (provisions creds) is_paired =
    if is_paired then inl (ascii "device is paired, authentication required") else inr tt
validate_command (resets_auth preimage) is_paired = inr tt
validate_command (provisions_auth creds preimage) is_paired = inr tt
