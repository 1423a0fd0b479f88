-- ===== src/Esp/Ble.antt =====
-- Provisioning over BLE, examples/esp32-smart-switch/src/ble.rs, with the commands of
-- bhumi-proto/src/ble.rs. No callback panics, so that the lock of the state can always be taken.
use bhumi.Base.{
  ℕ, List, [], ◌∷◌, Bool, true, false, ◌&&◌, Option, none, some, if◌then◌else◌, nat_eq, ltb, length,
}
use bhumi.Proto.Buffer.{Bytes}
use bhumi.Proto.Utf8.{is_utf8}
use bhumi.Mcu.{reset, provision}
use bhumi.Esp.Nvs.{
  found, absent, failed, Nvs, key_secret, key_state, key_led_on, key_wifi_ssid, key_wifi_pass,
}

pub record PendingCredentials : Type 0 where
  pub ssid : Bytes
  pub password : Bytes

pub data BleCommand : Type 0 where
  nothing : BleCommand
  resets : BleCommand
  provisions : PendingCredentials → BleCommand

pub record BleState : Type 0 where
  pub ssid : Bytes
  pub password : Bytes
  pub command : BleCommand

abbrev pub new : BleState
new = record { ssid = []; password = []; command = nothing }

-- The three characteristics that a client writes.
pub data Characteristic : Type 0 where
  wifi_ssid : Characteristic
  wifi_pass : Characteristic
  command : Characteristic

-- The callback of the command characteristic, on the first byte.
unfoldable pub on_command : ℕ → BleState → BleState
on_command c s =
    if nat_eq c reset
    then record s { command = resets }
    else if nat_eq c provision && ltb 0 (length s.ssid) && ltb 0 (length s.password)
    then record s { command = provisions (record { ssid = s.ssid; password = s.password }) }
    else s

-- The callbacks of `on_write`.
unfoldable pub on_write : Characteristic → Bytes → BleState → BleState
unfolding on_command
on_write wifi_ssid value s = if is_utf8 value then record s { ssid = value } else s
on_write wifi_pass value s = if is_utf8 value then record s { password = value } else s
on_write Characteristic.command [] s = s
on_write Characteristic.command (c ∷ cs) s = on_command c s

unfoldable pub on_writes : List (Characteristic × Bytes) → BleState → BleState
unfolding on_write
on_writes [] s = s
on_writes ((c, value) ∷ more) s = on_writes more (on_write c value s)

-- A write that fails changes nothing.
unfoldable pub or_keep : {S : Type 0} → S → Option S → S
or_keep s none = s
or_keep s (some s') = s'

unfoldable pub save_wifi_credentials : {S : Type 0} → Nvs S → Bytes → Bytes → S → S
unfolding or_keep
save_wifi_credentials n ssid password s =
    let s = or_keep s (n.set_str key_wifi_ssid ssid s) in
    or_keep s (n.set_str key_wifi_pass password s)

unfoldable pub read_str : {S : Type 0} → Nvs S → Bytes → ℕ → S → Option Bytes
read_str n key size s = elim (n.get_str key size s) [
  | found v ↦ some v
  | absent ↦ none
  | failed ↦ none
]

unfoldable pub load_wifi_credentials : {S : Type 0} → Nvs S → S → Option (Bytes × Bytes)
unfolding read_str
load_wifi_credentials n s = elim (read_str n key_wifi_ssid 64 s) [
  | none ↦ none
  | some ssid ↦ elim (read_str n key_wifi_pass 128 s) [
    | none ↦ none
    | some pass ↦ if nat_eq (length ssid) 0 then none else some (ssid, pass)
  ]
]

unfoldable pub reset_device : {S : Type 0} → Nvs S → S → S
reset_device n s =
    let s = n.remove key_wifi_ssid s in
    let s = n.remove key_wifi_pass s in
    let s = n.remove key_secret s in let s = n.remove key_state s in n.remove key_led_on s

-- What the pending command does to the storage, and if the device should restart.
unfoldable pub run_command : {S : Type 0} → Nvs S → BleCommand → S → S × Bool
unfolding reset_device save_wifi_credentials
run_command n nothing s = (s, false)
run_command n resets s = (reset_device n s, true)
run_command n (provisions creds) s = (save_wifi_credentials n creds.ssid creds.password s, true)

unfoldable pub check_ble_command : {S : Type 0} → Nvs S → BleState → S → BleState × S × Bool
unfolding run_command
check_ble_command n ble s =
    let (s, restart) = run_command n ble.command s in (record ble { command = nothing }, s, restart)
