-- ===== src/Esp/Wifi.antt =====
-- The WiFi of the switch: `ensure_wifi_connected` and `main` before it, main.rs of
-- examples/esp32-smart-switch/src. An attempt to reconnect is what the driver answers, and what the
-- BLE client writes before it and in each tenth of a second after it.
use bhumi.Base.{
  ℕ, zero, suc, ◌+◌, ◌*◌, ◌^◌, ◌≡◌, ◌⊎◌, List, [], ◌∷◌, ◌++◌, Bool, true, false, ◌&&◌, length, All,
}
use Prim.Native.Nat.{min}
use Prim.Native.Nat.pow
use bhumi.Proto.Buffer.{Bytes}
use bhumi.Esp.Nvs.{Nvs}
use bhumi.Esp.Ble.{BleState, Characteristic, on_writes, check_ble_command}

abbrev pub Writes : Type 0
Writes = List (Characteristic × Bytes)

-- `connects` is the result of `wifi.connect`, and `gets_ip` that of `wait_netif_up`.
pub record Attempt : Type 0 where
  pub before : Writes
  pub connects : Bool
  pub gets_ip : Bool
  pub during : ℕ → Writes

-- How the loop ends: it is left, the device restarts, or no more attempt is made and the delay is for
-- the next.
pub data Ended : Type 0 where
  connected : Ended
  restarted : Ended
  waits : ℕ → Ended

unfoldable pub poll : {S : Type 0} → Nvs S → Writes → BleState → S → BleState × S × Bool
poll n ws ble s = check_ble_command n (on_writes ws ble) s

-- The sleep in tenths of a second, which a command ends.
unfoldable pub sleep : {S : Type 0} → Nvs S → (ℕ → Writes) → ℕ → BleState → S → BleState × S × Bool
unfolding poll
sleep n during zero ble s = (ble, s, false)
sleep n during (suc left) ble s =
    let (ble, s, restart) = poll n (during left) ble s in
    let rest = sleep n during left ble s in elim restart [ true ↦ (ble, s, true) | false ↦ rest ]

unfoldable pub next_delay : ℕ → ℕ
next_delay retry_delay = min (retry_delay * 2) 60

unfoldable pub reconnect :
    {S : Type 0} → Nvs S → ℕ → List Attempt → BleState → S → BleState × S × Ended
unfolding poll sleep next_delay
reconnect n retry_delay [] ble s = (ble, s, waits retry_delay)
reconnect n retry_delay (a ∷ more) ble s =
    let (ble1, s1, restart) = poll n a.before ble s in
    let (ble2, s2, restart2) = sleep n a.during (retry_delay * 10) ble1 s1 in
    let rest = reconnect n (next_delay retry_delay) more ble2 s2 in
    elim restart [
      | true ↦ (ble1, s1, restarted)
      | false ↦ elim (a.connects && a.gets_ip) [
        | true ↦ (ble1, s1, connected)
        | false ↦ elim restart2 [ true ↦ (ble2, s2, restarted) | false ↦ rest ]
      ]
    ]

-- `is_connected` is asked first.
unfoldable pub ensure_wifi_connected :
    {S : Type 0} → Nvs S → Bool → List Attempt → BleState → S → BleState × S × Ended
unfolding reconnect
ensure_wifi_connected n is_connected attempts ble s = elim is_connected [
  | true ↦ (ble, s, connected)
  | false ↦ reconnect n 1 attempts ble s
]

-- The delay before an attempt.
abbrev pub delay_before : ℕ → ℕ
delay_before k = min (2 ^ k) 60

-- An attempt gives no connection: the driver does not connect, or there is no address.
abbrev pub Fails : Attempt → Type 0
Fails a = (a.connects && a.gets_ip) ≡ false

abbrev pub Connects : Attempt → Type 0
Connects a = (a.connects && a.gets_ip) ≡ true

-- At an attempt, writes of the BLE client are polled on which the device restarts.
abbrev pub Restarts : {S : Type 0} → Nvs S → Attempt → Type 0
Restarts {S} n a =
    (ws : Writes) × ((ws ≡ a.before) ⊎ ((j : ℕ) × (ws ≡ a.during j)))
    × ((ble : BleState) × (s : S) × ((poll n ws ble s).2 ≡ true))

-- One of the attempts has the property, and those before it gave no connection.
abbrev pub After : (Attempt → Type 0) → List Attempt → Type 0
After P attempts =
    (before : List Attempt) × (a : Attempt) × (more : List Attempt) × (attempts
      ≡ before ++ a ∷ more)
    × All Fails before
    × P a

-- What the loop can come to from an attempt with its delay.
abbrev pub IsEnd : {S : Type 0} → Nvs S → ℕ → List Attempt → Ended → Type 0
IsEnd n k attempts e =
    ((e ≡ connected) × After Connects attempts)
    ⊎ ((e ≡ restarted) × After (Restarts n) attempts)
    ⊎ ((e ≡ waits (delay_before (k + length attempts))) × All Fails attempts)
