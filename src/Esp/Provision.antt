-- ===== src/Esp/Provision.antt =====
-- What a BLE client brings about: ble.rs of examples/esp32-smart-switch/src, and the start after it.
use bhumi.Base.{
  ◌≡◌, ◌<◌, inr, refl, ◌∙◌, [], ◌∷◌, true, false, none, some, bytes_has_eq, bytes_eq, ok, arith,
  length,
}
use bhumi.Proto.Buffer.{Bytes}
use bhumi.Proto.Utf8.{is_utf8}
use bhumi.Esp.Nvs.{Nvs, IsNvs, key_secret, key_state, key_led_on, key_wifi_ssid, key_wifi_pass}
use bhumi.Esp.State.{
  Board, empty, load, load_or_create_key, load_state, unwrap_or_default, load_led_state, expect,
}
use bhumi.Esp.State.Kept.{Kept}
use bhumi.Esp.Switch.{Switch, set_on, set_led}
use bhumi.Esp.Run.{start}
use bhumi.Mcu.{reset, provision}
use bhumi.Esp.Ble
use bhumi.Esp.Ble.{
  BleState, Characteristic, wifi_ssid, wifi_pass, nothing, resets, provisions, on_write, on_writes,
  on_command, check_ble_command, run_command, or_keep, read_str, save_wifi_credentials,
  load_wifi_credentials, reset_device,
}

abbrev provisioned : Bytes → Bytes → BleState
provisioned ssid pass = record {
  ssid = ssid;
  password = pass;
  command = provisions (record { ssid = ssid; password = pass });
}

on_command-provision :
    (ssid pass : Bytes) (before : Ble.BleCommand)
    → 0 < length ssid
    → 0 < length pass
    → on_command provision (record { ssid = ssid; password = pass; command = before })
      ≡ provisioned ssid pass
unfolding on_command
on_command-provision ssid pass before full full' = ground (arith, full, full')

on_writes-provision :
    (ssid pass more : Bytes) (ble : BleState)
    → is_utf8 ssid ≡ true
    → is_utf8 pass ≡ true
    → 0 < length ssid
    → 0 < length pass
    → on_writes
        ((wifi_ssid, ssid) ∷ (wifi_pass, pass) ∷ (Characteristic.command, provision ∷ more) ∷ [])
        ble
      ≡ provisioned ssid pass
unfolding on_writes on_write
on_writes-provision ssid pass more ble utf utf' full full' =
    rw (utf, utf') (on_command-provision ssid pass ble.command full full')

module _ {S : Type 0} (n : Nvs S) (law : IsNvs n) where
  -- What stands under a key that is no key of the credentials.
  abbrev pub SameElsewhere : S → S → Type 0
  SameElsewhere s s' =
      (law.view key_secret s' ≡ law.view key_secret s)
      × (law.view key_state s' ≡ law.view key_state s)
      × (law.view key_led_on s' ≡ law.view key_led_on s)

  save-load_wifi_credentials :
      (ssid pass : Bytes) (s : S)
      → ((k v : Bytes) (s : S) → (s' : S) × (n.set_str k v s ≡ some s'))
      → 0 < length ssid
      → length ssid < 64
      → length pass < 128
      → let s' = save_wifi_credentials n ssid pass s in
        (load_wifi_credentials n s' ≡ some (ssid, pass)) × SameElsewhere s s'
  unfolding save_wifi_credentials load_wifi_credentials or_keep read_str bytes_eq
  save-load_wifi_credentials ssid pass s writes full short_ssid short_pass =
      let (s1, e1) = writes key_wifi_ssid ssid s in
      let (s2, e2) = writes key_wifi_pass pass s1 in
      let v1 = law.set_str_view key_wifi_ssid ssid s s1 e1 in
      let v2 = law.set_str_view key_wifi_pass pass s1 s2 e2 in
      let r1 = law.get_str_some key_wifi_ssid ssid 64 s2 (v2 key_wifi_ssid ∙ v1 key_wifi_ssid) in
      let r2 = law.get_str_some key_wifi_pass pass 128 s2 (v2 key_wifi_pass) in
      rw (save_wifi_credentials, e1, e2)
        (
          ground (arith, r1, r2, full, short_ssid, short_pass),
          (
            v2 key_secret ∙ v1 key_secret,
            v2 key_state ∙ v1 key_state,
            v2 key_led_on ∙ v1 key_led_on,
          ),
        )

  -- A client that writes an SSID, a password and the command PROVISION has the device restart, and
  -- with them: the credentials are what a start loads, the keys, the state and the light stay, and no
  -- command is pending. The texts are UTF-8 and not empty, the SSID is shorter than 64 bytes and the
  -- password than 128, and the storage can be written.
  pub provision-load_wifi_credentials :
      (ssid pass more : Bytes) (ble : BleState) (s : S)
      → ((k v : Bytes) (s : S) → (s' : S) × (n.set_str k v s ≡ some s'))
      → is_utf8 ssid ≡ true
      → is_utf8 pass ≡ true
      → 0 < length ssid
      → 0 < length pass
      → length ssid < 64
      → length pass < 128
      → let ble1 =
          on_writes
            ((wifi_ssid, ssid)
              ∷ (wifi_pass, pass)
              ∷ (Characteristic.command, provision ∷ more)
              ∷ [])
            ble in
        let (ble2, s', restart) = check_ble_command n ble1 s in
        (restart ≡ true)
        × (load_wifi_credentials n s' ≡ some (ssid, pass))
        × SameElsewhere s s'
        × (ble2.command ≡ nothing)
  unfolding on_writes on_write on_command check_ble_command run_command
  provision-load_wifi_credentials ssid pass more ble s writes utf utf' full full' short short' =
      let (loads, same) = save-load_wifi_credentials ssid pass s writes full short short' in
      rw (on_writes-provision ssid pass more ble utf utf' full full', check_ble_command)
        (refl, loads, same, refl)

module _ {V S : Type 0} (b : Board V S) (law : IsNvs b.nvs) where
  reset_device-view :
      (s : S)
      → let s' = reset_device b.nvs s in
        (law.view key_wifi_ssid s' ≡ none)
        × (law.view key_wifi_pass s' ≡ none)
        × (law.view key_secret s' ≡ none)
        × (law.view key_state s' ≡ none)
        × (law.view key_led_on s' ≡ none)
  unfolding reset_device bytes_eq
  reset_device-view s =
      let s1 = b.nvs.remove key_wifi_ssid s in
      let s2 = b.nvs.remove key_wifi_pass s1 in
      let s3 = b.nvs.remove key_secret s2 in
      let s4 = b.nvs.remove key_state s3 in
      let v1 = law.remove_view key_wifi_ssid s in
      let v2 = law.remove_view key_wifi_pass s1 in
      let v3 = law.remove_view key_secret s2 in
      let v4 = law.remove_view key_state s3 in
      let v5 = law.remove_view key_led_on s4 in
      (
        v5 key_wifi_ssid
            ∙ v4 key_wifi_ssid
            ∙ v3 key_wifi_ssid
            ∙ v2 key_wifi_ssid
            ∙ v1 key_wifi_ssid,
        v5 key_wifi_pass ∙ v4 key_wifi_pass ∙ v3 key_wifi_pass ∙ v2 key_wifi_pass,
        v5 key_secret ∙ v4 key_secret ∙ v3 key_secret,
        v5 key_state ∙ v4 key_state,
        v5 key_led_on,
      )

  load_wifi_credentials-none :
      (s : S) → law.view key_wifi_ssid s ≡ none → load_wifi_credentials b.nvs s ≡ none
  unfolding load_wifi_credentials read_str
  load_wifi_credentials-none s h =
      rw (load_wifi_credentials, read_str, law.get_str_none key_wifi_ssid 64 s h) refl

  load_or_create_key-none :
      (fresh : Bytes) (nvs nvs2 : S)
      → law.view key_secret nvs ≡ none
      → b.nvs.set_blob key_secret fresh nvs ≡ some nvs2
      → load_or_create_key b fresh nvs ≡ ok (nvs2, fresh)
  unfolding load_or_create_key expect
  load_or_create_key-none fresh nvs nvs2 h wrote =
      rw (load_or_create_key, law.get_blob_none key_secret 32 nvs h, wrote) refl

  -- A start from a storage without a key, a state and a light.
  start-none :
      (fresh : Bytes) (nvs : S) (s : Switch)
      → law.view key_secret nvs ≡ none
      → law.view key_state nvs ≡ none
      → law.view key_led_on nvs ≡ none
      → ((k v : Bytes) (s : S) → (s' : S) × (b.nvs.set_blob k v s ≡ some s'))
      → length fresh ≡ 32
      → (nvs2 : S) × (start b fresh nvs s
          ≡ ok (
            record { secret_key = fresh; state = empty; nvs = nvs2 },
            record { is_on = false; led = false },
          ))
        × Kept b law fresh empty false nvs2
  unfolding start load load_state unwrap_or_default load_led_state set_on set_led bytes_eq
  start-none fresh nvs s secret state led writes size =
      let (nvs2, wrote) = writes key_secret fresh nvs in
      let sees = law.set_blob_view key_secret fresh nvs nvs2 wrote in
      let no_state = law.get_blob_none key_state 4096 nvs2 (sees key_state ∙ state) in
      let no_led = law.get_u8_none key_led_on nvs2 (sees key_led_on ∙ led) in
      (
        nvs2,
        rw (start, load, load_or_create_key-none fresh nvs nvs2 secret wrote, load_state, no_state)
            (rw (load_led_state, no_led) refl),
        record {
          secret = sees key_secret;
          secret_size = size;
          stored = inr (sees key_state ∙ state, refl);
          lit = inr (sees key_led_on ∙ led, refl);
        },
      )

  -- A client that writes the command RESET has the device restart as a new one, whatever it had, a
  -- peer or not: without credentials, with a new key, without invites and peers, and with the light
  -- off. The new key has 32 bytes, and the storage can be written and each key of it removed.
  pub reset-start :
      (more fresh : Bytes) (ble : BleState) (nvs : S) (s : Switch)
      → ((k v : Bytes) (s : S) → (s' : S) × (b.nvs.set_blob k v s ≡ some s'))
      → length fresh ≡ 32
      → let (ble', nvs', restart) =
          check_ble_command b.nvs
            (on_writes ((Characteristic.command, reset ∷ more) ∷ []) ble)
            nvs in
        (restart ≡ true)
        × (load_wifi_credentials b.nvs nvs' ≡ none)
        × ((nvs2 : S) × (start b fresh nvs' s
              ≡ ok (
                record { secret_key = fresh; state = empty; nvs = nvs2 },
                record { is_on = false; led = false },
              ))
            × Kept b law fresh empty false nvs2)
  unfolding on_writes on_write on_command check_ble_command run_command
  reset-start more fresh ble nvs s writes size =
      let nvs1 = reset_device b.nvs nvs in
      let (ssid, pass, secret, state, led) = reset_device-view nvs in
      (
        refl,
        load_wifi_credentials-none nvs1 ssid,
        start-none fresh nvs1 s secret state led writes size,
      )
