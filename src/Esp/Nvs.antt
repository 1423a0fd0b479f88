-- ===== src/Esp/Nvs.antt =====
-- The flash storage that examples/esp32-smart-switch/src uses: a namespace of esp-idf-svc's NVS, with
-- the keys that state.rs and ble.rs give it.
use bhumi.Base.{
  ℕ, ◌≡◌, leb, ltb, length, Option, none, some, if◌then◌else◌, ◌==◌, bytes_has_eq, ascii,
}
use bhumi.Proto.Buffer.{Bytes}

-- The result of a read into a buffer: `Ok(Some(_))`, `Ok(None)`, or `Err(_)`.
pub data Read (A : Type 0) : Type 0 where
  found : A → Read A
  absent : Read A
  failed : Read A

-- The operations. A read takes its key and the size of its buffer; a write that fails gives none.
pub record Nvs (S : Type 0) : Type 0 where
  pub get_blob : Bytes → ℕ → S → Read Bytes
  pub set_blob : Bytes → Bytes → S → Option S
  pub get_str : Bytes → ℕ → S → Read Bytes
  pub set_str : Bytes → Bytes → S → Option S
  pub get_u8 : Bytes → S → Read ℕ
  pub set_u8 : Bytes → ℕ → S → Option S
  pub remove : Bytes → S → S

pub data Value : Type 0 where
  blob : Bytes → Value
  str : Bytes → Value
  u8 : ℕ → Value

-- What is documented of the storage: each key has a value or none; a read whose buffer is too small
-- fails, and a string needs one byte more, its end; a write changes the value of its key alone, and so
-- does a removal. `view` is what stands under a key.
pub record IsNvs {S : Type 0} (n : Nvs S) : Type 0 where
  pub view : Bytes → S → Option Value
  pub get_blob_none :
      (k : Bytes) (size : ℕ) (s : S) → view k s ≡ none → n.get_blob k size s ≡ absent
  pub get_blob_some :
      (k v : Bytes) (size : ℕ) (s : S)
      → view k s ≡ some (blob v)
      → n.get_blob k size s ≡ (if leb (length v) size then found v else failed)
  pub get_str_none : (k : Bytes) (size : ℕ) (s : S) → view k s ≡ none → n.get_str k size s ≡ absent
  pub get_str_some :
      (k v : Bytes) (size : ℕ) (s : S)
      → view k s ≡ some (str v)
      → n.get_str k size s ≡ (if ltb (length v) size then found v else failed)
  pub get_u8_none : (k : Bytes) (s : S) → view k s ≡ none → n.get_u8 k s ≡ absent
  pub get_u8_some : (k : Bytes) (v : ℕ) (s : S) → view k s ≡ some (u8 v) → n.get_u8 k s ≡ found v
  pub set_blob_view :
      (k v : Bytes) (s s' : S)
      → n.set_blob k v s ≡ some s'
      → (j : Bytes) → view j s' ≡ (if k == j then some (blob v) else view j s)
  pub set_str_view :
      (k v : Bytes) (s s' : S)
      → n.set_str k v s ≡ some s'
      → (j : Bytes) → view j s' ≡ (if k == j then some (str v) else view j s)
  pub set_u8_view :
      (k : Bytes) (v : ℕ) (s s' : S)
      → n.set_u8 k v s ≡ some s'
      → (j : Bytes) → view j s' ≡ (if k == j then some (u8 v) else view j s)
  pub remove_view :
      (k : Bytes) (s : S) (j : Bytes) → view j (n.remove k s) ≡ (if k == j then none else view j s)

abbrev pub key_secret : Bytes
key_secret = ascii "secret_key"

abbrev pub key_state : Bytes
key_state = ascii "state"

abbrev pub key_led_on : Bytes
key_led_on = ascii "led_on"

abbrev pub key_wifi_ssid : Bytes
key_wifi_ssid = ascii "wifi_ssid"

abbrev pub key_wifi_pass : Bytes
key_wifi_pass = ascii "wifi_pass"
