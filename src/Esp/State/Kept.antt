-- ===== src/Esp/State/Kept.antt =====
-- What the switch's storage holds while it runs, and what a start makes of it: state.rs and main.rs of
-- examples/esp32-smart-switch/src.
use bhumi.Base.{
  ℕ, ◌≡◌, ◌≤◌, ◌<◌, ◌⊎◌, inl, inr, refl, sym, ap, ◌∙◌, subst, Bool, true, false, none, some,
  if◌then◌else◌, bytes_has_eq, bytes_eq, ok, panic, arith, length, Option-cases, append-nil,
}
use bhumi.Proto.Buffer.{Bytes}
use bhumi.Esp.Nvs.{IsNvs, blob, u8, found, failed, key_secret, key_state, key_led_on}
use bhumi.Esp.State.{
  Board, DeviceState, StoredState, empty, load_or_create_key, load_state, unwrap_or_default, load,
  load_led_state, save, save_led_state, expect,
}
use bhumi.Esp.Switch.{Switch, set_on}
use bhumi.Esp.Run.{start}

abbrev pub light : Bool → ℕ
light on = if on then 1 else 0

panic-ne-ok : {A : Type 0} (a : A) → ¬ (panic ≡ ok a)
panic-ne-ok a h = cc

ok_eq : {A : Type 0} (x y : A) → ok x ≡ ok y → x ≡ y
ok_eq x y h = cc

module _ {V S : Type 0} (b : Board V S) (law : IsNvs b.nvs) where
  -- The storage holds the key, the state, and the light; of the state and the light nothing while they
  -- are the default.
  pub record Kept (key : Bytes) (state : StoredState) (on : Bool) (nvs : S) : Type 0 where
    pub secret : law.view key_secret nvs ≡ some (blob key)
    pub secret_size : length key ≡ 32
    pub stored :
        (law.view key_state nvs ≡ some (blob (b.write_state state)))
        ⊎ ((law.view key_state nvs ≡ none) × (state ≡ empty))
    pub lit :
        (law.view key_led_on nvs ≡ some (u8 (light on)))
        ⊎ ((law.view key_led_on nvs ≡ none) × (on ≡ false))

  pub save_inv :
      (d d' : DeviceState S)
      → save b d ≡ ok d'
      → (nvs : S) × (b.nvs.set_blob key_state (b.write_state d.state) d.nvs ≡ some nvs)
        × (record d { nvs = nvs } ≡ d')
  unfolding save expect
  save_inv d d' h = elim (Option-cases (b.nvs.set_blob key_state (b.write_state d.state) d.nvs)) [
    | inl e ↦ absurd (panic-ne-ok d' (rw e at h))
    | inr (nvs, e) ↦ (nvs, e, ok_eq (record d { nvs = nvs }) d' (rw e at h))
  ]

  set_state-Kept :
      (key : Bytes) (before after : StoredState) (on : Bool) (s s' : S)
      → Kept key before on s
      → b.nvs.set_blob key_state (b.write_state after) s ≡ some s'
      → Kept key after on s'
  unfolding bytes_eq
  set_state-Kept key before after on s s' k e =
      let sees = law.set_blob_view key_state (b.write_state after) s s' e in
      record {
        secret = sees key_secret ∙ k.secret;
        secret_size = k.secret_size;
        stored = inl (sees key_state);
        lit = rw (sees key_led_on) k.lit;
      }

  -- Whatever is saved is what the storage holds.
  pub save-Kept :
      (key : Bytes) (before : StoredState) (on : Bool) (d d' : DeviceState S)
      → Kept key before on d.nvs
      → save b d ≡ ok d'
      → Kept key d'.state on d'.nvs × (d'.state ≡ d.state) × (d'.secret_key ≡ d.secret_key)
  save-Kept key before on d d' k h =
      let (nvs, e, same) = save_inv d d' h in
      let kept = set_state-Kept key before d.state on d.nvs nvs k e in
      (
        subst (λ (x : DeviceState S). Kept key x.state on x.nvs) same kept,
        sym (ap (λ (x : DeviceState S). x.state) same),
        sym (ap (λ (x : DeviceState S). x.secret_key) same),
      )

  pub save_led_state-Kept :
      (key : Bytes) (state : StoredState) (before on : Bool) (d : DeviceState S)
      → ((k : Bytes) (v : ℕ) (s : S) → (s' : S) × (b.nvs.set_u8 k v s ≡ some s'))
      → Kept key state before d.nvs
      → Kept key state on (save_led_state b on d).nvs
        × ((save_led_state b on d).state ≡ d.state)
        × ((save_led_state b on d).secret_key ≡ d.secret_key)
  unfolding save_led_state bytes_eq
  save_led_state-Kept key state before on d writes k =
      let (nvs, e) = writes key_led_on (light on) d.nvs in
      let sees = law.set_u8_view key_led_on (light on) d.nvs nvs e in
      rw (save_led_state, e)
        (
          record {
            secret = sees key_secret ∙ k.secret;
            secret_size = k.secret_size;
            stored = rw (sees key_state) k.stored;
            lit = inl (sees key_led_on);
          },
          refl,
          refl,
        )

  blob_fits :
      (k v : Bytes) (size : ℕ) (s : S)
      → law.view k s ≡ some (blob v)
      → length v ≤ size
      → b.nvs.get_blob k size s ≡ found v
  blob_fits k v size s e fits = ground (arith, law.get_blob_some k v size s e, fits)

  blob_overflows :
      (k v : Bytes) (size : ℕ) (s : S)
      → law.view k s ≡ some (blob v)
      → size < length v
      → b.nvs.get_blob k size s ≡ failed
  blob_overflows k v size s e large = ground (arith, law.get_blob_some k v size s e, large)

  load_key-Kept :
      (key fresh : Bytes) (state : StoredState) (on : Bool) (s : S)
      → Kept key state on s
      → load_or_create_key b fresh s ≡ ok (s, key)
  unfolding load_or_create_key
  load_key-Kept key fresh state on s k =
      rw (load_or_create_key, blob_fits key_secret key 32 s k.secret (omega (arith, k.secret_size)))
        (ground (arith, k.secret_size, append-nil key))

  load_light-Kept :
      (key : Bytes) (state : StoredState) (on : Bool) (d : DeviceState S)
      → Kept key state on d.nvs
      → load_led_state b d ≡ on
  unfolding load_led_state
  load_light-Kept key state true d k = elim k.lit [
    | inl e ↦ rw (load_led_state, law.get_u8_some key_led_on 1 d.nvs e) refl
    | inr (e, off) ↦ cc
  ]
  load_light-Kept key state false d k = elim k.lit [
    | inl e ↦ rw (load_led_state, law.get_u8_some key_led_on 0 d.nvs e) refl
    | inr (e, off) ↦ rw (load_led_state, law.get_u8_none key_led_on d.nvs e) refl
  ]

  load_state-Kept :
      (key : Bytes) (state : StoredState) (on : Bool) (s : S)
      → Kept key state on s
      → b.read_state (b.write_state state) ≡ some state
      → length (b.write_state state) ≤ 4096
      → unwrap_or_default (load_state b s) ≡ state
  unfolding load_state unwrap_or_default
  load_state-Kept key state on s k round small = elim k.stored [
    | inl e ↦ rw (load_state, blob_fits key_state (b.write_state state) 4096 s e small) (rw round)
    | inr (e, same) ↦ rw (load_state, law.get_blob_none key_state 4096 s e) (sym same)
  ]

  -- A start finds what the storage holds: the key, the state and the light are as they were, where
  -- the state's JSON has at most 4096 bytes and is read back.
  pub start-Kept :
      (key fresh : Bytes) (state : StoredState) (on : Bool) (nvs : S) (s : Switch)
      → Kept key state on nvs
      → b.read_state (b.write_state state) ≡ some state
      → length (b.write_state state) ≤ 4096
      → start b fresh nvs s
        ≡ ok
            (record { secret_key = key; state = state; nvs = nvs }, record { is_on = on; led = on })
  unfolding start load set_on
  start-Kept key fresh state on nvs s k round small =
      rw
        (
          start,
          load,
          load_key-Kept key fresh state on nvs k,
          load_state-Kept key state on nvs k round small,
        )
        (rw
          (load_light-Kept key state on (record { secret_key = key; state = state; nvs = nvs }) k))

  -- A state whose JSON is longer is gone after a start: the device has its key and its light, and no
  -- invite and no peer.
  pub start-forgets :
      (key fresh : Bytes) (state : StoredState) (on : Bool) (nvs : S) (s : Switch)
      → Kept key state on nvs
      → law.view key_state nvs ≡ some (blob (b.write_state state))
      → 4096 < length (b.write_state state)
      → start b fresh nvs s
        ≡ ok
            (record { secret_key = key; state = empty; nvs = nvs }, record { is_on = on; led = on })
  unfolding start load set_on load_state unwrap_or_default
  start-forgets key fresh state on nvs s k there large =
      rw
        (
          start,
          load,
          load_key-Kept key fresh state on nvs k,
          load_state,
          blob_overflows key_state (b.write_state state) 4096 nvs there large,
        )
        (rw
          (load_light-Kept key state on (record { secret_key = key; state = empty; nvs = nvs }) k))
