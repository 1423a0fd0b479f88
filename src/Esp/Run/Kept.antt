-- ===== src/Esp/Run/Kept.antt =====
-- The storage and the light of the switch through the rounds of `run_connection`, main.rs of
-- examples/esp32-smart-switch/src.
use bhumi.Base.{
  ℕ, ◌≡◌, ◌⊎◌, inl, inr, refl, sym, ap, subst, [], ◌∷◌, ◌++◌, Bool, true, false, ◌&&◌, Option, none,
  some, bytes_has_eq, ok, err, panic, arith, Option-cases, Bool-cases, Result-cases, IoError,
  >>=-eq-ok,
}
use bhumi.Proto.Buffer.{Bytes}
use bhumi.Proto.HandshakeInit
use bhumi.Proto.HandshakeInit.{HandshakeInit}
use bhumi.Proto.HandshakeComplete
use bhumi.Proto.HandshakeComplete.{HandshakeComplete, handshake_accepted}
use bhumi.Node.Connection.{IncomingMessage}
use bhumi.Node.Core.{Request, Response, ok_response}
use bhumi.Esp.Nvs.{Nvs, IsNvs}
use bhumi.Esp.State.{
  PeerRole, owner, writer, reader, Board, DeviceState, StoredState, save, save_led_state,
  renew_preimage, replace_preimage, accept_handshake, handle_handshake, take_invite, paired,
}
use bhumi.Esp.State.Kept.{Kept, save-Kept, save_led_state-Kept}
use bhumi.Esp.Switch.{Switch, dispatch_command, turn, set_on, set_led, is_switching, keep_light}
use bhumi.Esp.Ble.{BleCommand, nothing, resets, provisions, run_command}

-- The light is as it was, or the command was one that saves it.
pub dispatch_command-light :
    {V S : Type 0} (b : Board V S) (d : DeviceState S) (role : PeerRole) (req : Request V)
    (s : Switch)
    → s.led ≡ s.is_on
    → let (s1, r) = dispatch_command b d role req s in
      (s1.led ≡ s1.is_on) × ((s1 ≡ s) ⊎ ((is_switching req.cmd && r.succeeded) ≡ true))
unfolding dispatch_command turn is_switching set_on set_led ok_response
dispatch_command-light b d owner req s h = (
  ground (arith, h),
  elim (Bool-cases (is_switching req.cmd)) [
    | inl e ↦ inr (ground (arith, e))
    | inr e ↦ inl (ground (arith, e))
  ],
)
dispatch_command-light b d writer req s h = (
  ground (arith, h),
  elim (Bool-cases (is_switching req.cmd)) [
    | inl e ↦ inr (ground (arith, e))
    | inr e ↦ inl (ground (arith, e))
  ],
)
dispatch_command-light b d reader req s h = (ground (arith, h), inl (ground arith))

pub ok_eq : {A : Type 0} (x y : A) → ok x ≡ ok y → x ≡ y
ok_eq x y h = cc

pub panic-ne-ok : {A : Type 0} (a : A) → ¬ (panic ≡ ok a)
panic-ne-ok a h = cc

not-both : {x : Bool} → x ≡ false → ¬ (x ≡ true)
not-both e q = cc

pub err-ne-ok : {A : Type 0} (x : IoError) (a : A) → ¬ (err x ≡ ok a)
err-ne-ok x a h = cc

-- A command that does not restart the device leaves its storage.
pub run_command-still :
    {S : Type 0} (n : Nvs S) (c : BleCommand) (s : S)
    → (run_command n c s).1 ≡ false
    → (run_command n c s).0 ≡ s
unfolding run_command
run_command-still n nothing s h = refl
run_command-still n resets s h = cc
run_command-still n (provisions creds) s h = cc

module _ {V S : Type 0} (b : Board V S) (law : IsNvs b.nvs) where
  -- What the storage holds is what the device has, with a light that is on or off.
  abbrev pub IsKept : DeviceState S → Bool → Type 0
  IsKept d on = Kept b law d.secret_key d.state on d.nvs

  saved-IsKept :
      (before : StoredState) (on : Bool) (d d' : DeviceState S)
      → Kept b law d.secret_key before on d.nvs
      → save b d ≡ ok d'
      → IsKept d' on
  saved-IsKept before on d d' k h =
      let (kept, _, key) = save-Kept b law d.secret_key before on d d' k h in
      subst (λ x. Kept b law x d'.state on d'.nvs) (sym key) kept

  pub renew_preimage-IsKept :
      (fresh id old : Bytes) (on : Bool) (d d' : DeviceState S) (r : Option (Bytes × Bytes))
      → IsKept d on
      → renew_preimage b fresh id old d ≡ ok (d', r)
      → IsKept d' on
  unfolding renew_preimage
  renew_preimage-IsKept fresh id old on d d' r k h =
      elim (Option-cases (replace_preimage b.sha256 fresh id (b.sha256 old) d.state.peers)) [
        | inl e ↦
            let same = ok_eq (d, none) (d', r) (rw (renew_preimage, e) at h) in
            subst (λ (x : DeviceState S). IsKept x on) (ap (λ x. x.0) same) k
        | inr (m, e) ↦
            let d1 : DeviceState S = record d { state = record d.state { peers = m } } in
            let (made, saved, same) =
              >>=-eq-ok (save b d1) (λ x. ok (x, some (fresh, b.sha256 fresh)))
                (rw (renew_preimage, e) at h) in
            let parts = ok_eq (made, some (fresh, b.sha256 fresh)) (d', r) same in
            subst (λ (x : DeviceState S). IsKept x on) (ap (λ x. x.0) parts)
              (saved-IsKept d.state on d1 made k saved)
      ]

  accept_handshake-IsKept :
      (fresh : Bytes) (init : HandshakeInit) (preimage : Bytes) (on : Bool) (d d' : DeviceState S)
      (r : Option (Bytes × Option Bytes))
      → IsKept d on
      → accept_handshake b fresh init preimage d ≡ ok (d', r)
      → IsKept d' on
  unfolding accept_handshake
  accept_handshake-IsKept fresh init preimage on d d' r k h =
      elim (Option-cases (take_invite b.sha256 preimage d.state.invites)) [
        | inl e ↦
            let same = ok_eq (d, none) (d', r) (rw (accept_handshake, e) at h) in
            subst (λ (x : DeviceState S). IsKept x on) (ap (λ x. x.0) same) k
        | inr ((invite, rest), e) ↦
            let d1 : DeviceState S = record d {
              state = record {
                invites = rest;
                peers = d.state.peers ++ (init.sender_id52, paired fresh init invite) ∷ [];
              };
            } in
            let complete : HandshakeComplete = record {
              status = handshake_accepted;
              preimage_for_peer = fresh;
              relay_url = [];
            } in
            let answer = some (HandshakeComplete.to_bytes complete, some (b.sha256 fresh)) in
            let (made, saved, same) =
              >>=-eq-ok (save b d1) (λ x. ok (x, answer)) (rw (accept_handshake, e) at h) in
            let parts = ok_eq (made, answer) (d', r) same in
            subst (λ (x : DeviceState S). IsKept x on) (ap (λ x. x.0) parts)
              (saved-IsKept d.state on d1 made k saved)
      ]

  pub handle_handshake-IsKept :
      (fresh : Bytes) (msg : IncomingMessage) (on : Bool) (d d' : DeviceState S)
      (r : Option (Bytes × Option Bytes))
      → IsKept d on
      → handle_handshake b fresh msg d ≡ ok (d', r)
      → IsKept d' on
  unfolding handle_handshake
  handle_handshake-IsKept fresh msg on d d' r k h =
      elim (Result-cases (HandshakeInit.from_bytes msg.payload)) [
        | inl (init, e) ↦
            accept_handshake-IsKept fresh init msg.preimage on d d' r k
              (rw (handle_handshake, e) at h)
        | inr (inl (x, e)) ↦
            let same = ok_eq (d, none) (d', r) (rw (handle_handshake, e) at h) in
            subst (λ (x : DeviceState S). IsKept x on) (ap (λ x. x.0) same) k
        | inr (inr e) ↦ absurd (panic-ne-ok (d', r) (rw (handle_handshake, e) at h))
      ]

  pub keep_light-IsKept :
      (req : Request V) (r : Response V) (s s1 : Switch) (d : DeviceState S)
      → ((k : Bytes) (v : ℕ) (s : S) → (s' : S) × (b.nvs.set_u8 k v s ≡ some s'))
      → IsKept d s.is_on
      → ((s1 ≡ s) ⊎ ((is_switching req.cmd && r.succeeded) ≡ true))
      → IsKept (keep_light b req r s1 d) s1.is_on
  unfolding keep_light
  keep_light-IsKept req r s s1 d writes k kind =
      let (kept, same, key) =
        save_led_state-Kept b law d.secret_key d.state s.is_on s1.is_on d writes k in
      let saved : IsKept (save_led_state b s1.is_on d) s1.is_on = rw (same, key) kept in
      elim (Bool-cases (is_switching req.cmd && r.succeeded)) [
        | inl e ↦ rw (keep_light, e) saved
        | inr e ↦ elim kind [ inl q ↦ rw (keep_light, e, q) k | inr q ↦ absurd (not-both e q) ]
      ]
