-- ===== src/Esp/Switch/Handled.antt =====
-- What a command changes, examples/esp32-smart-switch/src/switch.rs.
use bhumi.Base.{
  ◌≡◌, ◌≢◌, inl, inr, sym, ap, ◌∙◌, true, Option, some, bytes_has_eq, ok, arith, Option-cases,
  >>=-eq-ok, if◌then◌else◌,
}
use bhumi.Proto.Buffer.{Bytes}
use bhumi.Node.Connection.{IncomingMessage}
use bhumi.Node.Core.{Request, Response, good, Outcome-cases}
use bhumi.Esp.Nvs.{key_led_on}
use bhumi.Esp.State.{
  PeerRole, owner, writer, reader, PeerRecord, Board, DeviceState, lookup_preimage, renew_preimage,
  save_led_state,
}
use bhumi.Esp.Switch.{
  Switch, dispatch_command, turn, is_switching, keep_light, perform, handle_command,
}

-- The light changes only by one of the three commands, and not for a reader.
dispatch_command-change :
    {V S : Type 0} (b : Board V S) (d : DeviceState S) (role : PeerRole) (req : Request V)
    (s : Switch)
    → (dispatch_command b d role req s).0 ≢ s
    → (is_switching req.cmd ≡ true) × (role ≢ reader)
unfolding dispatch_command turn is_switching
dispatch_command-change b d owner req s h = (ground (arith, h), λ e. cc)
dispatch_command-change b d writer req s h = (ground (arith, h), λ e. cc)
dispatch_command-change b d reader req s h = absurd (h (ground arith))

-- Saving the light leaves the keys, the invites and the peers.
pub keep_light-state :
    {V S : Type 0} (b : Board V S) (req : Request V) (r : Response V) (s : Switch)
    (d : DeviceState S)
    → ((keep_light b req r s d).state ≡ d.state)
      × ((keep_light b req r s d).secret_key ≡ d.secret_key)
unfolding keep_light save_led_state
keep_light-state b req r s d =
    elim (Option-cases (b.nvs.set_u8 key_led_on (if s.is_on then 1 else 0) d.nvs)) [
      | inl e ↦ (ground (arith, e), ground (arith, e))
      | inr (nvs, e) ↦ (ground (arith, e), ground (arith, e))
    ]

ok_eq : {A : Type 0} (x y : A) → ok x ≡ ok y → x ≡ y
ok_eq x y h = cc

-- What a command that was carried out has done.
pub perform_inv :
    {V S : Type 0} (b : Board V S) (fresh preimage id : Bytes) (p : PeerRecord) (req : Request V)
    (d d' : DeviceState S) (s s' : Switch) (response : Bytes) (renewed : Option (Bytes × Bytes))
    → perform b fresh preimage id p req d s ≡ ok (d', s', response, renewed)
    → let (s1, r) = dispatch_command b d p.role req s in
      (renew_preimage b fresh id preimage (keep_light b req r s1 d) ≡ ok (d', renewed))
      × (s1 ≡ s')
      × (b.json.write_response r ≡ response)
unfolding perform
perform_inv b fresh preimage id p req d d' s s' response renewed h =
    let (s1, r) = dispatch_command b d p.role req s in
    let (made, e, same) =
      >>=-eq-ok (renew_preimage b fresh id preimage (keep_light b req r s1 d))
        (λ x. ok (x.0, s1, b.json.write_response r, x.1)) h in
    let parts =
      ok_eq (made.0, s1, b.json.write_response r, made.1) (d', s', response, renewed) same in
    (e ∙ ap (λ x. ok (x.0, x.3)) parts, ap (λ x. x.1) parts, ap (λ x. x.2) parts)

-- The light changes only for a peer that the switch knows by the preimage, that is a writer or an
-- owner, and that asks for it.
pub handle_command-change :
    {V S : Type 0} (b : Board V S) (fresh : Bytes) (msg : IncomingMessage) (d d' : DeviceState S)
    (s s' : Switch) (response : Bytes) (renewed : Option (Bytes × Bytes))
    → handle_command b fresh msg d s ≡ ok (d', s', response, renewed)
    → s' ≢ s
    → (id : Bytes) × (p : PeerRecord) × (req : Request V) × (lookup_preimage b msg.preimage d
        ≡ some (id, p))
      × (b.json.read_request msg.payload ≡ good req)
      × (is_switching req.cmd ≡ true)
      × (p.role ≢ reader)
      × (s' ≡ (dispatch_command b d p.role req s).0)
unfolding handle_command
handle_command-change b fresh msg d d' s s' response renewed h changed =
    elim (Option-cases (lookup_preimage b msg.preimage d)) [
      | inl none_known ↦ absurd (changed (ground (arith, h, none_known)))
      | inr ((id, p), known) ↦ elim (Outcome-cases (b.json.read_request msg.payload)) [
        | inr (e, unread) ↦ absurd (changed (ground (arith, h, known, unread)))
        | inl (req, reads) ↦
            let done : perform b fresh msg.preimage id p req d s ≡ ok (d', s', response, renewed) =
              rw (handle_command, known, reads) at h in
            let (_, same, _) =
              perform_inv b fresh msg.preimage id p req d d' s s' response renewed done in
            let (asked, role) =
              dispatch_command-change b d p.role req s (λ e. changed (sym same ∙ e)) in
            (id, p, req, known, reads, asked, role, sym same)
      ]
    ]
