-- ===== src/Esp/Run/Sound.antt =====
-- The rounds of `run_connection` and a start after them, main.rs of
-- examples/esp32-smart-switch/src.
use bhumi.Base.{
  length, ◌≤◌, ℕ, ◌≡◌, ◌≢◌, inl, inr, sym, ap, ◌∙◌, subst, List, [], ◌∷◌, Bool, false, Option, none,
  some, bytes_has_eq, ok, Option-cases, Bool-cases, Result-cases, Result, >>=-eq-ok,
}
use bhumi.Proto.Buffer.{Bytes}
use bhumi.Node.Connection.{IncomingMessage}
use bhumi.Node.Core.{Request, Outcome-cases}
use bhumi.Esp.Nvs.{IsNvs}
use bhumi.Esp.State.{PeerRecord, Board, DeviceState, handle_handshake, lookup_preimage}
use bhumi.Esp.State.Kept.{Kept, start-Kept}
use bhumi.Esp.Switch.{Switch, dispatch_command, keep_light, Handled, perform, handle_command}
use bhumi.Esp.Switch.Handled.{perform_inv}
use bhumi.Esp.Ble.{check_ble_command, on_writes, Characteristic}
use bhumi.Esp.Connection.{receive}
use bhumi.Esp.Run.{
  World, Event, Flow, continues, restarts, fails, handle_message, is_handshake, check_ble,
  receive_message, round, rounds,
}
use bhumi.Esp.Run.{start}
use bhumi.Esp.Run.Kept.{
  IsKept, ok_eq, panic-ne-ok, err-ne-ok, run_command-still, dispatch_command-light,
  renew_preimage-IsKept, handle_handshake-IsKept, keep_light-IsKept,
}

abbrev shining : Bool → Bool → Switch
shining on led = record { is_on = on; led = led }

module _ {V S : Type 0} (b : Board V S) (law : IsNvs b.nvs) where
  unchanged :
      (d d' : DeviceState S) (s s' : Switch) (given response : Bytes)
      (none_new renewed : Option (Bytes × Bytes))
      → ◌≡◌ {A = Result (Handled S)} (ok (d, s, given, none_new)) (ok (d', s', response, renewed))
      → IsKept b law d s.is_on
      → s.led ≡ s.is_on
      → IsKept b law d' s'.is_on × (s'.led ≡ s'.is_on)
  unchanged d d' s s' given response none_new renewed h k shown =
      let same = ok_eq (d, s, given, none_new) (d', s', response, renewed) h in
      subst (λ (x : DeviceState S × Switch). IsKept b law x.0 x.1.is_on × (x.1.led ≡ x.1.is_on))
        (ap (λ x. (x.0, x.1)) same) (k, shown)

  -- What the storage holds is what the device has and whether it is on, and the LED shows it.
  pub record IsSound (w : World S) : Type 0 where
    pub kept : IsKept b law w.device w.switch.is_on
    pub shown : w.switch.led ≡ w.switch.is_on

  module _ (writes : (k : Bytes) (v : ℕ) (s : S) → (s' : S) × (b.nvs.set_u8 k v s ≡ some s')) where
    perform-IsSound :
        (fresh preimage id : Bytes) (p : PeerRecord) (req : Request V) (d d' : DeviceState S)
        (s s' : Switch) (response : Bytes) (renewed : Option (Bytes × Bytes))
        → IsKept b law d s.is_on
        → s.led ≡ s.is_on
        → perform b fresh preimage id p req d s ≡ ok (d', s', response, renewed)
        → IsKept b law d' s'.is_on × (s'.led ≡ s'.is_on)
    perform-IsSound fresh preimage id p req d d' s s' response renewed k shown h =
        let (s1, r) = dispatch_command b d p.role req s in
        let (shown1, kind) = dispatch_command-light b d p.role req s shown in
        let (did, same, _) = perform_inv b fresh preimage id p req d d' s s' response renewed h in
        let kept =
          renew_preimage-IsKept b law fresh id preimage s1.is_on (keep_light b req r s1 d) d'
            renewed (keep_light-IsKept b law req r s s1 d writes k kind) did in
        subst (λ (x : Switch). IsKept b law d' x.is_on × (x.led ≡ x.is_on)) same (kept, shown1)

    handle_command-IsSound :
        (fresh : Bytes) (msg : IncomingMessage) (d d' : DeviceState S) (s s' : Switch)
        (response : Bytes) (renewed : Option (Bytes × Bytes))
        → IsKept b law d s.is_on
        → s.led ≡ s.is_on
        → handle_command b fresh msg d s ≡ ok (d', s', response, renewed)
        → IsKept b law d' s'.is_on × (s'.led ≡ s'.is_on)
    unfolding handle_command
    handle_command-IsSound fresh msg d d' s s' response renewed k shown h =
        elim (Option-cases (lookup_preimage b msg.preimage d)) [
          | inl e ↦
              unchanged d d' s s' _ response none renewed (rw (handle_command, e) at h) k shown
          | inr ((id, p), e) ↦ elim (Outcome-cases (b.json.read_request msg.payload)) [
            | inr (x, f) ↦
                unchanged d d' s s' _ response none renewed (rw (handle_command, e, f) at h) k shown
            | inl (req, f) ↦
                perform-IsSound fresh msg.preimage id p req d d' s s' response renewed k shown
                  (rw (handle_command, e, f) at h)
          ]
        ]

    handle_message-IsSound :
        (fresh : Bytes) (msg : IncomingMessage) (w w' : World S)
        → IsSound w
        → handle_message b fresh msg w ≡ ok w'
        → IsSound w'
    unfolding handle_message
    handle_message-IsSound fresh msg w w' k h = elim (Bool-cases (is_handshake msg)) [
      | inl e ↦
          let ((d, answer), did, same) =
            >>=-eq-ok (handle_handshake b fresh msg w.device) _ (rw (handle_message, e) at h) in
          subst IsSound (ok_eq _ w' same) (record {
            kept =
                handle_handshake-IsKept b law fresh msg w.switch.is_on w.device d answer k.kept did;
            shown = k.shown;
          })
      | inr e ↦
          let ((d, s, response, renewed), did, same) =
            >>=-eq-ok (handle_command b fresh msg w.device w.switch) _
              (rw (handle_message, e) at h) in
          let (kept, shown) =
            handle_command-IsSound fresh msg w.device d w.switch s response renewed k.kept k.shown
              did in
          subst IsSound (ok_eq _ w' same) (record { kept = kept; shown = shown })
    ]

    receive_message-IsSound :
        (ev : Event) (w w' : World S) (flow : Flow)
        → IsSound w
        → receive_message b ev w ≡ ok (w', flow)
        → IsSound w'
    unfolding receive_message
    receive_message-IsSound ev w w' flow k h = elim (Option-cases ev.timeout) [
      | inr (n, e) ↦
          let same = ok_eq _ (w', flow) (rw (receive_message, e) at h) in
          subst IsSound (ap (λ (x : World S × Flow). x.0) same)
            (record { kept = k.kept; shown = k.shown })
      | inl e ↦ elim (Result-cases (receive w.conn)) [
        | inl ((msg, conn), f) ↦
            let (w1, did, same) =
              >>=-eq-ok (handle_message b ev.fresh msg (record w { conn = conn })) _
                (rw (receive_message, e, f) at h) in
            subst IsSound (ap (λ (x : World S × Flow). x.0) (ok_eq _ (w', flow) same)) (
              handle_message-IsSound ev.fresh msg (record w { conn = conn }) w1
                (record { kept = k.kept; shown = k.shown }) did)
        | inr (inl (x, f)) ↦
            let same = ok_eq _ (w', flow) (rw (receive_message, e, f) at h) in
            subst IsSound (ap (λ (x : World S × Flow). x.0) same) k
        | inr (inr f) ↦ absurd (panic-ne-ok (w', flow) (rw (receive_message, e, f) at h))
      ]
    ]

    -- A check of the BLE commands that does not restart the device changes neither.
    check_ble-IsSound :
        (ws : List (Characteristic × Bytes)) (w : World S)
        → IsSound w
        → (check_ble b ws w).1 ≡ false
        → IsSound (check_ble b ws w).0
    unfolding check_ble check_ble_command
    check_ble-IsSound ws w k still =
        let same = run_command-still b.nvs (on_writes ws w.ble).command w.device.nvs still in
        record {
          kept =
              subst (Kept b law w.device.secret_key w.device.state w.switch.is_on) (sym same)
                k.kept;
          shown = k.shown;
        }

    round-IsSound :
        (ev : Event) (w w' : World S) (flow : Flow)
        → IsSound w
        → round b ev w ≡ ok (w', flow)
        → flow ≢ restarts
        → IsSound w'
    unfolding round
    round-IsSound ev w w' flow k h going = elim (Bool-cases (check_ble b ev.writes w).1) [
      | inl e ↦
          let same =
            ok_eq ((check_ble b ev.writes w).0, restarts) (w', flow) (rw (round, e) at h) in
          absurd (going (sym (ap (λ (x : World S × Flow). x.1) same)))
      | inr e ↦
          receive_message-IsSound ev (check_ble b ev.writes w).0 w' flow
            (check_ble-IsSound ev.writes w k e) (rw (round, e) at h)
    ]

    -- Through any rounds of the loop the storage holds what the device has, and the LED shows the
    -- light.
    pub rounds-IsSound :
        (evs : List Event) (w w' : World S) (flow : Flow)
        → IsSound w
        → rounds b evs w ≡ ok (w', flow)
        → flow ≢ restarts
        → IsSound w'
    unfolding rounds
    rounds-IsSound [] w w' flow k h going =
        subst IsSound (ap (λ (x : World S × Flow). x.0) (ok_eq (w, continues) (w', flow) h)) k
    rounds-IsSound (ev ∷ evs) w w' flow k h going = elim (Result-cases (round b ev w)) [
      | inr (inl (x, e)) ↦ absurd (err-ne-ok x (w', flow) (rw (rounds, e) at h))
      | inr (inr e) ↦ absurd (panic-ne-ok (w', flow) (rw (rounds, e) at h))
      | inl ((w1, restarts), e) ↦
          let same = ok_eq (w1, restarts) (w', flow) (rw (rounds, e) at h) in
          absurd (going (sym (ap (λ (x : World S × Flow). x.1) same)))
      | inl ((w1, fails x), e) ↦
          let same = ok_eq (w1, fails x) (w', flow) (rw (rounds, e) at h) in
          subst IsSound (ap (λ (x : World S × Flow). x.0) same)
            (round-IsSound ev w w1 (fails x) k e (λ q. cc))
      | inl ((w1, continues), e) ↦
          rounds-IsSound evs w1 w' flow (round-IsSound ev w w1 continues k e (λ q. cc))
            (rw (rounds, e) at h) going
    ]

  -- After any rounds of the loop that do not end in a restart, a start from the storage, whatever a
  -- power cut left in memory, gives the key, the invites, the peers and the light that the device had,
  -- with the LED that shows it; and the storage still holds them. Before the rounds the storage holds
  -- what the device has; the light can always be written; and the state's JSON is read back and has
  -- at most 4096 bytes.
  pub rounds-start :
      (evs : List Event) (w w' : World S) (flow : Flow) (fresh : Bytes) (s : Switch)
      → ((k : Bytes) (v : ℕ) (s : S) → (s' : S) × (b.nvs.set_u8 k v s ≡ some s'))
      → IsSound w
      → rounds b evs w ≡ ok (w', flow)
      → flow ≢ restarts
      → b.read_state (b.write_state w'.device.state) ≡ some w'.device.state
      → length (b.write_state w'.device.state) ≤ 4096
      → (start b fresh w'.device.nvs s ≡ ok (w'.device, w'.switch)) × IsSound w'
  rounds-start evs w w' flow fresh s lights k e going reads small =
      let sound = rounds-IsSound lights evs w w' flow k e going in
      (
        start-Kept b law w'.device.secret_key fresh w'.device.state w'.switch.is_on w'.device.nvs s
              sound.kept reads small
            ∙ ap (λ (x : Bool). ok (w'.device, shining w'.switch.is_on x)) (sym sound.shown),
        sound,
      )
