-- ===== src/Esp/Run/Total.antt =====
-- Where the rounds of `run_connection` panic, and that nothing else does: main.rs of
-- examples/esp32-smart-switch/src.
use bhumi.Base.{
  ◌≡◌, ◌⊎◌, arith, inl, inr, refl, List, [], ◌∷◌, ◌++◌, Option, some, ok, panic, Option-cases,
  Bool-cases, Result-cases, nat_eq,
}
use bhumi.Proto.Buffer.{Bytes}
use bhumi.Proto.HandshakeInit
use bhumi.Proto.HandshakeInit.{HandshakeInit}
use bhumi.Proto.Deliver
use bhumi.Proto.Narrow.{IsOversized, panics-IsOversized}
use bhumi.Proto.Frame.{Frame, read_from, msg_deliver}
use bhumi.Proto.Frame.Stream.{read_from-ne-panic}
use bhumi.Node.Connection.{Connection, IncomingMessage}
use bhumi.Node.Core.{Outcome-cases, Request}
use bhumi.Esp.State.{
  Board, DeviceState, PeerRecord, renew_preimage, replace_preimage, accept_handshake,
  handle_handshake, take_invite, lookup_preimage, paired,
}
use bhumi.Esp.Switch.{Switch, Handled, dispatch_command, keep_light, perform, handle_command}
use bhumi.Esp.Switch.Renews.{save_lem}
use bhumi.Esp.Connection.{receive}
use bhumi.Esp.Run.{
  World, Event, Flow, continues, restarts, fails, handle_message, is_handshake, check_ble,
  receive_message, round, rounds,
}

-- The stream is at a frame with an oversized delivery.
abbrev pub AtOversized : Bytes → Type 0
AtOversized incoming =
    (f : Frame) × (rest : Bytes) × (read_from incoming ≡ ok (f, rest))
    × (f.msg_type ≡ msg_deliver)
    × IsOversized f.payload

receive-panic : (conn : Connection) → receive conn ≡ panic → AtOversized conn.incoming
unfolding receive
receive-panic conn h = elim (Result-cases (read_from conn.incoming)) [
  | inl ((f, rest), e) ↦ elim (Bool-cases (nat_eq f.msg_type msg_deliver)) [
    | inl t ↦ elim (Result-cases (Deliver.from_bytes_32 f.payload)) [
      | inl (m, g) ↦ let no = rw (receive, e, t, g) at h in cc
      | inr (inl (x, g)) ↦ ground arith
      | inr (inr g) ↦ (f, rest, e, ground arith, panics-IsOversized f.payload g)
    ]
    | inr t ↦ ground arith
  ]
  | inr (inl (x, e)) ↦ ground arith
  | inr (inr e) ↦ absurd (read_from-ne-panic conn.incoming e)
]

module _ {V S : Type 0} (b : Board V S)
    (writes : (k v : Bytes) (s : S) → (s' : S) × (b.nvs.set_blob k v s ≡ some s')) where
  renew_preimage-ok :
      (fresh id old : Bytes) (d : DeviceState S)
      → (x : DeviceState S × Option (Bytes × Bytes)) × (renew_preimage b fresh id old d ≡ ok x)
  unfolding renew_preimage
  renew_preimage-ok fresh id old d =
      elim (Option-cases (replace_preimage b.sha256 fresh id (b.sha256 old) d.state.peers)) [
        | inl e ↦ rw (renew_preimage, e) (_, refl)
        | inr (m, e) ↦
            let (nvs, saved) =
              save_lem b writes (record d { state = record d.state { peers = m } }) in
            rw (renew_preimage, e, saved) (_, refl)
      ]

  accept_handshake-ok :
      (fresh : Bytes) (init : HandshakeInit) (preimage : Bytes) (d : DeviceState S)
      → (x : DeviceState S × Option (Bytes × Option Bytes)) × (accept_handshake b fresh init
            preimage d
          ≡ ok x)
  unfolding accept_handshake
  accept_handshake-ok fresh init preimage d =
      elim (Option-cases (take_invite b.sha256 preimage d.state.invites)) [
        | inl e ↦ rw (accept_handshake, e) (_, refl)
        | inr ((invite, rest), e) ↦
            let (nvs, saved) = save_lem b writes (record d {
              state = record {
                invites = rest;
                peers = d.state.peers ++ (init.sender_id52, paired fresh init invite) ∷ [];
              };
            }) in
            rw (accept_handshake, e, saved) (_, refl)
      ]

  handle_handshake-ok :
      (fresh : Bytes) (msg : IncomingMessage) (d : DeviceState S)
      → (x : DeviceState S × Option (Bytes × Option Bytes)) × (handle_handshake b fresh msg d
          ≡ ok x)
  unfolding handle_handshake
  handle_handshake-ok fresh msg d = elim (Result-cases (HandshakeInit.from_bytes msg.payload)) [
    | inl (init, e) ↦ rw (handle_handshake, e) (accept_handshake-ok fresh init msg.preimage d)
    | inr (inl (x, e)) ↦ rw (handle_handshake, e) (_, refl)
    | inr (inr e) ↦ absurd (HandshakeInit.from_bytes-ne-panic msg.payload e)
  ]

  perform-ok :
      (fresh preimage id : Bytes) (p : PeerRecord) (req : Request V) (d : DeviceState S)
      (s : Switch)
      → (x : Handled S) × (perform b fresh preimage id p req d s ≡ ok x)
  unfolding perform
  perform-ok fresh preimage id p req d s =
      let (s1, r) = dispatch_command b d p.role req s in
      let (x, e) = renew_preimage-ok fresh id preimage (keep_light b req r s1 d) in
      rw (perform, e) (_, refl)

  handle_command-ok :
      (fresh : Bytes) (msg : IncomingMessage) (d : DeviceState S) (s : Switch)
      → (x : Handled S) × (handle_command b fresh msg d s ≡ ok x)
  unfolding handle_command
  handle_command-ok fresh msg d s = elim (Option-cases (lookup_preimage b msg.preimage d)) [
    | inl e ↦ rw (handle_command, e) (_, refl)
    | inr ((id, p), e) ↦ elim (Outcome-cases (b.json.read_request msg.payload)) [
      | inr (x, f) ↦ rw (handle_command, e, f) (_, refl)
      | inl (req, f) ↦ rw (handle_command, e, f) (perform-ok fresh msg.preimage id p req d s)
    ]
  ]

  handle_message-ok :
      (fresh : Bytes) (msg : IncomingMessage) (w : World S)
      → (w' : World S) × (handle_message b fresh msg w ≡ ok w')
  unfolding handle_message
  handle_message-ok fresh msg w = elim (Bool-cases (is_handshake msg)) [
    | inl e ↦
        let (x, did) = handle_handshake-ok fresh msg w.device in
        rw (handle_message, e, did) (_, refl)
    | inr e ↦
        let (x, did) = handle_command-ok fresh msg w.device w.switch in
        rw (handle_message, e, did) (_, refl)
  ]

  -- In a round, only the decoder of an oversized delivery panics.
  receive_message-Ends :
      (ev : Event) (w : World S)
      → ((w' : World S) × (flow : Flow) × (receive_message b ev w ≡ ok (w', flow)))
        ⊎ ((receive_message b ev w ≡ panic) × AtOversized w.conn.incoming)
  unfolding receive_message
  receive_message-Ends ev w = elim (Option-cases ev.timeout) [
    | inr (n, e) ↦ inl (rw (receive_message, e) (_, _, refl))
    | inl e ↦ elim (Result-cases (receive w.conn)) [
      | inl ((msg, conn), f) ↦
          let (w1, did) = handle_message-ok ev.fresh msg (record w { conn = conn }) in
          inl (w1, continues, rw (receive_message, e, f, did) refl)
      | inr (inl (x, f)) ↦ inl (w, fails x, rw (receive_message, e, f) refl)
      | inr (inr f) ↦ inr (rw (receive_message, e, f) refl, receive-panic w.conn f)
    ]
  ]

  round-Ends :
      (ev : Event) (w : World S)
      → ((w' : World S) × (flow : Flow) × (round b ev w ≡ ok (w', flow)))
        ⊎ ((round b ev w ≡ panic) × AtOversized w.conn.incoming)
  unfolding round check_ble
  round-Ends ev w = elim (Bool-cases (check_ble b ev.writes w).1) [
    | inl e ↦ inl ((check_ble b ev.writes w).0, restarts, rw (round, e) refl)
    | inr e ↦ rw (round, e) (receive_message-Ends ev (check_ble b ev.writes w).0)
  ]

  -- The worlds that the rounds come to.
  pub data Reached : World S → World S → Type 0 where
    here : {w : World S} → Reached w w
    next :
        {w w1 w2 : World S} (ev : Event)
        → round b ev w ≡ ok (w1, continues)
        → Reached w1 w2
        → Reached w w2

  -- The rounds of the loop, where the storage can be written and a `usize` has 32 bits: whatever bytes
  -- arrive, either the rounds come to their end; or they panic, and then they reached a world in which
  -- the next frame of the stream is a DELIVER whose length field is 2^32 - 40 or more.
  pub rounds-Ends :
      (evs : List Event) (w : World S)
      → ((w' : World S) × (flow : Flow) × (rounds b evs w ≡ ok (w', flow)))
        ⊎ ((rounds b evs w ≡ panic)
            × ((w' : World S) × Reached w w' × AtOversized w'.conn.incoming))
  unfolding rounds
  rounds-Ends [] w = inl (w, continues, refl)
  rounds-Ends (ev ∷ evs) w = elim (round-Ends ev w) [
    | inr (e, at) ↦ inr (rw (rounds, e) refl, (w, here, at))
    | inl (w1, restarts, e) ↦ inl (w1, restarts, rw (rounds, e) refl)
    | inl (w1, fails x, e) ↦ inl (w1, fails x, rw (rounds, e) refl)
    | inl (w1, continues, e) ↦ elim (rounds-Ends evs w1) [
      | inl (w', flow, f) ↦ inl (w', flow, rw (rounds, e) f)
      | inr (f, (w', reached, at)) ↦ inr (rw (rounds, e) f, (w', next ev e reached, at))
    ]
  ]
