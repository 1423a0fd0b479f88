-- ===== src/Esp/Switch/Renews.antt =====
-- How a peer of the switch goes on after a command and after a handshake: switch.rs and state.rs of
-- examples/esp32-smart-switch/src.
use bhumi.Base.{
  ◌≡◌, inr, refl, ap, ◌∙◌, List, [], ◌∷◌, ◌++◌, true, false, some, bytes_has_eq, ok, arith, length,
  append-nil,
}
use bhumi.Base.Set
use bhumi.Proto.Buffer.{Bytes}
use bhumi.Proto.Utf8.{is_utf8}
use bhumi.Proto.HandshakeInit
use bhumi.Proto.HandshakeInit.{HandshakeInit, handshake_init_from_bytes-to_bytes}
use bhumi.Proto.HandshakeComplete
use bhumi.Proto.HandshakeComplete.{
  HandshakeComplete, handshake_accepted, handshake_complete_from_bytes-to_bytes,
}
use bhumi.Node.Connection.{IncomingMessage}
use bhumi.Node.Core.{Request, good}
use bhumi.Esp.Nvs.{key_state}
use bhumi.Esp.State.{
  InviteRecord, PeerRecord, Board, DeviceState, lookup_preimage, renew_preimage, save, expect,
  peer_commits, get_commits, take_invite, paired, accept_handshake, handle_handshake,
}
use bhumi.Esp.State.Renew.{replace_preimage-find_peer, find_peer-new}
use bhumi.Esp.State.Commits.{get_commits_lem}
use bhumi.Esp.Switch.{Switch, dispatch_command, keep_light, perform, handle_command}
use bhumi.Esp.Switch.Handled.{keep_light-state}

module _ {V S : Type 0} (b : Board V S)
    (writes : (k v : Bytes) (s : S) → (s' : S) × (b.nvs.set_blob k v s ≡ some s')) where
  pub save_lem : (d : DeviceState S) → (nvs : S) × (save b d ≡ ok (record d { nvs = nvs }))
  unfolding save expect
  save_lem d =
      let (nvs, e) = writes key_state (b.write_state d.state) d.nvs in (nvs, rw (save, e) refl)

  renew_preimage_lem :
      (fresh id old : Bytes) (p : PeerRecord) (d : DeviceState S)
      → lookup_preimage b old d ≡ some (id, p)
      → Set.contains (b.sha256 fresh) (peer_commits b.sha256 d.state.peers) ≡ false
      → (d' : DeviceState S) × (renew_preimage b fresh id old d
          ≡ ok (d', some (fresh, b.sha256 fresh)))
        × (lookup_preimage b fresh d' ≡ some (id, record p { their_preimage = fresh }))
        × (d'.state.invites ≡ d.state.invites)
        × (d'.secret_key ≡ d.secret_key)
  unfolding renew_preimage lookup_preimage
  renew_preimage_lem fresh id old p d known new =
      let (m, replaced, found) =
        replace_preimage-find_peer b.sha256 fresh id (b.sha256 old) p d.state.peers known new in
      let d1 : DeviceState S = record d { state = record d.state { peers = m } } in
      let (nvs, saved) = save_lem d1 in
      (record d1 { nvs = nvs }, rw (renew_preimage, replaced, saved) refl, found, refl, refl)

  -- A command of a peer that the switch knows is carried out and answered with a new preimage. With
  -- it the switch knows the peer, and its commit is among those for the relay; the invites stay. It
  -- takes storage that can be written, and a new preimage whose commit no peer has.
  pub handle_command-renews :
      (fresh : Bytes) (msg : IncomingMessage) (d : DeviceState S) (s : Switch) (id : Bytes)
      (p : PeerRecord) (req : Request V)
      → lookup_preimage b msg.preimage d ≡ some (id, p)
      → b.json.read_request msg.payload ≡ good req
      → Set.contains (b.sha256 fresh) (peer_commits b.sha256 d.state.peers) ≡ false
      → let (s', r) = dispatch_command b d p.role req s in
        (d' : DeviceState S) × (handle_command b fresh msg d s
          ≡ ok (d', s', b.json.write_response r, some (fresh, b.sha256 fresh)))
        × (lookup_preimage b fresh d' ≡ some (id, record p { their_preimage = fresh }))
        × (Set.contains (b.sha256 fresh) (get_commits b d') ≡ true)
        × (d'.state.invites ≡ d.state.invites)
  unfolding handle_command perform lookup_preimage
  handle_command-renews fresh msg d s id p req known reads new =
      let (s', r) = dispatch_command b d p.role req s in
      let (same, _) = keep_light-state b req r s' d in
      let lit = keep_light b req r s' d in
      let (d', renewed, found, invites, _) =
        renew_preimage_lem fresh id msg.preimage p lit (rw same known) (rw same new) in
      (
        d',
        rw (handle_command, known, reads, perform, renewed) refl,
        found,
        (get_commits_lem b fresh d').1 (inr (id, record p { their_preimage = fresh }, found)),
        invites ∙ ap (λ x. x.invites) same,
      )

  -- A handshake with the preimage of an invite, in bytes that a HANDSHAKE_INIT was written to, uses
  -- the first invite with that commit up: its peer is known by a new preimage, with the invite's
  -- alias and role, and is reached by the preimage that it sent. The answer is read back as an
  -- acceptance with the new preimage, whose commit goes to the relay and is among the switch's. It
  -- takes storage that can be written, and a new preimage of 32 bytes whose commit no peer has.
  pub handle_handshake-accepts :
      (fresh : Bytes) (init : HandshakeInit) (msg : IncomingMessage) (d : DeviceState S)
      (invite : InviteRecord) (rest : List (Bytes × InviteRecord))
      → HandshakeInit.IsValid init
      → msg.payload ≡ HandshakeInit.to_bytes init
      → take_invite b.sha256 msg.preimage d.state.invites ≡ some (invite, rest)
      → Set.contains (b.sha256 fresh) (peer_commits b.sha256 d.state.peers) ≡ false
      → length fresh ≡ 32
      → let complete : HandshakeComplete = record {
        status = handshake_accepted;
        preimage_for_peer = fresh;
        relay_url = [];
      } in
        (d' : DeviceState S) × (answer : Bytes) × (handle_handshake b fresh msg d
          ≡ ok (d', some (answer, some (b.sha256 fresh))))
        × (HandshakeComplete.from_bytes answer ≡ ok complete)
        × (d'.state.invites ≡ rest)
        × (lookup_preimage b fresh d' ≡ some (init.sender_id52, paired fresh init invite))
        × (Set.contains (b.sha256 fresh) (get_commits b d') ≡ true)
  unfolding handle_handshake accept_handshake lookup_preimage paired is_utf8
  handle_handshake-accepts fresh init msg d invite rest valid payload there new size =
      let p = paired fresh init invite in
      let d1 : DeviceState S = record d {
        state = record { invites = rest; peers = d.state.peers ++ (init.sender_id52, p) ∷ [] };
      } in
      let (nvs, saved) = save_lem d1 in
      let d' : DeviceState S = record d1 { nvs = nvs } in
      let complete : HandshakeComplete = record {
        status = handshake_accepted;
        preimage_for_peer = fresh;
        relay_url = [];
      } in
      let sent : HandshakeComplete.IsValid complete = record {
        status_size = omega arith;
        preimage_size = size;
        url_utf8 = refl;
        url_size = omega arith;
      } in
      let found =
        find_peer-new b.sha256 (b.sha256 fresh) init.sender_id52 p d.state.peers new refl in
      let reads = handshake_init_from_bytes-to_bytes init [] valid in
      (
        d',
        HandshakeComplete.to_bytes complete,
        rw (handle_handshake, payload, rw append-nil at reads, accept_handshake, there, saved) refl,
        rw append-nil at (handshake_complete_from_bytes-to_bytes complete [] sent),
        refl,
        found,
        (get_commits_lem b fresh d').1 (inr (init.sender_id52, p, found)),
      )
