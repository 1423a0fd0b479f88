-- ===== src/Node/Server/Denied.antt =====
-- Whose messages change a node, bhumi-node/src/node.rs.
use bhumi.Base.{
  ℕ, ◌≡◌, ◌≢◌, refl, List, [], ◌∷◌, true, some, ◌⊎◌, inl, inr, arith, Option-cases, Bool-cases,
  bytes_has_eq, ok, >>=-eq-ok,
}
use bhumi.Base.Map
use bhumi.Base.Set
use bhumi.Proto.Buffer.{Bytes}
use bhumi.Proto.HandshakeInit
use bhumi.Proto.HandshakeInit.{HandshakeInit}
use bhumi.Node.State.{
  PeerRecord, InviteRecord, DeviceState, PreimageLookup, peer, find_issuer, lookup_preimage,
  complete_handshake_as_inviter,
}
use bhumi.Node.Connection.{Connection, IncomingMessage}
use bhumi.Node.Core.{Outside, Node}
use bhumi.Node.Server.Messages.{handle_message_cases}
use bhumi.Node.Server.{Moment, handle_handshake, answer_handshake, handle_command, handle_message}

-- A pair of a map.
abbrev pub IsIn : {V : Type 0} → Bytes → V → List (Bytes × V) → Type 0
IsIn k v [] = ⊥
IsIn k v ((k', v') ∷ m) = ((k ≡ k') × (v ≡ v')) ⊎ IsIn k v m

-- The preimage is one that the node issued to one of its peers.
abbrev pub IsOfPeer : Bytes → DeviceState → Type 0
IsOfPeer preimage s =
    (id52 : Bytes) × (p : PeerRecord) × IsIn id52 p s.peers
    × (Set.contains preimage p.issued_preimages ≡ true)

-- The preimage is that of an invite.
abbrev pub IsOfInvite : Bytes → DeviceState → Type 0
IsOfInvite preimage s = (i : InviteRecord) × (Map.lookup preimage s.invites ≡ some i)

find_issuer_inv :
    (preimage : Bytes) (m : List (Bytes × PeerRecord)) (l : PreimageLookup)
    → find_issuer preimage m ≡ some l
    → (id52 : Bytes) × (p : PeerRecord) × (l ≡ peer id52 p)
      × IsIn id52 p m
      × (Set.contains preimage p.issued_preimages ≡ true)
unfolding find_issuer
find_issuer_inv preimage [] l e = cc
find_issuer_inv preimage ((id, p) ∷ m) l e =
    elim (Bool-cases (Set.contains preimage p.issued_preimages)) [
      | inl t ↦ (id, p, ground (arith, t, e), inl (refl, refl), t)
      | inr f ↦
          let (id', p', same, here, has) =
            find_issuer_inv preimage m l (rw (find_issuer, f) at e) in
          (id', p', same, inr here, has)
    ]

module _ {V S : Type 0} (o : Outside V) (t t' : Moment) where
  -- A command changes the node only if its preimage is one that the node issued to a peer.
  pub handle_command-IsOfPeer :
      (msg_id : ℕ) (preimage payload : Bytes) (n : Node V S) (conn : Connection)
      → (handle_command o t t' msg_id preimage payload n conn).0 ≢ n
      → IsOfPeer preimage n.state
  unfolding handle_command lookup_preimage
  handle_command-IsOfPeer msg_id preimage payload n conn changed =
      elim (Option-cases (Map.lookup preimage n.state.invites)) [
        | inr (i, e) ↦ absurd (changed (rw (handle_command, lookup_preimage, e) refl))
        | inl e ↦ elim (Option-cases (find_issuer preimage n.state.peers)) [
          | inl f ↦ absurd (changed (rw (handle_command, lookup_preimage, e, f) refl))
          | inr (l, f) ↦
              let (id, p, _, here, has) = find_issuer_inv preimage n.state.peers l f in
              (id, p, here, has)
        ]
      ]

  -- A handshake changes the node only if its preimage is that of an invite.
  pub handle_handshake-IsOfInvite :
      (msg_id : ℕ) (preimage payload : Bytes) (n n' : Node V S) (conn conn' : Connection)
      → handle_handshake o t msg_id preimage payload n conn ≡ ok (n', conn')
      → n' ≢ n
      → IsOfInvite preimage n.state
  unfolding handle_handshake answer_handshake complete_handshake_as_inviter
  handle_handshake-IsOfInvite msg_id preimage payload n n' conn conn' e changed =
      let (init, _, e') = >>=-eq-ok (HandshakeInit.from_bytes payload) _ e in
      elim (Option-cases (Map.lookup preimage n.state.invites)) [
        | inr (i, l) ↦ (i, l)
        | inl l ↦ absurd (changed (ground (arith, l, e')))
      ]

  -- One message changes a node only if its preimage is that of an invite or one issued to a peer.
  pub handle_message-IsKnown :
      (msg : IncomingMessage) (n n' : Node V S) (conn conn' : Connection)
      → handle_message o t t' msg n conn ≡ ok (n', conn')
      → n' ≢ n
      → IsOfInvite msg.preimage n.state ⊎ IsOfPeer msg.preimage n.state
  handle_message-IsKnown msg n n' conn conn' e changed =
      elim (handle_message_cases o t t' msg n conn) [
        | inl h ↦ inl (
            handle_handshake-IsOfInvite msg.msg_id msg.preimage msg.payload n n' conn conn'
              (rw h at e) changed)
        | inr h ↦ inr (
            handle_command-IsOfPeer msg.msg_id msg.preimage msg.payload n conn
              (λ same. changed (ground (arith, rw h at e, same))))
      ]
