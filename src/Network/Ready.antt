-- ===== src/Network/Ready.antt =====
-- When a node of bhumi-node/src/node.rs can send to another through the relay, and what one command
-- leaves of that.
use bhumi.Base.{
  ℕ, ◌≡◌, ◌≢◌, refl, sym, subst, ap, ◌∙◌, List, [], ◌∷◌, ◌++◌, true, none, some, ok, arith, nat_eq,
  Option-cases, Bool-cases, inl, inr, bytes_has_eq, nat_has_eq, nat_eq_iff,
}
use bhumi.Base.Map
use bhumi.Base.Map.{lookup-insert, lookup-insert_self, lookup-remove}
use bhumi.Base.Set
use bhumi.Base.Set.{contains-last}
use bhumi.Proto.Buffer.{Bytes}
use bhumi.Proto.HandshakeInit.{dev_handshake_init}
use bhumi.Relay.Router.{Router, PendingDelivery}
use bhumi.Node.State.{
  PeerRecord, DeviceState, peer, find_issuer, lookup_preimage, consume_and_renew_preimage,
  get_peer_preimage, update_peer_preimage,
}
use bhumi.Node.State.Pairing.{CanSend}
use bhumi.Node.Connection.{Connection, parse_device_msg_type}
use bhumi.Node.Core.{Outside, save, Node}
use bhumi.Node.Server.{Moment, respond, renew_and_ack, handle_message, handle_command, serve}
use bhumi.Node.Exchange.{context, respond-peers}
use bhumi.Network.Delivery.{message}
use bhumi.Network.Holds.{Holds}

-- An issued preimage is found at the peer that was given it last.
find_issuer-insert :
    (fresh k : Bytes) (p : PeerRecord) (m : List (Bytes × PeerRecord))
    → find_issuer fresh m ≡ none
    → Set.contains fresh p.issued_preimages ≡ true
    → find_issuer fresh (Map.insert k p m) ≡ some (peer k p)
unfolding find_issuer Map.insert
find_issuer-insert fresh k p [] h c = ground (arith, c)
find_issuer-insert fresh k p ((j, q) ∷ m) h c = ground (arith, h, c, find_issuer-insert fresh k p m)

update-get_peer_preimage :
    (now : ℕ) (id fresh p : Bytes) (s : DeviceState)
    → get_peer_preimage id s ≡ some p
    → get_peer_preimage id (update_peer_preimage now id fresh s) ≡ some fresh
unfolding get_peer_preimage update_peer_preimage
update-get_peer_preimage now id fresh p s h = elim (Option-cases (Map.lookup id s.peers)) [
  | inl e ↦ ground (arith, h, e)
  | inr (q, e) ↦
      let q' : PeerRecord = record q { their_preimage = some fresh; last_contacted = now } in
      ground (arith, e, lookup-insert_self id q' s.peers)
]

abbrev pub renewed_peer : Bytes → ℕ → Bytes → PeerRecord → PeerRecord
renewed_peer fresh now old q = record q {
  issued_preimages = Set.remove old q.issued_preimages ++ fresh ∷ [];
  last_contacted = now;
}

consume_and_renew_preimage_lem :
    (sha256 : Bytes → Bytes) (fresh : Bytes) (now : ℕ) (id old : Bytes) (s : DeviceState)
    (q : PeerRecord)
    → Map.lookup id s.peers ≡ some q
    → consume_and_renew_preimage sha256 fresh now id old s ≡ (
      record s { peers = Map.insert id (renewed_peer fresh now old q) s.peers },
      some (fresh, sha256 fresh),
    )
unfolding consume_and_renew_preimage
consume_and_renew_preimage_lem sha256 fresh now id old s q there =
    rw (consume_and_renew_preimage, there) refl

-- A renewed preimage is found at its peer.
pub lookup_preimage-renew :
    (fresh : Bytes) (now : ℕ) (id old : Bytes) (s : DeviceState) (q : PeerRecord)
    → Map.lookup fresh s.invites ≡ none
    → find_issuer fresh s.peers ≡ none
    → lookup_preimage fresh
        (record s { peers = Map.insert id (renewed_peer fresh now old q) s.peers })
      ≡ some (peer id (renewed_peer fresh now old q))
unfolding lookup_preimage
lookup_preimage-renew fresh now id old s q unused unissued =
    rw (lookup_preimage, unused)
      (find_issuer-insert fresh id (renewed_peer fresh now old q) s.peers unissued
        (contains-last fresh (Set.remove old q.issued_preimages)))

-- A message that is no handshake is a command.
pub handle_message-command :
    {V S : Type 0} (o : Outside V) (t t' : Moment) (d : PendingDelivery) (n : Node V S)
    (conn : Connection)
    → parse_device_msg_type d.payload ≢ some dev_handshake_init
    → handle_message o t t' (message d) n conn
      ≡ ok (handle_command o t t' d.msg_id d.preimage d.payload n conn)
unfolding handle_message
handle_message-command o t t' d n conn other =
    elim (Option-cases (parse_device_msg_type d.payload)) [
      | inl e ↦ rw (handle_message, e) refl
      | inr (b, e) ↦ elim (Bool-cases (nat_eq b dev_handshake_init)) [
        | inl f ↦ absurd (other (ground (arith, e, nat_eq_iff b dev_handshake_init, f)))
        | inr f ↦ rw (handle_message, e, f) refl
      ]
    ]

-- The node `b` can send to the node `a` through the relay.
pub record Ready {V S : Type 0} (o : Outside V) (a_id b_id : Bytes) (sender : ℕ) (a b : Node V S)
    (r : Router) : Type 0 where
  pub can : CanSend b_id a_id b.state a.state
  pub entry : PeerRecord
  pub known : lookup_preimage can.preimage a.state ≡ some (peer b_id entry)
  pub holds : Holds o.sha256 a_id can.preimage sender r

module _ {V S : Type 0} (o : Outside V) where
  -- What a command leaves of a device's state.
  pub handle_command-state :
      (t t' : Moment) (msg_id : ℕ) (preimage payload b_id : Bytes) (a : Node V S)
      (conn : Connection) (p q : PeerRecord)
      → lookup_preimage preimage a.state ≡ some (peer b_id p)
      → Map.lookup b_id a.state.peers ≡ some q
      → let a1 = (respond o t (context b_id p) payload a).0 in
        (handle_command o t t' msg_id preimage payload a conn).0.state ≡ record a1.state {
          peers = Map.insert b_id (renewed_peer t'.fresh t'.now preimage q) a1.state.peers;
        }
  unfolding handle_command serve renew_and_ack save
  handle_command-state t t' msg_id preimage payload b_id a conn p q known there =
      let a1 = (respond o t (context b_id p) payload a).0 in
      let there1 : Map.lookup b_id a1.state.peers ≡ some q =
        rw (respond-peers o t (context b_id p) payload a) there in
      let renews =
        consume_and_renew_preimage_lem o.sha256 t'.fresh t'.now b_id preimage a1.state q there1 in
      rw (handle_command, known, serve, renew_and_ack, ap (λ x. x.1) renews) (ap (λ x. x.0) renews)

some_eq : {A : Type 0} (x y : A) → some x ≡ some y → x ≡ y
some_eq x y h = cc

-- A preimage that no peer was given is not the one in use.
pub unissued-ne :
    (fresh preimage b_id : Bytes) (p : PeerRecord) (s : DeviceState)
    → find_issuer fresh s.peers ≡ none
    → lookup_preimage preimage s ≡ some (peer b_id p)
    → fresh ≢ preimage
unfolding lookup_preimage
unissued-ne fresh preimage b_id p s unissued known e =
    elim (Option-cases (Map.lookup preimage s.invites)) [
      | inl n ↦ ground (arith, rw (lookup_preimage, n) at known, rw e at unissued)
      | inr (i, n) ↦ ground (arith, rw (lookup_preimage, n) at known)
    ]

-- What is ready afterwards.
pub Ready-after :
    {V S : Type 0} (o : Outside V) (a_id b_id fresh : Bytes) (sender now : ℕ) (a' b b' : Node V S)
    (r' : Router) (p : PeerRecord) (old : Bytes)
    → CanSend b_id a_id b'.state a'.state
    → b'.state ≡ update_peer_preimage now a_id fresh b.state
    → get_peer_preimage a_id b.state ≡ some old
    → lookup_preimage fresh a'.state ≡ some (peer b_id p)
    → Holds o.sha256 a_id fresh sender r'
    → Ready o a_id b_id sender a' b' r'
Ready-after o a_id b_id fresh sender now a' b b' r' p old can same used known holds =
    let uses : get_peer_preimage a_id b'.state ≡ some fresh =
      rw same (update-get_peer_preimage now a_id fresh old b.state used) in
    let e : can.preimage ≡ fresh = some_eq can.preimage fresh (sym can.used ∙ uses) in
    record {
      can = can;
      entry = p;
      known = rw e known;
      holds = subst (λ x. Holds o.sha256 a_id x sender r') (sym e) holds;
    }
