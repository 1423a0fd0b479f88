-- ===== src/Node/State/Pairing.antt =====
-- What a pairing of two nodes sets up and what each exchange keeps, bhumi-node/src/state.rs.
use bhumi.Base.{
  ℕ, ◌≡◌, refl, List, [], ◌∷◌, ◌++◌, true, Option, none, some, inl, inr, arith, Option-cases,
  bytes_has_eq,
}
use bhumi.Base.Map
use bhumi.Base.Map.{lookup-insert, lookup-insert_self, lookup-remove_self}
use bhumi.Base.Set
use bhumi.Base.Set.{contains-last}
use bhumi.Proto.Buffer.{Bytes}
use bhumi.Node.State.{
  PeerRole, InviteRecord, PendingPeerRecord, PeerRecord, DeviceState, create_invite, accept_invite,
  complete_handshake_as_inviter, complete_handshake_as_acceptor, consume_and_renew_preimage,
  update_peer_preimage, get_peer_preimage,
}

-- `holder`, a state of the node `id`, has issued the preimage to its peer `to`.
pub record Issued (p to : Bytes) (holder : DeviceState) : Type 0 where
  pub entry : PeerRecord
  pub found : Map.lookup to holder.peers ≡ some entry
  pub issued : Set.contains p entry.issued_preimages ≡ true

-- The node `from_id`, in state `from`, can send to the node `to_id`, in state `to`: the preimage that
-- it would use is one that the other issued to it.
pub record CanSend (from_id to_id : Bytes) (from to : DeviceState) : Type 0 where
  pub preimage : Bytes
  pub used : get_peer_preimage to_id from ≡ some preimage
  pub accepted : Issued preimage from_id to

-- A peer's record that was just written.
Issued-insert :
    (p to : Bytes) (entry : PeerRecord) (s : DeviceState) (m : List (Bytes × PeerRecord))
    → s.peers ≡ Map.insert to entry m
    → Set.contains p entry.issued_preimages ≡ true
    → Issued p to s
Issued-insert p to entry s m e h = record {
  entry = entry;
  found = rw e (lookup-insert_self to entry m);
  issued = h;
}

uses-insert :
    (p to : Bytes) (entry : PeerRecord) (s : DeviceState) (m : List (Bytes × PeerRecord))
    → s.peers ≡ Map.insert to entry m
    → entry.their_preimage ≡ some p
    → get_peer_preimage to s ≡ some p
unfolding get_peer_preimage
uses-insert p to entry s m e h = ground (arith, e, lookup-insert_self to entry m)

-- A whole pairing. `a` invites with a role, `b` accepts the invite, `a` completes the handshake with
-- the preimage that `b` made, and `b` completes it with the preimage that `a` answered. Both steps
-- succeed; afterwards each can send to the other; the peer has the role of the invite at `a`; and
-- the invite is gone.
pub pairing-CanSend :
    (sha256 : Bytes → Bytes) (a b : DeviceState)
    (a_id b_id alias_a alias_b fresh_a fresh_b next_a : Bytes) (role : PeerRole)
    (relay_a relay_b : Option Bytes) (now_1 now_2 now_3 now_4 : ℕ)
    → let (a1, inv, _) = create_invite sha256 fresh_a now_1 alias_a role a in
      let (b1, mine, _) = accept_invite sha256 fresh_b now_2 a_id inv.preimage alias_b b in
      let (a2, answer) =
        complete_handshake_as_inviter sha256 next_a now_3 inv.preimage b_id mine relay_b a1 in
      let (b2, done) = complete_handshake_as_acceptor now_4 a_id next_a relay_a b1 in
      (answer ≡ some (next_a, sha256 next_a))
      × (done ≡ true)
      × CanSend a_id b_id a2 b2
      × CanSend b_id a_id b2 a2
      × ((p : PeerRecord) × (Map.lookup b_id a2.peers ≡ some p) × (p.role ≡ role))
      × (Map.lookup fresh_a a2.invites ≡ none)
unfolding create_invite accept_invite complete_handshake_as_inviter complete_handshake_as_acceptor
pairing-CanSend sha256 a b a_id b_id alias_a alias_b fresh_a fresh_b next_a role relay_a relay_b
      now_1 now_2 now_3 now_4 =
    let inv : InviteRecord = record {
      alias = alias_a;
      preimage = fresh_a;
      role = role;
      created_at = now_1;
    } in
    let pending : PendingPeerRecord = record {
      alias = alias_b;
      their_id52 = a_id;
      their_preimage = fresh_a;
      my_preimage = fresh_b;
      relay_url = none;
      created_at = now_2;
    } in
    rw
      (
        create_invite,
        accept_invite,
        complete_handshake_as_inviter,
        complete_handshake_as_acceptor,
        lookup-insert_self fresh_a inv a.invites,
        lookup-insert_self a_id pending b.pending_peers,
      )
      (
        refl,
        refl,
        record {
          preimage = fresh_b;
          used = uses-insert fresh_b b_id _ _ a.peers refl refl;
          accepted = Issued-insert fresh_b a_id _ _ b.peers refl (contains-last fresh_b []);
        },
        record {
          preimage = next_a;
          used = uses-insert next_a a_id _ _ b.peers refl refl;
          accepted = Issued-insert next_a b_id _ _ a.peers refl (contains-last next_a []);
        },
        (_, lookup-insert_self b_id _ a.peers, refl),
        lookup-remove_self fresh_a (Map.insert fresh_a inv a.invites),
      )

peer_entry :
    (p to : Bytes) (s : DeviceState)
    → get_peer_preimage to s ≡ some p
    → (entry : PeerRecord) × (Map.lookup to s.peers ≡ some entry) × (entry.their_preimage ≡ some p)
unfolding get_peer_preimage
peer_entry p to s h = elim (Option-cases (Map.lookup to s.peers)) [
  | inl e ↦ ground (arith, e)
  | inr (entry, e) ↦ (entry, e, ground (arith, e))
]

-- One exchange: the client `b` sends with the preimage that it holds, the device `a` replaces that
-- preimage by a fresh one, and the client stores the new one. The device answers with the fresh
-- preimage, and the client can send again; that the device can send to the client stays true.
pub exchange-CanSend :
    (sha256 : Bytes → Bytes) (a b : DeviceState) (a_id b_id fresh : Bytes) (now_a now_b : ℕ)
    (can : CanSend b_id a_id b a)
    → let (a', answer) = consume_and_renew_preimage sha256 fresh now_a b_id can.preimage a in
      let b' = update_peer_preimage now_b a_id fresh b in
      (answer ≡ some (fresh, sha256 fresh))
      × CanSend b_id a_id b' a'
      × (CanSend a_id b_id a b → CanSend a_id b_id a' b')
unfolding consume_and_renew_preimage update_peer_preimage
exchange-CanSend sha256 a b a_id b_id fresh now_a now_b can =
    let ea = can.accepted.entry in
    let (eb, found, theirs) = peer_entry can.preimage a_id b can.used in
    let ea' : PeerRecord = record ea {
      issued_preimages = Set.remove can.preimage ea.issued_preimages ++ fresh ∷ [];
      last_contacted = now_a;
    } in
    let eb' : PeerRecord = record eb { their_preimage = some fresh; last_contacted = now_b } in
    rw (consume_and_renew_preimage, update_peer_preimage, can.accepted.found, found)
      (
        refl,
        record {
          preimage = fresh;
          used = uses-insert fresh a_id eb' _ b.peers refl refl;
          accepted =
              Issued-insert fresh b_id ea' _ a.peers refl
                (contains-last fresh (Set.remove can.preimage ea.issued_preimages));
        },
        λ back.
            let (fa, found_a, theirs_a) = peer_entry back.preimage b_id a back.used in
            let same_a : fa.their_preimage ≡ ea'.their_preimage =
              ground (arith, found_a, can.accepted.found) in
            let same_b : back.accepted.entry.issued_preimages ≡ eb.issued_preimages =
              ground (arith, found, back.accepted.found) in
            record {
              preimage = back.preimage;
              used =
                  uses-insert back.preimage b_id ea' _ a.peers refl
                    (ground (arith, same_a, theirs_a));
              accepted =
                  Issued-insert back.preimage a_id eb' _ b.peers refl
                    (ground (arith, same_b, back.accepted.issued));
            },
      )
