-- ===== src/Node/State/Keys.antt =====
-- The maps of bhumi-node/src/state.rs are keyed by what their entries say, under every operation.
use bhumi.Base.{ℕ, ◌≡◌, refl, List, [], ◌∷◌, Option, inl, inr, Option-cases, bytes_has_eq}
use bhumi.Base.Map
use bhumi.Base.Map.{IsUnique, Every, insert-IsUnique, remove-IsUnique, insert-Every, remove-Every}
use bhumi.Proto.Buffer.{Bytes}
use bhumi.Node.State.{
  PeerRole, InviteRecord, PendingPeerRecord, PeerRecord, DeviceState, create_invite, accept_invite,
  complete_handshake_as_inviter, complete_handshake_as_acceptor, consume_and_renew_preimage,
  update_peer_preimage,
}

-- The operations that change the state, with their arguments.
pub data Op : Type 0 where
  creates : Bytes → ℕ → Bytes → PeerRole → Op
  accepts : Bytes → ℕ → Bytes → Bytes → Bytes → Op
  completes_inviter : Bytes → ℕ → Bytes → Bytes → Bytes → Option Bytes → Op
  completes_acceptor : ℕ → Bytes → Bytes → Option Bytes → Op
  renews : Bytes → ℕ → Bytes → Bytes → Op
  updates : ℕ → Bytes → Bytes → Op

module _ (sha256 : Bytes → Bytes) where
  unfoldable pub apply : Op → DeviceState → DeviceState
  apply (creates fresh now alias role) s = (create_invite sha256 fresh now alias role s).0
  apply (accepts fresh now id52 preimage alias) s =
      (accept_invite sha256 fresh now id52 preimage alias s).0
  apply (completes_inviter fresh now preimage id52 peer_preimage relay) s =
      (complete_handshake_as_inviter sha256 fresh now preimage id52 peer_preimage relay s).0
  apply (completes_acceptor now id52 preimage relay) s =
      (complete_handshake_as_acceptor now id52 preimage relay s).0
  apply (renews fresh now id52 old) s = (consume_and_renew_preimage sha256 fresh now id52 old s).0
  apply (updates now id52 new_preimage) s = update_peer_preimage now id52 new_preimage s

  unfoldable pub run : List Op → DeviceState → DeviceState
  run [] s = s
  run (o ∷ os) s = run os (apply o s)

abbrev pub InviteKeyed : Bytes → InviteRecord → Type 0
InviteKeyed k i = i.preimage ≡ k

abbrev pub PendingKeyed : Bytes → PendingPeerRecord → Type 0
PendingKeyed k p = p.their_id52 ≡ k

-- An invite stands under its own preimage, a pending peer under its own id, and no key stands twice.
pub record IsKeyed (s : DeviceState) : Type 0 where
  pub invites : Every InviteKeyed s.invites
  pub pending : Every PendingKeyed s.pending_peers
  pub invites_unique : IsUnique s.invites
  pub pending_unique : IsUnique s.pending_peers
  pub peers_unique : IsUnique s.peers

-- The ways in which an operation changes the three maps.
put_peer :
    (s : DeviceState) (k : Bytes) (p : PeerRecord)
    → IsKeyed s
    → IsKeyed (record s { peers = Map.insert k p s.peers })
put_peer s k p v = record {
  invites = v.invites;
  pending = v.pending;
  invites_unique = v.invites_unique;
  pending_unique = v.pending_unique;
  peers_unique = insert-IsUnique k p s.peers v.peers_unique;
}

drop_invite :
    (s : DeviceState) (k : Bytes)
    → IsKeyed s
    → IsKeyed (record s { invites = Map.remove k s.invites })
drop_invite s k v = record {
  invites = remove-Every InviteKeyed k s.invites v.invites;
  pending = v.pending;
  invites_unique = remove-IsUnique k s.invites v.invites_unique;
  pending_unique = v.pending_unique;
  peers_unique = v.peers_unique;
}

drop_pending :
    (s : DeviceState) (k : Bytes)
    → IsKeyed s
    → IsKeyed (record s { pending_peers = Map.remove k s.pending_peers })
drop_pending s k v = record {
  invites = v.invites;
  pending = remove-Every PendingKeyed k s.pending_peers v.pending;
  invites_unique = v.invites_unique;
  pending_unique = remove-IsUnique k s.pending_peers v.pending_unique;
  peers_unique = v.peers_unique;
}

create_invite-IsKeyed :
    (sha256 : Bytes → Bytes) (fresh : Bytes) (now : ℕ) (alias : Bytes) (role : PeerRole)
    (s : DeviceState)
    → IsKeyed s
    → IsKeyed (create_invite sha256 fresh now alias role s).0
unfolding create_invite
create_invite-IsKeyed sha256 fresh now alias role s v = record {
  invites = insert-Every InviteKeyed fresh _ s.invites refl v.invites;
  pending = v.pending;
  invites_unique = insert-IsUnique fresh _ s.invites v.invites_unique;
  pending_unique = v.pending_unique;
  peers_unique = v.peers_unique;
}

accept_invite-IsKeyed :
    (sha256 : Bytes → Bytes) (fresh : Bytes) (now : ℕ) (id52 preimage alias : Bytes)
    (s : DeviceState)
    → IsKeyed s
    → IsKeyed (accept_invite sha256 fresh now id52 preimage alias s).0
unfolding accept_invite
accept_invite-IsKeyed sha256 fresh now id52 preimage alias s v = record {
  invites = v.invites;
  pending = insert-Every PendingKeyed id52 _ s.pending_peers refl v.pending;
  invites_unique = v.invites_unique;
  pending_unique = insert-IsUnique id52 _ s.pending_peers v.pending_unique;
  peers_unique = v.peers_unique;
}

inviter-IsKeyed :
    (sha256 : Bytes → Bytes) (fresh : Bytes) (now : ℕ) (preimage id52 theirs : Bytes)
    (relay : Option Bytes) (s : DeviceState)
    → IsKeyed s
    → IsKeyed (complete_handshake_as_inviter sha256 fresh now preimage id52 theirs relay s).0
unfolding complete_handshake_as_inviter
inviter-IsKeyed sha256 fresh now preimage id52 theirs relay s v =
    elim (Option-cases (Map.lookup preimage s.invites)) [
      | inl e ↦ rw (complete_handshake_as_inviter, e) v
      | inr (i, e) ↦
          rw (complete_handshake_as_inviter, e) (put_peer _ id52 _ (drop_invite s preimage v))
    ]

acceptor-IsKeyed :
    (now : ℕ) (id52 theirs : Bytes) (relay : Option Bytes) (s : DeviceState)
    → IsKeyed s
    → IsKeyed (complete_handshake_as_acceptor now id52 theirs relay s).0
unfolding complete_handshake_as_acceptor
acceptor-IsKeyed now id52 theirs relay s v = elim (Option-cases (Map.lookup id52 s.pending_peers)) [
  | inl e ↦ rw (complete_handshake_as_acceptor, e) v
  | inr (p, e) ↦ rw (complete_handshake_as_acceptor, e) (put_peer _ id52 _ (drop_pending s id52 v))
]

renew-IsKeyed :
    (sha256 : Bytes → Bytes) (fresh : Bytes) (now : ℕ) (id52 old : Bytes) (s : DeviceState)
    → IsKeyed s
    → IsKeyed (consume_and_renew_preimage sha256 fresh now id52 old s).0
unfolding consume_and_renew_preimage
renew-IsKeyed sha256 fresh now id52 old s v = elim (Option-cases (Map.lookup id52 s.peers)) [
  | inl e ↦ rw (consume_and_renew_preimage, e) v
  | inr (p, e) ↦ rw (consume_and_renew_preimage, e) (put_peer s id52 _ v)
]

update-IsKeyed :
    (now : ℕ) (id52 new_preimage : Bytes) (s : DeviceState)
    → IsKeyed s
    → IsKeyed (update_peer_preimage now id52 new_preimage s)
unfolding update_peer_preimage
update-IsKeyed now id52 new_preimage s v = elim (Option-cases (Map.lookup id52 s.peers)) [
  | inl e ↦ rw (update_peer_preimage, e) v
  | inr (p, e) ↦ rw (update_peer_preimage, e) (put_peer s id52 _ v)
]

apply-IsKeyed :
    (sha256 : Bytes → Bytes) (o : Op) (s : DeviceState) → IsKeyed s → IsKeyed (apply sha256 o s)
unfolding apply
apply-IsKeyed sha256 (creates fresh now alias role) s v =
    create_invite-IsKeyed sha256 fresh now alias role s v
apply-IsKeyed sha256 (accepts fresh now id52 preimage alias) s v =
    accept_invite-IsKeyed sha256 fresh now id52 preimage alias s v
apply-IsKeyed sha256 (completes_inviter fresh now preimage id52 theirs relay) s v =
    inviter-IsKeyed sha256 fresh now preimage id52 theirs relay s v
apply-IsKeyed sha256 (completes_acceptor now id52 theirs relay) s v =
    acceptor-IsKeyed now id52 theirs relay s v
apply-IsKeyed sha256 (renews fresh now id52 old) s v = renew-IsKeyed sha256 fresh now id52 old s v
apply-IsKeyed sha256 (updates now id52 new_preimage) s v = update-IsKeyed now id52 new_preimage s v

-- Every sequence of operations keeps the maps keyed.
pub run-IsKeyed :
    (sha256 : Bytes → Bytes) (os : List Op) (s : DeviceState)
    → IsKeyed s
    → IsKeyed (run sha256 os s)
unfolding run
run-IsKeyed sha256 [] s v = v
run-IsKeyed sha256 (o ∷ os) s v =
    run-IsKeyed sha256 os (apply sha256 o s) (apply-IsKeyed sha256 o s v)
