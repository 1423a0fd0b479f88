-- ===== src/Node/State/Commits.antt =====
-- The relay holds a commit for every preimage that bhumi-node/src/state.rs answers to.
use bhumi.Base.{
  ◌≡◌, List, [], ◌∷◌, ◌++◌, true, some, inl, inr, arith, Option-cases, bytes_has_eq, bytes_eq_iff,
}
use bhumi.Base.Map
use bhumi.Base.Map.{Every}
use bhumi.Base.Set
use bhumi.Base.Set.{contains-append}
use bhumi.Proto.Buffer.{Bytes}
use bhumi.Node.State.{
  InviteRecord, PeerRecord, DeviceState, PreimageLookup, invite_commits, commits_of, peer_commits,
  pending_commits, get_all_commits, find_issuer, lookup_preimage,
}
use bhumi.Node.State.Keys.{IsKeyed, InviteKeyed}

module _ (sha256 : Bytes → Bytes) where
  contains-commits_of :
      (p : Bytes) (ps : List Bytes)
      → Set.contains p ps ≡ true
      → Set.contains (sha256 p) (commits_of sha256 ps) ≡ true
  unfolding commits_of Set.contains
  contains-commits_of p [] h = cc
  contains-commits_of p (q ∷ ps) h =
      ground (arith, bytes_eq_iff q p, bytes_eq_iff (sha256 q) (sha256 p), contains-commits_of p ps)

  contains-invite_commits :
      (p : Bytes) (m : List (Bytes × InviteRecord)) (i : InviteRecord)
      → Every InviteKeyed m
      → Map.lookup p m ≡ some i
      → Set.contains (sha256 p) (invite_commits sha256 m) ≡ true
  unfolding invite_commits Set.contains Map.lookup
  contains-invite_commits p [] i v h = cc
  contains-invite_commits p ((k, j) ∷ m) i v h = ground (
    arith,
    v.0,
    bytes_eq_iff k p,
    bytes_eq_iff (sha256 j.preimage) (sha256 p),
    contains-invite_commits p m i v.1,
  )

  contains-peer_commits :
      (p : Bytes) (m : List (Bytes × PeerRecord)) (x : PreimageLookup)
      → find_issuer p m ≡ some x
      → Set.contains (sha256 p) (peer_commits sha256 m) ≡ true
  unfolding peer_commits find_issuer
  contains-peer_commits p [] x h = cc
  contains-peer_commits p ((k, q) ∷ m) x h = ground (
    arith,
    contains-append (sha256 p) (commits_of sha256 q.issued_preimages) (peer_commits sha256 m),
    contains-commits_of p q.issued_preimages,
    contains-peer_commits p m x,
  )

  -- Every preimage that a node recognises, of an invite or of a peer, has its commit among those that
  -- the node registers with the relay.
  pub get_all_commits-lookup_preimage :
      (p : Bytes) (s : DeviceState) (x : PreimageLookup)
      → IsKeyed s
      → lookup_preimage p s ≡ some x
      → Set.contains (sha256 p) (get_all_commits sha256 s) ≡ true
  unfolding get_all_commits lookup_preimage
  get_all_commits-lookup_preimage p s x v h =
      let ps = pending_commits sha256 s.pending_peers in
      let qs = peer_commits sha256 s.peers in
      let split = contains-append (sha256 p) (invite_commits sha256 s.invites) (ps ++ qs) in
      elim (Option-cases (Map.lookup p s.invites)) [
        | inl e ↦
            ground
              (arith, e, split, contains-append (sha256 p) ps qs, contains-peer_commits p s.peers x)
        | inr (i, e) ↦ ground (arith, e, split, contains-invite_commits p s.invites i v.invites)
      ]
