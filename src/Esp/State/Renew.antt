-- ===== src/Esp/State/Renew.antt =====
-- What a renewed preimage and an accepted handshake leave, examples/esp32-smart-switch/src/state.rs.
use bhumi.Base.{
  ◌≡◌, inl, inr, refl, ap, List, [], ◌∷◌, ◌++◌, true, false, ◌||◌, some, bytes_has_eq, bytes_eq_iff,
  arith, Bool-cases, ◌==◌,
}
use bhumi.Base.Set
use bhumi.Base.Set.{contains-append, contains-last}
use bhumi.Proto.Buffer.{Bytes}
use bhumi.Esp.State.{PeerRecord, find_peer, peer_commits, replace_preimage}

some_eq : {A : Type 0} (x y : A) → some x ≡ some y → x ≡ y
some_eq x y h = cc

module _ (sha256 : Bytes → Bytes) where
  -- A peer that is found has its commit among those of the peers.
  pub peer_commits-find_peer :
      (commit : Bytes) (m : List (Bytes × PeerRecord)) (id : Bytes) (p : PeerRecord)
      → find_peer sha256 commit m ≡ some (id, p)
      → (sha256 p.their_preimage ≡ commit) × (Set.contains commit (peer_commits sha256 m) ≡ true)
  unfolding find_peer peer_commits Set.contains
  peer_commits-find_peer commit [] id p h = cc
  peer_commits-find_peer commit ((j, q) ∷ m) id p h = ground (
    arith,
    h,
    peer_commits-find_peer commit m id p,
    bytes_eq_iff (sha256 q.their_preimage) commit,
  )

  -- A commit that no peer has leads to none; one that is among theirs leads to some peer.
  pub find_peer-peer_commits :
      (commit : Bytes) (m : List (Bytes × PeerRecord))
      → Set.contains commit (peer_commits sha256 m) ≡ true
      → (id : Bytes) × (p : PeerRecord) × (find_peer sha256 commit m ≡ some (id, p))
  unfolding find_peer peer_commits Set.contains
  find_peer-peer_commits commit [] h = cc
  find_peer-peer_commits commit ((j, q) ∷ m) h =
      elim (Bool-cases (sha256 q.their_preimage == commit)) [
        | inl e ↦ rw e (j, q, refl)
        | inr e ↦ rw e (find_peer-peer_commits commit m (rw e at h))
      ]

  pub find_peer-new :
      (commit id : Bytes) (p : PeerRecord) (m : List (Bytes × PeerRecord))
      → Set.contains commit (peer_commits sha256 m) ≡ false
      → sha256 p.their_preimage ≡ commit
      → find_peer sha256 commit (m ++ (id, p) ∷ []) ≡ some (id, p)
  unfolding find_peer peer_commits Set.contains
  find_peer-new commit id p [] h e =
      ground (arith, e, bytes_eq_iff (sha256 p.their_preimage) commit)
  find_peer-new commit id p ((j, q) ∷ m) h e = ground (arith, h, find_peer-new commit id p m)

  apart :
      (c commit : Bytes) (m : List (Bytes × PeerRecord))
      → (c == commit || Set.contains commit (peer_commits sha256 m)) ≡ false
      → ((c == commit) ≡ false) × (Set.contains commit (peer_commits sha256 m) ≡ false)
  apart c commit m h = ground (arith, h)

  replace_here :
      (fresh id old j : Bytes) (q : PeerRecord) (m : List (Bytes × PeerRecord))
      → ((j == id) ≡ true)
      → ((sha256 q.their_preimage == old) ≡ true)
      → replace_preimage sha256 fresh id old ((j, q) ∷ m)
        ≡ some ((j, record q { their_preimage = fresh }) ∷ m)
  unfolding replace_preimage
  replace_here fresh id old j q m a b = ground (arith, a, b)

  replace_later :
      (fresh id old j : Bytes) (q : PeerRecord) (m m' : List (Bytes × PeerRecord))
      → ((sha256 q.their_preimage == old) ≡ false)
      → replace_preimage sha256 fresh id old m ≡ some m'
      → replace_preimage sha256 fresh id old ((j, q) ∷ m) ≡ some ((j, q) ∷ m')
  unfolding replace_preimage
  replace_later fresh id old j q m m' a b = elim (Bool-cases (j == id)) [
    | inl e ↦ ground (arith, a, b, e)
    | inr e ↦ ground (arith, a, b, e)
  ]

  -- The peer whose preimage is renewed, and how it is found afterwards.
  pub replace_preimage-find_peer :
      (fresh id old : Bytes) (p : PeerRecord) (m : List (Bytes × PeerRecord))
      → find_peer sha256 old m ≡ some (id, p)
      → Set.contains (sha256 fresh) (peer_commits sha256 m) ≡ false
      → (m' : List (Bytes × PeerRecord)) × (replace_preimage sha256 fresh id old m ≡ some m')
        × (find_peer sha256 (sha256 fresh) m' ≡ some (id, record p { their_preimage = fresh }))
  unfolding find_peer replace_preimage peer_commits Set.contains
  replace_preimage-find_peer fresh id old p [] h new = cc
  replace_preimage-find_peer fresh id old p ((j, q) ∷ m) h new =
      elim (Bool-cases (sha256 q.their_preimage == old)) [
        | inl e ↦
            let same = some_eq (j, q) (id, p) (rw e at h) in
            let id_same = ap (λ (x : Bytes × PeerRecord). x.0) same in
            let p_same = ap (λ (x : Bytes × PeerRecord). x.1) same in
            (
              (j, record q { their_preimage = fresh }) ∷ m,
              replace_here fresh id old j q m ((bytes_eq_iff j id).1 id_same) e,
              rw ((bytes_eq_iff (sha256 fresh) (sha256 fresh)).1 refl, id_same, p_same) refl,
            )
        | inr e ↦
            let there = rw e at h in
            let (q_old, new_rest) = apart (sha256 q.their_preimage) (sha256 fresh) m new in
            let (m', replaced, found) =
              replace_preimage-find_peer fresh id old p m there new_rest in
            ((j, q) ∷ m', replace_later fresh id old j q m m' e replaced, rw q_old found)
      ]
