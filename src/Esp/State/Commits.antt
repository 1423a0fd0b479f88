-- ===== src/Esp/State/Commits.antt =====
-- The commits with which the switch registers at its relay, examples/esp32-smart-switch/src/state.rs.
use bhumi.Base.{
  ◌≡◌, ◌↔◌, ◌⊎◌, inl, inr, List, [], ◌∷◌, Bool, true, false, ◌||◌, some, bytes_has_eq, arith, refl,
  sym, ◌∙◌, ◌==◌, Bool-cases, Option-cases,
}
use bhumi.Base.Set
use bhumi.Base.Set.{contains-append}
use bhumi.Proto.Buffer.{Bytes}
use bhumi.Esp.State.{
  Board, DeviceState, InviteRecord, PeerRecord, take_invite, lookup_preimage, invite_commits,
  peer_commits, get_commits,
}
use bhumi.Esp.State.Renew.{peer_commits-find_peer, find_peer-peer_commits}

taken_here :
    (sha256 : Bytes → Bytes) (preimage p : Bytes) (i : InviteRecord)
    (m : List (Bytes × InviteRecord))
    → ((sha256 p == sha256 preimage) ≡ true)
    → take_invite sha256 preimage ((p, i) ∷ m) ≡ some (i, m)
unfolding take_invite
taken_here sha256 preimage p i m e = rw (take_invite, e) refl

taken_later :
    (sha256 : Bytes → Bytes) (preimage p : Bytes) (i : InviteRecord)
    (m : List (Bytes × InviteRecord)) (j : InviteRecord) (rest : List (Bytes × InviteRecord))
    → ((sha256 p == sha256 preimage) ≡ false)
    → take_invite sha256 preimage m ≡ some (j, rest)
    → take_invite sha256 preimage ((p, i) ∷ m) ≡ some (j, (p, i) ∷ rest)
unfolding take_invite
taken_later sha256 preimage p i m j rest e found = rw (take_invite, e, found) refl

-- An invite is taken exactly when its commit is among theirs.
take_invite-invite_commits :
    (sha256 : Bytes → Bytes) (preimage : Bytes) (m : List (Bytes × InviteRecord))
    → Set.contains (sha256 preimage) (invite_commits sha256 m) ≡ true
    → (i : InviteRecord) × (rest : List (Bytes × InviteRecord)) × (take_invite sha256 preimage m
        ≡ some (i, rest))
unfolding take_invite invite_commits Set.contains
take_invite-invite_commits sha256 preimage [] h = cc
take_invite-invite_commits sha256 preimage ((p, i) ∷ m) h =
    elim (Bool-cases (sha256 p == sha256 preimage)) [
      | inl e ↦ (i, m, taken_here sha256 preimage p i m e)
      | inr e ↦
          let (j, rest, found) = take_invite-invite_commits sha256 preimage m (rw e at h) in
          (j, (p, i) ∷ rest, taken_later sha256 preimage p i m j rest e found)
    ]

invite_commits-take_invite :
    (sha256 : Bytes → Bytes) (preimage : Bytes) (m rest : List (Bytes × InviteRecord))
    (i : InviteRecord)
    → take_invite sha256 preimage m ≡ some (i, rest)
    → Set.contains (sha256 preimage) (invite_commits sha256 m) ≡ true
unfolding take_invite invite_commits Set.contains
invite_commits-take_invite sha256 preimage [] rest i h = cc
invite_commits-take_invite sha256 preimage ((p, j) ∷ m) rest i h =
    elim (Bool-cases (sha256 p == sha256 preimage)) [
      | inl e ↦ ground (arith, e)
      | inr e ↦ elim (Option-cases (take_invite sha256 preimage m)) [
        | inl n ↦ ground (arith, h, e, n)
        | inr ((k, more), n) ↦ ground (arith, invite_commits-take_invite sha256 preimage m more k n)
      ]
    ]

either : {x y z : Bool} → x ≡ false → z ≡ (x || y) → z ≡ y
either e h = ground (arith, e, h)

-- The commits are those of the preimages that the switch takes: of an invite, for a handshake, or of
-- a peer, for a command.
pub get_commits_lem :
    {V S : Type 0} (b : Board V S) (preimage : Bytes) (d : DeviceState S)
    → (Set.contains (b.sha256 preimage) (get_commits b d) ≡ true) ↔ (
        ((i : InviteRecord) × (rest : List (Bytes × InviteRecord)) × (take_invite b.sha256 preimage
              d.state.invites
            ≡ some (i, rest)))
        ⊎ ((id : Bytes) × (p : PeerRecord) × (lookup_preimage b preimage d ≡ some (id, p))))
unfolding get_commits lookup_preimage
get_commits_lem b preimage d =
    let both =
      contains-append (b.sha256 preimage) (invite_commits b.sha256 d.state.invites)
        (peer_commits b.sha256 d.state.peers) in
    (
      λ h.
          elim (Bool-cases
            (Set.contains (b.sha256 preimage) (invite_commits b.sha256 d.state.invites))) [
              | inl e ↦ inl (take_invite-invite_commits b.sha256 preimage d.state.invites e)
              | inr e ↦ inr (
                  find_peer-peer_commits b.sha256 (b.sha256 preimage) d.state.peers
                    (sym (either e both) ∙ h))
            ],
      λ x. elim x [
        | inl (i, rest, found) ↦
            ground (
              arith,
              both,
              invite_commits-take_invite b.sha256 preimage d.state.invites rest i found,
            )
        | inr (id, p, found) ↦ ground (
          arith,
          both,
          peer_commits-find_peer b.sha256 (b.sha256 preimage) d.state.peers id p found,
        )
      ],
    )
