-- ===== src/Relay/Router/Commits.antt =====
-- The commits of bhumi-relay/src/router.rs under any sequence of critical sections, from whatever
-- tasks they come.
use bhumi.Base.{
  ℕ, ◌≡◌, ◌≢◌, sym, ◌∙◌, List, [], ◌∷◌, Bool, true, false, ◌&&◌, ◌||◌, none, some, if◌then◌else◌,
  nat_has_eq, bytes_has_eq, bytes_eq_iff, ◌==◌, arith, inl, inr, ◌⊎◌, Option-cases, Bool-cases,
}
use bhumi.Base.Map
use bhumi.Base.Map.{lookup-insert, lookup-remove}
use bhumi.Base.Set
use bhumi.Base.Set.{contains-insert, contains-remove, contains-extend}
use bhumi.Proto.Buffer.{Bytes}
use bhumi.Proto.SendResult.{send_err_not_connected}
use bhumi.Relay.Router.{
  Router, DeviceState, register, unregister, add_commits, handle_ack, check_cache, claim,
  take_commit, add_pending, drop_pending, cleanup_cache, claimed, refused, refuse,
}

-- One critical section, with what it is given.
pub data Event : Type 0 where
  registers : ℕ → Bytes → List Bytes → List (Bytes × Bytes) → ℕ → Event
  unregisters : Bytes → Event
  adds : Bytes → List Bytes → Event
  acks : ℕ → ℕ → Bytes → Event
  checks : ℕ → Bytes → Event
  claims : (ℕ → Bool) → Bytes → Bytes → Event
  pends : ℕ → Bytes → ℕ → Event
  drops : ℕ → Event
  cleans : ℕ → Event

module _ (sha256 : Bytes → Bytes) where
  unfoldable pub apply : Event → Router → Router
  apply (registers now id52 commits responses sender) r =
      register now id52 commits responses sender r
  apply (unregisters id52) r = unregister id52 r
  apply (adds id52 commits) r = add_commits id52 commits r
  apply (acks now msg_id response) r = (handle_ack now msg_id response r).0
  apply (checks now preimage) r = (check_cache now preimage r).0
  apply (claims is_closed to_id52 preimage) r = (claim sha256 is_closed to_id52 preimage r).0
  apply (pends msg_id preimage tx) r = add_pending msg_id preimage tx r
  apply (drops msg_id) r = drop_pending msg_id r
  apply (cleans now) r = cleanup_cache now r

  unfoldable pub run : List Event → Router → Router
  run [] r = r
  run (e ∷ es) r = run es (apply e r)

-- The device `id` has registered the commit, and it is not used up.
unfoldable pub has : Bytes → Bytes → Router → Bool
has id commit r = elim (Map.lookup id r.devices) [
  | none ↦ false
  | some device ↦ Set.contains commit device.commits
]

-- The event is one in which the device `id` gives the relay the commit.
unfoldable pub issues : Bytes → Bytes → Event → Bool
issues id commit (registers _ id52 commits _ _) = id52 == id && Set.contains commit commits
issues id commit (adds id52 commits) = id52 == id && Set.contains commit commits
issues id commit _ = false

unfoldable pub issued : Bytes → Bytes → List Event → Bool
unfolding issues
issued id commit [] = false
issued id commit (e ∷ es) = issues id commit e || issued id commit es

has-register :
    (id commit id52 : Bytes) (now sender : ℕ) (commits : List Bytes) (rs : List (Bytes × Bytes))
    (r : Router)
    → has id commit (register now id52 commits rs sender r)
      ≡ (if id52 == id then Set.contains commit commits else has id commit r)
unfolding has register Set.collect Set.contains
has-register id commit id52 now sender commits rs r = ground (
  arith,
  lookup-insert id52 id (record { commits = Set.collect commits; sender = sender }) r.devices,
  contains-extend commit commits [],
)

has-unregister :
    (id commit id52 : Bytes) (r : Router)
    → has id commit (unregister id52 r) ≡ (if id52 == id then false else has id commit r)
unfolding has unregister
has-unregister id commit id52 r = ground (arith, lookup-remove id52 id r.devices)

has-add_commits :
    (id commit id52 : Bytes) (commits : List Bytes) (r : Router)
    → has id commit (add_commits id52 commits r) ≡ true
    → (has id commit r ≡ true) ⊎ ((id52 == id && Set.contains commit commits) ≡ true)
unfolding has add_commits
has-add_commits id commit id52 commits r h = elim (Option-cases (Map.lookup id52 r.devices)) [
  | inl e ↦ ground (arith, e)
  | inr (d, e) ↦ ground (
    arith,
    e,
    lookup-insert id52 id (record d { commits = Set.extend commits d.commits }) r.devices,
    contains-extend commit commits d.commits,
    bytes_eq_iff id52 id,
  )
]

has-take_commit :
    (id commit to_id52 c : Bytes) (d : DeviceState) (r : Router)
    → Map.lookup to_id52 r.devices ≡ some d
    → has id commit (take_commit to_id52 c d r).0 ≡ true
    → has id commit r ≡ true
unfolding has take_commit
has-take_commit id commit to_id52 c d r e h = ground (
  arith,
  lookup-insert to_id52 id (record d { commits = Set.remove c d.commits }) r.devices,
  contains-remove c commit d.commits,
  bytes_eq_iff to_id52 id,
)

-- How `claim` ends.
pub claim_cases :
    (sha256 : Bytes → Bytes) (is_closed : ℕ → Bool) (to_id52 preimage : Bytes) (r : Router)
    → (claim sha256 is_closed to_id52 preimage r ≡ (r, refused (refuse send_err_not_connected)))
      ⊎ (claim sha256 is_closed to_id52 preimage r
          ≡ (unregister to_id52 r, refused (refuse send_err_not_connected)))
      ⊎ ((d : DeviceState) × (Map.lookup to_id52 r.devices ≡ some d)
          × (claim sha256 is_closed to_id52 preimage r ≡ take_commit to_id52 (sha256 preimage) d r))
unfolding claim unregister
claim_cases sha256 is_closed to_id52 preimage r =
    elim (Option-cases (Map.lookup to_id52 r.devices)) [
      | inl e ↦ inl (ground (arith, e))
      | inr (d, e) ↦ elim (Bool-cases (is_closed d.sender)) [
        | inl c ↦ inr (inl (ground (arith, e, c)))
        | inr c ↦ inr (inr (d, e, ground (arith, e, c)))
      ]
    ]

has-claim :
    (sha256 : Bytes → Bytes) (is_closed : ℕ → Bool) (id commit to_id52 preimage : Bytes)
    (r : Router)
    → has id commit (claim sha256 is_closed to_id52 preimage r).0 ≡ true
    → has id commit r ≡ true
has-claim sha256 is_closed id commit to_id52 preimage r h =
    elim (claim_cases sha256 is_closed to_id52 preimage r) [
      | inl e ↦ rw e at h
      | inr (inl e) ↦ ground (arith, rw e at h, has-unregister id commit to_id52 r)
      | inr (inr (d, l, e)) ↦ has-take_commit id commit to_id52 (sha256 preimage) d r l (rw e at h)
    ]

pub has-devices :
    (id commit : Bytes) (r q : Router) → r.devices ≡ q.devices → has id commit r ≡ has id commit q
unfolding has
has-devices id commit r q e = rw e

-- The other critical sections leave the devices alone.
devices-handle_ack :
    (now msg_id : ℕ) (response : Bytes) (r : Router)
    → (handle_ack now msg_id response r).0.devices ≡ r.devices
unfolding handle_ack
devices-handle_ack now msg_id response r = ground arith

pub devices-check_cache :
    (now : ℕ) (preimage : Bytes) (r : Router) → (check_cache now preimage r).0.devices ≡ r.devices
unfolding check_cache
devices-check_cache now preimage r = ground arith

module _ (sha256 : Bytes → Bytes) (id commit : Bytes) where
  -- A commit that the relay holds after a step was there before, or came with the step.
  has-apply :
      (e : Event) (r : Router)
      → has id commit (apply sha256 e r) ≡ true
      → (has id commit r ≡ true) ⊎ (issues id commit e ≡ true)
  unfolding apply issues
  has-apply (registers now id52 commits rs sender) r h =
      ground (arith, has-register id commit id52 now sender commits rs r)
  has-apply (unregisters id52) r h = ground (arith, has-unregister id commit id52 r)
  has-apply (adds id52 commits) r h = has-add_commits id commit id52 commits r h
  has-apply (acks now msg_id response) r h =
      inl (sym (has-devices id commit _ _ (devices-handle_ack now msg_id response r)) ∙ h)
  has-apply (checks now preimage) r h =
      inl (sym (has-devices id commit _ _ (devices-check_cache now preimage r)) ∙ h)
  has-apply (claims is_closed to_id52 preimage) r h =
      inl (has-claim sha256 is_closed id commit to_id52 preimage r h)
  has-apply (pends msg_id preimage tx) r h = unfold has add_pending in inl h
  has-apply (drops msg_id) r h = unfold has drop_pending in inl h
  has-apply (cleans now) r h = unfold has cleanup_cache in inl h

  pub has-run :
      (es : List Event) (r : Router)
      → has id commit (run sha256 es r) ≡ true
      → (has id commit r ≡ true) ⊎ (issued id commit es ≡ true)
  unfolding run issued
  has-run [] r h = inl h
  has-run (e ∷ es) r h = ground (arith, has-run es (apply sha256 e r) h, has-apply e r)

take_commit_uses :
    (to_id52 c : Bytes) (d : DeviceState) (r : Router) (msg_id sender : ℕ)
    → Map.lookup to_id52 r.devices ≡ some d
    → (take_commit to_id52 c d r).1 ≡ claimed msg_id sender
    → (has to_id52 c r ≡ true)
      × (has to_id52 c (take_commit to_id52 c d r).0 ≡ false)
      × (msg_id ≡ r.next_msg_id)
unfolding has take_commit
take_commit_uses to_id52 c d r msg_id sender e h = ground (
  arith,
  lookup-insert to_id52 to_id52 (record d { commits = Set.remove c d.commits }) r.devices,
  contains-remove c c d.commits,
  bytes_eq_iff to_id52 to_id52,
  bytes_eq_iff c c,
)

-- A claim that succeeds finds the commit of the preimage with the device, and uses it up.
pub claim_uses :
    (sha256 : Bytes → Bytes) (is_closed : ℕ → Bool) (to_id52 preimage : Bytes) (r : Router)
    (msg_id sender : ℕ)
    → (claim sha256 is_closed to_id52 preimage r).1 ≡ claimed msg_id sender
    → (has to_id52 (sha256 preimage) r ≡ true)
      × (has to_id52 (sha256 preimage) (claim sha256 is_closed to_id52 preimage r).0 ≡ false)
      × (msg_id ≡ r.next_msg_id)
claim_uses sha256 is_closed to_id52 preimage r msg_id sender h =
    elim (claim_cases sha256 is_closed to_id52 preimage r) [
      | inl e ↦ ground (arith, e)
      | inr (inl e) ↦ ground (arith, e)
      | inr (inr (d, l, e)) ↦
          rw (← e) at (take_commit_uses to_id52 (sha256 preimage) d r msg_id sender l (rw e at h))
    ]

-- A preimage gets one message through. After a claim that succeeded, no claim with the same preimage
-- at the same device succeeds, whatever critical sections run in between, until the device gives
-- the relay the commit again.
pub claim-once :
    (sha256 : Bytes → Bytes) (is_closed is_closed' : ℕ → Bool) (to_id52 preimage : Bytes)
    (r : Router) (es : List Event) (msg_id sender msg_id' sender' : ℕ)
    → (claim sha256 is_closed to_id52 preimage r).1 ≡ claimed msg_id sender
    → issued to_id52 (sha256 preimage) es ≡ false
    → (claim sha256 is_closed' to_id52 preimage
        (run sha256 es (claim sha256 is_closed to_id52 preimage r).0)).1
      ≢ claimed msg_id' sender'
claim-once sha256 is_closed is_closed' to_id52 preimage r es msg_id sender msg_id' sender' h
      unissued again =
    let after = (claim sha256 is_closed to_id52 preimage r).0 in
    ground (
      arith,
      claim_uses sha256 is_closed to_id52 preimage r msg_id sender h,
      claim_uses sha256 is_closed' to_id52 preimage (run sha256 es after) msg_id' sender' again,
      has-run sha256 to_id52 (sha256 preimage) es after,
    )
