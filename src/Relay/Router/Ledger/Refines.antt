-- ===== src/Relay/Router/Ledger/Refines.antt =====
-- The router of bhumi-relay/src/router.rs does what the ledger of its devices says.
use bhumi.Base.{
  ℕ, ◌≡◌, refl, ap, subst, ◌∙◌, List, [], ◌∷◌, Bool, true, false, not, ◌&&◌, Option, none, some,
  if◌then◌else◌, bytes_has_eq, nat_has_eq, bytes_eq_iff, ◌==◌, arith, inl, inr, Option-cases,
  Bool-cases,
}
use mathlib.Core.Path.{fun_ext}
use bhumi.Base.Map
use bhumi.Base.Map.{lookup-insert, lookup-remove}
use bhumi.Base.Set
use bhumi.Base.Set.{contains-remove, contains-extend}
use bhumi.Proto.Buffer.{Bytes}
use bhumi.Relay.Router.{
  Router, DeviceState, register, unregister, add_commits, handle_ack, check_cache, claim,
  take_commit, add_pending, drop_pending, cleanup_cache,
}
use bhumi.Relay.Router.Commits.{
  Event, registers, unregisters, adds, acks, checks, claims, pends, drops, cleans, apply, run,
}
use bhumi.Relay.Router.Ledger.{
  Place, Ledger, place_of, view, widen, spend, change, enter, enter_all, answer, answer_of,
}

place_ext :
    (channel : ℕ) (f g : Bytes → Bool)
    → ((c : Bytes) → f c ≡ g c)
    → ◌≡◌ {A = Option Place}
        (some (record { channel = channel; good = f }))
        (some (record { channel = channel; good = g }))
place_ext channel f g h =
    ap (λ (k : Bytes → Bool). some (record { channel = channel; good = k })) (fun_ext h)

if_place :
    (b : Bool) (x y : Option DeviceState)
    → place_of (if b then x else y) ≡ (if b then place_of x else place_of y)
if_place true x y = refl
if_place false x y = refl

view-insert :
    (id : Bytes) (d : DeviceState) (r : Router) (j : Bytes)
    → place_of (Map.lookup j (Map.insert id d r.devices))
      ≡ (if id == j then place_of (some d) else view r j)
unfolding view
view-insert id d r j =
    ap place_of (lookup-insert id j d r.devices)
    ∙ if_place (id == j) (some d) (Map.lookup j r.devices)

view-remove :
    (id : Bytes) (r : Router) (j : Bytes)
    → place_of (Map.lookup j (Map.remove id r.devices)) ≡ (if id == j then none else view r j)
unfolding view place_of
view-remove id r j =
    ap place_of (lookup-remove id j r.devices) ∙ if_place (id == j) none (Map.lookup j r.devices)

-- A step that leaves the other devices and does to one what `f` says.
change_view :
    (r r' : Router) (id : Bytes) (f : Option Place → Option Place)
    → ((j : Bytes) → ((id == j) ≡ false) → view r' j ≡ view r j)
    → view r' id ≡ f (view r id)
    → view r' ≡ change id f (view r)
unfolding change
change_view r r' id f elsewhere here = fun_ext (λ j. elim (Bool-cases (id == j)) [
  | inl e ↦ rw e (subst (λ x. view r' x ≡ f (view r x)) ((bytes_eq_iff id j).0 e) here)
  | inr e ↦ rw e (elsewhere j e)
])

self : (id : Bytes) → ((id == id) ≡ true)
self id = (bytes_eq_iff id id).1 refl

insert-elsewhere :
    (id : Bytes) (d : DeviceState) (r r' : Router)
    → r'.devices ≡ Map.insert id d r.devices
    → (j : Bytes) → ((id == j) ≡ false)
    → view r' j ≡ view r j
unfolding view
insert-elsewhere id d r r' same j e = rw same (
    subst
      (λ b.
        place_of (Map.lookup j (Map.insert id d r.devices))
        ≡ (if b then place_of (some d) else view r j))
      e (view-insert id d r j))

insert-here :
    (id : Bytes) (d : DeviceState) (r r' : Router)
    → r'.devices ≡ Map.insert id d r.devices
    → view r' id ≡ place_of (some d)
unfolding view
insert-here id d r r' same = rw same (
    subst
      (λ b.
        place_of (Map.lookup id (Map.insert id d r.devices))
        ≡ (if b then place_of (some d) else view r id))
      (self id) (view-insert id d r id))

remove-elsewhere :
    (id : Bytes) (r r' : Router)
    → r'.devices ≡ Map.remove id r.devices
    → (j : Bytes) → ((id == j) ≡ false)
    → view r' j ≡ view r j
unfolding view
remove-elsewhere id r r' same j e = rw same (
    subst (λ b. place_of (Map.lookup j (Map.remove id r.devices)) ≡ (if b then none else view r j))
      e (view-remove id r j))

remove-here :
    (id : Bytes) (r r' : Router) → r'.devices ≡ Map.remove id r.devices → view r' id ≡ none
unfolding view
remove-here id r r' same = rw same (
    subst
      (λ b. place_of (Map.lookup id (Map.remove id r.devices)) ≡ (if b then none else view r id))
      (self id) (view-remove id r id))

collected :
    (c : Bytes) (commits : List Bytes)
    → Set.contains c (Set.collect commits) ≡ Set.contains c commits
unfolding Set.collect Set.contains
collected c commits = ground (arith, contains-extend c commits [])

register-enter :
    (now : ℕ) (id : Bytes) (commits : List Bytes) (responses : List (Bytes × Bytes)) (sender : ℕ)
    (r : Router)
    → view (register now id commits responses sender r)
      ≡ change id
          (λ p. some (record { channel = sender; good = λ c. Set.contains c commits }))
          (view r)
unfolding register place_of
register-enter now id commits responses sender r =
    let d : DeviceState = record { commits = Set.collect commits; sender = sender } in
    let r' = register now id commits responses sender r in
    change_view r r' id _ (insert-elsewhere id d r r' refl) (
      insert-here id d r r' refl
      ∙ place_ext sender (λ c. Set.contains c (Set.collect commits)) (λ c. Set.contains c commits)
          (λ c. collected c commits))

unregister-enter :
    (id : Bytes) (r : Router) → view (unregister id r) ≡ change id (λ p. none) (view r)
unfolding unregister
unregister-enter id r =
    let r' = unregister id r in
    change_view r r' id _ (remove-elsewhere id r r' refl) (remove-here id r r' refl)

add_commits-enter :
    (id : Bytes) (commits : List Bytes) (r : Router)
    → view (add_commits id commits r) ≡ change id (widen commits) (view r)
unfolding add_commits widen place_of view
add_commits-enter id commits r = elim (Option-cases (Map.lookup id r.devices)) [
  | inl e ↦
      change_view r (add_commits id commits r) id _ (λ j apart. rw (add_commits, e) refl)
        (rw (add_commits, e) (rw e refl))
  | inr (d, e) ↦
      let d' : DeviceState = record d { commits = Set.extend commits d.commits } in
      let r' : Router = record r { devices = Map.insert id d' r.devices } in
      let step : add_commits id commits r ≡ r' = rw (add_commits, e) refl in
      rw step (
        change_view r r' id _ (insert-elsewhere id d' r r' refl) (
          insert-here id d' r r' refl
          ∙ rw e (place_ext d.sender _ _ (λ c. contains-extend c commits d.commits))))
]

-- A commit that is not good stays so when it is taken away.
absent_same :
    (commit c : Bytes) (commits : List Bytes)
    → Set.contains commit commits ≡ false
    → Set.contains c commits ≡ (not (commit == c) && Set.contains c commits)
absent_same commit c commits h = elim (Bool-cases (commit == c)) [
  | inl e ↦ rw e (subst (λ x. Set.contains x commits ≡ false) ((bytes_eq_iff commit c).0 e) h)
  | inr e ↦ rw e refl
]

module _ (sha256 : Bytes → Bytes) (is_closed : ℕ → Bool) (id preimage : Bytes) (r : Router) where
  take_commit-enter :
      (d : DeviceState)
      → Map.lookup id r.devices ≡ some d
      → is_closed d.sender ≡ false
      → let (r', c) = take_commit id (sha256 preimage) d r in
        (view r' ≡ change id (spend is_closed (sha256 preimage)) (view r))
        × (answer_of c ≡ answer is_closed (sha256 preimage) (view r id))
  unfolding take_commit spend place_of view answer answer_of
  take_commit-enter d e still_open = elim (Bool-cases (Set.contains (sha256 preimage) d.commits)) [
    | inl h ↦
        let d' : DeviceState = record d { commits = Set.remove (sha256 preimage) d.commits } in
        let r' = (take_commit id (sha256 preimage) d r).0 in
        let same : r'.devices ≡ Map.insert id d' r.devices = rw (take_commit, h) refl in
        (
          change_view r r' id _ (insert-elsewhere id d' r r' same) (
              insert-here id d' r r' same
              ∙ rw (e, still_open)
                  (place_ext d.sender _ _ (λ c. contains-remove (sha256 preimage) c d.commits))),
          rw (take_commit, h, e, still_open) (rw h refl),
        )
    | inr h ↦
        let r' = (take_commit id (sha256 preimage) d r).0 in
        let same : r' ≡ r = rw (take_commit, h) refl in
        (
          change_view r r' id _ (λ j apart. rw same refl)
              (ap (λ x. view x id) same
                ∙ rw (e, still_open)
                    (place_ext d.sender _ _ (λ c. absent_same (sha256 preimage) c d.commits h))),
          rw (take_commit, h, e, still_open) (rw h refl),
        )
  ]

  claim-enter :
      let (r', c) = claim sha256 is_closed id preimage r in
      (view r' ≡ change id (spend is_closed (sha256 preimage)) (view r))
      × (answer_of c ≡ answer is_closed (sha256 preimage) (view r id))
  unfolding claim spend place_of view answer answer_of
  claim-enter = elim (Option-cases (Map.lookup id r.devices)) [
    | inl e ↦
        let r' = (claim sha256 is_closed id preimage r).0 in
        let same : r' ≡ r = rw (claim, e) refl in
        (
          change_view r r' id _ (λ j apart. rw same refl) (ap (λ x. view x id) same ∙ rw e refl),
          rw (claim, e) refl,
        )
    | inr (d, e) ↦ elim (Bool-cases (is_closed d.sender)) [
      | inl h ↦
          let r' = (claim sha256 is_closed id preimage r).0 in
          let same : r'.devices ≡ Map.remove id r.devices = rw (claim, e, h) refl in
          (
            change_view r r' id _ (remove-elsewhere id r r' same)
                (remove-here id r r' same ∙ rw (e, h) refl),
            rw (claim, e, h) refl,
          )
      | inr h ↦
          let step : claim sha256 is_closed id preimage r ≡ take_commit id (sha256 preimage) d r =
            rw (claim, e, h) refl in
          rw step (take_commit-enter d e h)
    ]
  ]

handle_ack-devices :
    (now msg_id : ℕ) (response : Bytes) (r : Router)
    → (handle_ack now msg_id response r).0.devices ≡ r.devices
unfolding handle_ack
handle_ack-devices now msg_id response r = elim (Option-cases (Map.lookup msg_id r.pending)) [
  | inl e ↦ rw (handle_ack, e) refl
  | inr ((preimage, tx), e) ↦ rw (handle_ack, e) refl
]

check_cache-devices :
    (now : ℕ) (preimage : Bytes) (r : Router) → (check_cache now preimage r).0.devices ≡ r.devices
unfolding check_cache
check_cache-devices now preimage r = elim (Option-cases (Map.lookup preimage r.response_cache)) [
  | inl e ↦ rw (check_cache, e) refl
  | inr (cached, e) ↦ rw (check_cache, e) refl
]

-- Each critical section of the router does to the ledger what its event says.
apply-enter :
    (sha256 : Bytes → Bytes) (e : Event) (r : Router)
    → view (apply sha256 e r) ≡ enter sha256 e (view r)
unfolding apply enter view add_pending drop_pending cleanup_cache
apply-enter sha256 (registers now id commits responses sender) r =
    register-enter now id commits responses sender r
apply-enter sha256 (unregisters id) r = unregister-enter id r
apply-enter sha256 (adds id commits) r = add_commits-enter id commits r
apply-enter sha256 (claims is_closed id preimage) r = (claim-enter sha256 is_closed id preimage r).0
apply-enter sha256 (acks now msg_id response) r =
    ap (λ d id. place_of (Map.lookup id d)) (handle_ack-devices now msg_id response r)
apply-enter sha256 (checks now preimage) r =
    ap (λ d id. place_of (Map.lookup id d)) (check_cache-devices now preimage r)
apply-enter sha256 (pends msg_id preimage tx) r = refl
apply-enter sha256 (drops msg_id) r = refl
apply-enter sha256 (cleans now) r = refl

run-enter_all :
    (sha256 : Bytes → Bytes) (es : List Event) (r : Router)
    → view (run sha256 es r) ≡ enter_all sha256 es (view r)
unfolding run enter_all
run-enter_all sha256 [] r = refl
run-enter_all sha256 (e ∷ es) r =
    run-enter_all sha256 es (apply sha256 e r) ∙ ap (enter_all sha256 es) (apply-enter sha256 e r)

-- The router keeps the ledger: after any sequence of critical sections, from whatever tasks they come,
-- its devices, their channels and their good commits are those that the ledger has, and a message is
-- passed on, or refused with a status, as the ledger says, which its claim then spends in both. What
-- the router caches and what it awaits, and the order of its lists, have no part in this.
pub claim-answer :
    (sha256 : Bytes → Bytes) (es : List Event) (r : Router) (is_closed : ℕ → Bool)
    (id preimage : Bytes)
    → let l = enter_all sha256 es (view r) in
      let (r', c) = claim sha256 is_closed id preimage (run sha256 es r) in
      (view (run sha256 es r) ≡ l)
      × (answer_of c ≡ answer is_closed (sha256 preimage) (l id))
      × (view r' ≡ enter sha256 (claims is_closed id preimage) l)
unfolding enter
claim-answer sha256 es r is_closed id preimage =
    let same = run-enter_all sha256 es r in
    let (next, says) = claim-enter sha256 is_closed id preimage (run sha256 es r) in
    (
      same,
      says ∙ ap (λ (l : Ledger). answer is_closed (sha256 preimage) (l id)) same,
      next ∙ ap (change id (spend is_closed (sha256 preimage))) same,
    )
