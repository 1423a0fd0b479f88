-- ===== src/Relay/Router/Ids.antt =====
-- Message ids of bhumi-relay/src/router.rs where many tasks route messages at once. A system is the
-- router with a log of every id that was handed out and the preimage it was handed out for, and with
-- the ids whose task has not yet come to register them.
use bhumi.Base.{
  ℕ, ◌+◌, ◌%◌, ◌^◌, ◌<◌, ◌≡◌, refl, List, [], Bool, none, some, nat_has_eq, bytes_has_eq,
  nat_eq_iff, arith, inl, inr, ◌⊎◌, Option-cases,
}
use bhumi.Base.Map
use bhumi.Base.Map.{lookup-insert, lookup-remove}
use bhumi.Proto.Buffer.{Bytes}
use bhumi.Relay.Router.{
  Router, register, unregister, add_commits, handle_ack, check_cache, claim, add_pending,
  drop_pending, cleanup_cache, SendOutcome, claimed, refused, new,
}
use bhumi.Relay.Router.Cache.{handle_ack_caches}
use bhumi.Relay.Router.Commits.{
  Event, registers, unregisters, adds, acks, checks, claims, pends, drops, cleans, apply,
}

pub record System : Type 0 where
  pub router : Router
  pub log : List (ℕ × Bytes)
  pub flights : List (ℕ × Bytes)

-- Every critical section but those of a task that routes a message of its own.
abbrev pub IsQuiet : Event → Type 0
IsQuiet (claims _ _ _) = ⊥
IsQuiet (pends _ _ _) = ⊥
IsQuiet _ = Unit {0}

-- One critical section of some task, as long as the counter of ids does not wrap to 0.
pub data Step (sha256 : Bytes → Bytes) (s : System) : System → Type 0 where
  quiet : (e : Event) → IsQuiet e → Step sha256 s (record s { router = apply sha256 e s.router })
  refuses :
      (is_closed : ℕ → Bool) (to_id52 preimage : Bytes) {r : Router} {outcome : SendOutcome}
      → claim sha256 is_closed to_id52 preimage s.router ≡ (r, refused outcome)
      → Step sha256 s (record s { router = r })
  hands_out :
      (is_closed : ℕ → Bool) (to_id52 preimage : Bytes) {r : Router} {msg_id sender : ℕ}
      → claim sha256 is_closed to_id52 preimage s.router ≡ (r, claimed msg_id sender)
      → s.router.next_msg_id + 1 < 2 ^ 32
      → Step sha256 s (record {
        router = r;
        log = Map.insert msg_id preimage s.log;
        flights = Map.insert msg_id preimage s.flights;
      })
  files :
      (msg_id : ℕ) (preimage : Bytes) (tx : ℕ)
      → Map.lookup msg_id s.flights ≡ some preimage
      → Step sha256 s (record s {
        router = add_pending msg_id preimage tx s.router;
        flights = Map.remove msg_id s.flights;
      })

pub data Reach (sha256 : Bytes → Bytes) (s : System) : System → Type 0 where
  here : Reach sha256 s s
  next : {t u : System} → Reach sha256 s t → Step sha256 t u → Reach sha256 s u

abbrev pub start : System
unfolding new
start = record { router = new; log = []; flights = [] }

-- Ids in use are in the log, with the preimage that waits under them; ids in the log are below the
-- next one; and an id is not registered before its task does it.
pub record Inv (s : System) : Type 0 where
  pub logged :
      (id : ℕ) (p : Bytes) (tx : ℕ)
      → Map.lookup id s.router.pending ≡ some (p, tx)
      → Map.lookup id s.log ≡ some p
  pub flying :
      (id : ℕ) (p : Bytes)
      → Map.lookup id s.flights ≡ some p
      → (Map.lookup id s.log ≡ some p) × (Map.lookup id s.router.pending ≡ none)
  pub below : (id : ℕ) (p : Bytes) → Map.lookup id s.log ≡ some p → id < s.router.next_msg_id

-- A step that does not register an id only loses entries that wait.
abbrev Loses : Router → Router → Type 0
Loses r q =
    (q.next_msg_id ≡ r.next_msg_id)
    × ((id : ℕ)
        → (Map.lookup id q.pending ≡ Map.lookup id r.pending) ⊎ (Map.lookup id q.pending ≡ none))

Loses-same : (r q : Router) → q.next_msg_id ≡ r.next_msg_id → q.pending ≡ r.pending → Loses r q
Loses-same r q n p = (n, λ id. inl (rw p))

Loses-remove :
    (r q : Router) (k : ℕ)
    → q.next_msg_id ≡ r.next_msg_id
    → q.pending ≡ Map.remove k r.pending
    → Loses r q
Loses-remove r q k n p = (n, λ id. ground (arith, p, lookup-remove k id r.pending))

Loses-quiet :
    (sha256 : Bytes → Bytes) (e : Event) (r : Router) → IsQuiet e → Loses r (apply sha256 e r)
unfolding apply register unregister add_commits handle_ack check_cache drop_pending cleanup_cache
Loses-quiet sha256 (registers now id52 commits rs sender) r q =
    Loses-same r (register now id52 commits rs sender r) refl refl
Loses-quiet sha256 (unregisters id52) r q = Loses-same r (unregister id52 r) refl refl
Loses-quiet sha256 (adds id52 commits) r q =
    Loses-same r (add_commits id52 commits r) (ground arith) (ground arith)
Loses-quiet sha256 (acks now msg_id response) r q =
    Loses-remove r (handle_ack now msg_id response r).0 msg_id (ground arith) (ground arith)
Loses-quiet sha256 (checks now preimage) r q =
    Loses-same r (check_cache now preimage r).0 (ground arith) (ground arith)
Loses-quiet sha256 (claims is_closed to_id52 preimage) r q = elim q [ ]
Loses-quiet sha256 (pends msg_id preimage tx) r q = elim q [ ]
Loses-quiet sha256 (drops msg_id) r q = Loses-remove r (drop_pending msg_id r) msg_id refl refl
Loses-quiet sha256 (cleans now) r q = Loses-same r (cleanup_cache now r) refl refl

claim_refused :
    (sha256 : Bytes → Bytes) (is_closed : ℕ → Bool) (to_id52 preimage : Bytes) (r q : Router)
    (outcome : SendOutcome)
    → claim sha256 is_closed to_id52 preimage r ≡ (q, refused outcome)
    → Loses r q
unfolding claim
claim_refused sha256 is_closed to_id52 preimage r q outcome e =
    Loses-same r q (ground arith) (ground arith)

claim_claimed :
    (sha256 : Bytes → Bytes) (is_closed : ℕ → Bool) (to_id52 preimage : Bytes) (r q : Router)
    (msg_id sender : ℕ)
    → claim sha256 is_closed to_id52 preimage r ≡ (q, claimed msg_id sender)
    → (msg_id ≡ r.next_msg_id)
      × (q.next_msg_id ≡ (r.next_msg_id + 1) % 2 ^ 32)
      × (q.pending ≡ r.pending)
unfolding claim
claim_claimed sha256 is_closed to_id52 preimage r q msg_id sender e = ground arith

Inv-Loses : (s : System) (q : Router) → Loses s.router q → Inv s → Inv (record s { router = q })
Inv-Loses s q (n, loses) v = record {
  logged = λ id p tx e. ground (arith, loses id, v.logged id p tx);
  flying = λ id p e. ground (arith, loses id, v.flying id p);
  below = λ id p e. ground (arith, n, v.below id p);
}

Inv-claimed :
    (s : System) (q : Router) (preimage : Bytes) (msg_id : ℕ)
    → msg_id ≡ s.router.next_msg_id
    → q.next_msg_id ≡ (s.router.next_msg_id + 1) % 2 ^ 32
    → q.pending ≡ s.router.pending
    → s.router.next_msg_id + 1 < 2 ^ 32
    → Inv s
    → Inv (record {
      router = q;
      log = Map.insert msg_id preimage s.log;
      flights = Map.insert msg_id preimage s.flights;
    })
Inv-claimed s q preimage msg_id e n p h v = record {
  logged = λ id p' tx l. ground (
    arith,
    p,
    v.logged id p' tx,
    v.below id p',
    nat_eq_iff msg_id id,
    lookup-insert msg_id id preimage s.log,
  );
  flying = λ id p' l. ground (
    arith,
    p,
    v.flying id p',
    v.below id p',
    fresh id,
    nat_eq_iff msg_id id,
    lookup-insert msg_id id preimage s.log,
    lookup-insert msg_id id preimage s.flights,
  );
  below = λ id p' l.
      ground (arith, v.below id p', nat_eq_iff msg_id id, lookup-insert msg_id id preimage s.log);
}
  where
    fresh : (id : ℕ) → msg_id ≡ id → Map.lookup id s.router.pending ≡ none
    fresh id k = elim (Option-cases (Map.lookup id s.router.pending)) [
      | inl o ↦ o
      | inr ((p', tx), o) ↦ absurd (omega (arith, v.below id p' (v.logged id p' tx o)))
    ]

Inv-filed :
    (s : System) (preimage : Bytes) (msg_id tx : ℕ)
    → Map.lookup msg_id s.flights ≡ some preimage
    → Inv s
    → Inv (record s {
      router = add_pending msg_id preimage tx s.router;
      flights = Map.remove msg_id s.flights;
    })
unfolding add_pending
Inv-filed s preimage msg_id tx e v = record {
  logged = λ id p tx' l. ground (
    arith,
    v.logged id p tx',
    v.flying msg_id preimage e,
    nat_eq_iff msg_id id,
    lookup-insert msg_id id (preimage, tx) s.router.pending,
  );
  flying = λ id p l. ground (
    arith,
    v.flying id p,
    nat_eq_iff msg_id id,
    lookup-remove msg_id id s.flights,
    lookup-insert msg_id id (preimage, tx) s.router.pending,
  );
  below = λ id p l. v.below id p l;
}

Step-Inv : {sha256 : Bytes → Bytes} {s t : System} → Step sha256 s t → Inv s → Inv t
Step-Inv {s} (quiet e q) v = Inv-Loses s _ (Loses-quiet _ e s.router q) v
Step-Inv {s} (refuses is_closed to_id52 preimage e) v =
    Inv-Loses s _ (claim_refused _ is_closed to_id52 preimage s.router _ _ e) v
Step-Inv {s} (hands_out is_closed to_id52 preimage e h) v =
    let (i, n, p) = claim_claimed _ is_closed to_id52 preimage s.router _ _ _ e in
    Inv-claimed s _ preimage _ i n p h v
Step-Inv {s} (files msg_id preimage tx e) v = Inv-filed s preimage msg_id tx e v

start-Inv : Inv start
unfolding new Map.lookup
start-Inv = record { logged = λ id p tx e. cc; flying = λ id p e. cc; below = λ id p e. cc }

pub Reach-Inv : {sha256 : Bytes → Bytes} {t : System} → Reach sha256 start t → Inv t
Reach-Inv here = start-Inv
Reach-Inv (next r st) = Step-Inv st (Reach-Inv r)

-- The log is never rewritten: an id is handed out once.
log-Step :
    {sha256 : Bytes → Bytes} {s t : System} (id : ℕ) (p : Bytes)
    → Step sha256 s t
    → Inv s
    → Map.lookup id s.log ≡ some p
    → Map.lookup id t.log ≡ some p
log-Step id p (quiet e q) v l = l
log-Step id p (refuses is_closed to_id52 preimage e) v l = l
log-Step {s} id p (hands_out is_closed to_id52 preimage {msg_id = k} e h) v l = ground (
  arith,
  claim_claimed _ is_closed to_id52 preimage s.router _ _ _ e,
  v.below id p,
  nat_eq_iff k id,
  lookup-insert k id preimage s.log,
)
log-Step id p (files msg_id preimage tx e) v l = l

log-Reach :
    {sha256 : Bytes → Bytes} {s t : System} (id : ℕ) (p : Bytes)
    → Reach sha256 start s
    → Reach sha256 s t
    → Map.lookup id s.log ≡ some p
    → Reach sha256 start t × (Map.lookup id t.log ≡ some p)
log-Reach id p r here l = (r, l)
log-Reach id p r (next q st) l =
    let (r', l') = log-Reach id p r q l in (next r' st, log-Step id p st (Reach-Inv r') l')

-- Until its u32 counter of ids wraps, the relay does not mix up two messages. Let a claim hand out an
-- id for a preimage, in a state that the relay can reach while each id handed out, this one as well,
-- is below 2^32 - 1. However the tasks are interleaved from then on, up to the same limit, an entry
-- that waits under this id waits for this preimage; so `handle_ack` for the id caches the response
-- under it.
pub pending-claim :
    {sha256 : Bytes → Bytes} {s t : System} (is_closed : ℕ → Bool) (to_id52 preimage : Bytes)
    (r : Router) (msg_id sender : ℕ) (p : Bytes) (tx now : ℕ) (response : Bytes)
    → Reach sha256 start s
    → claim sha256 is_closed to_id52 preimage s.router ≡ (r, claimed msg_id sender)
    → s.router.next_msg_id + 1 < 2 ^ 32
    → Reach sha256
        (record {
          router = r;
          log = Map.insert msg_id preimage s.log;
          flights = Map.insert msg_id preimage s.flights;
        })
        t
    → Map.lookup msg_id t.router.pending ≡ some (p, tx)
    → (p ≡ preimage)
      × (Map.lookup preimage (handle_ack now msg_id response t.router).0.response_cache
          ≡ some (record { response = response; expires_at = now + t.router.cache_ttl }))
pending-claim {s} {t} is_closed to_id52 preimage r msg_id sender p tx now response reach e h later
      w =
    let (reach', l) =
      log-Reach msg_id preimage (next reach (hands_out is_closed to_id52 preimage e h)) later
        (ground (arith, lookup-insert msg_id msg_id preimage s.log, nat_eq_iff msg_id msg_id)) in
    let same : p ≡ preimage = ground (arith, (Reach-Inv reach').logged msg_id p tx w) in
    (same, (handle_ack_caches now msg_id response preimage tx t.router (rw same at w)).0)
