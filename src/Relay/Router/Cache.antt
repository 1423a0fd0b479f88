-- ===== src/Relay/Router/Cache.antt =====
-- The response cache of bhumi-relay/src/router.rs.
use bhumi.Base.{
  ℕ, ◌+◌, ◌≤◌, ◌<◌, ◌≡◌, refl, ◌∙◌, List, [], ◌∷◌, Option, none, some, ltb, if◌then◌else◌,
  nat_has_eq, bytes_has_eq, bytes_eq_iff, arith,
}
use bhumi.Base.Map
use bhumi.Base.Map.{lookup-insert, lookup-remove, IsUnique}
use bhumi.Proto.Buffer.{Bytes}
use bhumi.Proto.SendResult.{send_ok}
use bhumi.Relay.Router.{
  Router, CachedResponse, Env, SendOutcome, handle_ack, check_cache, finish, route_message,
  cleanup_cache, retain_fresh,
}

-- What `handle_ack` does when the message waits for its response.
pub handle_ack_caches :
    (now msg_id : ℕ) (response preimage : Bytes) (tx : ℕ) (r : Router)
    → Map.lookup msg_id r.pending ≡ some (preimage, tx)
    → let r' = (handle_ack now msg_id response r).0 in
      (Map.lookup preimage r'.response_cache
        ≡ some (record { response = response; expires_at = now + r.cache_ttl }))
      × (Map.lookup msg_id r'.pending ≡ none)
      × (r'.devices ≡ r.devices)
unfolding handle_ack
handle_ack_caches now msg_id response preimage tx r e =
    let entry : CachedResponse = record { response = response; expires_at = now + r.cache_ttl } in
    ground (
      arith,
      e,
      lookup-insert preimage preimage entry r.response_cache,
      lookup-remove msg_id msg_id r.pending,
      bytes_eq_iff preimage preimage,
    )

check_cache_hit :
    (now : ℕ) (preimage : Bytes) (c : CachedResponse) (r : Router)
    → Map.lookup preimage r.response_cache ≡ some c
    → now < c.expires_at
    → (check_cache now preimage r).1 ≡ some (record { status = send_ok; payload = c.response })
unfolding check_cache
check_cache_hit now preimage c r e h = ground (arith, e)

-- Whatever was there, the entry is gone afterwards.
check_cache-removes :
    (now : ℕ) (preimage : Bytes) (r : Router)
    → let r' = (check_cache now preimage r).0 in
      (Map.lookup preimage r'.response_cache ≡ none) × (r'.devices ≡ r.devices)
unfolding check_cache
check_cache-removes now preimage r =
    ground (arith, lookup-remove preimage preimage r.response_cache, bytes_eq_iff preimage preimage)

route_message_hit :
    (sha256 : Bytes → Bytes) (env : Env) (to_id52 preimage payload : Bytes) (r : Router)
    (o : SendOutcome)
    → (check_cache env.now preimage r).1 ≡ some o
    → route_message sha256 env to_id52 preimage payload r
      ≡ ((check_cache env.now preimage r).0, o, none)
unfolding route_message finish
route_message_hit sha256 env to_id52 preimage payload r o e = ground (arith, e)

-- A response is not lost with its sender. Once the recipient has acknowledged a message that was
-- pending, a SEND with the same preimage within the cache's time is answered with that response,
-- also where the first sender has timed out: nothing is delivered, no commit is used, and the
-- entry leaves the cache, so that the answer is given once.
pub route_message-handle_ack :
    (sha256 : Bytes → Bytes) (env : Env) (to_id52 preimage payload response : Bytes)
    (now msg_id tx : ℕ) (r : Router)
    → Map.lookup msg_id r.pending ≡ some (preimage, tx)
    → env.now < now + r.cache_ttl
    → let (r', outcome, delivery) =
        route_message sha256 env to_id52 preimage payload (handle_ack now msg_id response r).0 in
      (outcome ≡ record { status = send_ok; payload = response })
      × (delivery ≡ none)
      × (r'.devices ≡ r.devices)
      × (Map.lookup preimage r'.response_cache ≡ none)
route_message-handle_ack sha256 env to_id52 preimage payload response now msg_id tx r e h =
    let (cached, _, same) = handle_ack_caches now msg_id response preimage tx r e in
    let r1 = (handle_ack now msg_id response r).0 in
    let (gone, kept) = check_cache-removes env.now preimage r1 in
    rw
      (route_message_hit sha256 env to_id52 preimage payload r1 _ (
        check_cache_hit env.now preimage
          (record { response = response; expires_at = now + r.cache_ttl }) r1 cached h))
      (refl, refl, kept ∙ same, gone)

-- Cleaning up.
lookup-retain_fresh :
    (now : ℕ) (k : Bytes) (m : List (Bytes × CachedResponse))
    → Map.lookup k m ≡ none
    → Map.lookup k (retain_fresh now m) ≡ none
unfolding retain_fresh Map.lookup
lookup-retain_fresh now k [] e = refl
lookup-retain_fresh now k ((j, v) ∷ m) e = ground (arith, lookup-retain_fresh now k m)

-- What is left of an entry.
abbrev keep : ℕ → Option CachedResponse → Option CachedResponse
keep now none = none
keep now (some c) = if ltb now c.expires_at then some c else none

retain_fresh-keep :
    (now : ℕ) (k : Bytes) (m : List (Bytes × CachedResponse))
    → IsUnique m
    → Map.lookup k (retain_fresh now m) ≡ keep now (Map.lookup k m)
unfolding retain_fresh Map.lookup
retain_fresh-keep now k [] u = refl
retain_fresh-keep now k ((j, v) ∷ m) u =
    ground (arith, bytes_eq_iff j k, retain_fresh-keep now k m u.1, lookup-retain_fresh now j m u.0)

-- Cleaning up the cache changes no answer: at any later time a lookup gives what it would have
-- given without.
pub check_cache-cleanup_cache :
    (now later : ℕ) (preimage : Bytes) (r : Router)
    → IsUnique r.response_cache
    → now ≤ later
    → (check_cache later preimage (cleanup_cache now r)).1 ≡ (check_cache later preimage r).1
unfolding check_cache cleanup_cache
check_cache-cleanup_cache now later preimage r u h =
    ground (arith, retain_fresh-keep now preimage r.response_cache u)
