-- ===== src/Relay/Router.antt =====
-- The router of bhumi-relay/src/router.rs. Each critical section of an asynchronous method, from
-- taking a lock to giving it back, is a function on the state; `route_message` puts them together.
-- A channel is a number. Time is a number of milliseconds, given to each call that reads the clock.
pub mod Commits
pub mod Ledger
pub mod Cache
pub mod Ids
pub mod Route
use bhumi.Base.{
  ℕ, ◌+◌, ◌*◌, ◌%◌, ◌^◌, List, [], ◌∷◌, Bool, Option, none, some, ltb, if◌then◌else◌, nat_has_eq,
  bytes_has_eq,
}
use bhumi.Base.Map
use bhumi.Base.Set
use bhumi.Proto.Buffer.{Bytes}
use bhumi.Proto.SendResult.{
  send_ok, send_err_not_connected, send_err_invalid_preimage, send_err_timeout,
  send_err_disconnected,
}

pub record PendingDelivery : Type 0 where
  pub msg_id : ℕ
  pub preimage : Bytes
  pub payload : Bytes

pub record CachedResponse : Type 0 where
  pub response : Bytes
  pub expires_at : ℕ

-- `sender` is the channel to the device's session.
pub record DeviceState : Type 0 where
  pub commits : List Bytes
  pub sender : ℕ

pub record SendOutcome : Type 0 where
  pub status : ℕ
  pub payload : Bytes

-- `pending` holds the preimage and the channel on which the sender waits.
pub record Router : Type 0 where
  pub devices : List (Bytes × DeviceState)
  pub response_cache : List (Bytes × CachedResponse)
  pub pending : List (ℕ × (Bytes × ℕ))
  pub next_msg_id : ℕ
  pub cache_ttl : ℕ

unfoldable pub new : Router
new = record {
  devices = [];
  response_cache = [];
  pending = [];
  next_msg_id = 1;
  cache_ttl = 300 * 1000;
}

-- The loop of `register` over the recent responses.
unfoldable pub load_cache :
    ℕ → List (Bytes × Bytes) → List (Bytes × CachedResponse) → List (Bytes × CachedResponse)
load_cache expires_at [] cache = cache
load_cache expires_at ((preimage, response) ∷ rs) cache =
    load_cache expires_at rs
      (Map.insert preimage (record { response = response; expires_at = expires_at }) cache)

unfoldable pub register : ℕ → Bytes → List Bytes → List (Bytes × Bytes) → ℕ → Router → Router
unfolding load_cache
register now id52 commits recent_responses sender r = record r {
  devices = Map.insert id52 (record { commits = Set.collect commits; sender = sender }) r.devices;
  response_cache = load_cache (now + r.cache_ttl) recent_responses r.response_cache;
}

unfoldable pub unregister : Bytes → Router → Router
unregister id52 r = record r { devices = Map.remove id52 r.devices }

unfoldable pub add_commits : Bytes → List Bytes → Router → Router
add_commits id52 commits r = elim (Map.lookup id52 r.devices) [
  | none ↦ r
  | some device ↦ record r {
    devices =
        Map.insert id52 (record device { commits = Set.extend commits device.commits }) r.devices;
  }
]

-- The response goes to the cache, and on the channel of the sender that waits, if there is one. The
-- two critical sections of the code, on the pending messages and then on the cache, are taken as one.
unfoldable pub handle_ack : ℕ → ℕ → Bytes → Router → Router × Option (ℕ × Bytes)
handle_ack now msg_id response r = elim (Map.lookup msg_id r.pending) [
  | none ↦ (record r { pending = Map.remove msg_id r.pending }, none)
  | some (preimage, tx) ↦ (
    record r {
      pending = Map.remove msg_id r.pending;
      response_cache =
          Map.insert preimage (record { response = response; expires_at = now + r.cache_ttl })
            r.response_cache;
    },
    some (tx, response),
  )
]

-- Step 1 of `route_message`: an entry for the preimage leaves the cache, and answers unless it is
-- out of date.
unfoldable pub check_cache : ℕ → Bytes → Router → Router × Option SendOutcome
check_cache now preimage r = elim (Map.lookup preimage r.response_cache) [
  | none ↦ (record r { response_cache = Map.remove preimage r.response_cache }, none)
  | some cached ↦ (
    record r { response_cache = Map.remove preimage r.response_cache },
    if ltb now cached.expires_at
        then some (record { status = send_ok; payload = cached.response })
        else none,
  )
]

abbrev pub refuse : ℕ → SendOutcome
refuse status = record { status = status; payload = [] }

-- How step 3 ends: with an answer at once, or with a message id and the device's channel.
pub data Claim : Type 0 where
  refused : SendOutcome → Claim
  claimed : ℕ → ℕ → Claim

-- The commit is there: it is used up, and the message gets its id. `u32` wraps.
unfoldable pub take_commit : Bytes → Bytes → DeviceState → Router → Router × Claim
take_commit to_id52 commit device r =
    if Set.contains commit device.commits
    then (
      record r {
        devices =
            Map.insert to_id52 (record device { commits = Set.remove commit device.commits })
              r.devices;
        next_msg_id = (r.next_msg_id + 1) % 2 ^ 32;
      },
      claimed r.next_msg_id device.sender,
    )
    else (r, refused (refuse send_err_invalid_preimage))

-- Steps 2 and 3: the commit of the preimage, and its check under the lock on the devices.
-- `is_closed` is what the channel says of itself at that moment.
unfoldable pub claim : (Bytes → Bytes) → (ℕ → Bool) → Bytes → Bytes → Router → Router × Claim
unfolding take_commit
claim sha256 is_closed to_id52 preimage r = elim (Map.lookup to_id52 r.devices) [
  | none ↦ (r, refused (refuse send_err_not_connected))
  | some device ↦
      if is_closed device.sender
      then (
        record r { devices = Map.remove to_id52 r.devices },
        refused (refuse send_err_not_connected),
      )
      else take_commit to_id52 (sha256 preimage) device r
]

-- Step 4: the message is registered before it is sent; if sending fails the entry goes again.
unfoldable pub add_pending : ℕ → Bytes → ℕ → Router → Router
add_pending msg_id preimage tx r = record r { pending = Map.insert msg_id (preimage, tx) r.pending }

unfoldable pub drop_pending : ℕ → Router → Router
drop_pending msg_id r = record r { pending = Map.remove msg_id r.pending }

-- Step 5: how the wait of 30 seconds for the response ends.
pub data Wait : Type 0 where
  responded : Bytes → Wait
  closed : Wait
  timed_out : Wait

unfoldable pub settle : Wait → SendOutcome
settle (responded response) = record { status = send_ok; payload = response }
settle closed = refuse send_err_disconnected
settle timed_out = refuse send_err_timeout

-- What the rest of the relay does while a message is routed: whether a channel is closed, whether
-- it takes the delivery, what happens to the state during the wait, and how the wait ends.
pub record Env : Type 0 where
  pub now : ℕ
  pub is_closed : ℕ → Bool
  pub accepts : Bool
  pub tx : ℕ
  pub meanwhile : Router → Router
  pub wait : Wait

-- The new state, the outcome for the sender, and the delivery that was queued, with its channel.
abbrev pub Routed : Type 0
Routed = Router × SendOutcome × Option (ℕ × PendingDelivery)

unfoldable pub dispatch : Env → Bytes → Bytes → Router × Claim → Routed
unfolding add_pending drop_pending settle
dispatch env preimage payload (r, refused outcome) = (r, outcome, none)
dispatch env preimage payload (r, claimed msg_id sender) =
    let delivery : PendingDelivery = record {
      msg_id = msg_id;
      preimage = preimage;
      payload = payload;
    } in
    let r' = add_pending msg_id preimage env.tx r in
    if env.accepts
    then (env.meanwhile r', settle env.wait, some (sender, delivery))
    else (drop_pending msg_id r', refuse send_err_disconnected, none)

unfoldable pub finish :
    (Bytes → Bytes) → Env → Bytes → Bytes → Bytes → Router × Option SendOutcome → Routed
unfolding claim dispatch
finish sha256 env to_id52 preimage payload (r, some outcome) = (r, outcome, none)
finish sha256 env to_id52 preimage payload (r, none) =
    dispatch env preimage payload (claim sha256 env.is_closed to_id52 preimage r)

unfoldable pub route_message : (Bytes → Bytes) → Env → Bytes → Bytes → Bytes → Router → Routed
unfolding check_cache finish
route_message sha256 env to_id52 preimage payload r =
    finish sha256 env to_id52 preimage payload (check_cache env.now preimage r)

unfoldable pub retain_fresh : ℕ → List (Bytes × CachedResponse) → List (Bytes × CachedResponse)
retain_fresh now [] = []
retain_fresh now ((k, v) ∷ m) =
    let rest = retain_fresh now m in if ltb now v.expires_at then (k, v) ∷ rest else rest

unfoldable pub cleanup_cache : ℕ → Router → Router
unfolding retain_fresh
cleanup_cache now r = record r { response_cache = retain_fresh now r.response_cache }
