-- ===== src/Relay/Router/Route.antt =====
-- `Router::route_message` of bhumi-relay/src/router.rs as a whole.
use bhumi.Base.{
  ℕ, ◌+◌, ◌%◌, ◌^◌, ◌≤◌, ◌≡◌, ◌≢◌, refl, ap, ◌∙◌, [], Bool, true, false, Option, none, some,
  bytes_has_eq, arith, inl, inr, Option-cases, Bool-cases,
}
use bhumi.Base.Map
use bhumi.Base.Set
use bhumi.Proto.Buffer.{Bytes}
use bhumi.Proto.SendResult.{send_ok}
use bhumi.Relay.Router.{
  Router, DeviceState, Env, Wait, responded, closed, timed_out, SendOutcome, PendingDelivery, Claim,
  claimed, refused, check_cache, claim, take_commit, finish, dispatch, settle, route_message,
}
use bhumi.Relay.Router.Commits.{devices-check_cache}

-- An outcome that a sender can be told: the status is one of the five, and there is a payload only
-- with success.
abbrev pub IsOutcome : SendOutcome → Type 0
IsOutcome o = (o.status ≤ 4) × (o.status ≢ send_ok → o.payload ≡ [])

claim-IsOutcome :
    (sha256 : Bytes → Bytes) (is_closed : ℕ → Bool) (to_id52 preimage : Bytes) (r : Router)
    (o : SendOutcome)
    → (claim sha256 is_closed to_id52 preimage r).1 ≡ refused o
    → IsOutcome o
unfolding claim
claim-IsOutcome sha256 is_closed to_id52 preimage r o e = (ground arith, λ n. ground arith)

settle-IsOutcome : (w : Wait) → IsOutcome (settle w)
unfolding settle
settle-IsOutcome (responded response) = (omega arith, λ n. absurd (n refl))
settle-IsOutcome closed = (omega arith, λ n. refl)
settle-IsOutcome timed_out = (omega arith, λ n. refl)

check_cache-IsOutcome :
    (now : ℕ) (preimage : Bytes) (r : Router) (o : SendOutcome)
    → (check_cache now preimage r).1 ≡ some o
    → IsOutcome o
unfolding check_cache
check_cache-IsOutcome now preimage r o e = (ground arith, λ n. ground arith)

dispatch-IsOutcome :
    (env : Env) (preimage payload : Bytes) (r : Router) (c : Claim)
    → ((o : SendOutcome) → c ≡ refused o → IsOutcome o)
    → IsOutcome (dispatch env preimage payload (r, c)).1
unfolding dispatch
dispatch-IsOutcome env preimage payload r (refused o) h = h o refl
dispatch-IsOutcome env preimage payload r (claimed msg_id sender) h =
    elim (Bool-cases env.accepts) [
      | inl e ↦ rw e (settle-IsOutcome env.wait)
      | inr e ↦ rw e (omega arith, λ n. refl)
    ]

finish-IsOutcome :
    (sha256 : Bytes → Bytes) (env : Env) (to_id52 preimage payload : Bytes) (r : Router)
    (cached : Option SendOutcome)
    → ((o : SendOutcome) → cached ≡ some o → IsOutcome o)
    → IsOutcome (finish sha256 env to_id52 preimage payload (r, cached)).1
unfolding finish
finish-IsOutcome sha256 env to_id52 preimage payload r (some o) h = h o refl
finish-IsOutcome sha256 env to_id52 preimage payload r none h =
    dispatch-IsOutcome env preimage payload (claim sha256 env.is_closed to_id52 preimage r).0
      (claim sha256 env.is_closed to_id52 preimage r).1
      (claim-IsOutcome sha256 env.is_closed to_id52 preimage r)

-- On every path `route_message` ends with one of the five statuses, and with an empty payload unless
-- the status is success.
pub route_message-IsOutcome :
    (sha256 : Bytes → Bytes) (env : Env) (to_id52 preimage payload : Bytes) (r : Router)
    → IsOutcome (route_message sha256 env to_id52 preimage payload r).1
unfolding route_message
route_message-IsOutcome sha256 env to_id52 preimage payload r =
    finish-IsOutcome sha256 env to_id52 preimage payload _ _
      (check_cache-IsOutcome env.now preimage r)

-- Who is sent a message: a device that is registered, whose channel is open, and that registered the
-- commit of the preimage; and the id is counted up.
claim_to :
    (sha256 : Bytes → Bytes) (is_closed : ℕ → Bool) (to_id52 preimage : Bytes) (r : Router)
    (msg_id sender : ℕ)
    → (claim sha256 is_closed to_id52 preimage r).1 ≡ claimed msg_id sender
    → (d : DeviceState) × (Map.lookup to_id52 r.devices ≡ some d)
      × (sender ≡ d.sender)
      × (is_closed sender ≡ false)
      × (Set.contains (sha256 preimage) d.commits ≡ true)
      × (msg_id ≡ r.next_msg_id)
      × ((claim sha256 is_closed to_id52 preimage r).0.next_msg_id ≡ (r.next_msg_id + 1) % 2 ^ 32)
unfolding claim take_commit
claim_to sha256 is_closed to_id52 preimage r msg_id sender e =
    elim (Option-cases (Map.lookup to_id52 r.devices)) [
      | inl l ↦ ground (arith, l)
      | inr (d, l) ↦ (
        d,
        l,
        ground (arith, l),
        ground (arith, l),
        ground (arith, l),
        ground (arith, l),
        ground (arith, l),
      )
    ]

dispatch_delivers :
    (env : Env) (preimage payload : Bytes) (r : Router) (c : Claim) (ch : ℕ) (m : PendingDelivery)
    → (dispatch env preimage payload (r, c)).2 ≡ some (ch, m)
    → (c ≡ claimed m.msg_id ch) × (m.preimage ≡ preimage) × (m.payload ≡ payload)
unfolding dispatch
dispatch_delivers env preimage payload r (refused o) ch m e = cc
dispatch_delivers env preimage payload r (claimed msg_id sender) ch m e = ground arith

next_msg_id-check_cache :
    (now : ℕ) (preimage : Bytes) (r : Router)
    → (check_cache now preimage r).0.next_msg_id ≡ r.next_msg_id
unfolding check_cache
next_msg_id-check_cache now preimage r = ground arith

finish_delivers :
    (sha256 : Bytes → Bytes) (env : Env) (to_id52 preimage payload : Bytes) (r : Router)
    (cached : Option SendOutcome) (ch : ℕ) (m : PendingDelivery)
    → (finish sha256 env to_id52 preimage payload (r, cached)).2 ≡ some (ch, m)
    → ((claim sha256 env.is_closed to_id52 preimage r).1 ≡ claimed m.msg_id ch)
      × (m.preimage ≡ preimage)
      × (m.payload ≡ payload)
unfolding finish
finish_delivers sha256 env to_id52 preimage payload r (some o) ch m e = cc
finish_delivers sha256 env to_id52 preimage payload r none ch m e =
    let (r', c) = claim sha256 env.is_closed to_id52 preimage r in
    dispatch_delivers env preimage payload r' c ch m e

-- A message is delivered only to a registered device whose channel is open and which holds the
-- commit of the preimage. The delivery goes to that device's channel. It carries the sender's preimage
-- and payload, and as its id the router's next one; and the claim that hands this id out, in the
-- state that the cache's check leaves, counts the router's next id up by one, as a u32.
pub route_message_delivers :
    (sha256 : Bytes → Bytes) (env : Env) (to_id52 preimage payload : Bytes) (r : Router) (ch : ℕ)
    (m : PendingDelivery)
    → (route_message sha256 env to_id52 preimage payload r).2 ≡ some (ch, m)
    → (d : DeviceState) × (Map.lookup to_id52 r.devices ≡ some d)
      × (ch ≡ d.sender)
      × (env.is_closed ch ≡ false)
      × (Set.contains (sha256 preimage) d.commits ≡ true)
      × (m.msg_id ≡ r.next_msg_id)
      × (m.preimage ≡ preimage)
      × (m.payload ≡ payload)
      × ((claim sha256 env.is_closed to_id52 preimage
            (check_cache env.now preimage r).0).0.next_msg_id
          ≡ (r.next_msg_id + 1) % 2 ^ 32)
unfolding route_message
route_message_delivers sha256 env to_id52 preimage payload r ch m e =
    let (r', cached) = check_cache env.now preimage r in
    let (took, same_preimage, same_payload) =
      finish_delivers sha256 env to_id52 preimage payload r' cached ch m e in
    let (d, l, s, alive, held, id, counted) =
      claim_to sha256 env.is_closed to_id52 preimage r' m.msg_id ch took in
    (
      d,
      rw (devices-check_cache env.now preimage r) at l,
      s,
      alive,
      held,
      id ∙ next_msg_id-check_cache env.now preimage r,
      same_preimage,
      same_payload,
      counted ∙ ap (λ k. (k + 1) % 2 ^ 32) (next_msg_id-check_cache env.now preimage r),
    )
