-- ===== src/Relay/Tests.antt =====
-- The properties of bhumi-relay/src at a relay with one device.
use bhumi.Base.{
  ◌%◌, ◌+◌, ◌^◌, ℕ, ◌+◌, ◌*◌, ◌≡◌, ◌≢◌, refl, List, [], ◌∷◌, ◌++◌, Bool, true, false, none, some,
  arith, ok, err, unexpected_eof, bytes_eq, bytes_has_eq, nat_has_eq,
}
use bhumi.Base.Map
use bhumi.Base.Set
use bhumi.Proto.Buffer.{Bytes}
use bhumi.Proto.IAm
use bhumi.Proto.IAm.{IAm}
use bhumi.Proto.SendResult.{send_ok}
use bhumi.Proto.Tests.{fill, i_am', i_am-IsValid}
use bhumi.Relay.Router
use bhumi.Relay.Router.{
  Router, DeviceState, PendingDelivery, CachedResponse, Env, timed_out, claimed, claim, take_commit,
  route_message, check_cache, cleanup_cache, retain_fresh, handle_ack, add_pending, register,
  load_cache, finish, dispatch, settle,
}
use bhumi.Relay.Router.Commits.{
  Event, registers, cleans, checks, claims, apply, run, issued, issues, claim-once,
}
use bhumi.Relay.Router.Ledger.{view, enter, enter_all, answer, answer_of}
use bhumi.Relay.Router.Ledger.Refines.{claim-answer}
use bhumi.Relay.Router.Cache.{route_message-handle_ack, check_cache-cleanup_cache}
use bhumi.Relay.Router.Ids.{System, quiet, files, here, next, start, pending-claim}
use bhumi.Relay.Router.Route.{IsOutcome, route_message-IsOutcome, route_message_delivers}
use bhumi.Relay.Session
use bhumi.Relay.Session.{
  Context, World, Input, incoming, outgoing, running, failed, returned, greet, run_loop,
  handle_frame, frame_i_am, handle_i_am, send_delivery, unregister_old,
}
use bhumi.Relay.Session.Loop.{run-ne-returned, run-disconnect}
use bhumi.Relay.Session.Auth.{IsSigned, handle_frame-IsSigned}

abbrev pub hash : Bytes → Bytes
hash b = 0 ∷ b

abbrev still_open : ℕ → Bool
still_open n = false

abbrev id : Bytes
id = 1 ∷ []

abbrev preimage : Bytes
preimage = 5 ∷ []

abbrev device : DeviceState
device = record { commits = hash preimage ∷ []; sender = 3 }

abbrev pub router : Router
router = record {
  devices = (id, device) ∷ [];
  response_cache = (6 ∷ [], record { response = []; expires_at = 10 }) ∷ [];
  pending = (7, (preimage, 4)) ∷ [];
  next_msg_id = 8;
  cache_ttl = 300 * 1000;
}

abbrev pub env : Env
env = record {
  now = 20;
  is_closed = still_open;
  accepts = true;
  tx = 4;
  meanwhile = λ r. r;
  wait = timed_out;
}

abbrev events : List Event
events = cleans 5 ∷ registers 0 (2 ∷ []) (hash preimage ∷ []) [] 9 ∷ checks 6 preimage ∷ []

claim-once_example :
    (claim hash still_open id preimage
      (run hash events (claim hash still_open id preimage router).0)).1
    ≢ claimed 9 3
unfolding claim take_commit Map.lookup Set.contains bytes_eq issued issues
claim-once_example =
    claim-once hash still_open still_open id preimage router events 8 3 9 3 refl refl

route_message-handle_ack_example :
    let (r', outcome, delivery) =
      route_message hash env id preimage (1 ∷ []) (handle_ack 10 7 (2 ∷ []) router).0 in
    (outcome ≡ record { status = send_ok; payload = 2 ∷ [] })
    × (delivery ≡ none)
    × (r'.devices ≡ router.devices)
    × (Map.lookup preimage r'.response_cache ≡ none)
unfolding Map.lookup
route_message-handle_ack_example =
    route_message-handle_ack hash env id preimage (1 ∷ []) (2 ∷ []) 10 7 4 router refl (omega arith)

check_cache-cleanup_cache_example :
    (check_cache 12 (6 ∷ []) (cleanup_cache 11 router)).1 ≡ (check_cache 12 (6 ∷ []) router).1
unfolding Map.lookup
check_cache-cleanup_cache_example =
    check_cache-cleanup_cache 11 12 (6 ∷ []) router (refl, tt) (omega arith)

abbrev joined : System
joined = record start {
  router = apply hash (registers 0 id (hash preimage ∷ []) [] 3) start.router;
}

abbrev taken : Router
taken = record joined.router {
  devices = (id, record { commits = []; sender = 3 }) ∷ [];
  next_msg_id = 2;
}

abbrev filed : System
filed = record {
  router = add_pending 1 preimage 4 taken;
  log = Map.insert 1 preimage [];
  flights = Map.remove 1 (Map.insert 1 preimage []);
}

pending-claim_example :
    (preimage ≡ preimage)
    × (Map.lookup preimage (handle_ack 9 1 (2 ∷ []) filed.router).0.response_cache
        ≡ some (record { response = 2 ∷ []; expires_at = 9 + filed.router.cache_ttl }))
unfolding claim take_commit Map.lookup Map.insert Map.remove Set.contains Set.collect Set.extend
    Set.remove Set.insert bytes_eq apply register load_cache add_pending Router.new
pending-claim_example =
    pending-claim {sha256 = hash} {s = joined} {t = filed} still_open id preimage taken 1 3 preimage
      4 9 (2 ∷ []) (next here (quiet (registers 0 id (hash preimage ∷ []) [] 3) tt)) refl
      (omega arith) (next here (files 1 preimage 4 refl)) refl

route_message-IsOutcome_example : IsOutcome (route_message hash env id preimage (1 ∷ []) router).1
route_message-IsOutcome_example = route_message-IsOutcome hash env id preimage (1 ∷ []) router

abbrev delivery : PendingDelivery
delivery = record { msg_id = 8; preimage = preimage; payload = 1 ∷ [] }

route_message_delivers_example :
    (d : DeviceState) × (Map.lookup id router.devices ≡ some d)
    × (3 ≡ d.sender)
    × (env.is_closed 3 ≡ false)
    × (Set.contains (hash preimage) d.commits ≡ true)
    × (delivery.msg_id ≡ router.next_msg_id)
    × (delivery.preimage ≡ preimage)
    × (delivery.payload ≡ 1 ∷ [])
    × ((claim hash env.is_closed id preimage (check_cache env.now preimage router).0).0.next_msg_id
        ≡ (router.next_msg_id + 1) % 2 ^ 32)
unfolding route_message finish dispatch check_cache claim take_commit Map.lookup Set.contains
    bytes_eq
route_message_delivers_example =
    route_message_delivers hash env id preimage (1 ∷ []) router 3 delivery refl

abbrev pub context : Context
context = record {
  sha256 = hash;
  verifier = record { is_key = λ k. true; verify = λ k m s. true };
  env = env;
  sender = 3;
}

abbrev world : World
world = record { nonce = 7; id52 = none; router = router; written = [] }

run-ne-returned_example : (Session.run (outgoing delivery ∷ []) world).1 ≢ returned
run-ne-returned_example = run-ne-returned (outgoing delivery ∷ []) world

run-disconnect_example :
    Session.run (outgoing delivery ∷ incoming context (err unexpected_eof) ∷ []) world
    ≡ (send_delivery delivery (greet world), failed unexpected_eof)
unfolding Session.run run_loop
run-disconnect_example =
    run-disconnect (outgoing delivery ∷ []) world (send_delivery delivery (greet world)) context
      unexpected_eof refl

abbrev identified : World
identified = record world {
  id52 = some i_am'.id52;
  router = register 20 i_am'.id52 i_am'.commits ((fill 5 32, 6 ∷ 7 ∷ []) ∷ []) 3 router;
}

handle_frame-IsSigned_example :
    (i_am : IAm) × (IAm.from_bytes (IAm.to_bytes i_am' ++ 9 ∷ []) ≡ ok i_am)
    × IsSigned context world i_am
    × (identified.id52 ≡ some i_am.id52)
unfolding handle_frame frame_i_am handle_i_am unregister_old
handle_frame-IsSigned_example =
    handle_frame-IsSigned context (record { msg_type = 2; payload = IAm.to_bytes i_am' ++ 9 ∷ [] })
      world identified true (rw (IAm.i_am_from_bytes-to_bytes i_am' (9 ∷ []) i_am-IsValid) refl)
      (λ e. cc)

claim-answer_example :
    let l = enter_all hash events (view router) in
    let (r', c) = claim hash still_open id preimage (run hash events router) in
    (view (run hash events router) ≡ l)
    × (answer_of c ≡ answer still_open (hash preimage) (l id))
    × (view r' ≡ enter hash (claims still_open id preimage) l)
claim-answer_example = claim-answer hash events router still_open id preimage
