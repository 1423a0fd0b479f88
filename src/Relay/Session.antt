-- ===== src/Relay/Session.antt =====
-- A device's session, bhumi-relay/src/session.rs. A world is the session, the router that it shares
-- with the others, and the bytes written to its stream; writes succeed. Every error leaves a handler
-- before it has changed anything, so that an error comes with no new world.
pub mod Auth
pub mod Loop
use bhumi.Base.{
  ℕ, ◌+◌, ◌*◌, List, [], ◌∷◌, ◌++◌, Bool, true, false, not, Option, none, some, map, if◌then◌else◌,
  nat_eq, Result, ok, err, panic, ◌>>=◌, IoError, invalid_data, permission_denied, concat,
}
use bhumi.Proto.Buffer.{Bytes, be32}
use bhumi.Proto.Hello
use bhumi.Proto.IAm
use bhumi.Proto.IAm.{IAm}
use bhumi.Proto.Responses.{RecentResponse}
use bhumi.Proto.Send
use bhumi.Proto.Send.{Send}
use bhumi.Proto.Ack
use bhumi.Proto.Ack.{Ack}
use bhumi.Proto.Deliver.{Deliver}
use bhumi.Proto.SendResult.{SendResult}
use bhumi.Proto.UpdateCommits
use bhumi.Proto.UpdateCommits.{UpdateCommits}
use bhumi.Proto.Frame
use bhumi.Proto.Frame.{Frame, write_frame, msg_i_am, msg_send, msg_ack, msg_update_commits}
use bhumi.Relay.Router.{
  Router, PendingDelivery, Env, register, unregister, add_commits, handle_ack, route_message,
}

-- The checks of the ed25519 library: which 32 bytes are a key, and whether a signature of a message
-- is good for a key. Any 64 bytes are read as a signature.
pub record Verifier : Type 0 where
  pub is_key : Bytes → Bool
  pub verify : Bytes → Bytes → Bytes → Bool

-- What a session uses from outside: the hash, the checks, and the rest of the relay.
pub record Context : Type 0 where
  pub sha256 : Bytes → Bytes
  pub verifier : Verifier
  pub env : Env
  pub sender : ℕ

pub record World : Type 0 where
  pub nonce : ℕ
  pub id52 : Option Bytes
  pub router : Router
  pub written : Bytes

unfoldable pub new : ℕ → Router → World
new nonce router = record { nonce = nonce; id52 = none; router = router; written = [] }

-- The greeting at the start of `run`.
unfoldable pub greet : World → World
greet w = record w { written = write_frame w.written (Frame.hello (Hello.new w.nonce (64 * 1024))) }

unfoldable pub unregister_old : Option Bytes → Router → Router
unregister_old none r = r
unregister_old (some old_id52) r = unregister old_id52 r

unfoldable pub handle_i_am : Context → IAm → World → Result World
unfolding unregister_old
handle_i_am c i_am w =
    let msg = concat (be32 w.nonce ∷ i_am.id52 ∷ []) in
    if not (c.verifier.is_key i_am.id52)
    then err (invalid_data "invalid id52")
    else if not (c.verifier.verify i_am.id52 msg i_am.signature)
    then err (permission_denied "signature verification failed")
    else ok (record w {
      id52 = some i_am.id52;
      router =
          register c.env.now i_am.id52 i_am.commits
            (map (λ (p : RecentResponse). (p.preimage, p.response)) i_am.recent_responses) c.sender
            (unregister_old w.id52 w.router);
    })

unfoldable pub handle_send : Context → Send → World → Result World
handle_send c m w =
    let (router, outcome, _) =
      route_message c.sha256 c.env m.to_id52 m.preimage m.payload w.router in
    let result : SendResult = record { status = outcome.status; payload = outcome.payload } in
    ok (record w { router = router; written = write_frame w.written (Frame.send_result result) })

unfoldable pub handle_ack_frame : Context → Ack → World → Result World
handle_ack_frame c m w =
    ok (record w { router = (handle_ack c.env.now m.msg_id m.payload w.router).0 })

unfoldable pub add_own_commits : Option Bytes → List Bytes → Router → Router
add_own_commits none commits r = r
add_own_commits (some id52) commits r = add_commits id52 commits r

unfoldable pub handle_update_commits : Context → UpdateCommits → World → Result World
unfolding add_own_commits
handle_update_commits c m w = ok (record w { router = add_own_commits w.id52 m.commits w.router })

-- The four arms of `handle_frame`: the message is parsed, and handled.
unfoldable pub frame_i_am : Context → Bytes → World → Result (World × Bool)
unfolding handle_i_am
frame_i_am c payload w = do i_am ← IAm.from_bytes payload; w' ← handle_i_am c i_am w; ok (w', true)

unfoldable pub frame_send : Context → Bytes → World → Result (World × Bool)
unfolding handle_send
frame_send c payload w = do m ← Send.from_bytes payload; w' ← handle_send c m w; ok (w', true)

unfoldable pub frame_ack : Context → Bytes → World → Result (World × Bool)
unfolding handle_ack_frame
frame_ack c payload w = do m ← Ack.from_bytes payload; w' ← handle_ack_frame c m w; ok (w', true)

unfoldable pub frame_update_commits : Context → Bytes → World → Result (World × Bool)
unfolding handle_update_commits
frame_update_commits c payload w = do
  m ← UpdateCommits.from_bytes payload
  w' ← handle_update_commits c m w
  ok (w', true)

-- The answer is whether the session goes on.
unfoldable pub handle_frame : Context → Frame → World → Result (World × Bool)
unfolding frame_i_am frame_send frame_ack frame_update_commits
handle_frame c frame w =
    if nat_eq frame.msg_type msg_i_am
    then frame_i_am c frame.payload w
    else if nat_eq frame.msg_type msg_send
    then frame_send c frame.payload w
    else if nat_eq frame.msg_type msg_ack
    then frame_ack c frame.payload w
    else if nat_eq frame.msg_type msg_update_commits
    then frame_update_commits c frame.payload w
    else ok (w, true)

unfoldable pub send_delivery : PendingDelivery → World → World
send_delivery delivery w =
    let deliver : Deliver = record {
      msg_id = delivery.msg_id;
      preimage = delivery.preimage;
      payload = delivery.payload;
    } in
    record w { written = write_frame w.written (Frame.deliver deliver) }

-- What `select!` hands to the loop: the next frame of the stream, or the error of reading it, with
-- the context at that moment; or a delivery from the session's channel.
pub data Input : Type 0 where
  incoming : Context → Result Frame → Input
  outgoing : PendingDelivery → Input

-- How `run` stands: it waits for input, it has returned, or it has failed.
pub data Status : Type 0 where
  running : Status
  returned : Status
  failed : IoError → Status
  panicked : Status

unfoldable pub cleanup : World → World
unfolding unregister_old
cleanup w = record w { router = unregister_old w.id52 w.router }

unfoldable pub run_loop : List Input → World → World × Status
run_loop [] w = (w, running)
run_loop (outgoing delivery ∷ inputs) w = run_loop inputs (send_delivery delivery w)
run_loop (incoming c (err e) ∷ inputs) w = (w, failed e)
run_loop (incoming c panic ∷ inputs) w = (w, panicked)
run_loop (incoming c (ok frame) ∷ inputs) w = elim (handle_frame c frame w) [
  | err e ↦ (w, failed e)
  | panic ↦ (w, panicked)
  | ok (w', go) ↦ let rest = run_loop inputs w' in if go then rest else (cleanup w', returned)
]

unfoldable pub run : List Input → World → World × Status
run inputs w = run_loop inputs (greet w)
