-- ===== src/Network/Command.antt =====
-- A command from one node to another through the relay, `send` of bhumi-node/src/node.rs with all that
-- answers it. The sender's task of bhumi-relay/src waits while the device's session takes the
-- device's frames, and both work on one router.
use bhumi.Base.{
  ℕ, ◌-◌, ◌*◌, ◌≤◌, ◌<◌, ◌≡◌, refl, ap, [], ◌∷◌, ◌++◌, true, false, Option, none, some, ok, arith,
  length, if◌then◌else◌, nat_eq, nat_eq_iff, bytes_has_eq, nat_has_eq,
}
use bhumi.Proto.Buffer.{Bytes}
use bhumi.Proto.Hello.{Hello}
use bhumi.Proto.Send
use bhumi.Proto.Send.{Send}
use bhumi.Proto.SendResult.{SendResult, send_ok}
use bhumi.Proto.Frame
use bhumi.Proto.Frame.{Frame, write_frame}
use bhumi.Proto.Frame.Stream.{read_frames}
use bhumi.Relay.Router.{
  Router, PendingDelivery, Env, Wait, responded, timed_out, add_commits, handle_ack, route_message,
}
use bhumi.Relay.Session.{
  Context, World, incoming, run_loop, send_delivery, handle_frame, frame_send, handle_send,
}
use bhumi.Node.State.{PeerRecord, find_peer_by_alias, get_peer_preimage}
use bhumi.Node.Connection.{Connection, receive}
use bhumi.Node.Connection.Wire.{Send-alone, write_frame-append}
use bhumi.Node.Core.{Outside, Node, Response}
use bhumi.Node.Server.{Moment, handle_message}
use bhumi.Node.Client
use bhumi.Node.Client.{exchange_on, send_on, take_send, verdict}
use bhumi.Node.Exchange.{reply}
use bhumi.Node.Invitation.{relayed, sending, exchange-relayed}
use bhumi.Network.Delivery.{message}
use bhumi.Network.Answer.{commit_frame, ack_frame, IsAnswer, run_loop-answer}
use bhumi.Network.Holds.{waiting, handle_ack-Holds}
use bhumi.Network.Ready.{Ready, unissued-ne}
use bhumi.Network.Round.{IsRound, round_lem}

-- How the wait of the task with the channel `tx` ends by what `handle_ack` sends, if it ends by that.
abbrev pub told : ℕ → Option (ℕ × Bytes) → Wait
told tx none = timed_out
told tx (some (to, response)) = if nat_eq tx to then responded response else timed_out

-- The sender's task while the device's session, with its context, takes the two frames.
abbrev pub served_by : Context → World → Bytes → Bytes → ℕ → Bytes → Router → Env → Env
served_by c w id commit msg_id sent q env = record env {
  meanwhile = λ q.
      (run_loop
        (incoming c (ok (commit_frame commit)) ∷ incoming c (ok (ack_frame msg_id sent)) ∷ [])
        (record w { router = q })).0.router;
  wait = told env.tx (handle_ack c.env.now msg_id sent (add_commits id (commit ∷ []) q)).1;
}

told_self :
    (tx : ℕ) (x : Option (ℕ × Bytes)) (sent : Bytes)
    → x ≡ some (tx, sent)
    → told tx x ≡ responded sent
told_self tx x sent e = rw (e, (nat_eq_iff tx tx).1 refl) refl

-- The relay's session of the sender on the SEND frame.
handle_frame-sending :
    (c : Context) (w : World) (to_id52 preimage payload : Bytes)
    → length to_id52 ≡ 32
    → length preimage ≡ 32
    → length payload ≤ 1024 * 1024 - 68
    → let (router, outcome, _) = route_message c.sha256 c.env to_id52 preimage payload w.router in
      let result : SendResult = record { status = outcome.status; payload = outcome.payload } in
      handle_frame c (sending to_id52 preimage payload) w
      ≡ ok (
        record w {
          router = router;
          written = w.written ++ write_frame [] (Frame.send_result result);
        },
        true,
      )
unfolding handle_frame frame_send handle_send Frame.send Frame.send_result Frame.new
handle_frame-sending c w to_id52 preimage payload id_size pre_size small =
    let m : Send = record { to_id52 = to_id52; preimage = preimage; payload = payload } in
    let (router, outcome, _) = route_message c.sha256 c.env to_id52 preimage payload w.router in
    let result : SendResult = record { status = outcome.status; payload = outcome.payload } in
    let mv : Send.IsValid m = record {
      id52_size = id_size;
      preimage_size = pre_size;
      payload_size = omega arith;
    } in
    rw
      (
        handle_frame,
        frame_send,
        Send-alone m mv,
        handle_send,
        write_frame-append w.written (Frame.send_result result),
      )
      refl

-- The client: `send` writes its request, and takes what the relay tells it.
send_on-relayed :
    {V S : Type 0} (o : Outside V) (now : ℕ) (hello : Hello) (result : SendResult)
    (alias cmd : Bytes) (args : V) (id preimage : Bytes) (p : PeerRecord) (n : Node V S)
    → find_peer_by_alias alias n.state ≡ some (id, p)
    → get_peer_preimage id n.state ≡ some preimage
    → result.status < 256
    → length result.payload ≤ 1024 * 1024 - 5
    → let payload = o.json.write_request (record { cmd = cmd; args = args }) in
      send_on o now (ok (relayed hello result)) alias cmd args n ≡ (
        take_send o now id (ok result) n,
        some (
            ok (
              result,
              record { incoming = []; written = write_frame [] (sending id preimage payload) },
            )),
      )
unfolding send_on exchange_on
send_on-relayed o now hello result alias cmd args id preimage p n found used status small =
    let payload = o.json.write_request (record { cmd = cmd; args = args }) in
    rw
      (
        send_on,
        found,
        used,
        exchange_on,
        exchange-relayed hello result id preimage payload status small,
      )
      refl

-- A command, all the way. The sender's node is `b` and the device `a`; b's state has a preimage that
-- a's state accepts, and the relay lists a's session, with the preimage's commit (Ready). `send`
-- writes one SEND frame, and the sender's session at the relay, on that frame, queues a delivery on
-- the channel of the device's session. The delivery's bytes make the device receive the message,
-- handle it, and write two frames; the device's session takes both, and so the relay's work on the
-- SEND ends with success and the device's answer, which it writes as a SEND_RESULT. On these bytes,
-- after the relay's greeting, `send` gives its caller the verdict of the response; and everything is
-- ready for the next command, with a new preimage. The conditions: the channel of the device's session is open and takes the delivery; the device's
-- session takes the two frames, and nothing else happens at the relay, while the sender's task waits;
-- the sender knows the device by the alias; identities, preimages and hashes have 32 bytes, and the
-- payloads fit their frames; the relay's next id is a u32; the request does not begin as a handshake does; the device's new
-- preimage is used by none of the three yet; and the response is not empty, and is JSON, but not with
-- a preimage behind it (IsRound).
pub send-Ready :
    {V S : Type 0} (o : Outside V) (a_id b_id : Bytes) (sender : ℕ) (a b : Node V S) (r : Router)
    (t t' : Moment) (now : ℕ) (alias cmd : Bytes) (args : V) (p : PeerRecord)
    (response : Response V) (e : Bytes) (c c_b : Context) (env : Env) (w w_b : World)
    (hello : Hello) (ready : Ready o a_id b_id sender a b r)
    → IsRound o a_id b_id sender a b r ready t t'
        (o.json.write_request (record { cmd = cmd; args = args }))
        response
        e
    → length a_id ≡ 32
    → find_peer_by_alias alias b.state ≡ some (a_id, p)
    → w.id52 ≡ some a_id
    → env.is_closed sender ≡ false
    → env.accepts ≡ true
    → let payload = o.json.write_request (record { cmd = cmd; args = args }) in
      let preimage = ready.can.preimage in
      let sent = reply o t b_id ready.entry payload a ++ t'.fresh in
      let commit = o.sha256 t'.fresh in
      let d : PendingDelivery = record {
        msg_id = r.next_msg_id;
        preimage = preimage;
        payload = payload;
      } in
      let result : SendResult = record { status = send_ok; payload = sent } in
      let idle : Connection = record { incoming = []; written = [] } in
      let q = waiting o.sha256 a_id preimage sender env.tx r ready.holds in
      let served = served_by c w a_id commit r.next_msg_id sent q env in
      (a' : Node V S) × (conn : Connection) × (r' : Router) × ((send_on o now
          (ok (relayed hello result))
          alias
          cmd
          args
          b).1
        ≡ some (
            ok (
              result,
              record { incoming = []; written = write_frame [] (sending a_id preimage payload) },
            )))
      × (handle_frame
            (record c_b { sha256 = o.sha256; env = served })
            (sending a_id preimage payload)
            (record w_b { router = r })
          ≡ ok (
            record w_b {
              router = r';
              written = w_b.written ++ write_frame [] (Frame.send_result result);
            },
            true,
          ))
      × ((route_message o.sha256 served a_id preimage payload r).2 ≡ some (sender, d))
      × (receive (record {
        incoming = (send_delivery d (record w { router = q; written = [] })).written;
        written = [];
      })
          ≡ ok (message d, idle))
      × (handle_message o t t' (message d) a idle ≡ ok (a', conn))
      × (read_frames 2 conn.written
          ≡ ok (commit_frame commit ∷ ack_frame r.next_msg_id sent ∷ [], []))
      × (let (b', answer) = Client.send o now (ok (relayed hello result)) alias cmd args b in
          (answer ≡ verdict o response) × Ready o a_id b_id sender a' b' r')
unfolding Client.send
send-Ready o a_id b_id sender a b r t t' now alias cmd args p response e c c_b env w w_b hello ready
      v id_size found own still_open accepts =
    let payload = o.json.write_request (record { cmd = cmd; args = args }) in
    let preimage = ready.can.preimage in
    let sent = reply o t b_id ready.entry payload a ++ t'.fresh in
    let commit = o.sha256 t'.fresh in
    let result : SendResult = record { status = send_ok; payload = sent } in
    let q = waiting o.sha256 a_id preimage sender env.tx r ready.holds in
    let served = served_by c w a_id commit r.next_msg_id sent q env in
    let av : IsAnswer commit r.next_msg_id sent = record {
      commit_size = v.hash_size;
      msg_id_size = v.id_size;
      sent_size = v.reply_size;
    } in
    let small : length sent ≤ 1024 * 1024 - 5 = omega (arith, v.reply_size) in
    let fresh_new = unissued-ne t'.fresh preimage b_id ready.entry a.state v.unissued ready.known in
    let (woken, _) =
      handle_ack-Holds o.sha256 a_id preimage sender env.tx r ready.holds c.env.now sent t'.fresh
        fresh_new v.uncached in
    let took = run_loop-answer commit r.next_msg_id sent av c a_id (record w { router = q }) own in
    let (a', conn, r', got, handled, frames, ran, _, routed, (says, next)) =
      round_lem o a_id b_id sender a b r t t' now payload response e c served
        (record w { router = q }) ready v own refl still_open accepts
        (told_self env.tx _ sent woken) (ap (λ x. x.0.router) took) in
    let sends =
      send_on-relayed o now hello result alias cmd args a_id preimage p b found ready.can.used
        (omega arith) small in
    let wire =
      handle_frame-sending (record c_b { sha256 = o.sha256; env = served })
        (record w_b { router = r }) a_id preimage payload id_size v.preimage_size v.payload_size in
    (
      a',
      conn,
      r',
      ap (λ x. x.1) sends,
      rw routed at wire,
      ap (λ x. x.2) routed,
      got,
      handled,
      frames,
      rw (ap (λ x. x.0) sends) (says, next),
    )
