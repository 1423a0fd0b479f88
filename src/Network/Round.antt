-- ===== src/Network/Round.antt =====
-- A command from one node to another through the relay: all of it, from `send` of
-- bhumi-node/src/node.rs over bhumi-relay/src to the device and back.
use bhumi.Base.{
  ℕ, ◌-◌, ◌*◌, ◌^◌, ◌≤◌, ◌<◌, ◌≡◌, ◌≢◌, refl, sym, ap, ◌∙◌, [], ◌∷◌, ◌++◌, true, false, none, some,
  ok, arith, length, bytes_has_eq, nat_has_eq,
}
use bhumi.Base.Map
use bhumi.Base.Map.{lookup-insert, lookup-insert_self, lookup-remove}
use bhumi.Proto.Buffer.{Bytes}
use bhumi.Proto.HandshakeInit.{dev_handshake_init}
use bhumi.Proto.SendResult.{send_ok}
use bhumi.Proto.Frame.Stream.{read_frames}
use bhumi.Relay.Router.{
  Router, PendingDelivery, Env, responded, add_commits, handle_ack, route_message,
}
use bhumi.Relay.Session.{Context, World, incoming, running, run_loop, send_delivery}
use bhumi.Node.State.{find_issuer}
use bhumi.Node.Connection.{Connection, receive, parse_device_msg_type}
use bhumi.Node.Core.{Outside, Node, Response, good, bad}
use bhumi.Node.Server.{Moment, respond, handle_message, handle_command}
use bhumi.Node.Client.{take_send, verdict}
use bhumi.Node.Exchange.{
  context, reply, respond-peers, take_response-append, handle_command-take_response,
}
use bhumi.Network.Delivery.{IsDeliverable, message, receive-send_delivery}
use bhumi.Network.Answer.{commit_frame, ack_frame, IsAnswer, read_frames-answer, run_loop-answer}
use bhumi.Network.Holds.{waiting, route_message-Holds, handle_ack-Holds}
use bhumi.Network.Ready.{
  Ready, Ready-after, renewed_peer, handle_message-command, handle_command-state,
  lookup_preimage-renew, unissued-ne,
}

-- The node `b` can send to the node `a` through the relay, and `a` will use a preimage that is new to
-- all three, and answer with bytes that `b` tells from a response with a preimage behind it.
pub record IsRound {V S : Type 0} (o : Outside V) (a_id b_id : Bytes) (sender : ℕ) (a b : Node V S)
    (r : Router) (ready : Ready o a_id b_id sender a b r) (t t' : Moment) (payload : Bytes)
    (response : Response V) (e : Bytes) : Type 0 where
  pub command : parse_device_msg_type payload ≢ some dev_handshake_init
  pub payload_size : length payload ≤ 1024 * 1024 - 68
  pub preimage_size : length ready.can.preimage ≡ 32
  pub id_size : r.next_msg_id < 2 ^ 32
  pub hash_size : length (o.sha256 t'.fresh) ≡ 32
  pub fresh_size : length t'.fresh ≡ 32
  pub unused :
      Map.lookup t'.fresh (respond o t (context b_id ready.entry) payload a).0.state.invites ≡ none
  pub unissued : find_issuer t'.fresh a.state.peers ≡ none
  pub uncached : Map.lookup t'.fresh r.response_cache ≡ none
  pub reply_nonempty : 0 < length (reply o t b_id ready.entry payload a)
  pub reply_size : length (reply o t b_id ready.entry payload a ++ t'.fresh) ≤ 1024 * 1024 - 8
  pub reads : o.json.read_response (reply o t b_id ready.entry payload a) ≡ good response
  pub fails : o.json.read_response (reply o t b_id ready.entry payload a ++ t'.fresh) ≡ bad e

-- A round in which the sender's task is told the device's answer: what each side does.
pub round_lem :
    {V S : Type 0} (o : Outside V) (a_id b_id : Bytes) (sender : ℕ) (a b : Node V S) (r : Router)
    (t t' : Moment) (now : ℕ) (payload : Bytes) (response : Response V) (e : Bytes) (c : Context)
    (env : Env) (w : World) (ready : Ready o a_id b_id sender a b r)
    → IsRound o a_id b_id sender a b r ready t t' payload response e
    → w.id52 ≡ some a_id
    → w.router ≡ waiting o.sha256 a_id ready.can.preimage sender env.tx r ready.holds
    → env.is_closed sender ≡ false
    → env.accepts ≡ true
    → env.wait ≡ responded (reply o t b_id ready.entry payload a ++ t'.fresh)
    → env.meanwhile w.router
      ≡ (handle_ack c.env.now r.next_msg_id
          (reply o t b_id ready.entry payload a ++ t'.fresh)
          (add_commits a_id (o.sha256 t'.fresh ∷ []) w.router)).0
    → let sent = reply o t b_id ready.entry payload a ++ t'.fresh in
      let d : PendingDelivery = record {
        msg_id = r.next_msg_id;
        preimage = ready.can.preimage;
        payload = payload;
      } in
      let idle : Connection = record { incoming = []; written = [] } in
      let f = commit_frame (o.sha256 t'.fresh) in
      let g = ack_frame r.next_msg_id sent in
      (a' : Node V S) × (conn : Connection) × (r' : Router) × (receive (record {
        incoming = (send_delivery d (record w { written = [] })).written;
        written = [];
      })
        ≡ ok (message d, idle))
      × (handle_message o t t' (message d) a idle ≡ ok (a', conn))
      × (read_frames 2 conn.written ≡ ok (f ∷ g ∷ [], []))
      × (run_loop (incoming c (ok f) ∷ incoming c (ok g) ∷ []) w
          ≡ (record w { router = r' }, running))
      × ((handle_ack c.env.now r.next_msg_id sent
            (add_commits a_id (o.sha256 t'.fresh ∷ []) w.router)).1
          ≡ some (env.tx, sent))
      × (route_message o.sha256 env a_id ready.can.preimage payload r
          ≡ (r', record { status = send_ok; payload = sent }, some (sender, d)))
      × (let (b', answer) =
            take_send o now a_id (ok (record { status = send_ok; payload = sent })) b in
          (answer ≡ verdict o response) × Ready o a_id b_id sender a' b' r')
unfolding take_send
round_lem o a_id b_id sender a b r t t' now payload response e c env w ready v own held still_open
      accepts answered turn =
    let preimage = ready.can.preimage in
    let body = reply o t b_id ready.entry payload a in
    let sent = body ++ t'.fresh in
    let commit = o.sha256 t'.fresh in
    let d : PendingDelivery = record {
      msg_id = r.next_msg_id;
      preimage = preimage;
      payload = payload;
    } in
    let dv : IsDeliverable d = record {
      msg_id_size = v.id_size;
      preimage_size = v.preimage_size;
      payload_size = omega (arith, v.payload_size);
    } in
    let av : IsAnswer commit r.next_msg_id sent = record {
      commit_size = v.hash_size;
      msg_id_size = v.id_size;
      sent_size = v.reply_size;
    } in
    let idle : Connection = record { incoming = []; written = [] } in
    let r3 = add_commits a_id (commit ∷ []) w.router in
    let r4 = (handle_ack c.env.now r.next_msg_id sent r3).0 in
    let (replied, says, can) =
      handle_command-take_response o t t' now r.next_msg_id payload a_id b_id e a b idle ready.entry
        response ready.can ready.known v.reply_nonempty v.fresh_size v.reads v.fails in
    let fresh_new = unissued-ne t'.fresh preimage b_id ready.entry a.state v.unissued ready.known in
    let (woken, holds) =
      handle_ack-Holds o.sha256 a_id preimage sender env.tx r ready.holds c.env.now sent t'.fresh
        fresh_new v.uncached in
    let ctx = context b_id ready.entry in
    let a1 = (respond o t ctx payload a).0 in
    let q = ready.can.accepted.entry in
    let state =
      handle_command-state o t t' r.next_msg_id preimage payload b_id a idle ready.entry q
        ready.known ready.can.accepted.found in
    let unissued1 : find_issuer t'.fresh a1.state.peers ≡ none =
      rw (respond-peers o t ctx payload a) v.unissued in
    let taken =
      take_response-append o now a_id body t'.fresh e response b v.reply_nonempty v.fresh_size
        v.reads v.fails in
    (
      (handle_command o t t' r.next_msg_id preimage payload a idle).0,
      (handle_command o t t' r.next_msg_id preimage payload a idle).1,
      r4,
      receive-send_delivery d w [] dv,
      handle_message-command o t t' d a idle v.command,
      rw replied (read_frames-answer commit r.next_msg_id sent av),
      run_loop-answer commit r.next_msg_id sent av c a_id w own,
      rw held woken,
      route_message-Holds o.sha256 a_id preimage sender env.tx r ready.holds env payload sent r4
          still_open accepts refl (ap env.meanwhile (sym held) ∙ turn) answered,
      (
        says,
        Ready-after o a_id b_id t'.fresh sender now _ b _ r4
            (renewed_peer t'.fresh t'.now preimage q) preimage can (ap (λ x. x.0.state) taken)
            ready.can.used
            (rw state
              (lookup_preimage-renew t'.fresh t'.now b_id preimage a1.state q v.unused unissued1))
            (rw held holds),
      ),
    )
