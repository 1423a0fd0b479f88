-- ===== src/Node/Invitation.antt =====
-- A pairing, both sides of bhumi-node/src/node.rs: the token of `create_invite`, the request of
-- `pair`, the answer of `handle_handshake`, and what `pair` does with it.
use bhumi.Base.{
  ℕ, ◌-◌, ◌*◌, ◌≤◌, ◌<◌, ◌≡◌, refl, [], ◌∷◌, ◌++◌, Option, some, arith, length, ok, concat,
  append-nil, bytes_has_eq,
}
use bhumi.Proto.Buffer.{Bytes, cut_piece, length-concat}
use bhumi.Proto.Hello.{Hello}
use bhumi.Proto.Send.{Send}
use bhumi.Proto.SendResult
use bhumi.Proto.SendResult.{SendResult, send_ok}
use bhumi.Proto.Frame
use bhumi.Proto.Frame.{Frame, write_frame, read_frame}
use bhumi.Proto.Frame.Stream
use bhumi.Proto.HandshakeInit
use bhumi.Proto.HandshakeInit.{HandshakeInit}
use bhumi.Proto.HandshakeComplete
use bhumi.Proto.HandshakeComplete.{HandshakeComplete, handshake_accepted}
use bhumi.Node.State
use bhumi.Node.State.{
  PeerRole, Base64, TokenResult, complete_handshake_as_inviter, complete_handshake_as_acceptor,
  accept_invite, parsed, rejected, create_invite_token, parse_invite_token,
}
use bhumi.Node.State.Pairing.{CanSend, pairing-CanSend}
use bhumi.Node.Connection.{
  Connection, connect_anonymous, next_frame, send, receive_result, put_frame, send_ack,
  update_commits,
}
use bhumi.Node.Connection.Wire.{
  read_frame-write_frame, read_frame-alone, SendResult-alone, length-hello, length-send_result,
}
use bhumi.Node.Core
use bhumi.Node.Core.{Outside, Node, save}
use bhumi.Node.Server.{Moment, handle_handshake, answer_handshake, unwrap_or_default}
use bhumi.Node.Client.{
  done, accept, exchange, exchange_on, take_exchange, take_result, take_complete, none_if_empty,
  pair, pair_on,
}

-- The token of an invite is read back as the node's identity and the invite's preimage.
pub parse_invite_token-create_invite_token :
    (b64 : Base64) (id52 preimage : Bytes)
    → length id52 ≡ 32
    → length preimage ≡ 32
    → parse_invite_token b64 (create_invite_token b64 id52 preimage) ≡ parsed id52 preimage
unfolding create_invite_token parse_invite_token
parse_invite_token-create_invite_token b64 id52 preimage h k =
    rw (parse_invite_token, b64.decode-encode (concat (id52 ∷ preimage ∷ [])))
      (ground (
        arith,
        length-concat (id52 ∷ preimage ∷ []),
        cut_piece [] id52 (preimage ∷ []) 0 32 refl (omega arith),
        cut_piece (id52 ∷ []) preimage [] 32 64 (omega arith) (omega arith),
      ))

-- What the two sides write: the request of `pair`, and the answer of a device that accepts.
abbrev pub request : Bytes → Bytes → Bytes → HandshakeInit
request id52 preimage relay = record {
  sender_id52 = id52;
  preimage_for_peer = preimage;
  relay_url = relay;
}

abbrev pub acceptance : Bytes → Option Bytes → HandshakeComplete
acceptance preimage relay = record {
  status = handshake_accepted;
  preimage_for_peer = preimage;
  relay_url = unwrap_or_default relay;
}

init-alone :
    (m : HandshakeInit)
    → HandshakeInit.IsValid m
    → HandshakeInit.from_bytes (HandshakeInit.to_bytes m) ≡ ok m
init-alone m v = rw append-nil at (HandshakeInit.handshake_init_from_bytes-to_bytes m [] v)

complete-alone :
    (m : HandshakeComplete)
    → HandshakeComplete.IsValid m
    → HandshakeComplete.from_bytes (HandshakeComplete.to_bytes m) ≡ ok m
complete-alone m v =
    rw append-nil at (HandshakeComplete.handshake_complete_from_bytes-to_bytes m [] v)

-- What a relay sends to one who only sends: its greeting, and how the message was routed.
abbrev pub relayed : Hello → SendResult → Connection
relayed hello result = record {
  incoming = write_frame [] (Frame.hello hello) ++ write_frame [] (Frame.send_result result);
  written = [];
}

-- The frame that `send` writes.
abbrev pub sending : Bytes → Bytes → Bytes → Frame
sending to_id52 preimage payload =
    let m : Send = record { to_id52 = to_id52; preimage = preimage; payload = payload } in
    Frame.send m

pub exchange-relayed :
    (hello : Hello) (result : SendResult) (to_id52 preimage payload : Bytes)
    → result.status < 256
    → length result.payload ≤ 1024 * 1024 - 5
    → exchange (ok (relayed hello result)) to_id52 preimage payload
      ≡ ok (
        result,
        record { incoming = []; written = write_frame [] (sending to_id52 preimage payload) },
      )
unfolding exchange connect_anonymous next_frame send receive_result put_frame Frame.hello
    Frame.send_result Frame.new
exchange-relayed hello result to_id52 preimage payload status small =
    let f = Frame.hello hello in
    let g = Frame.send_result result in
    let fv : Stream.IsValid f = record {
      type_size = omega arith;
      payload_size = omega (arith, length-hello hello);
    } in
    let gv : Stream.IsValid g = record {
      type_size = omega arith;
      payload_size = omega (arith, length-send_result result);
    } in
    let rv : SendResult.IsValid result = record {
      status_size = status;
      payload_size = omega arith;
    } in
    rw
      (
        exchange,
        connect_anonymous,
        next_frame,
        read_frame-write_frame f (write_frame [] g) fv,
        send,
        receive_result,
        read_frame-alone g gv,
        SendResult-alone result rv,
      )
      refl

-- A pairing. The inviter's token gives the other node the inviter's identity and the invite's
-- preimage. With this token, and a relay that greets it and then tells it that the inviter answered
-- with the acceptance below, `pair` succeeds; and all that it writes is one SEND to the inviter, with
-- the invite's preimage, its identity, a new preimage of its own, and its relay. On that request the
-- inviter accepts: it sends the acceptance, with a new preimage of its own, and then the commit of
-- it. After it the state of each node has a preimage for the other that the other's state accepts.
-- (The commits that the relay has of the node that paired are no part of this: `pair` sends none.)
-- The identities and preimages have 32 bytes, the relays' names are strings that fit, and the
-- acceptance fits a frame.
pub pair-handle_handshake :
    {V S : Type 0} (o : Outside V) (a b : Node V S) (t_1 t_2 t_3 : Moment) (now msg_id : ℕ)
    (alias_a alias_b relay_b : Bytes) (role : PeerRole) (conn : Connection) (hello : Hello)
    → length a.secret_key.public_key ≡ 32
    → length t_1.fresh ≡ 32
    → HandshakeInit.IsValid (request b.secret_key.public_key t_2.fresh relay_b)
    → HandshakeComplete.IsValid (acceptance t_3.fresh a.relay_addr)
    → length (HandshakeComplete.to_bytes (acceptance t_3.fresh a.relay_addr)) ≤ 1024 * 1024 - 5
    → let a_id = a.secret_key.public_key in
      let b_id = b.secret_key.public_key in
      let init = HandshakeInit.to_bytes (request b_id t_2.fresh relay_b) in
      let answer = HandshakeComplete.to_bytes (acceptance t_3.fresh a.relay_addr) in
      let result : SendResult = record { status = send_ok; payload = answer } in
      let stream = relayed hello result in
      let (a1, token) = Core.create_invite o t_1.fresh t_1.now alias_a role a in
      let (b2, verdict) = pair o t_2 now (ok stream) relay_b token alias_b b in
      (parse_invite_token o.base64 token ≡ parsed a_id t_1.fresh)
      × (verdict ≡ done tt)
      × ((pair_on o t_2 now (ok stream) relay_b token alias_b b).1
          ≡ some (
              ok (
                result,
                record { incoming = []; written = write_frame [] (sending a_id t_1.fresh init) },
              )))
      × ((a2 : Node V S) × (handle_handshake o t_3 msg_id t_1.fresh init a1 conn
            ≡ ok (a2, update_commits (o.sha256 t_3.fresh ∷ []) (send_ack msg_id answer conn)))
          × CanSend a_id b_id a2.state b2.state
          × CanSend b_id a_id b2.state a2.state)
unfolding Core.create_invite pair pair_on exchange_on take_exchange accept take_result take_complete
    handle_handshake answer_handshake save State.create_invite accept_invite
pair-handle_handshake o a b t_1 t_2 t_3 now msg_id alias_a alias_b relay_b role conn hello id_size
      fresh_size iv cv small =
    let a_id = a.secret_key.public_key in
    let b_id = b.secret_key.public_key in
    let init = HandshakeInit.to_bytes (request b_id t_2.fresh relay_b) in
    let answer = HandshakeComplete.to_bytes (acceptance t_3.fresh a.relay_addr) in
    let read = parse_invite_token-create_invite_token o.base64 a_id t_1.fresh id_size fresh_size in
    let (answered, done', a_sends, b_sends, _, _) =
      pairing-CanSend o.sha256 a.state b.state a_id b_id alias_a alias_b t_1.fresh t_2.fresh
        t_3.fresh role (none_if_empty (unwrap_or_default a.relay_addr)) (some relay_b) t_1.now
        t_2.now t_3.now now in
    rw
      (
        pair,
        pair_on,
        exchange_on,
        read,
        exchange-relayed hello (record { status = send_ok; payload = answer }) a_id t_1.fresh init
            (omega arith) small,
        complete-alone (acceptance t_3.fresh a.relay_addr) cv,
        handle_handshake,
        init-alone (request b_id t_2.fresh relay_b) iv,
        take_complete,
        answer_handshake,
        answered,
      )
      (refl, refl, refl, (_, refl, a_sends, b_sends))
