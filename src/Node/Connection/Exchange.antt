-- ===== src/Node/Connection/Exchange.antt =====
-- A node's request of bhumi-node/src/connection.rs against the relay's session of
-- bhumi-relay/src/session.rs.
use bhumi.Base.{◌-◌, ◌*◌, ◌≤◌, ◌≡◌, refl, [], ◌++◌, true, ok, arith, length, bytes_has_eq}
use bhumi.Proto.Buffer.{Bytes}
use bhumi.Proto.Send
use bhumi.Proto.Send.{Send}
use bhumi.Proto.SendResult
use bhumi.Proto.SendResult.{SendResult}
use bhumi.Proto.Frame
use bhumi.Proto.Frame.{Frame, write_frame, read_frame, write_to, read_from}
use bhumi.Proto.Frame.Stream
use bhumi.Proto.Frame.Stream.{read_from-write_to, read_frame-read_from}
use bhumi.Relay.Router.{route_message}
use bhumi.Relay.Router.Route.{route_message-IsOutcome}
use bhumi.Relay.Session.{Context, World, handle_frame, frame_send, handle_send}
use bhumi.Node.Connection.{next_frame, put_frame, receive_result, send}
use bhumi.Node.Connection.Wire.{
  read_frame-alone, write_frame-append, Send-alone, SendResult-alone, length-send,
  length-send_result,
}

-- A node sends and the relay answers. The request that `send` writes behind what was written
-- before is one frame; on it the relay routes the node's message, for the given recipient, preimage
-- and payload; and when the relay's answer arrives, `send` returns the routing's outcome. The
-- payload of the request and of the outcome have to fit a frame.
pub send-handle_frame :
    (c : Context) (w : World) (to_id52 preimage payload : Bytes)
    → length to_id52 ≡ 32
    → length preimage ≡ 32
    → length payload ≤ 1024 * 1024 - 68
    → length (route_message c.sha256 c.env to_id52 preimage payload w.router).1.payload
      ≤ 1024 * 1024 - 5
    → let (router, outcome, _) = route_message c.sha256 c.env to_id52 preimage payload w.router in
      let result : SendResult = record { status = outcome.status; payload = outcome.payload } in
      (request : Bytes) × (frame : Frame) × (answer : Bytes) × (read_frame request ≡ ok (frame, []))
      × (handle_frame c frame w
          ≡ ok (record w { router = router; written = w.written ++ answer }, true))
      × ((out : Bytes)
          → send to_id52 preimage payload (record { incoming = answer; written = out })
            ≡ ok (result, record { incoming = []; written = out ++ request }))
unfolding send receive_result next_frame put_frame handle_frame frame_send handle_send Frame.send
    Frame.send_result Frame.new
send-handle_frame c w to_id52 preimage payload id_size pre_size small out_size =
    let m : Send = record { to_id52 = to_id52; preimage = preimage; payload = payload } in
    let (router, outcome, _) = route_message c.sha256 c.env to_id52 preimage payload w.router in
    let result : SendResult = record { status = outcome.status; payload = outcome.payload } in
    let f = Frame.send m in
    let g = Frame.send_result result in
    let mv : Send.IsValid m = record {
      id52_size = id_size;
      preimage_size = pre_size;
      payload_size = omega arith;
    } in
    let rv : SendResult.IsValid result = record {
      status_size =
          omega
            (arith, (route_message-IsOutcome c.sha256 c.env to_id52 preimage payload w.router).0);
      payload_size = omega arith;
    } in
    let fv : Stream.IsValid f = record {
      type_size = omega arith;
      payload_size = omega (arith, length-send m, id_size, pre_size);
    } in
    let gv : Stream.IsValid g = record {
      type_size = omega arith;
      payload_size = omega (arith, length-send_result result);
    } in
    (
      write_frame [] f,
      f,
      write_frame [] g,
      read_frame-alone f fv,
      rw (handle_frame, frame_send, Send-alone m mv, handle_send, write_frame-append w.written g)
          refl,
      λ out.
          rw
            (
              send,
              receive_result,
              next_frame,
              read_frame-alone g gv,
              SendResult-alone result rv,
              write_frame-append out f,
            )
            refl,
    )
