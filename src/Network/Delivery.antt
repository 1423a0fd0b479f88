-- ===== src/Network/Delivery.antt =====
-- A delivery on its way: bhumi-relay/src/session.rs writes it, bhumi-node/src/connection.rs reads it.
use bhumi.Base.{◌-◌, ◌*◌, ◌^◌, ◌≤◌, ◌<◌, ◌≡◌, refl, [], ok, arith, length, bytes_has_eq}
use bhumi.Proto.Buffer.{Bytes}
use bhumi.Proto.Deliver
use bhumi.Proto.Deliver.{Deliver}
use bhumi.Proto.Frame
use bhumi.Proto.Frame.{Frame, write_frame, read_frame}
use bhumi.Proto.Frame.Stream
use bhumi.Relay.Router.{PendingDelivery}
use bhumi.Relay.Session.{World, send_delivery}
use bhumi.Node.Connection.{
  IncomingMessage, next_frame, receive_deliver, receive, parse_device_msg_type,
}
use bhumi.Node.Connection.Wire.{read_frame-alone, Deliver-alone, length-deliver}

-- A delivery that a frame can carry.
pub record IsDeliverable (d : PendingDelivery) : Type 0 where
  pub msg_id_size : d.msg_id < 2 ^ 32
  pub preimage_size : length d.preimage ≡ 32
  pub payload_size : length d.payload ≤ 1024 * 1024 - 40

-- The message that a node makes of it.
abbrev pub message : PendingDelivery → IncomingMessage
message d = record {
  msg_id = d.msg_id;
  preimage = d.preimage;
  msg_type = parse_device_msg_type d.payload;
  payload = d.payload;
}

-- What the relay writes for a delivery, the node receives as that message.
pub receive-send_delivery :
    (d : PendingDelivery) (w : World) (out : Bytes)
    → IsDeliverable d
    → receive
        (record { incoming = (send_delivery d (record w { written = [] })).written; written = out })
      ≡ ok (message d, record { incoming = []; written = out })
unfolding receive receive_deliver next_frame send_delivery Frame.deliver Frame.new
receive-send_delivery d w out v =
    let m : Deliver = record { msg_id = d.msg_id; preimage = d.preimage; payload = d.payload } in
    let mv : Deliver.IsValid m = record {
      msg_id_size = v.msg_id_size;
      preimage_size = v.preimage_size;
      payload_size = omega (arith, v.payload_size);
    } in
    let fv : Stream.IsValid (Frame.deliver m) = record {
      type_size = omega arith;
      payload_size = omega (arith, length-deliver m, v.preimage_size, v.payload_size);
    } in
    rw
      (
        receive,
        receive_deliver,
        next_frame,
        read_frame-alone (Frame.deliver m) fv,
        Deliver-alone m mv,
      )
      refl
