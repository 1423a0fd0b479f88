-- ===== src/Proto/Message.antt =====
-- Every message of bhumi-proto/src/lib.rs on the wire: the seven between a node and its relay, in
-- frames, and the four between two nodes.
use bhumi.Base.{
  ◌≡◌, ◌≤◌, refl, List, [], ◌∷◌, ◌++◌, map, All, length, Result, ok, err, panic, invalid_data,
  if◌then◌else◌, nat_eq, arith, append-nil, ◌*◌,
}
use bhumi.Proto.Buffer.{Bytes}
use bhumi.Proto.Hello
use bhumi.Proto.Hello.{Hello}
use bhumi.Proto.IAm
use bhumi.Proto.IAm.{IAm}
use bhumi.Proto.Send
use bhumi.Proto.Send.{Send}
use bhumi.Proto.Deliver
use bhumi.Proto.Deliver.{Deliver}
use bhumi.Proto.Ack
use bhumi.Proto.Ack.{Ack}
use bhumi.Proto.SendResult
use bhumi.Proto.SendResult.{SendResult}
use bhumi.Proto.UpdateCommits
use bhumi.Proto.UpdateCommits.{UpdateCommits}
use bhumi.Proto.HandshakeInit
use bhumi.Proto.HandshakeInit.{HandshakeInit}
use bhumi.Proto.HandshakeComplete
use bhumi.Proto.HandshakeComplete.{HandshakeComplete}
use bhumi.Proto.DeviceMessage
use bhumi.Proto.DeviceMessage.{DeviceMessage}
use bhumi.Proto.DeviceMessageResponse
use bhumi.Proto.DeviceMessageResponse.{DeviceMessageResponse}
use bhumi.Proto.Frame
use bhumi.Proto.Frame.{
  Frame, msg_hello, msg_i_am, msg_send, msg_deliver, msg_ack, msg_send_result, msg_update_commits,
}
use bhumi.Proto.Frame.Stream
use bhumi.Proto.Frame.Stream.{read_frames, write_frames, read_frames-write_frames}

pub data Message : Type 0 where
  hello : Hello → Message
  i_am : IAm → Message
  send : Send → Message
  deliver : Deliver → Message
  ack : Ack → Message
  send_result : SendResult → Message
  update_commits : UpdateCommits → Message

unfoldable pub frame_of : Message → Frame
frame_of (hello m) = Frame.hello m
frame_of (i_am m) = Frame.i_am m
frame_of (send m) = Frame.send m
frame_of (deliver m) = Frame.deliver m
frame_of (ack m) = Frame.ack m
frame_of (send_result m) = Frame.send_result m
frame_of (update_commits m) = Frame.update_commits m

abbrev with : {A : Type 0} → (A → Message) → Result A → Result Message
with f panic = panic
with f (err e) = err e
with f (ok a) = ok (f a)

-- What a reader does who takes any message: the type decides on the decoder.
unfoldable pub read_message : Frame → Result Message
read_message f =
    if nat_eq f.msg_type msg_hello
    then with hello (Hello.from_bytes f.payload)
    else if nat_eq f.msg_type msg_i_am
    then with i_am (IAm.from_bytes f.payload)
    else if nat_eq f.msg_type msg_send
    then with send (Send.from_bytes f.payload)
    else if nat_eq f.msg_type msg_deliver
    then with deliver (Deliver.from_bytes f.payload)
    else if nat_eq f.msg_type msg_ack
    then with ack (Ack.from_bytes f.payload)
    else if nat_eq f.msg_type msg_send_result
    then with send_result (SendResult.from_bytes f.payload)
    else if nat_eq f.msg_type msg_update_commits
    then with update_commits (UpdateCommits.from_bytes f.payload)
    else err (invalid_data "unknown message")

-- The fields fit their places on the wire.
abbrev pub IsFit : Message → Type 0
IsFit (hello m) = Hello.IsValid m
IsFit (i_am m) = IAm.IsValid m
IsFit (send m) = Send.IsValid m
IsFit (deliver m) = Deliver.IsValid m
IsFit (ack m) = Ack.IsValid m
IsFit (send_result m) = SendResult.IsValid m
IsFit (update_commits m) = UpdateCommits.IsValid m

-- The fields fit, and the payload of the frame has at most 1 MiB.
abbrev pub IsSendable : Message → Type 0
IsSendable m = IsFit m × (length (frame_of m).payload ≤ 1024 * 1024)

read_message-frame_of : (m : Message) → IsFit m → read_message (frame_of m) ≡ ok m
unfolding read_message frame_of Frame.hello Frame.i_am Frame.send Frame.deliver Frame.ack
    Frame.send_result Frame.update_commits
read_message-frame_of (hello m) v =
    rw (rw append-nil at (Hello.hello_from_bytes-to_bytes m [] v)) refl
read_message-frame_of (i_am m) v = rw (rw append-nil at (IAm.i_am_from_bytes-to_bytes m [] v)) refl
read_message-frame_of (send m) v = rw (rw append-nil at (Send.send_from_bytes-to_bytes m [] v)) refl
read_message-frame_of (deliver m) v =
    rw (rw append-nil at (Deliver.deliver_from_bytes-to_bytes m [] v)) refl
read_message-frame_of (ack m) v = rw (rw append-nil at (Ack.ack_from_bytes-to_bytes m [] v)) refl
read_message-frame_of (send_result m) v =
    rw (rw append-nil at (SendResult.send_result_from_bytes-to_bytes m [] v)) refl
read_message-frame_of (update_commits m) v =
    rw (rw append-nil at (UpdateCommits.update_commits_from_bytes-to_bytes m [] v)) refl

frame_of-IsValid : (m : Message) → IsSendable m → Stream.IsValid (frame_of m)
unfolding frame_of Frame.hello Frame.i_am Frame.send Frame.deliver Frame.ack Frame.send_result
    Frame.update_commits
frame_of-IsValid (hello m) v = record { type_size = omega arith; payload_size = v.1 }
frame_of-IsValid (i_am m) v = record { type_size = omega arith; payload_size = v.1 }
frame_of-IsValid (send m) v = record { type_size = omega arith; payload_size = v.1 }
frame_of-IsValid (deliver m) v = record { type_size = omega arith; payload_size = v.1 }
frame_of-IsValid (ack m) v = record { type_size = omega arith; payload_size = v.1 }
frame_of-IsValid (send_result m) v = record { type_size = omega arith; payload_size = v.1 }
frame_of-IsValid (update_commits m) v = record { type_size = omega arith; payload_size = v.1 }

All-frame_of : (ms : List Message) → All IsSendable ms → All Stream.IsValid (map frame_of ms)
All-frame_of [] v = tt
All-frame_of (m ∷ ms) v = (frame_of-IsValid m v.0, All-frame_of ms v.1)

All-read_message :
    (ms : List Message)
    → All IsSendable ms
    → All (λ (m : Message). read_message (frame_of m) ≡ ok m) ms
All-read_message [] v = tt
All-read_message (m ∷ ms) v = (read_message-frame_of m v.0.0, All-read_message ms v.1)

length-frames : (ms : List Message) → length (map frame_of ms) ≡ length ms
length-frames [] = refl
length-frames (m ∷ ms) = omega (arith, length-frames ms)

-- Any sequence of messages between a node and its relay, of any of the seven kinds, written one after
-- the other to a stream, is read back: the frames come in order, the reader stands behind the last,
-- and each frame is decoded to the message that was sent. Every field fits its place on the wire, and
-- no payload has more than 1 MiB.
pub read_message-write_frames :
    (ms : List Message) (rest : Bytes)
    → All IsSendable ms
    → (read_frames (length ms) (write_frames (map frame_of ms) [] ++ rest)
        ≡ ok (map frame_of ms, rest))
      × All (λ (m : Message). read_message (frame_of m) ≡ ok m) ms
read_message-write_frames ms rest v = (
  rw length-frames at (read_frames-write_frames (map frame_of ms) rest (All-frame_of ms v)),
  All-read_message ms v,
)

-- The four messages between two nodes are read back from their bytes, whatever follows. Every field
-- fits its place.
pub device_messages-round :
    (init : HandshakeInit) (complete : HandshakeComplete) (message : DeviceMessage)
    (response : DeviceMessageResponse) (rest : Bytes)
    → HandshakeInit.IsValid init
    → HandshakeComplete.IsValid complete
    → DeviceMessage.IsValid message
    → DeviceMessageResponse.IsValid response
    → (HandshakeInit.from_bytes (HandshakeInit.to_bytes init ++ rest) ≡ ok init)
      × (HandshakeComplete.from_bytes (HandshakeComplete.to_bytes complete ++ rest) ≡ ok complete)
      × (DeviceMessage.from_bytes (DeviceMessage.to_bytes message ++ rest) ≡ ok message)
      × (DeviceMessageResponse.from_bytes (DeviceMessageResponse.to_bytes response ++ rest)
          ≡ ok response)
device_messages-round init complete message response rest a b c d = (
  HandshakeInit.handshake_init_from_bytes-to_bytes init rest a,
  HandshakeComplete.handshake_complete_from_bytes-to_bytes complete rest b,
  DeviceMessage.device_message_from_bytes-to_bytes message rest c,
  DeviceMessageResponse.device_message_response_from_bytes-to_bytes response rest d,
)
