-- ===== src/Proto/Tests.antt =====
-- The properties of bhumi-proto/src/lib.rs at concrete messages.
use bhumi.Base.{
  ℕ, zero, suc, ◌≡◌, refl, [], ◌∷◌, ◌++◌, Bool, true, false, ◌&&◌, arith, ltb, length, ok, err,
  panic, ◌≢◌, ◌≤◌, ◌*◌, invalid_data, List, map, All,
}
use bhumi.Proto.Buffer.{Bytes, AreBytes, be16, be32}
use bhumi.Proto.Hello
use bhumi.Proto.Hello.{Hello}
use bhumi.Proto.IAm
use bhumi.Proto.IAm.{IAm}
use bhumi.Proto.Send
use bhumi.Proto.Send.{Send}
use bhumi.Proto.Deliver
use bhumi.Proto.Deliver.{Deliver}
use bhumi.Proto.Ack
use bhumi.Proto.Ack.{Ack}
use bhumi.Proto.SendResult
use bhumi.Proto.SendResult.{SendResult}
use bhumi.Proto.UpdateCommits
use bhumi.Proto.UpdateCommits.{UpdateCommits}
use bhumi.Proto.HandshakeInit
use bhumi.Proto.HandshakeInit.{HandshakeInit}
use bhumi.Proto.HandshakeComplete
use bhumi.Proto.HandshakeComplete.{HandshakeComplete}
use bhumi.Proto.DeviceMessage
use bhumi.Proto.DeviceMessage.{DeviceMessage}
use bhumi.Proto.DeviceMessageResponse
use bhumi.Proto.DeviceMessageResponse.{DeviceMessageResponse}
use bhumi.Proto.Utf8.{is_utf8}
use bhumi.Proto.Responses
use bhumi.Proto.Responses.{RecentResponse}
use bhumi.Proto.Frame.{Frame, write_to, read_from, write_frame, read_frame}
use bhumi.Proto.Frame.Stream
use bhumi.Proto.Frame.Stream.{read_frames, write_frames}
use bhumi.Proto.Frame
use bhumi.Proto.Message.{
  Message, frame_of, read_message, read_message-write_frames, device_messages-round,
}
use bhumi.Proto.Total.{decoders-ne-panic}

-- `n` bytes `b`.
abbrev pub fill : ℕ → ℕ → Bytes
fill b zero = []
fill b (suc n) = b ∷ fill b n

abbrev is_bytes : Bytes → Bool
is_bytes [] = true
is_bytes (b ∷ bs) = ltb b 256 && is_bytes bs

pub is_bytes-AreBytes : (bs : Bytes) → is_bytes bs ≡ true → AreBytes bs
is_bytes-AreBytes [] h = tt
is_bytes-AreBytes (b ∷ bs) h = (ground (arith, h), is_bytes-AreBytes bs (ground (arith, h)))

abbrev pub hello' : Hello
hello' = record { version = 1; nonce = 7; max_payload_size = 65536 }

pub hello-IsValid : Hello.IsValid hello'
hello-IsValid = record {
  version_size = omega arith;
  nonce_size = omega arith;
  max_payload_size_size = omega arith;
}

hello_from_bytes-to_bytes_example : Hello.from_bytes (Hello.to_bytes hello' ++ 9 ∷ []) ≡ ok hello'
hello_from_bytes-to_bytes_example = Hello.hello_from_bytes-to_bytes hello' (9 ∷ []) hello-IsValid

abbrev pub i_am' : IAm
i_am' = record {
  id52 = fill 1 32;
  signature = fill 2 64;
  commits = fill 3 32 ∷ fill 4 32 ∷ [];
  recent_responses = record { preimage = fill 5 32; response = 6 ∷ 7 ∷ [] } ∷ [];
}

pub i_am-IsValid : IAm.IsValid i_am'
i_am-IsValid = record {
  id52_size = omega arith;
  signature_size = refl;
  commit_size = (refl, (refl, tt));
  commit_count = omega arith;
  responses = (record { preimage_size = refl; response_size = omega arith }, tt);
  response_count = omega arith;
}

i_am_from_bytes-to_bytes_example : IAm.from_bytes (IAm.to_bytes i_am' ++ 9 ∷ []) ≡ ok i_am'
i_am_from_bytes-to_bytes_example = IAm.i_am_from_bytes-to_bytes i_am' (9 ∷ []) i_am-IsValid

abbrev i_am_wire : Bytes
i_am_wire = IAm.to_bytes i_am' ++ 9 ∷ []

i_am_from_bytes-IsPrefix_example : (rest : Bytes) × (IAm.to_bytes i_am' ++ rest ≡ i_am_wire)
unfolding IAm.to_bytes be16 be32 Responses.response_bytes
i_am_from_bytes-IsPrefix_example =
    IAm.i_am_from_bytes-IsPrefix i_am_wire i_am' (is_bytes-AreBytes i_am_wire refl)
      (IAm.i_am_from_bytes-to_bytes i_am' (9 ∷ []) i_am-IsValid)

abbrev pub send' : Send
send' = record { to_id52 = fill 1 32; preimage = fill 2 32; payload = 3 ∷ 4 ∷ [] }

pub send-IsValid : Send.IsValid send'
send-IsValid = record { id52_size = refl; preimage_size = refl; payload_size = omega arith }

send_from_bytes-to_bytes_example : Send.from_bytes (Send.to_bytes send' ++ 9 ∷ []) ≡ ok send'
send_from_bytes-to_bytes_example = Send.send_from_bytes-to_bytes send' (9 ∷ []) send-IsValid

abbrev send_wire : Bytes
send_wire = Send.to_bytes send' ++ 9 ∷ []

send_from_bytes-IsPrefix_example : (rest : Bytes) × (Send.to_bytes send' ++ rest ≡ send_wire)
unfolding Send.to_bytes be16 be32
send_from_bytes-IsPrefix_example =
    Send.send_from_bytes-IsPrefix send_wire send' (is_bytes-AreBytes send_wire refl)
      (Send.send_from_bytes-to_bytes send' (9 ∷ []) send-IsValid)

abbrev pub deliver' : Deliver
deliver' = record { msg_id = 9; preimage = fill 2 32; payload = 3 ∷ 4 ∷ [] }

pub deliver-IsValid : Deliver.IsValid deliver'
deliver-IsValid = record {
  msg_id_size = omega arith;
  preimage_size = refl;
  payload_size = omega arith;
}

deliver_from_bytes-to_bytes_example :
    Deliver.from_bytes (Deliver.to_bytes deliver' ++ 9 ∷ []) ≡ ok deliver'
deliver_from_bytes-to_bytes_example =
    Deliver.deliver_from_bytes-to_bytes deliver' (9 ∷ []) deliver-IsValid

abbrev pub ack' : Ack
ack' = record { msg_id = 9; payload = 3 ∷ [] }

pub ack-IsValid : Ack.IsValid ack'
ack-IsValid = record { msg_id_size = omega arith; payload_size = omega arith }

ack_from_bytes-to_bytes_example : Ack.from_bytes (Ack.to_bytes ack' ++ 9 ∷ []) ≡ ok ack'
ack_from_bytes-to_bytes_example = Ack.ack_from_bytes-to_bytes ack' (9 ∷ []) ack-IsValid

abbrev pub send_result' : SendResult
send_result' = record { status = 0; payload = 3 ∷ [] }

pub send_result-IsValid : SendResult.IsValid send_result'
send_result-IsValid = record { status_size = omega arith; payload_size = omega arith }

send_result_from_bytes-to_bytes_example :
    SendResult.from_bytes (SendResult.to_bytes send_result' ++ 9 ∷ []) ≡ ok send_result'
send_result_from_bytes-to_bytes_example =
    SendResult.send_result_from_bytes-to_bytes send_result' (9 ∷ []) send_result-IsValid

abbrev pub update_commits' : UpdateCommits
update_commits' = record { commits = fill 3 32 ∷ fill 4 32 ∷ [] }

pub update_commits-IsValid : UpdateCommits.IsValid update_commits'
update_commits-IsValid = record { commit_size = (refl, (refl, tt)); commit_count = omega arith }

update_commits_from_bytes-to_bytes_example :
    UpdateCommits.from_bytes (UpdateCommits.to_bytes update_commits' ++ 9 ∷ []) ≡ ok update_commits'
update_commits_from_bytes-to_bytes_example =
    UpdateCommits.update_commits_from_bytes-to_bytes update_commits' (9 ∷ []) update_commits-IsValid

abbrev pub handshake_init' : HandshakeInit
handshake_init' = record {
  sender_id52 = fill 1 32;
  preimage_for_peer = fill 2 32;
  relay_url = 0x68 ∷ 0x69 ∷ [];
}

pub handshake_init-IsValid : HandshakeInit.IsValid handshake_init'
unfolding is_utf8
handshake_init-IsValid = record {
  id52_size = refl;
  preimage_size = refl;
  url_utf8 = refl;
  url_size = omega arith;
}

handshake_init_from_bytes-to_bytes_example :
    HandshakeInit.from_bytes (HandshakeInit.to_bytes handshake_init' ++ 9 ∷ []) ≡ ok handshake_init'
handshake_init_from_bytes-to_bytes_example =
    HandshakeInit.handshake_init_from_bytes-to_bytes handshake_init' (9 ∷ []) handshake_init-IsValid

abbrev handshake_init_wire : Bytes
handshake_init_wire = HandshakeInit.to_bytes handshake_init' ++ 9 ∷ []

handshake_init_from_bytes-IsPrefix_example :
    (rest : Bytes) × (HandshakeInit.to_bytes handshake_init' ++ rest ≡ handshake_init_wire)
unfolding HandshakeInit.to_bytes be16 be32
handshake_init_from_bytes-IsPrefix_example =
    HandshakeInit.handshake_init_from_bytes-IsPrefix handshake_init_wire handshake_init'
      (is_bytes-AreBytes handshake_init_wire refl)
      (HandshakeInit.handshake_init_from_bytes-to_bytes handshake_init' (9 ∷ [])
        handshake_init-IsValid)

abbrev pub handshake_complete' : HandshakeComplete
handshake_complete' = record {
  status = 0;
  preimage_for_peer = fill 2 32;
  relay_url = 0x68 ∷ 0x69 ∷ [];
}

pub handshake_complete-IsValid : HandshakeComplete.IsValid handshake_complete'
unfolding is_utf8
handshake_complete-IsValid = record {
  status_size = omega arith;
  preimage_size = refl;
  url_utf8 = refl;
  url_size = omega arith;
}

handshake_complete_from_bytes-to_bytes_example :
    HandshakeComplete.from_bytes (HandshakeComplete.to_bytes handshake_complete' ++ 9 ∷ [])
    ≡ ok handshake_complete'
handshake_complete_from_bytes-to_bytes_example =
    HandshakeComplete.handshake_complete_from_bytes-to_bytes handshake_complete' (9 ∷ [])
      handshake_complete-IsValid

abbrev pub device_message' : DeviceMessage
device_message' = record { content_type = 0; relay_url = 0x68 ∷ 0x69 ∷ []; content = 1 ∷ 2 ∷ [] }

pub device_message-IsValid : DeviceMessage.IsValid device_message'
unfolding is_utf8
device_message-IsValid = record {
  content_type_size = omega arith;
  url_utf8 = refl;
  url_size = omega arith;
  content_size = omega arith;
}

device_message_from_bytes-to_bytes_example :
    DeviceMessage.from_bytes (DeviceMessage.to_bytes device_message' ++ 9 ∷ []) ≡ ok device_message'
device_message_from_bytes-to_bytes_example =
    DeviceMessage.device_message_from_bytes-to_bytes device_message' (9 ∷ []) device_message-IsValid

abbrev device_message_wire : Bytes
device_message_wire = DeviceMessage.to_bytes device_message' ++ 9 ∷ []

device_message_from_bytes-IsPrefix_example :
    (rest : Bytes) × (DeviceMessage.to_bytes device_message' ++ rest ≡ device_message_wire)
unfolding DeviceMessage.to_bytes be16 be32
device_message_from_bytes-IsPrefix_example =
    DeviceMessage.device_message_from_bytes-IsPrefix device_message_wire device_message'
      (is_bytes-AreBytes device_message_wire refl)
      (DeviceMessage.device_message_from_bytes-to_bytes device_message' (9 ∷ [])
        device_message-IsValid)

abbrev pub device_message_response' : DeviceMessageResponse
device_message_response' = record {
  status = 0;
  next_preimage = fill 2 32;
  relay_url = 0x68 ∷ [];
  content = 1 ∷ 2 ∷ [];
}

pub device_message_response-IsValid : DeviceMessageResponse.IsValid device_message_response'
unfolding is_utf8
device_message_response-IsValid = record {
  status_size = omega arith;
  preimage_size = refl;
  url_utf8 = refl;
  url_size = omega arith;
  content_size = omega arith;
}

device_message_response_from_bytes-to_bytes_example :
    DeviceMessageResponse.from_bytes
      (DeviceMessageResponse.to_bytes device_message_response' ++ 9 ∷ [])
    ≡ ok device_message_response'
device_message_response_from_bytes-to_bytes_example =
    DeviceMessageResponse.device_message_response_from_bytes-to_bytes device_message_response'
      (9 ∷ []) device_message_response-IsValid

abbrev device_message_response_wire : Bytes
device_message_response_wire = DeviceMessageResponse.to_bytes device_message_response' ++ 9 ∷ []

device_message_response_from_bytes-IsPrefix_example :
    (rest : Bytes) × (DeviceMessageResponse.to_bytes device_message_response' ++ rest
      ≡ device_message_response_wire)
unfolding DeviceMessageResponse.to_bytes be16 be32
device_message_response_from_bytes-IsPrefix_example =
    DeviceMessageResponse.device_message_response_from_bytes-IsPrefix device_message_response_wire
      device_message_response' (is_bytes-AreBytes device_message_response_wire refl)
      (DeviceMessageResponse.device_message_response_from_bytes-to_bytes device_message_response'
        (9 ∷ []) device_message_response-IsValid)

abbrev messages : List Message
messages = Message.hello hello' ∷ Message.deliver deliver' ∷ Message.ack ack' ∷ []

read_message-write_frames_example :
    (read_frames (length messages) (write_frames (map frame_of messages) [] ++ 9 ∷ [])
      ≡ ok (map frame_of messages, 9 ∷ []))
    × All (λ (m : Message). read_message (frame_of m) ≡ ok m) messages
unfolding frame_of Frame.hello Frame.deliver Frame.ack Hello.to_bytes Deliver.to_bytes Ack.to_bytes
    be16 be32
read_message-write_frames_example = read_message-write_frames messages (9 ∷ []) (
  (hello-IsValid, omega arith),
  ((deliver-IsValid, omega arith), ((ack-IsValid, omega arith), tt)),
)

device_messages-round_example :
    (HandshakeInit.from_bytes (HandshakeInit.to_bytes handshake_init' ++ 9 ∷ [])
      ≡ ok handshake_init')
    × (HandshakeComplete.from_bytes (HandshakeComplete.to_bytes handshake_complete' ++ 9 ∷ [])
        ≡ ok handshake_complete')
    × (DeviceMessage.from_bytes (DeviceMessage.to_bytes device_message' ++ 9 ∷ [])
        ≡ ok device_message')
    × (DeviceMessageResponse.from_bytes
          (DeviceMessageResponse.to_bytes device_message_response' ++ 9 ∷ [])
        ≡ ok device_message_response')
device_messages-round_example =
    device_messages-round handshake_init' handshake_complete' device_message'
      device_message_response' (9 ∷ []) handshake_init-IsValid handshake_complete-IsValid
      device_message-IsValid device_message_response-IsValid

decoders-ne-panic_example :
    (Hello.from_bytes (1 ∷ 2 ∷ []) ≢ panic)
    × (IAm.from_bytes (1 ∷ 2 ∷ []) ≢ panic)
    × (Send.from_bytes (1 ∷ 2 ∷ []) ≢ panic)
    × (Deliver.from_bytes (1 ∷ 2 ∷ []) ≢ panic)
    × (Ack.from_bytes (1 ∷ 2 ∷ []) ≢ panic)
    × (SendResult.from_bytes (1 ∷ 2 ∷ []) ≢ panic)
    × (UpdateCommits.from_bytes (1 ∷ 2 ∷ []) ≢ panic)
    × (HandshakeInit.from_bytes (1 ∷ 2 ∷ []) ≢ panic)
    × (HandshakeComplete.from_bytes (1 ∷ 2 ∷ []) ≢ panic)
    × (DeviceMessage.from_bytes (1 ∷ 2 ∷ []) ≢ panic)
    × (DeviceMessageResponse.from_bytes (1 ∷ 2 ∷ []) ≢ panic)
    × (read_from (1 ∷ 2 ∷ []) ≢ panic)
decoders-ne-panic_example = decoders-ne-panic (1 ∷ 2 ∷ [])

-- Frames.
abbrev ack_frame : Frame
ack_frame = record { msg_type = 5; payload = 1 ∷ 2 ∷ [] }

abbrev empty_frame : Frame
empty_frame = record { msg_type = 6; payload = [] }

ack_frame-IsValid : Stream.IsValid ack_frame
ack_frame-IsValid = record { type_size = omega arith; payload_size = omega arith }

empty_frame-IsValid : Stream.IsValid empty_frame
empty_frame-IsValid = record { type_size = omega arith; payload_size = omega arith }

read_frames-write_frames_example :
    read_frames 2 (write_frames (ack_frame ∷ empty_frame ∷ []) [] ++ 9 ∷ [])
    ≡ ok (ack_frame ∷ empty_frame ∷ [], 9 ∷ [])
read_frames-write_frames_example =
    Stream.read_frames-write_frames (ack_frame ∷ empty_frame ∷ []) (9 ∷ [])
      (ack_frame-IsValid, (empty_frame-IsValid, tt))

read_from-IsPrefix_example :
    (write_to ack_frame [] ++ 9 ∷ [] ≡ write_to ack_frame [] ++ 9 ∷ [])
    × (length ack_frame.payload ≤ 1024 * 1024)
unfolding write_to be16 be32
read_from-IsPrefix_example =
    Stream.read_from-IsPrefix (write_to ack_frame [] ++ 9 ∷ []) (9 ∷ []) ack_frame
      (is_bytes-AreBytes (write_to ack_frame [] ++ 9 ∷ []) refl)
      (Stream.read_from-write_to ack_frame (9 ∷ []) ack_frame-IsValid)

read_frame-read_from_example :
    (read_frame (1 ∷ 2 ∷ []) ≡ read_from (1 ∷ 2 ∷ []))
    × (write_frame [] ack_frame ≡ write_to ack_frame [])
read_frame-read_from_example = Stream.read_frame-read_from (1 ∷ 2 ∷ []) ack_frame []

unfoldable zeroes : ℕ → Bytes
zeroes zero = []
zeroes (suc n) = 0 ∷ zeroes n

length-zeroes : (n : ℕ) → length (zeroes n) ≡ n
unfolding zeroes
length-zeroes zero = refl
length-zeroes (suc n) = ground (arith, length-zeroes n)

-- One byte more than 1 MiB.
abbrev large_frame : Frame
large_frame = record { msg_type = 5; payload = zeroes 1048577 }

read_from-too_large_example :
    read_from (write_to large_frame [] ++ []) ≡ err (invalid_data "frame too large")
read_from-too_large_example =
    Stream.read_from-too_large large_frame [] (omega arith) (omega (arith, length-zeroes 1048577))
      (omega (arith, length-zeroes 1048577))

-- Which bytes are UTF-8.
utf8_two_bytes : is_utf8 (0x68 ∷ 0xC3 ∷ 0xA9 ∷ []) ≡ true
unfolding is_utf8
utf8_two_bytes = refl

utf8_cut : is_utf8 (0xC3 ∷ []) ≡ false
unfolding is_utf8
utf8_cut = refl

utf8_overlong : is_utf8 (0xE0 ∷ 0x80 ∷ 0x80 ∷ []) ≡ false
unfolding is_utf8
utf8_overlong = refl
