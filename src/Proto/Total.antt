-- ===== src/Proto/Total.antt =====
-- The decoders of bhumi-proto/src/lib.rs where a `usize` has 64 bits. With 32 bits see Narrow.antt.
use bhumi.Base.{◌≢◌, panic}
use bhumi.Proto.Buffer.{Bytes}
use bhumi.Proto.Hello
use bhumi.Proto.IAm
use bhumi.Proto.Send
use bhumi.Proto.Deliver
use bhumi.Proto.Ack
use bhumi.Proto.SendResult
use bhumi.Proto.UpdateCommits
use bhumi.Proto.HandshakeInit
use bhumi.Proto.HandshakeComplete
use bhumi.Proto.DeviceMessage
use bhumi.Proto.DeviceMessageResponse
use bhumi.Proto.Frame.{read_from}
use bhumi.Proto.Frame.Stream.{read_from-ne-panic}

-- Where a `usize` has 64 bits, so that a length in the bytes, a u32, plus an offset does not wrap: on
-- any bytes, no decoder of a message or of a frame slices or indexes outside its buffer; each returns
-- a value or an error.
pub decoders-ne-panic :
    (buf : Bytes)
    → (Hello.from_bytes buf ≢ panic)
      × (IAm.from_bytes buf ≢ panic)
      × (Send.from_bytes buf ≢ panic)
      × (Deliver.from_bytes buf ≢ panic)
      × (Ack.from_bytes buf ≢ panic)
      × (SendResult.from_bytes buf ≢ panic)
      × (UpdateCommits.from_bytes buf ≢ panic)
      × (HandshakeInit.from_bytes buf ≢ panic)
      × (HandshakeComplete.from_bytes buf ≢ panic)
      × (DeviceMessage.from_bytes buf ≢ panic)
      × (DeviceMessageResponse.from_bytes buf ≢ panic)
      × (read_from buf ≢ panic)
decoders-ne-panic buf = (
  Hello.from_bytes-ne-panic buf,
  IAm.from_bytes-ne-panic buf,
  Send.from_bytes-ne-panic buf,
  Deliver.from_bytes-ne-panic buf,
  Ack.from_bytes-ne-panic buf,
  SendResult.from_bytes-ne-panic buf,
  UpdateCommits.from_bytes-ne-panic buf,
  HandshakeInit.from_bytes-ne-panic buf,
  HandshakeComplete.from_bytes-ne-panic buf,
  DeviceMessage.from_bytes-ne-panic buf,
  DeviceMessageResponse.from_bytes-ne-panic buf,
  read_from-ne-panic buf,
)
