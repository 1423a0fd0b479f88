-- ===== src/Node/Connection.antt =====
-- A node's connection to its relay, bhumi-node/src/connection.rs, and what a received message is,
-- bhumi-node/src/lib.rs. A connection is the bytes that its stream has not yet given and the bytes
-- written to it; writes succeed, and so does the TCP connection itself. The text of an error does not have
-- the number of the frame's type behind it.
pub mod Wire
pub mod Handshake
pub mod Exchange
use bhumi.Base.{
  ℕ, List, [], ◌∷◌, ◌++◌, Bool, not, Option, none, some, if◌then◌else◌, nat_eq, Result, ok, err,
  panic, ◌>>=◌, invalid_data, concat,
}
use bhumi.Proto.Buffer.{Bytes, be32}
use bhumi.Proto.Hello
use bhumi.Proto.IAm
use bhumi.Proto.IAm.{IAm}
use bhumi.Proto.Send.{Send}
use bhumi.Proto.Deliver
use bhumi.Proto.Deliver.{Deliver}
use bhumi.Proto.Ack.{Ack}
use bhumi.Proto.SendResult
use bhumi.Proto.SendResult.{SendResult}
use bhumi.Proto.UpdateCommits.{UpdateCommits}
use bhumi.Proto.Frame
use bhumi.Proto.Frame.{Frame, write_frame, read_frame, msg_hello, msg_deliver, msg_send_result}

-- A secret key of the ed25519 library: its public key, and its signature of a message.
pub record SecretKey : Type 0 where
  pub public_key : Bytes
  pub sign : Bytes → Bytes

pub record Connection : Type 0 where
  pub incoming : Bytes
  pub written : Bytes

-- One frame from the stream.
unfoldable pub next_frame : Connection → Result (Frame × Connection)
next_frame conn = do
  (frame, incoming) ← read_frame conn.incoming
  ok (frame, record conn { incoming = incoming })

unfoldable pub put_frame : Frame → Connection → Connection
put_frame frame conn = record conn { written = write_frame conn.written frame }

unfoldable pub connect_anonymous : Connection → Result Connection
unfolding next_frame
connect_anonymous conn = do
  (frame, conn) ← next_frame conn
  if not (nat_eq frame.msg_type msg_hello)
      then err (invalid_data "expected HELLO, got 0x")
      else ok conn

-- What `handshake` answers a HELLO frame.
unfoldable pub identify : SecretKey → List Bytes → Bytes → Connection → Result Connection
unfolding put_frame
identify key commits payload conn = do
  hello ← Hello.from_bytes payload
  let msg = concat (be32 hello.nonce ∷ key.public_key ∷ []) in
      ok (put_frame (Frame.i_am (IAm.new key.public_key (key.sign msg) commits)) conn)

unfoldable pub handshake : SecretKey → List Bytes → Connection → Result Connection
unfolding next_frame identify
handshake key commits conn = do
  (frame, conn) ← next_frame conn
  if not (nat_eq frame.msg_type msg_hello)
      then err (invalid_data "expected HELLO, got 0x")
      else identify key commits frame.payload conn

unfoldable pub connect : SecretKey → List Bytes → Connection → Result Connection
unfolding handshake
connect key commits conn = handshake key commits conn

-- The answer to `send` is the next frame.
unfoldable pub receive_result : Connection → Result (SendResult × Connection)
unfolding next_frame
receive_result conn = do
  (frame, conn) ← next_frame conn
  if not (nat_eq frame.msg_type msg_send_result)
      then err (invalid_data "expected SEND_RESULT, got 0x")
      else do result ← SendResult.from_bytes frame.payload; ok (result, conn)

unfoldable pub send : Bytes → Bytes → Bytes → Connection → Result (SendResult × Connection)
unfolding put_frame receive_result
send to_id52 preimage payload conn =
    let m : Send = record { to_id52 = to_id52; preimage = preimage; payload = payload } in
    receive_result (put_frame (Frame.send m) conn)

unfoldable pub send_ack : ℕ → Bytes → Connection → Connection
unfolding put_frame
send_ack msg_id payload conn =
    let m : Ack = record { msg_id = msg_id; payload = payload } in put_frame (Frame.ack m) conn

unfoldable pub update_commits : List Bytes → Connection → Connection
unfolding put_frame
update_commits commits conn =
    let m : UpdateCommits = record { commits = commits } in put_frame (Frame.update_commits m) conn

unfoldable pub receive_deliver : Connection → Result (Deliver × Connection)
unfolding next_frame
receive_deliver conn = do
  (frame, conn) ← next_frame conn
  if not (nat_eq frame.msg_type msg_deliver)
      then err (invalid_data "expected DELIVER, got 0x")
      else do deliver ← Deliver.from_bytes frame.payload; ok (deliver, conn)

pub record IncomingMessage : Type 0 where
  pub msg_id : ℕ
  pub preimage : Bytes
  pub msg_type : Option ℕ
  pub payload : Bytes

-- `parse_device_msg_type` of bhumi-proto/src/lib.rs.
unfoldable pub parse_device_msg_type : Bytes → Option ℕ
parse_device_msg_type [] = none
parse_device_msg_type (b ∷ buf) = some b

unfoldable pub receive : Connection → Result (IncomingMessage × Connection)
unfolding receive_deliver parse_device_msg_type
receive conn = do
  (deliver, conn) ← receive_deliver conn
  ok (
    record {
      msg_id = deliver.msg_id;
      preimage = deliver.preimage;
      msg_type = parse_device_msg_type deliver.payload;
      payload = deliver.payload;
    },
    conn,
  )
