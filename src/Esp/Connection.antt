-- ===== src/Esp/Connection.antt =====
-- The switch's connection, examples/esp32-smart-switch/src/connection.rs, over a stream as in
-- Node/Connection.antt. A `usize` has 32 bits. An `anyhow` error is the `io` error with its text, and
-- the text does not have the number of the frame's type behind it.
pub mod Same
use bhumi.Base.{
  ℕ, List, [], ◌∷◌, ◌++◌, not, none, some, if◌then◌else◌, nat_eq, Result, ok, err, panic, ◌>>=◌,
  invalid_data, concat,
}
use bhumi.Proto.Buffer.{Bytes, be32}
use bhumi.Proto.Hello
use bhumi.Proto.IAm
use bhumi.Proto.Deliver
use bhumi.Proto.Ack.{Ack}
use bhumi.Proto.UpdateCommits.{UpdateCommits}
use bhumi.Proto.Frame
use bhumi.Proto.Frame.{Frame, write_to, read_from, msg_hello, msg_deliver}
use bhumi.Node.Connection.{SecretKey, Connection, IncomingMessage, parse_device_msg_type}

unfoldable pub connect : SecretKey → List Bytes → Connection → Result Connection
connect key commits conn = do
  (frame, incoming) ← read_from conn.incoming
  if not (nat_eq frame.msg_type msg_hello)
      then err (invalid_data "expected HELLO, got msg_type")
      else do
        hello ← Hello.from_bytes frame.payload
        let to_sign = concat (be32 hello.nonce ∷ key.public_key ∷ [])
        let i_am = IAm.new key.public_key (key.sign to_sign) commits
        ok (record { incoming = incoming; written = write_to (Frame.i_am i_am) conn.written })

unfoldable pub receive : Connection → Result (IncomingMessage × Connection)
receive conn = do
  (frame, incoming) ← read_from conn.incoming
  if not (nat_eq frame.msg_type msg_deliver)
      then err (invalid_data "expected DELIVER, got msg_type")
      else do
        deliver ← Deliver.from_bytes_32 frame.payload
        ok (
          record {
            msg_id = deliver.msg_id;
            preimage = deliver.preimage;
            msg_type = parse_device_msg_type deliver.payload;
            payload = deliver.payload;
          },
          record conn { incoming = incoming },
        )

unfoldable pub send_ack : ℕ → Bytes → Connection → Connection
send_ack msg_id payload conn =
    let m : Ack = record { msg_id = msg_id; payload = payload } in
    record conn { written = write_to (Frame.ack m) conn.written }

unfoldable pub update_commits : List Bytes → Connection → Connection
update_commits commits conn =
    let m : UpdateCommits = record { commits = commits } in
    record conn { written = write_to (Frame.update_commits m) conn.written }
