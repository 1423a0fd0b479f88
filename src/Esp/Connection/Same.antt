-- ===== src/Esp/Connection/Same.antt =====
-- The connection of examples/esp32-smart-switch/src/connection.rs and that of
-- bhumi-node/src/connection.rs.
use bhumi.Base.{ℕ, List, [], ◌≡◌, ◌↔◌, refl, arith, ok, nat_eq, Result-cases, Bool-cases, inl, inr}
use bhumi.Proto.Buffer.{Bytes, AreBytes}
use bhumi.Proto.Deliver
use bhumi.Proto.Narrow.{from_bytes_32-from_bytes}
use bhumi.Proto.Frame.{write_to, read_from, write_frame, read_frame, msg_deliver}
use bhumi.Proto.Frame.Stream.{read_from_payload, read_frame-read_from}
use bhumi.Node.Connection
use bhumi.Node.Connection.{SecretKey, Connection, IncomingMessage}
use bhumi.Esp.Connection as Esp

connect-same :
    (key : SecretKey) (commits : List Bytes) (conn left : Connection)
    → (Esp.connect key commits conn ≡ ok left) ↔ (Connection.connect key commits conn ≡ ok left)
unfolding Esp.connect Connection.connect Connection.handshake Connection.identify
    Connection.next_frame Connection.put_frame read_frame read_from write_frame write_to
connect-same key commits conn left = (λ e. ground arith, λ e. ground arith)

receive-same :
    (conn left : Connection) (msg : IncomingMessage)
    → AreBytes conn.incoming
    → (Esp.receive conn ≡ ok (msg, left)) ↔ (Connection.receive conn ≡ ok (msg, left))
unfolding Esp.receive Connection.receive Connection.receive_deliver Connection.next_frame
receive-same conn left msg v =
    let same = (read_frame-read_from conn.incoming (record { msg_type = 0; payload = [] }) []).0 in
    elim (Result-cases (read_from conn.incoming)) [
      | inl ((f, rest), e) ↦
          let (bytes, small) = read_from_payload conn.incoming rest f v e in
          elim (Bool-cases (nat_eq f.msg_type msg_deliver)) [
            | inl t ↦ elim (from_bytes_32-from_bytes f.payload bytes small) [
              | inl g ↦
                  rw
                    (
                      Esp.receive, Connection.receive, Connection.receive_deliver,
                      Connection.next_frame, same, e, t, g,
                    )
                    (elim (Result-cases (Deliver.from_bytes f.payload)) [
                      | inl (m, h) ↦ rw h (λ q. q, λ q. q)
                      | inr (inl (x, h)) ↦ rw h (λ q. q, λ q. q)
                      | inr (inr h) ↦ rw h (λ q. q, λ q. q)
                    ])
              | inr (x, g, h) ↦
                  rw
                    (
                      Esp.receive, Connection.receive, Connection.receive_deliver,
                      Connection.next_frame, same, e, t, g, h,
                    )
                    (λ q. cc, λ q. cc)
            ]
            | inr t ↦
                rw
                  (
                    Esp.receive, Connection.receive, Connection.receive_deliver,
                    Connection.next_frame, same, e, t,
                  )
                  (λ q. cc, λ q. cc)
          ]
      | inr (inl (x, e)) ↦
          rw
            (
              Esp.receive, Connection.receive, Connection.receive_deliver, Connection.next_frame,
              same, e,
            )
            (λ q. cc, λ q. cc)
      | inr (inr e) ↦
          rw
            (
              Esp.receive, Connection.receive, Connection.receive_deliver, Connection.next_frame,
              same, e,
            )
            (λ q. cc, λ q. cc)
    ]

-- The switch and a node do the same on the same stream of bytes. They connect, and they receive a
-- message, in the same cases and with the same result, although a `usize` has 32 bits on the switch
-- and 64 on the node; and they acknowledge and update their commits alike. Where one of them fails so
-- does the other, perhaps in another way.
pub connection-same :
    (key : SecretKey) (commits : List Bytes) (msg_id : ℕ) (payload : Bytes) (msg : IncomingMessage)
    (conn left : Connection)
    → AreBytes conn.incoming
    → ((Esp.connect key commits conn ≡ ok left) ↔ (Connection.connect key commits conn ≡ ok left))
      × ((Esp.receive conn ≡ ok (msg, left)) ↔ (Connection.receive conn ≡ ok (msg, left)))
      × (Esp.send_ack msg_id payload conn ≡ Connection.send_ack msg_id payload conn)
      × (Esp.update_commits commits conn ≡ Connection.update_commits commits conn)
unfolding Esp.send_ack Esp.update_commits Connection.send_ack Connection.update_commits
    Connection.put_frame write_frame write_to
connection-same key commits msg_id payload msg conn left v =
    (connect-same key commits conn left, receive-same conn left msg v, refl, refl)
