-- ===== src/Node/Server.antt =====
-- A node that serves, bhumi-node/src/node.rs: `run` and what it calls. The errors that leave `run` are
-- those of `std::io`. Each message is handled at a moment: the preimage that `random_bytes` would
-- return, and the time.
pub mod Messages
pub mod Saved
pub mod Denied
use bhumi.Base.{
  ℕ, zero, suc, List, [], ◌∷◌, ◌++◌, Bool, true, false, not, Option, none, some, if◌then◌else◌,
  nat_eq, Result, ok, err, panic, ◌>>=◌, IoError, invalid_data, permission_denied, unexpected_eof,
  ascii,
}
use bhumi.Proto.Buffer.{Bytes}
use bhumi.Proto.HandshakeInit
use bhumi.Proto.HandshakeInit.{HandshakeInit, dev_handshake_init}
use bhumi.Proto.HandshakeComplete
use bhumi.Proto.HandshakeComplete.{HandshakeComplete, handshake_accepted, handshake_rejected}
use bhumi.Node.Connection
use bhumi.Node.Connection.{Connection, IncomingMessage, connect, receive, send_ack, update_commits}
use bhumi.Node.State.{
  DeviceState, PeerRecord, PreimageLookup, invite, peer, complete_handshake_as_inviter,
  consume_and_renew_preimage, lookup_preimage,
}
use bhumi.Node.Core.{
  Request, Response, CommandContext, good, bad, Json, Outside, Node, err_response, save,
  get_commits,
}
use bhumi.Node.Command.{dispatch_command}

pub record Moment : Type 0 where
  pub fresh : Bytes
  pub now : ℕ

-- `[0u8; 32]`.
abbrev pub zeros : ℕ → Bytes
zeros zero = []
zeros (suc n) = 0 ∷ zeros n

abbrev pub unwrap_or_default : Option Bytes → Bytes
unwrap_or_default none = []
unwrap_or_default (some v) = v

-- What `handle_handshake` does with the answer of the state.
unfoldable pub answer_handshake :
    {V S : Type 0}
    → ℕ
    → DeviceState × Option (Bytes × Bytes)
    → Node V S
    → Connection
    → Node V S × Connection
unfolding save
answer_handshake msg_id (s, some (new_preimage, new_commit)) n conn =
    let n = save (record n { state = s }) in
    let complete : HandshakeComplete = record {
      status = handshake_accepted;
      preimage_for_peer = new_preimage;
      relay_url = unwrap_or_default n.relay_addr;
    } in
    (
      n,
      update_commits (new_commit ∷ []) (send_ack msg_id (HandshakeComplete.to_bytes complete) conn),
    )
answer_handshake msg_id (s, none) n conn =
    let complete : HandshakeComplete = record {
      status = handshake_rejected;
      preimage_for_peer = zeros 32;
      relay_url = [];
    } in
    (record n { state = s }, send_ack msg_id (HandshakeComplete.to_bytes complete) conn)

unfoldable pub handle_handshake :
    {V S : Type 0}
    → Outside V
    → Moment
    → ℕ
    → Bytes
    → Bytes
    → Node V S
    → Connection
    → Result (Node V S × Connection)
unfolding answer_handshake
handle_handshake o t msg_id preimage payload n conn = do
  init ← HandshakeInit.from_bytes payload
  ok (
      answer_handshake msg_id
        (complete_handshake_as_inviter o.sha256 t.fresh t.now preimage init.sender_id52
          init.preimage_for_peer (some init.relay_url) n.state)
        n conn)

-- The preimage is renewed, and the answer goes out.
unfoldable pub renew_and_ack :
    {V S : Type 0}
    → ℕ
    → Bytes
    → DeviceState × Option (Bytes × Bytes)
    → Node V S
    → Connection
    → Node V S × Connection
unfolding save
renew_and_ack msg_id response_bytes (s, some (new_preimage, new_commit)) n conn = (
  save (record n { state = s }),
  send_ack msg_id (response_bytes ++ new_preimage) (update_commits (new_commit ∷ []) conn),
)
renew_and_ack msg_id response_bytes (s, none) n conn =
    (record n { state = s }, send_ack msg_id response_bytes conn)

unfoldable pub respond :
    {V S : Type 0} → Outside V → Moment → CommandContext → Bytes → Node V S → Node V S × Response V
respond o t ctx payload n = elim (o.json.read_request payload) [
  | good req ↦ dispatch_command o t.fresh t.now ctx req n
  | bad e ↦ (n, err_response (ascii "invalid request: " ++ e))
]

-- The peer is known: the request is read and dispatched, with `t` for an invite that it may create,
-- and the preimage is renewed, with `t'`.
unfoldable pub serve :
    {V S : Type 0}
    → Outside V
    → Moment
    → Moment
    → ℕ
    → Bytes
    → Bytes
    → Bytes
    → PeerRecord
    → Node V S
    → Connection
    → Node V S × Connection
unfolding respond renew_and_ack
serve o t t' msg_id preimage payload id52 p n conn =
    let ctx : CommandContext = record { peer_alias = p.alias; peer_id52 = id52; role = p.role } in
    let (n, response) = respond o t ctx payload n in
    renew_and_ack msg_id (o.json.write_response response)
      (consume_and_renew_preimage o.sha256 t'.fresh t'.now id52 preimage n.state) n conn

unfoldable pub handle_command :
    {V S : Type 0}
    → Outside V
    → Moment
    → Moment
    → ℕ
    → Bytes
    → Bytes
    → Node V S
    → Connection
    → Node V S × Connection
unfolding serve
handle_command o t t' msg_id preimage payload n conn = elim (lookup_preimage preimage n.state) [
  | some (peer id52 p) ↦ serve o t t' msg_id preimage payload id52 p n conn
  | some (invite _) ↦
      (n, send_ack msg_id (o.json.write_response (err_response (ascii "unauthorized"))) conn)
  | none ↦ (n, send_ack msg_id (o.json.write_response (err_response (ascii "unauthorized"))) conn)
]

-- One message, with `msg.msg_type == Some(DEV_HANDSHAKE_INIT)`.
unfoldable pub handle_message :
    {V S : Type 0}
    → Outside V
    → Moment
    → Moment
    → IncomingMessage
    → Node V S
    → Connection
    → Result (Node V S × Connection)
unfolding handle_handshake handle_command
handle_message o t t' msg n conn = elim msg.msg_type [
  | some b ↦
      if nat_eq b dev_handshake_init
      then handle_handshake o t msg.msg_id msg.preimage msg.payload n conn
      else ok (handle_command o t t' msg.msg_id msg.preimage msg.payload n conn)
  | none ↦ ok (handle_command o t t' msg.msg_id msg.preimage msg.payload n conn)
]

-- How `run` stands: the moments that were given are over, it has returned, or it has failed.
pub data Status : Type 0 where
  running : Status
  returned : Status
  failed : IoError → Status
  panicked : Status

-- The loop breaks at the end of the stream, and fails with every other error.
unfoldable pub stop : IoError → Status
stop unexpected_eof = returned
stop (invalid_data e) = failed (invalid_data e)
stop (permission_denied e) = failed (permission_denied e)

unfoldable pub run_loop :
    {V S : Type 0}
    → Outside V
    → List (Moment × Moment)
    → Node V S
    → Connection
    → Node V S × Connection × Status
unfolding stop
run_loop o [] n conn = (n, conn, running)
run_loop o ((t, t') ∷ ts) n conn = elim (receive conn) [
  | err e ↦ (n, conn, stop e)
  | panic ↦ (n, conn, panicked)
  | ok (msg, conn') ↦ elim (handle_message o t t' msg n conn') [
    | err e ↦ (n, conn', failed e)
    | panic ↦ (n, conn', panicked)
    | ok (n', conn'') ↦ run_loop o ts n' conn''
  ]
]

unfoldable pub run :
    {V S : Type 0}
    → Outside V
    → List (Moment × Moment)
    → Bytes
    → Node V S
    → Connection
    → Node V S × Connection × Status
unfolding run_loop
run o ts relay_addr n conn =
    let n = record n { relay_addr = some relay_addr } in
    elim (connect n.secret_key (get_commits o n) conn) [
      | err e ↦ (n, conn, failed e)
      | panic ↦ (n, conn, panicked)
      | ok conn ↦ run_loop o ts n conn
    ]
