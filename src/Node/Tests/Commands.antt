-- ===== src/Node/Tests/Commands.antt =====
-- The properties of commands and pairings between two nodes, bhumi-node/src/node.rs.
use bhumi.Base.{
  ℕ, ◌≡◌, ◌⊎◌, refl, ap, [], ◌∷◌, ◌++◌, true, false, none, some, arith, nat_eq, length, ok,
  bytes_eq, bytes_has_eq, nat_has_eq, if◌then◌else◌, ascii,
}
use bhumi.Base.Map
use bhumi.Base.Set
use bhumi.Proto.Buffer.{Bytes, be16}
use bhumi.Proto.HandshakeInit
use bhumi.Proto.HandshakeComplete
use bhumi.Proto.Tests.{fill, hello'}
use bhumi.Proto.SendResult.{SendResult}
use bhumi.Proto.Frame.{write_frame}
use bhumi.Proto.Utf8.{is_utf8}
use bhumi.Relay.Tests.{hash}
use bhumi.Node.State.{
  owner, writer, DeviceState, Base64, parsed, empty, create_invite_token, parse_invite_token,
  consume_and_renew_preimage, lookup_preimage, find_issuer,
}
use bhumi.Node.State.Pairing.{CanSend}
use bhumi.Node.Connection.{SecretKey, Connection, send_ack, update_commits, IncomingMessage}
use bhumi.Node.Core.{
  Request, Response, CommandContext, Outcome, good, bad, Json, Outside, Node, ok_response,
  err_response, save,
}
use bhumi.Node.Command.{dispatch_command, denied}
use bhumi.Node.Command.Access.{SameButApp, is_management, dispatch_command-denied}
use bhumi.Node.Server.{
  Moment, handle_handshake, handle_message, handle_command, serve, respond, renew_and_ack, run,
}
use bhumi.Node.Server.Denied.{IsOfInvite, IsOfPeer, handle_message-IsKnown}
use bhumi.Node.Server.Saved.{IsSaved, run-IsSaved}
use bhumi.Node.Client
use bhumi.Node.Client.{pair, pair_on, take_response, verdict, accept, take_result, done}
use bhumi.Node.Client.Saved.{pair-IsSaved, send-IsSaved}
use bhumi.Node.Exchange.{reply, handle_command-take_response}
use bhumi.Node.Invitation.{
  request, acceptance, relayed, sending, parse_invite_token-create_invite_token,
  pair-handle_handshake,
}
use bhumi.Node.Core
use bhumi.Node.Tests.{key_a, key_b, id_a, id_b, issued, entry_b, state_a, state_b, b_can_send}

-- A small JSON: a request is its command, and a response is one byte.
abbrev pub json : Json Bytes
json = record {
  null = [];
  text = λ b. b;
  truth = λ b. [];
  array = λ vs. [];
  object = λ m. [];
  get = λ name v. none;
  as_str = λ v. some v;
  read_request = λ b. good (record { cmd = b; args = [] });
  write_request = λ r. r.cmd;
  read_response = λ b. if nat_eq (length b) 1 then good (err_response (ascii "no")) else bad [];
  write_response = λ r. 0 ∷ [];
}

abbrev pub base64 : Base64
base64 = record { encode = λ b. b; decode = λ b. some b; decode-encode = λ b. refl }

abbrev pub outside : Outside Bytes
outside = record {
  json = json;
  sha256 = hash;
  base64 = base64;
  hex_encode = λ b. b;
  hex_decode = λ b. some b;
  base32_encode = λ b. b;
  id52_text = λ b. b;
}

abbrev pub node : SecretKey → DeviceState → Node Bytes Bytes
node key s = record {
  secret_key = key;
  state = s;
  saved = s;
  kind = [];
  location = [];
  relay_addr = none;
  handlers = [];
  app_state = [];
}

abbrev pub node_a : Node Bytes Bytes
node_a = node key_a state_a

abbrev pub node_b : Node Bytes Bytes
node_b = node key_b state_b

abbrev idle : Connection
idle = record { incoming = []; written = [] }

abbrev at : ℕ → Bytes → Moment
at now fresh = record { fresh = fresh; now = now }

abbrev ctx : CommandContext
ctx = record { peer_alias = []; peer_id52 = id_b; role = writer }

abbrev list_peers : Request Bytes
list_peers = record { cmd = ascii "peers/list"; args = [] }

dispatch_command-denied_example :
    SameButApp node_a (dispatch_command outside [] 0 ctx list_peers node_a).0
    × (is_management list_peers.cmd ≡ true
        → dispatch_command outside [] 0 ctx list_peers node_a ≡ (node_a, denied))
dispatch_command-denied_example = dispatch_command-denied outside [] 0 ctx list_peers node_a refl

abbrev message : IncomingMessage
message = record { msg_id = 1; preimage = issued; msg_type = none; payload = ascii "status" }

bool_apart : ¬ (false ≡ true)
bool_apart e = cc

-- A node whose file is behind, so that the message changes the node.
abbrev behind : Node Bytes Bytes
behind = record node_a { saved = empty }

handle_message-IsKnown_example : IsOfInvite issued behind.state ⊎ IsOfPeer issued behind.state
unfolding handle_message handle_command lookup_preimage find_issuer Map.lookup Set.contains bytes_eq
    serve respond renew_and_ack consume_and_renew_preimage save Map.insert dispatch_command
handle_message-IsKnown_example =
    let after =
      handle_command outside (at 1 []) (at 1 (fill 6 32)) 1 issued (ascii "status") behind idle in
    handle_message-IsKnown outside (at 1 []) (at 1 (fill 6 32)) message behind after.0 idle after.1
      refl (λ e. absurd (bool_apart (ap (λ n. nat_eq (length n.saved.peers) 0) e)))

run-IsSaved_example : IsSaved (run outside ((at 1 [], at 2 []) ∷ []) [] node_a idle).0
run-IsSaved_example = run-IsSaved outside ((at 1 [], at 2 []) ∷ []) [] node_a idle refl

pair-IsSaved_example :
    IsSaved (pair outside (at 1 (fill 6 32)) 2 (ok idle) [] (fill 1 64) [] node_b).0
pair-IsSaved_example =
    pair-IsSaved outside (at 1 (fill 6 32)) 2 (ok idle) [] (fill 1 64) [] node_b refl

send-IsSaved_example :
    IsSaved (Client.send outside 2 (ok idle) (7 ∷ []) (ascii "status") [] node_b).0
send-IsSaved_example = send-IsSaved outside 2 (ok idle) (7 ∷ []) (ascii "status") [] node_b refl

handle_command-take_response_example :
    let sent = reply outside (at 1 []) id_b entry_b (ascii "status") node_a ++ fill 6 32 in
    let (a', conn') =
      handle_command outside (at 1 []) (at 1 (fill 6 32)) 9 issued (ascii "status") node_a idle in
    let (b', answer) = take_response outside 2 id_a sent node_b in
    (conn' ≡ send_ack 9 sent (update_commits (hash (fill 6 32) ∷ []) idle))
    × (answer ≡ verdict outside (err_response (ascii "no")))
    × CanSend id_b id_a b'.state a'.state
unfolding lookup_preimage find_issuer Map.lookup Set.contains bytes_eq b_can_send
handle_command-take_response_example =
    handle_command-take_response outside (at 1 []) (at 1 (fill 6 32)) 2 9 (ascii "status") id_a id_b
      [] node_a node_b idle entry_b (err_response (ascii "no")) b_can_send refl (omega arith) refl
      refl refl

parse_invite_token-create_invite_token_example :
    parse_invite_token base64 (create_invite_token base64 id_a issued) ≡ parsed id_a issued
parse_invite_token-create_invite_token_example =
    parse_invite_token-create_invite_token base64 id_a issued refl refl

abbrev fresh_node : SecretKey → Node Bytes Bytes
fresh_node key = node key empty

pair-handle_handshake_example :
    let init = HandshakeInit.to_bytes (request id_b (fill 5 32) []) in
    let answer = HandshakeComplete.to_bytes (acceptance (fill 6 32) none) in
    let result : SendResult = record { status = 0; payload = answer } in
    let (a1, token) = Core.create_invite outside (fill 4 32) 1 (7 ∷ []) owner (fresh_node key_a) in
    let (b2, verdict') =
      pair outside
        (at 2 (fill 5 32))
        4
        (ok (relayed hello' result))
        []
        token
        (8 ∷ [])
        (fresh_node key_b) in
    (parse_invite_token base64 token ≡ parsed id_a (fill 4 32))
    × (verdict' ≡ done tt)
    × ((pair_on outside
          (at 2 (fill 5 32))
          4
          (ok (relayed hello' result))
          []
          token
          (8 ∷ [])
          (fresh_node key_b)).1
        ≡ some (
            ok (
              result,
              record { incoming = []; written = write_frame [] (sending id_a (fill 4 32) init) },
            )))
    × ((a2 : Node Bytes Bytes) × (handle_handshake outside
            (at 3 (fill 6 32))
            9
            (fill 4 32)
            init
            a1
            idle
          ≡ ok (a2, update_commits (hash (fill 6 32) ∷ []) (send_ack 9 answer idle)))
        × CanSend id_a id_b a2.state b2.state
        × CanSend id_b id_a b2.state a2.state)
unfolding is_utf8 HandshakeComplete.to_bytes be16
pair-handle_handshake_example =
    pair-handle_handshake outside (fresh_node key_a) (fresh_node key_b) (at 1 (fill 4 32))
      (at 2 (fill 5 32)) (at 3 (fill 6 32)) 4 9 (7 ∷ []) (8 ∷ []) [] owner idle hello' refl refl
      (record { id52_size = refl; preimage_size = refl; url_utf8 = refl; url_size = omega arith })
      (record {
        status_size = omega arith;
        preimage_size = refl;
        url_utf8 = refl;
        url_size = omega arith;
      })
      (omega arith)
