-- ===== src/Network/Tests.antt =====
-- One command between the two nodes of Node/Tests.antt, through a relay.
use bhumi.Base.{
  true, ◌-◌, ◌≡◌, refl, [], ◌∷◌, ◌++◌, some, ok, arith, bytes_eq, bytes_has_eq, nat_has_eq, ascii,
}
use bhumi.Base.Map
use bhumi.Base.Set
use bhumi.Proto.Buffer.{Bytes}
use bhumi.Proto.SendResult.{SendResult, send_ok}
use bhumi.Proto.Frame
use bhumi.Proto.Frame.{Frame, write_frame}
use bhumi.Proto.Frame.Stream.{read_frames}
use bhumi.Proto.Tests.{fill, hello'}
use bhumi.Relay.Router.{Router, PendingDelivery, Env, route_message}
use bhumi.Relay.Session.{World, handle_frame, send_delivery}
use bhumi.Relay.Tests.{router, env, context}
use bhumi.Node.State.{lookup_preimage, find_issuer, find_peer_by_alias, find_alias}
use bhumi.Node.Connection.{Connection, receive, parse_device_msg_type}
use bhumi.Node.Core.{Outside, Node, err_response}
use bhumi.Node.Command.{dispatch_command}
use bhumi.Node.Server.{Moment, respond, handle_message}
use bhumi.Node.Client
use bhumi.Node.Client.{send_on, verdict}
use bhumi.Node.Invitation.{relayed, sending}
use bhumi.Network.Answer.{commit_frame, ack_frame}
use bhumi.Node.Exchange.{reply}
use bhumi.Node.Tests.{id_a, id_b, issued, entry_a, entry_b, b_can_send}
use bhumi.Node.Tests.Commands.{outside, node_a, node_b}
use bhumi.Network.Delivery.{message}
use bhumi.Network.Holds.{waiting}
use bhumi.Network.Ready.{Ready}
use bhumi.Network.Round.{IsRound}
use bhumi.Network.Command.{served_by, send-Ready}

-- A hash that keeps the size.
abbrev turned : Bytes → Bytes
turned [] = []
turned (b ∷ bs) = (255 - b) ∷ bs

abbrev home : Outside Bytes
home = record outside { sha256 = turned }

abbrev relay : Router
relay = record router {
  devices = (id_a, record { commits = turned issued ∷ []; sender = 3 }) ∷ [];
  response_cache = [];
  pending = [];
}

ready : Ready home id_a id_b 3 node_a node_b relay
unfolding lookup_preimage find_issuer Map.lookup Set.contains bytes_eq b_can_send
ready = record {
  can = b_can_send;
  entry = entry_b;
  known = refl;
  holds = record {
    device = record { commits = turned issued ∷ []; sender = 3 };
    registered = refl;
    channel = refl;
    committed = refl;
    uncached = refl;
  };
}

abbrev first : Moment
first = record { fresh = []; now = 1 }

abbrev second : Moment
second = record { fresh = fill 6 32; now = 1 }

abbrev command : Bytes
command = ascii "status"

is_round :
    IsRound home id_a id_b 3 node_a node_b relay ready first second command
      (err_response (ascii "no"))
      []
unfolding ready b_can_send lookup_preimage find_issuer Map.lookup Set.contains bytes_eq respond
    parse_device_msg_type dispatch_command
is_round = record {
  command = λ e. cc;
  payload_size = omega arith;
  preimage_size = refl;
  id_size = omega arith;
  hash_size = refl;
  fresh_size = refl;
  unused = refl;
  unissued = refl;
  uncached = refl;
  reply_nonempty = omega arith;
  reply_size = omega arith;
  reads = refl;
  fails = refl;
}

abbrev sent : Bytes
sent = reply home first id_b entry_b command node_a ++ fill 6 32

abbrev held : Router
held = waiting turned id_a ready.can.preimage 3 4 relay ready.holds

abbrev serving : World
serving = record { nonce = 7; id52 = some id_a; router = held; written = [] }

abbrev handed : PendingDelivery
handed = record { msg_id = 8; preimage = issued; payload = command }

abbrev idle : Connection
idle = record { incoming = []; written = [] }

abbrev result : SendResult
result = record { status = send_ok; payload = sent }

abbrev served : Env
served = served_by context serving id_a (turned (fill 6 32)) 8 sent held env

send-Ready_example :
    (a' : Node Bytes Bytes) × (conn : Connection) × (r' : Router) × ((send_on home 9
        (ok (relayed hello' result))
        (7 ∷ [])
        (ascii "status")
        []
        node_b).1
      ≡ some (
          ok (
            result,
            record { incoming = []; written = write_frame [] (sending id_a issued command) },
          )))
    × (handle_frame
          (record context { sha256 = turned; env = served })
          (sending id_a issued command)
          (record serving { router = relay })
        ≡ ok (
          record serving { router = r'; written = write_frame [] (Frame.send_result result) },
          true,
        ))
    × ((route_message turned served id_a issued command relay).2 ≡ some (3, handed))
    × (receive (record {
      incoming = (send_delivery handed (record serving { router = held; written = [] })).written;
      written = [];
    })
        ≡ ok (message handed, idle))
    × (handle_message home first second (message handed) node_a idle ≡ ok (a', conn))
    × (read_frames 2 conn.written
        ≡ ok (commit_frame (turned (fill 6 32)) ∷ ack_frame 8 sent ∷ [], []))
    × (let (b', answer) =
          Client.send home 9 (ok (relayed hello' result)) (7 ∷ []) (ascii "status") [] node_b in
        (answer ≡ verdict home (err_response (ascii "no"))) × Ready home id_a id_b 3 a' b' r')
unfolding ready b_can_send find_peer_by_alias find_alias
send-Ready_example =
    send-Ready home id_a id_b 3 node_a node_b relay first second 9 (7 ∷ []) (ascii "status") []
      entry_a (err_response (ascii "no")) [] context context env serving serving hello' ready
      is_round refl refl refl refl refl
