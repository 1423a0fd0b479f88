-- ===== src/Node/Tests.antt =====
-- The properties of bhumi-node/src at two nodes.
pub mod Commands
use bhumi.Base.{
  ℕ, zero, suc, ◌+◌, ◌-◌, ◌*◌, ◌^◌, ◌<◌, ◌≤◌, ◌≡◌, ◌≢◌, ◌⊎◌, refl, ap, List, [], ◌∷◌, ◌++◌, Bool,
  true, false, not, Option, none, some, arith, ltb, nat_eq, length, ok, err, panic, Result,
  unexpected_eof, bytes_eq, bytes_has_eq, nat_has_eq, if◌then◌else◌, ascii,
}
use bhumi.Base.Map
use bhumi.Base.Set
use bhumi.Proto.Buffer.{Bytes, be16, be32}
use bhumi.Proto.IAm
use bhumi.Proto.SendResult.{SendResult}
use bhumi.Proto.HandshakeInit
use bhumi.Proto.HandshakeComplete
use bhumi.Proto.Frame.{Frame, read_frame}
use bhumi.Proto.Tests.{fill}
use bhumi.Proto.Utf8.{is_utf8}
use bhumi.Relay.Router.{route_message, finish, check_cache, claim, dispatch}
use bhumi.Relay.Session
use bhumi.Relay.Session.{World, handle_frame, greet}
use bhumi.Relay.Tests.{context, router, hash}
use bhumi.Node.State
use bhumi.Node.State.{
  PeerRole, owner, reader, writer, InviteRecord, PeerRecord, DeviceState, Base64, parsed, peer,
  empty, create_invite_token, parse_invite_token, create_invite, accept_invite,
  complete_handshake_as_inviter, complete_handshake_as_acceptor, consume_and_renew_preimage,
  update_peer_preimage, get_peer_preimage, get_all_commits, lookup_preimage, find_issuer,
}
use bhumi.Node.State.Keys
use bhumi.Node.State.Keys.{Op, creates, accepts, IsKeyed, run-IsKeyed}
use bhumi.Node.State.Serde.{Hex}
use bhumi.Node.State.Stored.{StateJson, serialize, to_serializable, load, save}
use bhumi.Node.State.Stored.Round.{IsStorable, load-save}
use bhumi.Node.State.Commits.{get_all_commits-lookup_preimage}
use bhumi.Node.State.Pairing.{CanSend, pairing-CanSend, exchange-CanSend}
use bhumi.Node.Connection.{
  SecretKey, Connection, handshake, send, send_ack, update_commits, IncomingMessage,
}
use bhumi.Node.Connection.Handshake.{IsAccepted, introduction, handshake-handle_frame}
use bhumi.Node.Connection.Exchange.{send-handle_frame}

abbrev pub key_a : SecretKey
key_a = record { public_key = fill 1 32; sign = λ m. fill 8 64 }

abbrev pub key_b : SecretKey
key_b = record { public_key = fill 2 32; sign = λ m. fill 9 64 }

abbrev pub id_a : Bytes
id_a = fill 1 32

abbrev pub id_b : Bytes
id_b = fill 2 32

-- What `a` issued to `b`.
abbrev pub issued : Bytes
issued = fill 3 32

abbrev pub entry_b : PeerRecord
entry_b = record {
  alias = [];
  role = writer;
  last_known_relay = none;
  last_contacted = 0;
  issued_preimages = issued ∷ [];
  their_preimage = none;
}

abbrev pub entry_a : PeerRecord
entry_a = record {
  alias = 7 ∷ [];
  role = reader;
  last_known_relay = none;
  last_contacted = 0;
  issued_preimages = [];
  their_preimage = some issued;
}

abbrev pub state_a : DeviceState
state_a = record empty { peers = (id_b, entry_b) ∷ [] }

abbrev pub state_b : DeviceState
state_b = record empty { peers = (id_a, entry_a) ∷ [] }

pub state_a-IsKeyed : IsKeyed state_a
unfolding Map.lookup
state_a-IsKeyed = record {
  invites = tt;
  pending = tt;
  invites_unique = tt;
  pending_unique = tt;
  peers_unique = (refl, tt);
}

unfoldable pub b_can_send : CanSend id_b id_a state_b state_a
unfolding get_peer_preimage Map.lookup Set.contains bytes_eq
b_can_send = record {
  preimage = issued;
  used = refl;
  accepted = record { entry = entry_b; found = refl; issued = refl };
}

run-IsKeyed_example : IsKeyed (Keys.run hash (creates (fill 4 32) 1 [] owner ∷ []) state_a)
run-IsKeyed_example = run-IsKeyed hash (creates (fill 4 32) 1 [] owner ∷ []) state_a state_a-IsKeyed

get_all_commits-lookup_preimage_example :
    Set.contains (hash issued) (get_all_commits hash state_a) ≡ true
unfolding lookup_preimage find_issuer Map.lookup Set.contains bytes_eq
get_all_commits-lookup_preimage_example =
    get_all_commits-lookup_preimage hash issued state_a (peer id_b entry_b) state_a-IsKeyed refl

abbrev pub key_context : World
key_context = Session.new 7 router

key_a-IsAccepted : IsAccepted context key_a (fill 3 32 ∷ []) 7
unfolding IAm.new IAm.to_bytes be16 be32
key_a-IsAccepted = record {
  key_good = refl;
  signature_good = refl;
  message = record {
    id52_size = refl;
    signature_size = refl;
    commit_size = (refl, tt);
    commit_count = omega arith;
    responses = tt;
    response_count = omega arith;
  };
  size = omega arith;
}

handshake-handle_frame_example :
    let w = greet (Session.new 7 router) in
    (conn : Connection) × (frame : Frame) × (w' : World) × (handshake key_a
        (fill 3 32 ∷ [])
        (record { incoming = w.written; written = [] })
      ≡ ok conn)
    × (read_frame conn.written ≡ ok (frame, []))
    × (handle_frame context frame w ≡ ok (w', true))
    × (w'.id52 ≡ some key_a.public_key)
    × (Map.lookup key_a.public_key w'.router.devices
        ≡ some (record { commits = Set.collect (fill 3 32 ∷ []); sender = context.sender }))
handshake-handle_frame_example =
    handshake-handle_frame context key_a (fill 3 32 ∷ []) 7 router (omega arith) key_a-IsAccepted

abbrev pub world : World
world = record {
  nonce = 7;
  id52 = none;
  router = record router { devices = []; response_cache = [] };
  written = [];
}

send-handle_frame_example :
    let (router', outcome, _) =
      route_message context.sha256 context.env id_a issued [] world.router in
    let result : SendResult = record { status = outcome.status; payload = outcome.payload } in
    (request : Bytes) × (frame : Frame) × (answer : Bytes) × (read_frame request ≡ ok (frame, []))
    × (handle_frame context frame world
        ≡ ok (record world { router = router'; written = world.written ++ answer }, true))
    × ((out : Bytes)
        → send id_a issued [] (record { incoming = answer; written = out })
          ≡ ok (result, record { incoming = []; written = out ++ request }))
unfolding route_message finish check_cache claim dispatch Map.lookup Map.remove
send-handle_frame_example =
    send-handle_frame context world id_a issued [] refl refl (omega arith) (omega arith)

pairing-CanSend_example :
    let (a1, inv, _) = create_invite hash (fill 4 32) 1 (7 ∷ []) owner empty in
    let (b1, mine, _) = accept_invite hash (fill 5 32) 2 id_a inv.preimage (8 ∷ []) empty in
    let (a2, answer) =
      complete_handshake_as_inviter hash (fill 6 32) 3 inv.preimage id_b mine none a1 in
    let (b2, done) = complete_handshake_as_acceptor 4 id_a (fill 6 32) none b1 in
    (answer ≡ some (fill 6 32, hash (fill 6 32)))
    × (done ≡ true)
    × CanSend id_a id_b a2 b2
    × CanSend id_b id_a b2 a2
    × ((p : PeerRecord) × (Map.lookup id_b a2.peers ≡ some p) × (p.role ≡ owner))
    × (Map.lookup (fill 4 32) a2.invites ≡ none)
pairing-CanSend_example =
    pairing-CanSend hash empty empty id_a id_b (7 ∷ []) (8 ∷ []) (fill 4 32) (fill 5 32) (fill 6 32)
      owner none none 1 2 3 4

abbrev plain : Hex
plain = record { encode = λ b. b; decode = λ t. some t }

-- A file with one text, that of `state_a`.
abbrev file : StateJson
file = record {
  write = λ s. [];
  read = λ t. some (serialize plain (to_serializable plain state_a));
}

state_a-IsStorable : IsStorable state_a
unfolding Map.lookup
state_a-IsStorable = record {
  invites = tt;
  pending_peers = tt;
  peers = (refl, tt);
  invite_keys = tt;
  pending_keys = tt;
  peer_keys = (refl, tt);
  each_invite = tt;
  each_pending = tt;
  each_peer = (((refl, tt), tt), tt);
}

load-save_example :
    (s' : DeviceState) × (load plain file (some (save plain file state_a)) ≡ ok s')
    × ((k : Bytes) → Map.lookup k s'.invites ≡ Map.lookup k state_a.invites)
    × ((k : Bytes) → Map.lookup k s'.pending_peers ≡ Map.lookup k state_a.pending_peers)
    × ((k : Bytes) → Map.lookup k s'.peers ≡ Map.lookup k state_a.peers)
load-save_example =
    load-save plain file state_a (record { decode-encode = λ b. refl }) refl state_a-IsStorable

exchange-CanSend_example :
    let (a', answer) = consume_and_renew_preimage hash (fill 6 32) 1 id_b issued state_a in
    let b' = update_peer_preimage 2 id_a (fill 6 32) state_b in
    (answer ≡ some (fill 6 32, hash (fill 6 32)))
    × CanSend id_b id_a b' a'
    × (CanSend id_a id_b state_a state_b → CanSend id_a id_b a' b')
unfolding b_can_send
exchange-CanSend_example =
    exchange-CanSend hash state_a state_b id_a id_b (fill 6 32) 1 2 b_can_send
