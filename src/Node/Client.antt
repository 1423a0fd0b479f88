-- ===== src/Node/Client.antt =====
-- A node that pairs and sends, bhumi-node/src/node.rs. `opened` is what `TcpStream::connect` gives.
pub mod Saved
use bhumi.Base.{
  ℕ, ◌-◌, List, [], ◌∷◌, ◌++◌, Bool, true, false, not, Option, none, some, if◌then◌else◌, nat_eq,
  Result, ok, err, panic, ◌>>=◌, IoError, ascii, ltb, length, take, drop,
}
use bhumi.Proto.Buffer.{Bytes}
use bhumi.Proto.HandshakeInit
use bhumi.Proto.HandshakeInit.{HandshakeInit}
use bhumi.Proto.HandshakeComplete
use bhumi.Proto.HandshakeComplete.{HandshakeComplete, handshake_accepted}
use bhumi.Proto.SendResult.{SendResult, send_ok}
use bhumi.Node.Connection
use bhumi.Node.Connection.{Connection, connect_anonymous}
use bhumi.Node.State.{
  TokenError, parsed, rejected, accept_invite, complete_handshake_as_acceptor, find_peer_by_alias,
  get_peer_preimage, update_peer_preimage, parse_invite_token,
}
use bhumi.Node.Core.{Response, good, bad, Outside, Node, save}
use bhumi.Node.Server.{Moment}

-- The errors that `pair` and `send` box, and a panic.
pub data NodeError : Type 0 where
  io : IoError → NodeError
  token : TokenError → NodeError
  handshake_refused : NodeError
  send_failed : ℕ → NodeError
  no_peer : NodeError
  no_preimage : NodeError
  bad_json : Bytes → NodeError
  from_peer : Bytes → NodeError
  panicked : NodeError

pub data Answer (A : Type 0) : Type 0 where
  done : A → Answer A
  failed : NodeError → Answer A

abbrev pub none_if_empty : Bytes → Option Bytes
none_if_empty [] = none
none_if_empty (b ∷ bs) = some (b ∷ bs)

-- The answer to HANDSHAKE_INIT.
unfoldable pub take_complete :
    {V S : Type 0} → ℕ → Bytes → Result HandshakeComplete → Node V S → Node V S × Answer Unit
unfolding save
take_complete now their_id52 (err e) n = (n, failed (io e))
take_complete now their_id52 panic n = (n, failed panicked)
take_complete now their_id52 (ok complete) n =
    if nat_eq complete.status handshake_accepted
    then (
      save (record n {
        state =
            (complete_handshake_as_acceptor now their_id52 complete.preimage_for_peer
              (none_if_empty complete.relay_url) n.state).0;
      }),
      done tt,
    )
    else (n, failed handshake_refused)

unfoldable pub take_result :
    {V S : Type 0} → ℕ → Bytes → SendResult → Node V S → Node V S × Answer Unit
unfolding take_complete
take_result now their_id52 result n =
    if nat_eq result.status send_ok
    then take_complete now their_id52 (HandshakeComplete.from_bytes result.payload) n
    else (n, failed (send_failed result.status))

-- The connection that is open, and the exchange on it, with the connection that it leaves.
unfoldable pub exchange :
    Result Connection → Bytes → Bytes → Bytes → Result (SendResult × Connection)
exchange opened to_id52 preimage payload = do
  conn ← opened
  conn ← connect_anonymous conn
  Connection.send to_id52 preimage payload conn

unfoldable pub exchange_on : Result Connection → Bytes → Bytes → Bytes → Result SendResult
unfolding exchange
exchange_on opened to_id52 preimage payload = do
  (result, _) ← exchange opened to_id52 preimage payload
  ok result

unfoldable pub take_exchange :
    {V S : Type 0} → ℕ → Bytes → Result SendResult → Node V S → Node V S × Answer Unit
unfolding take_result
take_exchange now their_id52 (err e) n = (n, failed (io e))
take_exchange now their_id52 panic n = (n, failed panicked)
take_exchange now their_id52 (ok result) n = take_result now their_id52 result n

unfoldable pub accept :
    {V S : Type 0} → Outside V → Moment → Bytes → Bytes → Bytes → Node V S → Node V S × Bytes
unfolding save
accept o t their_id52 their_preimage alias n =
    let (s, my_preimage, _) =
      accept_invite o.sha256 t.fresh t.now their_id52 their_preimage alias n.state in
    (save (record n { state = s }), my_preimage)

-- `t` is the moment of `accept_invite`, and `now` the time when the handshake is completed. The
-- exchange, whose connection is dropped at the end, is given as well.
unfoldable pub pair_on :
    {V S : Type 0}
    → Outside V
    → Moment
    → ℕ
    → Result Connection
    → Bytes
    → Bytes
    → Bytes
    → Node V S
    → (Node V S × Answer Unit) × Option (Result (SendResult × Connection))
unfolding accept exchange exchange_on take_exchange
pair_on o t now opened relay_addr invite_token alias n =
    elim (parse_invite_token o.base64 invite_token) [
      | rejected e ↦ ((n, failed (token e)), none)
      | parsed their_id52 their_preimage ↦
          let (n, my_preimage) = accept o t their_id52 their_preimage alias n in
          let init : HandshakeInit = record {
            sender_id52 = n.secret_key.public_key;
            preimage_for_peer = my_preimage;
            relay_url = relay_addr;
          } in
          let payload = HandshakeInit.to_bytes init in
          (
            take_exchange now their_id52 (exchange_on opened their_id52 their_preimage payload) n,
            some (exchange opened their_id52 their_preimage payload),
          )
    ]

unfoldable pub pair :
    {V S : Type 0}
    → Outside V
    → Moment
    → ℕ
    → Result Connection
    → Bytes
    → Bytes
    → Bytes
    → Node V S
    → Node V S × Answer Unit
unfolding pair_on
pair o t now opened relay_addr invite_token alias n =
    (pair_on o t now opened relay_addr invite_token alias n).0

-- The payload, and the preimage at its end if it is longer than a preimage and no response itself.
unfoldable pub split_response : {V : Type 0} → Outside V → Bytes → Bytes × Option Bytes
split_response o payload =
    let response_len = length payload in
    if ltb 32 response_len
    then elim (o.json.read_response payload) [
      | good _ ↦ (payload, none)
      | bad _ ↦ (take (response_len - 32) payload, some (drop (response_len - 32) payload))
    ]
    else (payload, none)

unfoldable pub store_preimage : {V S : Type 0} → ℕ → Bytes → Option Bytes → Node V S → Node V S
unfolding save
store_preimage now peer_id52 none n = n
store_preimage now peer_id52 (some new_pre) n =
    save (record n { state = update_peer_preimage now peer_id52 new_pre n.state })

abbrev value_or : {V : Type 0} → V → Option V → V
value_or v none = v
value_or v (some w) = w

-- `Ok` with the response's data, or its error.
unfoldable pub verdict : {V : Type 0} → Outside V → Response V → Answer V
verdict o r =
    if r.succeeded
    then done (value_or o.json.null r.value)
    else failed (from_peer (value_or (ascii "unknown error") r.error))

unfoldable pub take_response :
    {V S : Type 0} → Outside V → ℕ → Bytes → Bytes → Node V S → Node V S × Answer V
unfolding split_response store_preimage verdict
take_response o now peer_id52 payload n =
    let (response_bytes, new_preimage) = split_response o payload in
    elim (o.json.read_response response_bytes) [
      | bad e ↦ (n, failed (bad_json e))
      | good r ↦ (store_preimage now peer_id52 new_preimage n, verdict o r)
    ]

unfoldable pub take_send :
    {V S : Type 0} → Outside V → ℕ → Bytes → Result SendResult → Node V S → Node V S × Answer V
unfolding take_response
take_send o now peer_id52 (err e) n = (n, failed (io e))
take_send o now peer_id52 panic n = (n, failed panicked)
take_send o now peer_id52 (ok result) n =
    if nat_eq result.status send_ok
    then take_response o now peer_id52 result.payload n
    else (n, failed (send_failed result.status))

-- The exchange, whose connection is dropped at the end, is given as well.
unfoldable pub send_on :
    {V S : Type 0}
    → Outside V
    → ℕ
    → Result Connection
    → Bytes
    → Bytes
    → V
    → Node V S
    → (Node V S × Answer V) × Option (Result (SendResult × Connection))
unfolding exchange exchange_on take_send
send_on o now opened peer_alias cmd args n = elim (find_peer_by_alias peer_alias n.state) [
  | none ↦ ((n, failed no_peer), none)
  | some (peer_id52, _) ↦ elim (get_peer_preimage peer_id52 n.state) [
    | none ↦ ((n, failed no_preimage), none)
    | some preimage ↦
        let payload = o.json.write_request (record { cmd = cmd; args = args }) in
        (
          take_send o now peer_id52 (exchange_on opened peer_id52 preimage payload) n,
          some (exchange opened peer_id52 preimage payload),
        )
  ]
]

unfoldable pub send :
    {V S : Type 0}
    → Outside V
    → ℕ
    → Result Connection
    → Bytes
    → Bytes
    → V
    → Node V S
    → Node V S × Answer V
unfolding send_on
send o now opened peer_alias cmd args n = (send_on o now opened peer_alias cmd args n).0
