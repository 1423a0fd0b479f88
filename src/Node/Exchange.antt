-- ===== src/Node/Exchange.antt =====
-- A command from one node to another, both sides of bhumi-node/src/node.rs: the device answers with
-- `handle_command`, and the client takes the answer in `send`.
use bhumi.Base.{
  ℕ, ◌-◌, ◌<◌, ◌≡◌, refl, ap, [], ◌∷◌, ◌++◌, some, arith, length, inl, inr, length-append,
  take-append, drop-append,
}
use bhumi.Proto.Buffer.{Bytes}
use bhumi.Node.State.{PeerRecord, peer, lookup_preimage, update_peer_preimage}
use bhumi.Node.State.Pairing.{CanSend, exchange-CanSend}
use bhumi.Node.Connection.{Connection, send_ack, update_commits}
use bhumi.Node.Core.{Outcome-cases, Outside, Node, Response, CommandContext, good, bad, save}
use bhumi.Node.Command.Access.{dispatch_command-peers}
use bhumi.Node.Server.{Moment, handle_command, serve, respond, renew_and_ack}
use bhumi.Node.Client.{take_response, split_response, store_preimage, verdict}

-- The context of a command of this peer.
abbrev pub context : Bytes → PeerRecord → CommandContext
context id52 p = record { peer_alias = p.alias; peer_id52 = id52; role = p.role }

-- The bytes of the device's response.
abbrev pub reply :
    {V S : Type 0} → Outside V → Moment → Bytes → PeerRecord → Bytes → Node V S → Bytes
reply o t id52 p payload n = o.json.write_response (respond o t (context id52 p) payload n).1

-- The client finds the response and the new preimage in what the device sent.
split_response-append :
    {V : Type 0} (o : Outside V) (body fresh e : Bytes)
    → 0 < length body
    → length fresh ≡ 32
    → o.json.read_response (body ++ fresh) ≡ bad e
    → split_response o (body ++ fresh) ≡ (body, some fresh)
unfolding split_response
split_response-append o body fresh e long size b =
    let cut : length (body ++ fresh) - 32 ≡ length body = omega (arith, length-append body fresh) in
    rw (split_response, b, cut, take-append body fresh, drop-append body fresh)
      (ground (arith, length-append body fresh))

pub take_response-append :
    {V S : Type 0} (o : Outside V) (now : ℕ) (a_id body fresh e : Bytes) (r : Response V)
    (b : Node V S)
    → 0 < length body
    → length fresh ≡ 32
    → o.json.read_response body ≡ good r
    → o.json.read_response (body ++ fresh) ≡ bad e
    → take_response o now a_id (body ++ fresh) b
      ≡ (save (record b { state = update_peer_preimage now a_id fresh b.state }), verdict o r)
unfolding take_response store_preimage
take_response-append o now a_id body fresh e r b long size reads fails =
    let splits = split_response-append o body fresh e long size fails in
    let body' = ap (λ x. x.0) splits in
    let fresh' = ap (λ x. x.1) splits in rw (take_response, body', reads, fresh') refl

module _ {V S : Type 0} (o : Outside V) where
  pub respond-peers :
      (t : Moment) (ctx : CommandContext) (payload : Bytes) (n : Node V S)
      → (respond o t ctx payload n).0.state.peers ≡ n.state.peers
  unfolding respond
  respond-peers t ctx payload n = elim (Outcome-cases (o.json.read_request payload)) [
    | inl (req, e) ↦ rw (respond, e) (dispatch_command-peers o t.fresh t.now ctx req n)
    | inr (_, e) ↦ rw (respond, e) refl
  ]

  -- One command, end to end. The client can send to the device, its preimage is one that the device
  -- finds at the client, the device answers with some bytes that the client reads as a response,
  -- and those bytes with a preimage behind them are no response. Then the device sends those bytes
  -- with the fresh preimage behind them, after the commit of that preimage; the client answers its
  -- caller with the response's verdict; and after it the client can send to the device again.
  pub handle_command-take_response :
      (t t' : Moment) (now msg_id : ℕ) (payload a_id b_id e : Bytes) (a b : Node V S)
      (conn : Connection) (p : PeerRecord) (r : Response V)
      (can : CanSend b_id a_id b.state a.state)
      → lookup_preimage can.preimage a.state ≡ some (peer b_id p)
      → 0 < length (reply o t b_id p payload a)
      → length t'.fresh ≡ 32
      → o.json.read_response (reply o t b_id p payload a) ≡ good r
      → o.json.read_response (reply o t b_id p payload a ++ t'.fresh) ≡ bad e
      → let sent = reply o t b_id p payload a ++ t'.fresh in
        let (a', conn') = handle_command o t t' msg_id can.preimage payload a conn in
        let (b', answer) = take_response o now a_id sent b in
        (conn' ≡ send_ack msg_id sent (update_commits (o.sha256 t'.fresh ∷ []) conn))
        × (answer ≡ verdict o r)
        × CanSend b_id a_id b'.state a'.state
  unfolding handle_command serve save
  handle_command-take_response t t' now msg_id payload a_id b_id e a b conn p r can known long size
        reads fails =
      let (a1, response) = respond o t (context b_id p) payload a in
      let can1 : CanSend b_id a_id b.state a1.state = record {
        preimage = can.preimage;
        used = can.used;
        accepted = record {
          entry = can.accepted.entry;
          found = rw (respond-peers t (context b_id p) payload a) can.accepted.found;
          issued = can.accepted.issued;
        };
      } in
      let (answers, sends, _) =
        exchange-CanSend o.sha256 a1.state b.state a_id b_id t'.fresh t'.now now can1 in
      rw
        (
          handle_command,
          known,
          serve,
          renew_and_ack,
          answers,
          take_response-append o now a_id (reply o t b_id p payload a) t'.fresh e r b long size
              reads fails,
        )
        (refl, refl, sends)
