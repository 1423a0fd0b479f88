-- ===== src/Node/Server/Saved.antt =====
-- The state file of a node, bhumi-node/src/node.rs.
use bhumi.Base.{
  ℕ, ◌≡◌, List, [], ◌∷◌, some, inl, inr, arith, Option-cases, bytes_has_eq, ok, Result-cases,
  >>=-eq-ok,
}
use bhumi.Proto.Buffer.{Bytes}
use bhumi.Proto.HandshakeInit
use bhumi.Node.State.{
  invite, peer, lookup_preimage, complete_handshake_as_inviter, consume_and_renew_preimage,
}
use bhumi.Node.Connection.{Connection, IncomingMessage, receive, connect}
use bhumi.Node.Core.{
  Outside, Node, Request, CommandContext, Outcome-cases, save, create_invite, get_commits,
}
use bhumi.Node.Command.{dispatch_command, invite_create, invite_delete, delete_found}
use bhumi.Node.Server.Messages.{handle_message_cases}
use bhumi.Node.Server.{
  Moment, handle_handshake, answer_handshake, handle_command, handle_message, serve, respond,
  renew_and_ack, run_loop, run,
}

-- The state file holds the node's state.
abbrev pub IsSaved : {V S : Type 0} → Node V S → Type 0
IsSaved n = n.saved ≡ n.state

module _ {V S : Type 0} (o : Outside V) where
  invite_delete-IsSaved :
      (ctx : CommandContext) (args : V) (n : Node V S)
      → IsSaved n
      → IsSaved (invite_delete o ctx args n).0
  unfolding invite_delete delete_found save
  invite_delete-IsSaved ctx args n v = ground (arith, v)

  dispatch_command-IsSaved :
      (fresh : Bytes) (now : ℕ) (ctx : CommandContext) (req : Request V) (n : Node V S)
      → IsSaved n
      → IsSaved (dispatch_command o fresh now ctx req n).0
  unfolding dispatch_command invite_create create_invite save
  dispatch_command-IsSaved fresh now ctx req n v =
      ground (arith, v, invite_delete-IsSaved ctx req.args n v)

  respond-IsSaved :
      (t : Moment) (ctx : CommandContext) (payload : Bytes) (n : Node V S)
      → IsSaved n
      → IsSaved (respond o t ctx payload n).0
  unfolding respond
  respond-IsSaved t ctx payload n v = elim (Outcome-cases (o.json.read_request payload)) [
    | inl (req, e) ↦ rw (respond, e) (dispatch_command-IsSaved t.fresh t.now ctx req n v)
    | inr (_, e) ↦ rw (respond, e) v
  ]

  renew-IsSaved :
      (msg_id : ℕ) (bytes fresh : Bytes) (now : ℕ) (id52 old : Bytes) (n : Node V S)
      (conn : Connection)
      → IsSaved n
      → IsSaved
          (renew_and_ack msg_id bytes
            (consume_and_renew_preimage o.sha256 fresh now id52 old n.state)
            n
            conn).0
  unfolding renew_and_ack consume_and_renew_preimage save
  renew-IsSaved msg_id bytes fresh now id52 old n conn v = ground (arith, v)

  handle_command-IsSaved :
      (t t' : Moment) (msg_id : ℕ) (preimage payload : Bytes) (n : Node V S) (conn : Connection)
      → IsSaved n
      → IsSaved (handle_command o t t' msg_id preimage payload n conn).0
  unfolding handle_command serve
  handle_command-IsSaved t t' msg_id preimage payload n conn v =
      elim (Option-cases (lookup_preimage preimage n.state)) [
        | inl e ↦ rw (handle_command, e) v
        | inr (invite i, e) ↦ rw (handle_command, e) v
        | inr (peer id52 p, e) ↦
            let ctx : CommandContext = record {
              peer_alias = p.alias;
              peer_id52 = id52;
              role = p.role;
            } in
            rw (handle_command, e)
              (renew-IsSaved msg_id _ t'.fresh t'.now id52 preimage (respond o t ctx payload n).0
                conn (respond-IsSaved t ctx payload n v))
      ]

  handle_handshake-IsSaved :
      (t : Moment) (msg_id : ℕ) (preimage payload : Bytes) (n n' : Node V S)
      (conn conn' : Connection)
      → IsSaved n
      → handle_handshake o t msg_id preimage payload n conn ≡ ok (n', conn')
      → IsSaved n'
  unfolding handle_handshake answer_handshake complete_handshake_as_inviter save
  handle_handshake-IsSaved t msg_id preimage payload n n' conn conn' v e =
      let (init, _, e') = >>=-eq-ok (HandshakeInit.from_bytes payload) _ e in ground (arith, v, e')

  handle_message-IsSaved :
      (t t' : Moment) (msg : IncomingMessage) (n n' : Node V S) (conn conn' : Connection)
      → IsSaved n
      → handle_message o t t' msg n conn ≡ ok (n', conn')
      → IsSaved n'
  handle_message-IsSaved t t' msg n n' conn conn' v e =
      elim (handle_message_cases o t t' msg n conn) [
        | inl h ↦
            handle_handshake-IsSaved t msg.msg_id msg.preimage msg.payload n n' conn conn' v
              (rw h at e)
        | inr h ↦
            let kept = handle_command-IsSaved t t' msg.msg_id msg.preimage msg.payload n conn v in
            ground (arith, rw h at e, kept)
      ]

  run_loop-IsSaved :
      (ts : List (Moment × Moment)) (n : Node V S) (conn : Connection)
      → IsSaved n
      → IsSaved (run_loop o ts n conn).0
  unfolding run_loop
  run_loop-IsSaved [] n conn v = v
  run_loop-IsSaved ((t, t') ∷ ts) n conn v = elim (Result-cases (receive conn)) [
    | inr (inl (e, r)) ↦ rw (run_loop, r) v
    | inr (inr r) ↦ rw (run_loop, r) v
    | inl ((msg, conn'), r) ↦ elim (Result-cases (handle_message o t t' msg n conn')) [
      | inr (inl (e, h)) ↦ rw (run_loop, r, h) v
      | inr (inr h) ↦ rw (run_loop, r, h) v
      | inl ((n', conn''), h) ↦
          rw (run_loop, r, h)
            (run_loop-IsSaved ts n' conn'' (handle_message-IsSaved t t' msg n n' conn' conn'' v h))
    ]
  ]

  -- However many messages a node handles, and however its run ends, the state file holds its state.
  pub run-IsSaved :
      (ts : List (Moment × Moment)) (relay_addr : Bytes) (n : Node V S) (conn : Connection)
      → IsSaved n
      → IsSaved (run o ts relay_addr n conn).0
  unfolding run
  run-IsSaved ts relay_addr n conn v =
      let n' : Node V S = record n { relay_addr = some relay_addr } in
      elim (Result-cases (connect n.secret_key (get_commits o n') conn)) [
        | inr (inl (e, c)) ↦ rw (run, c) v
        | inr (inr c) ↦ rw (run, c) v
        | inl (conn', c) ↦ rw (run, c) (run_loop-IsSaved ts n' conn' v)
      ]
