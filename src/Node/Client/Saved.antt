-- ===== src/Node/Client/Saved.antt =====
-- The state file of a node that pairs and sends, bhumi-node/src/node.rs.
use bhumi.Base.{
  ℕ, ◌≡◌, refl, Option, none, some, ◌⊎◌, inl, inr, arith, Option-cases, Bool-cases, Result, ok, err,
  panic, nat_eq,
}
use bhumi.Proto.Buffer.{Bytes}
use bhumi.Proto.HandshakeInit
use bhumi.Proto.HandshakeInit.{HandshakeInit}
use bhumi.Proto.HandshakeComplete
use bhumi.Proto.HandshakeComplete.{HandshakeComplete, handshake_accepted}
use bhumi.Proto.SendResult.{SendResult, send_ok}
use bhumi.Node.State.{
  TokenResult, TokenError, parsed, rejected, parse_invite_token, find_peer_by_alias,
  get_peer_preimage,
}
use bhumi.Node.Connection.{Connection}
use bhumi.Node.Core.{Outside, Node, save, Outcome-cases}
use bhumi.Node.Server.{Moment}
use bhumi.Node.Server.Saved.{IsSaved}
use bhumi.Node.Client.{
  pair, pair_on, accept, take_exchange, take_result, take_complete, send, send_on, take_send,
  take_response, store_preimage, split_response, exchange_on,
}

module _ {V S : Type 0} (now : ℕ) (id52 : Bytes) where
  take_complete-IsSaved :
      (r : Result HandshakeComplete) (n : Node V S)
      → IsSaved n
      → IsSaved (take_complete now id52 r n).0
  unfolding take_complete save
  take_complete-IsSaved (err e) n v = v
  take_complete-IsSaved panic n v = v
  take_complete-IsSaved (ok complete) n v = ground (arith, v)

  take_exchange-IsSaved :
      (r : Result SendResult) (n : Node V S) → IsSaved n → IsSaved (take_exchange now id52 r n).0
  unfolding take_exchange take_result
  take_exchange-IsSaved (err e) n v = v
  take_exchange-IsSaved panic n v = v
  take_exchange-IsSaved (ok result) n v = elim (Bool-cases (nat_eq result.status send_ok)) [
    | inl e ↦ rw e (take_complete-IsSaved (HandshakeComplete.from_bytes result.payload) n v)
    | inr e ↦ rw e v
  ]

  store_preimage-IsSaved :
      (p : Option Bytes) (n : Node V S) → IsSaved n → IsSaved (store_preimage now id52 p n)
  unfolding store_preimage save
  store_preimage-IsSaved none n v = v
  store_preimage-IsSaved (some p) n v = refl

  take_response-IsSaved :
      (o : Outside V) (payload : Bytes) (n : Node V S)
      → IsSaved n
      → IsSaved (take_response o now id52 payload n).0
  unfolding take_response
  take_response-IsSaved o payload n v =
      elim (Outcome-cases (o.json.read_response (split_response o payload).0)) [
        | inl (r, e) ↦
            rw (take_response, e) (store_preimage-IsSaved (split_response o payload).1 n v)
        | inr (_, e) ↦ rw (take_response, e) v
      ]

  take_send-IsSaved :
      (o : Outside V) (r : Result SendResult) (n : Node V S)
      → IsSaved n
      → IsSaved (take_send o now id52 r n).0
  unfolding take_send
  take_send-IsSaved o (err e) n v = v
  take_send-IsSaved o panic n v = v
  take_send-IsSaved o (ok result) n v = elim (Bool-cases (nat_eq result.status send_ok)) [
    | inl e ↦ rw e (take_response-IsSaved o result.payload n v)
    | inr e ↦ rw e v
  ]

TokenResult-cases :
    (r : TokenResult)
    → ((id52 : Bytes) × (preimage : Bytes) × (r ≡ parsed id52 preimage))
      ⊎ ((e : TokenError) × (r ≡ rejected e))
TokenResult-cases (parsed id52 preimage) = inl (id52, preimage, refl)
TokenResult-cases (rejected e) = inr (e, refl)

module _ {V S : Type 0} (o : Outside V) where
  -- However a pairing ends, the state file holds the node's state.
  pub pair-IsSaved :
      (t : Moment) (now : ℕ) (opened : Result Connection) (relay_addr token alias : Bytes)
      (n : Node V S)
      → IsSaved n
      → IsSaved (pair o t now opened relay_addr token alias n).0
  unfolding pair pair_on accept save
  pair-IsSaved t now opened relay_addr token alias n v =
      elim (TokenResult-cases (parse_invite_token o.base64 token)) [
        | inl (id52, preimage, e) ↦
            rw (pair, pair_on, e)
              (let (n', mine) = accept o t id52 preimage alias n in
                let init : HandshakeInit = record {
                  sender_id52 = n'.secret_key.public_key;
                  preimage_for_peer = mine;
                  relay_url = relay_addr;
                } in
                take_exchange-IsSaved now id52
                  (exchange_on opened id52 preimage (HandshakeInit.to_bytes init)) n' refl)
        | inr (_, e) ↦ rw (pair, pair_on, e) v
      ]

  -- However a command that is sent ends, the state file holds the sender's state.
  pub send-IsSaved :
      (now : ℕ) (opened : Result Connection) (peer_alias cmd : Bytes) (args : V) (n : Node V S)
      → IsSaved n
      → IsSaved (send o now opened peer_alias cmd args n).0
  unfolding send send_on
  send-IsSaved now opened peer_alias cmd args n v =
      elim (Option-cases (find_peer_by_alias peer_alias n.state)) [
        | inl e ↦ rw (send, send_on, e) v
        | inr ((id52, _), e) ↦ elim (Option-cases (get_peer_preimage id52 n.state)) [
          | inl f ↦ rw (send, send_on, e, f) v
          | inr (preimage, f) ↦
              rw (send, send_on, e, f)
                (take_send-IsSaved now id52 o
                  (exchange_on opened id52 preimage
                    (o.json.write_request (record { cmd = cmd; args = args })))
                  n v)
        ]
      ]
