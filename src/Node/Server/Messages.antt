-- ===== src/Node/Server/Messages.antt =====
-- The two ways that a message can go, bhumi-node/src/node.rs.
use bhumi.Base.{◌≡◌, refl, ◌⊎◌, inl, inr, Option-cases, Bool-cases, nat_eq, ok}
use bhumi.Proto.HandshakeInit.{dev_handshake_init}
use bhumi.Node.Connection.{Connection, IncomingMessage}
use bhumi.Node.Core.{Outside, Node}
use bhumi.Node.Server.{Moment, handle_handshake, handle_command, handle_message}

pub handle_message_cases :
    {V S : Type 0} (o : Outside V) (t t' : Moment) (msg : IncomingMessage) (n : Node V S)
    (conn : Connection)
    → (handle_message o t t' msg n conn
        ≡ handle_handshake o t msg.msg_id msg.preimage msg.payload n conn)
      ⊎ (handle_message o t t' msg n conn
          ≡ ok (handle_command o t t' msg.msg_id msg.preimage msg.payload n conn))
unfolding handle_message
handle_message_cases o t t' msg n conn = elim (Option-cases msg.msg_type) [
  | inl e ↦ inr (rw (handle_message, e) refl)
  | inr (b, e) ↦ elim (Bool-cases (nat_eq b dev_handshake_init)) [
    | inl f ↦ inl (rw (handle_message, e, f) refl)
    | inr f ↦ inr (rw (handle_message, e, f) refl)
  ]
]
