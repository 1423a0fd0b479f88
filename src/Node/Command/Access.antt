-- ===== src/Node/Command/Access.antt =====
-- Who may do what by a command, bhumi-node/src/node.rs.
use bhumi.Base.{
  ℕ, ◌≡◌, refl, Bool, true, false, ◌||◌, arith, ◌==◌, bytes_has_eq, bytes_eq, bytes_eq_iff, subst,
  sym, ascii, Option-cases, inl, inr,
}
use bhumi.Base.Map
use bhumi.Proto.Buffer.{Bytes}
use bhumi.Node.State.{PeerRole, PeerRecord, DeviceState, owner, writer, reader}
use bhumi.Node.State
use bhumi.Node.Core.{Request, CommandContext, Outside, Node, save, create_invite}
use bhumi.Node.Command.{
  denied, is_owner, dispatch_command, invite_create, invite_list, invite_delete, peers_list,
  delete_found, custom,
}

-- The commands that manage invites and peers.
abbrev pub is_management : Bytes → Bool
is_management cmd =
    cmd == ascii "invite/create"
    || cmd == ascii "invite/list"
    || cmd == ascii "invite/delete"
    || cmd == ascii "peers/list"

info_lem : (cmd : Bytes) → bytes_eq cmd (ascii "node/info") ≡ true → is_management cmd ≡ false
unfolding bytes_eq
info_lem cmd e =
    subst (λ c. is_management c ≡ false) (sym ((bytes_eq_iff cmd (ascii "node/info")).0 e)) refl

-- Two nodes that differ in the application's state at most.
abbrev pub SameButApp : {V S : Type 0} → Node V S → Node V S → Type 0
SameButApp n m = record m { app_state = n.app_state } ≡ n

module _ {V S : Type 0} (o : Outside V) (fresh : Bytes) (now : ℕ) (ctx : CommandContext) where
  custom-rest : (req : Request V) (n : Node V S) → SameButApp n (custom ctx req n).0
  unfolding custom
  custom-rest req n = elim (Option-cases (Map.lookup req.cmd n.handlers)) [
    | inl e ↦ rw (custom, e) refl
    | inr (handler, e) ↦ rw (custom, e) refl
  ]

  -- A peer that is not an owner can make no command change anything of the node but the state that
  -- the application's own handlers share; and each command that manages invites or peers is denied
  -- to it and changes nothing at all.
  pub dispatch_command-denied :
      (req : Request V) (n : Node V S)
      → is_owner ctx.role ≡ false
      → SameButApp n (dispatch_command o fresh now ctx req n).0
        × (is_management req.cmd ≡ true → dispatch_command o fresh now ctx req n ≡ (n, denied))
  unfolding dispatch_command invite_create invite_list invite_delete peers_list
  dispatch_command-denied req n h =
      (ground (arith, h, custom-rest req n), λ m. ground (arith, h, m, info_lem req.cmd))

  invite_delete-peers :
      (args : V) (n : Node V S) → (invite_delete o ctx args n).0.state.peers ≡ n.state.peers
  unfolding invite_delete delete_found save
  invite_delete-peers args n = ground arith

  custom-peers : (req : Request V) (n : Node V S) → (custom ctx req n).0.state.peers ≡ n.state.peers
  unfolding custom
  custom-peers req n = elim (Option-cases (Map.lookup req.cmd n.handlers)) [
    | inl e ↦ rw (custom, e) refl
    | inr (handler, e) ↦ rw (custom, e) refl
  ]

  -- No command changes the peers, whoever sends it.
  pub dispatch_command-peers :
      (req : Request V) (n : Node V S)
      → (dispatch_command o fresh now ctx req n).0.state.peers ≡ n.state.peers
  unfolding dispatch_command invite_create create_invite State.create_invite save
  dispatch_command-peers req n = ground (arith, invite_delete-peers req.args n, custom-peers req n)
