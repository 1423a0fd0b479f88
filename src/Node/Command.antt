-- ===== src/Node/Command.antt =====
-- The dispatch of commands, bhumi-node/src/node.rs. A function for each arm of `dispatch_command`.
pub mod Access
use bhumi.Base.{
  ℕ, List, [], ◌∷◌, ◌++◌, Bool, true, false, not, Option, none, some, if◌then◌else◌, ◌==◌,
  bytes_has_eq, length, take, ascii, ltb,
}
use bhumi.Base.Map
use bhumi.Proto.Buffer.{Bytes}
use bhumi.Node.State.{DeviceState, InviteRecord, PeerRole, PeerRecord, owner, writer, reader}
use bhumi.Node.Core.{
  Request, Response, CommandContext, Outcome, good, bad, Json, Outside, CommandHandler, Node,
  ok_response, err_response, id52, save, create_invite,
}

-- `format!("{:?}", role).to_lowercase()`.
unfoldable pub role_text : PeerRole → Bytes
role_text owner = ascii "owner"
role_text writer = ascii "writer"
role_text reader = ascii "reader"

abbrev pub is_owner : PeerRole → Bool
is_owner owner = true
is_owner writer = false
is_owner reader = false

abbrev pub denied : {V : Type 0} → Response V
denied = err_response (ascii "permission denied: owner only")

-- `req.args.get(name).and_then(|v| v.as_str())`.
unfoldable pub str_arg : {V : Type 0} → Json V → Bytes → V → Option Bytes
str_arg j name args = elim (j.get name args) [ none ↦ none | some v ↦ j.as_str v ]

abbrev unwrap_or : Bytes → Option Bytes → Bytes
unwrap_or default none = default
unwrap_or default (some v) = v

unfoldable pub node_info : {V S : Type 0} → Outside V → Node V S → Response V
node_info o n = ok_response (
    o.json.object (
      (ascii "kind", o.json.text n.kind)
      ∷ (ascii "location", o.json.text n.location)
      ∷ (ascii "id", o.json.text (id52 o n))
      ∷ []))

unfoldable pub parse_role : Bytes → PeerRole
parse_role role_str =
    if role_str == ascii "owner"
    then owner
    else if role_str == ascii "writer"
    then writer
    else reader

unfoldable pub invite_create :
    {V S : Type 0} → Outside V → Bytes → ℕ → CommandContext → V → Node V S → Node V S × Response V
unfolding str_arg parse_role
invite_create o fresh now ctx args n =
    if not (is_owner ctx.role)
    then (n, denied)
    else let alias = unwrap_or (ascii "user") (str_arg o.json (ascii "alias") args) in
      let role_str = unwrap_or (ascii "reader") (str_arg o.json (ascii "role") args) in
      let (n', token) = create_invite o fresh now alias (parse_role role_str) n in
      (n', ok_response (o.json.object ((ascii "token", o.json.text token) ∷ [])))

unfoldable pub invite_values : {V : Type 0} → Outside V → List (Bytes × InviteRecord) → List V
unfolding role_text
invite_values o [] = []
invite_values o ((preimage, i) ∷ m) =
    o.json.object (
      (ascii "id", o.json.text (o.hex_encode (take 8 preimage)))
      ∷ (ascii "alias", o.json.text i.alias)
      ∷ (ascii "role", o.json.text (role_text i.role))
      ∷ [])
    ∷ invite_values o m

unfoldable pub invite_list : {V S : Type 0} → Outside V → CommandContext → Node V S → Response V
unfolding invite_values
invite_list o ctx n =
    if not (is_owner ctx.role)
    then denied
    else ok_response
        (o.json.object ((ascii "invites", o.json.array (invite_values o n.state.invites)) ∷ []))

-- `prefix.len().min(32)`.
abbrev min_32 : ℕ → ℕ
min_32 n = if ltb n 32 then n else 32

-- The first key that the prefix fits.
unfoldable pub find_prefix : Bytes → List (Bytes × InviteRecord) → Option Bytes
find_prefix prefix [] = none
find_prefix prefix ((p, _) ∷ m) =
    if take (min_32 (length prefix)) p == prefix then some p else find_prefix prefix m

unfoldable pub delete_found :
    {V S : Type 0} → Outside V → Option Bytes → Node V S → Node V S × Response V
unfolding save
delete_found o none n = (n, err_response (ascii "invite not found"))
delete_found o (some preimage) n = (
  save (record n { state = record n.state { invites = Map.remove preimage n.state.invites } }),
  ok_response (o.json.object ((ascii "deleted", o.json.truth true) ∷ [])),
)

unfoldable pub invite_delete :
    {V S : Type 0} → Outside V → CommandContext → V → Node V S → Node V S × Response V
unfolding str_arg find_prefix delete_found
invite_delete o ctx args n =
    if not (is_owner ctx.role) then (n, denied) else elim (str_arg o.json (ascii "id") args) [
      | none ↦ (n, err_response (ascii "missing id"))
      | some id ↦ elim (o.hex_decode id) [
        | none ↦ (n, err_response (ascii "invalid id"))
        | some prefix ↦ delete_found o (find_prefix prefix n.state.invites) n
      ]
    ]

unfoldable pub peer_values : {V : Type 0} → Outside V → List (Bytes × PeerRecord) → List V
unfolding role_text
peer_values o [] = []
peer_values o ((id52, p) ∷ m) =
    o.json.object (
      (ascii "id", o.json.text (o.base32_encode (take 10 id52)))
      ∷ (ascii "alias", o.json.text p.alias)
      ∷ (ascii "role", o.json.text (role_text p.role))
      ∷ [])
    ∷ peer_values o m

unfoldable pub peers_list : {V S : Type 0} → Outside V → CommandContext → Node V S → Response V
unfolding peer_values
peers_list o ctx n =
    if not (is_owner ctx.role)
    then denied
    else ok_response
        (o.json.object ((ascii "peers", o.json.array (peer_values o n.state.peers)) ∷ []))

unfoldable pub outcome_response : {V : Type 0} → Outcome V → Response V
outcome_response (good v) = ok_response v
outcome_response (bad e) = err_response e

-- The handler may change what it shares with the application, by interior mutability.
unfoldable pub custom :
    {V S : Type 0} → CommandContext → Request V → Node V S → Node V S × Response V
unfolding outcome_response
custom ctx req n = elim (Map.lookup req.cmd n.handlers) [
  | none ↦ (n, err_response (ascii "unknown command: " ++ req.cmd))
  | some handler ↦
      let (outcome, app_state) = handler ctx n.app_state req.args in
      (record n { app_state = app_state }, outcome_response outcome)
]

unfoldable pub dispatch_command :
    {V S : Type 0}
    → Outside V
    → Bytes
    → ℕ
    → CommandContext
    → Request V
    → Node V S
    → Node V S × Response V
unfolding node_info invite_create invite_list invite_delete peers_list custom
dispatch_command o fresh now ctx req n =
    if req.cmd == ascii "node/info"
    then (n, node_info o n)
    else if req.cmd == ascii "invite/create"
    then invite_create o fresh now ctx req.args n
    else if req.cmd == ascii "invite/list"
    then (n, invite_list o ctx n)
    else if req.cmd == ascii "invite/delete"
    then invite_delete o ctx req.args n
    else if req.cmd == ascii "peers/list"
    then (n, peers_list o ctx n)
    else custom ctx req n
