-- ===== src/Node/Core.antt =====
-- The `Node` of bhumi-node/src/node.rs with the operations that need no connection, and the messages
-- of bhumi-node/src/lib.rs. A `String` is its bytes. `saved` is what the state file holds; reading
-- and writing files succeeds.
use bhumi.Base.{
  ℕ, List, [], Bool, true, false, ◌||◌, Option, none, some, bytes_has_eq, length, ltb, ◌≡◌, refl,
  ◌⊎◌, inl, inr,
}
use bhumi.Base.Map
use bhumi.Proto.Buffer.{Bytes}
use bhumi.Node.State
use bhumi.Node.State.{
  DeviceState, InviteRecord, PeerRole, PeerRecord, Base64, owner, writer, reader,
  create_invite_token, get_all_commits,
}
use bhumi.Node.Connection.{SecretKey}

pub record Request (V : Type 0) : Type 0 where
  pub cmd : Bytes
  pub args : V

-- `value` is the field `data`.
pub record Response (V : Type 0) : Type 0 where
  pub succeeded : Bool
  pub value : Option V
  pub error : Option Bytes

unfoldable pub ok_response : {V : Type 0} → V → Response V
ok_response v = record { succeeded = true; value = some v; error = none }

unfoldable pub err_response : {V : Type 0} → Bytes → Response V
err_response message = record { succeeded = false; value = none; error = some message }

pub record CommandContext : Type 0 where
  pub peer_alias : Bytes
  pub peer_id52 : Bytes
  pub role : PeerRole

-- What can go wrong with a text as the error.
pub data Outcome (A : Type 0) : Type 0 where
  good : A → Outcome A
  bad : Bytes → Outcome A

-- The JSON library: its values, `get`, `as_str`, the values that `json!` builds, and the reading and
-- writing of the two messages.
pub record Json (V : Type 0) : Type 0 where
  pub null : V
  pub text : Bytes → V
  pub truth : Bool → V
  pub array : List V → V
  pub object : List (Bytes × V) → V
  pub get : Bytes → V → Option V
  pub as_str : V → Option Bytes
  pub read_request : Bytes → Outcome (Request V)
  pub write_request : Request V → Bytes
  pub read_response : Bytes → Outcome (Response V)
  pub write_response : Response V → Bytes

-- What a node uses from outside: JSON, the hash, the text encodings, and the text of a public key.
pub record Outside (V : Type 0) : Type 0 where
  pub json : Json V
  pub sha256 : Bytes → Bytes
  pub base64 : Base64
  pub hex_encode : Bytes → Bytes
  pub hex_decode : Bytes → Option Bytes
  pub base32_encode : Bytes → Bytes
  pub id52_text : Bytes → Bytes

abbrev pub CommandHandler : Type 0 → Type 0 → Type 0
CommandHandler V S = CommandContext → S → V → Outcome V × S

pub record Node (V S : Type 0) : Type 0 where
  pub secret_key : SecretKey
  pub state : DeviceState
  pub saved : DeviceState
  pub kind : Bytes
  pub location : Bytes
  pub relay_addr : Option Bytes
  pub handlers : List (Bytes × CommandHandler V S)
  pub app_state : S

-- A node without handlers whose state file holds `state`.
unfoldable pub with_state : {V S : Type 0} → SecretKey → DeviceState → Bytes → Bytes → S → Node V S
with_state key state kind location app_state = record {
  secret_key = key;
  state = state;
  saved = state;
  kind = kind;
  location = location;
  relay_addr = none;
  handlers = [];
  app_state = app_state;
}

unfoldable pub id52 : {V S : Type 0} → Outside V → Node V S → Bytes
id52 o n = o.id52_text n.secret_key.public_key

unfoldable pub command : {V S : Type 0} → Bytes → CommandHandler V S → Node V S → Node V S
command name handler n = record n { handlers = Map.insert name handler n.handlers }

unfoldable pub save : {V S : Type 0} → Node V S → Node V S
save n = record n { saved = n.state }

-- `fresh` is what `random_bytes` returns, and `now` the time.
unfoldable pub create_invite :
    {V S : Type 0} → Outside V → Bytes → ℕ → Bytes → PeerRole → Node V S → Node V S × Bytes
unfolding save
create_invite o fresh now alias role n =
    let (s, invite, _) = State.create_invite o.sha256 fresh now alias role n.state in
    (
      save (record n { state = s }),
      create_invite_token o.base64 n.secret_key.public_key invite.preimage,
    )

unfoldable pub is_paired : {V S : Type 0} → Node V S → Bool
is_paired n = ltb 0 (length n.state.peers) || ltb 0 (length n.state.invites)

unfoldable pub peer_count : {V S : Type 0} → Node V S → ℕ
peer_count n = length n.state.peers

unfoldable pub invite_count : {V S : Type 0} → Node V S → ℕ
invite_count n = length n.state.invites

unfoldable pub get_commits : {V S : Type 0} → Outside V → Node V S → List Bytes
get_commits o n = get_all_commits o.sha256 n.state

pub Outcome-cases :
    {A : Type 0} (x : Outcome A) → ((a : A) × (x ≡ good a)) ⊎ ((e : Bytes) × (x ≡ bad e))
Outcome-cases (good a) = inl (a, refl)
Outcome-cases (bad e) = inr (e, refl)
