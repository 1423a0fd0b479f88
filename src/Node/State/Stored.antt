-- ===== src/Node/State/Stored.antt =====
-- The file of a node's state, bhumi-node/src/state.rs: keys and preimages as hexadecimal texts. The
-- JSON library and HEXLOWER are parameters. A file is its text, or none if there is none; reading and
-- writing files succeeds. A map is a list in some order, which stands for the order in which a
-- `HashMap` happens to be walked.
pub mod Round
use bhumi.Base.{
  ◌≡◌, refl, sym, ap, ◌∙◌, List, [], ◌∷◌, ◌++◌, Bool, true, false, Option, none, some, ◌==◌,
  bytes_has_eq, bytes_eq_iff, length, arith, append_assoc, append-nil, subst, inl, inr, Bool-cases,
  Result, ok, panic,
}
use bhumi.Base.Map
use bhumi.Proto.Buffer.{Bytes}
use bhumi.Node.State.Serde.{
  Hex, IsHex, bytes_to_hex, hex_to_bytes, hex_to_bytes-bytes_to_hex, serialize_values,
  deserialize_values, serialize_invite, deserialize_invite, serialize_pending, deserialize_pending,
  serialize_peer, deserialize_peer, IsInvite, IsPending, IsPeer, deserialize-serialize_values,
  deserialize-serialize_invite, deserialize-serialize_pending, deserialize-serialize_peer,
}
use bhumi.Node.State.{DeviceState, InviteRecord, PendingPeerRecord, PeerRecord, empty}

pub record SerializableState : Type 0 where
  pub invites : List (Bytes × InviteRecord)
  pub pending_peers : List (Bytes × PendingPeerRecord)
  pub peers : List (Bytes × PeerRecord)

-- `collect` into a map: one insertion after the other.
unfoldable pub collect : {V : Type 0} → List (Bytes × V) → List (Bytes × V) → List (Bytes × V)
collect [] m = m
collect ((k, v) ∷ rest) m = collect rest (Map.insert k v m)

unfoldable pub hex_keys : {V : Type 0} → Hex → List (Bytes × V) → List (Bytes × V)
unfolding bytes_to_hex
hex_keys h [] = []
hex_keys h ((k, v) ∷ m) = (bytes_to_hex h k, v) ∷ hex_keys h m

-- An entry with another key than the text of 32 bytes is passed over.
unfoldable pub byte_keys : {V : Type 0} → Hex → List (Bytes × V) → List (Bytes × V)
unfolding hex_to_bytes
byte_keys h [] = []
byte_keys h ((k, v) ∷ m) = elim (hex_to_bytes h k) [
  | none ↦ byte_keys h m
  | some key ↦ (key, v) ∷ byte_keys h m
]

unfoldable pub to_serializable : Hex → DeviceState → SerializableState
unfolding collect hex_keys
to_serializable h s = record {
  invites = collect (hex_keys h s.invites) [];
  pending_peers = collect (hex_keys h s.pending_peers) [];
  peers = collect (hex_keys h s.peers) [];
}

unfoldable pub from_serializable : Hex → SerializableState → DeviceState
unfolding collect byte_keys
from_serializable h s = record {
  invites = collect (byte_keys h s.invites) [];
  pending_peers = collect (byte_keys h s.pending_peers) [];
  peers = collect (byte_keys h s.peers) [];
}

-- What serde writes for the state, and what it makes of it when it reads; one record that is no
-- record makes all of it an error.
unfoldable pub serialize : Hex → SerializableState → SerializableState
unfolding serialize_values
serialize h s = record {
  invites = serialize_values (serialize_invite h) s.invites;
  pending_peers = serialize_values (serialize_pending h) s.pending_peers;
  peers = serialize_values (serialize_peer h) s.peers;
}

unfoldable pub deserialize : Hex → SerializableState → Option SerializableState
unfolding deserialize_values
deserialize h s = elim (deserialize_values (deserialize_invite h) s.invites) [
  | none ↦ none
  | some invites ↦ elim (deserialize_values (deserialize_pending h) s.pending_peers) [
    | none ↦ none
    | some pending_peers ↦ elim (deserialize_values (deserialize_peer h) s.peers) [
      | none ↦ none
      | some peers ↦
          some (record { invites = invites; pending_peers = pending_peers; peers = peers })
    ]
  ]
]

-- The JSON library: the text of a state in which each array is a text already, and the reading of it.
pub record StateJson : Type 0 where
  pub write : SerializableState → Bytes
  pub read : Bytes → Option SerializableState

unfoldable pub save : Hex → StateJson → DeviceState → Bytes
unfolding to_serializable serialize
save h j s = j.write (serialize h (to_serializable h s))

-- `expect` panics on a file that does not parse.
unfoldable pub load_parsed : Hex → Option SerializableState → Result DeviceState
unfolding from_serializable deserialize
load_parsed h none = panic
load_parsed h (some texts) = elim (deserialize h texts) [
  | none ↦ panic
  | some s ↦ ok (from_serializable h s)
]

unfoldable pub load : Hex → StateJson → Option Bytes → Result DeviceState
unfolding load_parsed
load h j none = ok empty
load h j (some text) = load_parsed h (j.read text)

-- The keys of a map have 32 bytes.
abbrev pub AreKeys : {V : Type 0} → List (Bytes × V) → Type 0
AreKeys {V} m = Map.Every (λ (k : Bytes) (v : V). length k ≡ 32) m
