-- ===== src/Node/State.antt =====
-- A node's invites and peers, bhumi-node/src/state.rs. A `String` is its bytes. What
-- `random_bytes` and `current_timestamp` return are the arguments `fresh` and `now`; `sha256` is an
-- argument too.
pub mod Keys
pub mod Commits
pub mod Pairing
pub mod Serde
pub mod Stored
use bhumi.Base.{
  ℕ, List, [], ◌∷◌, ◌++◌, Bool, true, false, not, ◌||◌, Option, none, some, if◌then◌else◌, ◌==◌, Eq,
  bytes_has_eq, length, nat_eq, concat, ◌≡◌,
}
use bhumi.Base.Map
use bhumi.Base.Set
use bhumi.Proto.Buffer.{Bytes, cut}

pub data PeerRole : Type 0 where
  owner : PeerRole
  writer : PeerRole
  reader : PeerRole

pub record InviteRecord : Type 0 where
  pub alias : Bytes
  pub preimage : Bytes
  pub role : PeerRole
  pub created_at : ℕ

pub record PendingPeerRecord : Type 0 where
  pub alias : Bytes
  pub their_id52 : Bytes
  pub their_preimage : Bytes
  pub my_preimage : Bytes
  pub relay_url : Option Bytes
  pub created_at : ℕ

pub record PeerRecord : Type 0 where
  pub alias : Bytes
  pub role : PeerRole
  pub last_known_relay : Option Bytes
  pub last_contacted : ℕ
  pub issued_preimages : List Bytes
  pub their_preimage : Option Bytes

pub record DeviceState : Type 0 where
  pub invites : List (Bytes × InviteRecord)
  pub pending_peers : List (Bytes × PendingPeerRecord)
  pub peers : List (Bytes × PeerRecord)

abbrev pub empty : DeviceState
empty = record { invites = []; pending_peers = []; peers = [] }

pub data PreimageLookup : Type 0 where
  invite : InviteRecord → PreimageLookup
  peer : Bytes → PeerRecord → PreimageLookup

unfoldable pub create_invite :
    (Bytes → Bytes)
    → Bytes
    → ℕ
    → Bytes
    → PeerRole
    → DeviceState
    → DeviceState × InviteRecord × Bytes
create_invite sha256 fresh now alias role s =
    let r : InviteRecord = record {
      alias = alias;
      preimage = fresh;
      role = role;
      created_at = now;
    } in
    (record s { invites = Map.insert fresh r s.invites }, r, sha256 fresh)

unfoldable pub accept_invite :
    (Bytes → Bytes) → Bytes → ℕ → Bytes → Bytes → Bytes → DeviceState → DeviceState × Bytes × Bytes
accept_invite sha256 fresh now their_id52 their_preimage alias s =
    let r : PendingPeerRecord = record {
      alias = alias;
      their_id52 = their_id52;
      their_preimage = their_preimage;
      my_preimage = fresh;
      relay_url = none;
      created_at = now;
    } in
    (record s { pending_peers = Map.insert their_id52 r s.pending_peers }, fresh, sha256 fresh)

unfoldable pub complete_handshake_as_inviter :
    (Bytes → Bytes)
    → Bytes
    → ℕ
    → Bytes
    → Bytes
    → Bytes
    → Option Bytes
    → DeviceState
    → DeviceState × Option (Bytes × Bytes)
complete_handshake_as_inviter sha256 fresh now preimage peer_id52 peer_preimage peer_relay s =
    elim (Map.lookup preimage s.invites) [
      | none ↦ (s, none)
      | some i ↦
          let p : PeerRecord = record {
            alias = i.alias;
            role = i.role;
            last_known_relay = peer_relay;
            last_contacted = now;
            issued_preimages = fresh ∷ [];
            their_preimage = some peer_preimage;
          } in
          (
            record s {
              invites = Map.remove preimage s.invites;
              peers = Map.insert peer_id52 p s.peers;
            },
            some (fresh, sha256 fresh),
          )
    ]

unfoldable pub complete_handshake_as_acceptor :
    ℕ → Bytes → Bytes → Option Bytes → DeviceState → DeviceState × Bool
complete_handshake_as_acceptor now peer_id52 peer_preimage peer_relay s =
    elim (Map.lookup peer_id52 s.pending_peers) [
      | none ↦ (s, false)
      | some pending ↦
          let p : PeerRecord = record {
            alias = pending.alias;
            role = reader;
            last_known_relay = peer_relay;
            last_contacted = now;
            issued_preimages = pending.my_preimage ∷ [];
            their_preimage = some peer_preimage;
          } in
          (
            record s {
              pending_peers = Map.remove peer_id52 s.pending_peers;
              peers = Map.insert peer_id52 p s.peers;
            },
            true,
          )
    ]

-- The three loops of `get_all_commits`.
unfoldable pub invite_commits : (Bytes → Bytes) → List (Bytes × InviteRecord) → List Bytes
invite_commits sha256 [] = []
invite_commits sha256 ((_, i) ∷ m) = sha256 i.preimage ∷ invite_commits sha256 m

unfoldable pub pending_commits : (Bytes → Bytes) → List (Bytes × PendingPeerRecord) → List Bytes
pending_commits sha256 [] = []
pending_commits sha256 ((_, p) ∷ m) = sha256 p.my_preimage ∷ pending_commits sha256 m

unfoldable pub commits_of : (Bytes → Bytes) → List Bytes → List Bytes
commits_of sha256 [] = []
commits_of sha256 (p ∷ ps) = sha256 p ∷ commits_of sha256 ps

unfoldable pub peer_commits : (Bytes → Bytes) → List (Bytes × PeerRecord) → List Bytes
unfolding commits_of
peer_commits sha256 [] = []
peer_commits sha256 ((_, p) ∷ m) = commits_of sha256 p.issued_preimages ++ peer_commits sha256 m

unfoldable pub get_all_commits : (Bytes → Bytes) → DeviceState → List Bytes
unfolding invite_commits pending_commits peer_commits
get_all_commits sha256 s =
    invite_commits sha256 s.invites
    ++ (pending_commits sha256 s.pending_peers ++ peer_commits sha256 s.peers)

-- The loop of `lookup_preimage` over the peers.
unfoldable pub find_issuer : Bytes → List (Bytes × PeerRecord) → Option PreimageLookup
find_issuer preimage [] = none
find_issuer preimage ((id52, p) ∷ m) =
    if Set.contains preimage p.issued_preimages then some (peer id52 p) else find_issuer preimage m

unfoldable pub lookup_preimage : Bytes → DeviceState → Option PreimageLookup
unfolding find_issuer
lookup_preimage preimage s = elim (Map.lookup preimage s.invites) [
  | some i ↦ some (invite i)
  | none ↦ find_issuer preimage s.peers
]

unfoldable pub consume_and_renew_preimage :
    (Bytes → Bytes) → Bytes → ℕ → Bytes → Bytes → DeviceState → DeviceState × Option (Bytes × Bytes)
consume_and_renew_preimage sha256 fresh now peer_id52 old_preimage s =
    elim (Map.lookup peer_id52 s.peers) [
      | none ↦ (s, none)
      | some p ↦
          let p' : PeerRecord = record p {
            issued_preimages = Set.remove old_preimage p.issued_preimages ++ fresh ∷ [];
            last_contacted = now;
          } in
          (record s { peers = Map.insert peer_id52 p' s.peers }, some (fresh, sha256 fresh))
    ]

unfoldable pub get_peer_preimage : Bytes → DeviceState → Option Bytes
get_peer_preimage peer_id52 s = elim (Map.lookup peer_id52 s.peers) [
  | none ↦ none
  | some p ↦ p.their_preimage
]

unfoldable pub update_peer_preimage : ℕ → Bytes → Bytes → DeviceState → DeviceState
update_peer_preimage now peer_id52 new_preimage s = elim (Map.lookup peer_id52 s.peers) [
  | none ↦ s
  | some p ↦ record s {
    peers =
        Map.insert peer_id52 (record p { their_preimage = some new_preimage; last_contacted = now })
          s.peers;
  }
]

unfoldable pub find_alias : Bytes → List (Bytes × PeerRecord) → Option (Bytes × PeerRecord)
find_alias alias [] = none
find_alias alias ((id52, p) ∷ m) = if p.alias == alias then some (id52, p) else find_alias alias m

unfoldable pub find_peer_by_alias : Bytes → DeviceState → Option (Bytes × PeerRecord)
unfolding find_alias
find_peer_by_alias alias s = find_alias alias s.peers

-- `BASE64URL_NOPAD` of the data-encoding library.
pub record Base64 : Type 0 where
  pub encode : Bytes → Bytes
  pub decode : Bytes → Option Bytes
  pub decode-encode : (b : Bytes) → decode (encode b) ≡ some b

pub data TokenError : Type 0 where
  invalid_base64url : TokenError
  wrong_length : TokenError

pub data TokenResult : Type 0 where
  parsed : Bytes → Bytes → TokenResult
  rejected : TokenError → TokenResult

unfoldable pub create_invite_token : Base64 → Bytes → Bytes → Bytes
create_invite_token b64 id52 preimage = b64.encode (concat (id52 ∷ preimage ∷ []))

-- The slices are within the 64 bytes that were checked for.
unfoldable pub parse_invite_token : Base64 → Bytes → TokenResult
parse_invite_token b64 token = elim (b64.decode token) [
  | none ↦ rejected invalid_base64url
  | some bytes ↦
      if not (nat_eq (length bytes) 64)
      then rejected wrong_length
      else parsed (cut bytes 0 32) (cut bytes 32 64)
]
