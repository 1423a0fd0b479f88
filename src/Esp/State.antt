-- ===== src/Esp/State.antt =====
-- The switch's keys, invites and peers, examples/esp32-smart-switch/src/state.rs. A `String` is its
-- bytes, and a secret key its 32 bytes. `fresh` is what the random generator returns. A panic of
-- `expect` is the result `panic`.
pub mod Kept
pub mod Renew
pub mod Commits
use bhumi.Base.{
  ℕ, zero, suc, ◌-◌, List, [], ◌∷◌, ◌++◌, map, Bool, true, false, not, ◌&&◌, ◌||◌, Option, none,
  some, if◌then◌else◌, ◌==◌, bytes_has_eq, nat_eq, ltb, length, concat, ascii, Result, ok, err,
  panic, ◌>>=◌,
}
use bhumi.Proto.Buffer.{Bytes}
use bhumi.Proto.HandshakeInit
use bhumi.Proto.HandshakeInit.{HandshakeInit}
use bhumi.Proto.HandshakeComplete
use bhumi.Proto.HandshakeComplete.{HandshakeComplete, handshake_accepted, handshake_rejected}
use bhumi.Node.Connection.{SecretKey, IncomingMessage}
use bhumi.Node.Core.{Json}
use bhumi.Esp.Nvs.{Read, found, absent, failed, Nvs, key_secret, key_state, key_led_on}

pub data PeerRole : Type 0 where
  owner : PeerRole
  writer : PeerRole
  reader : PeerRole

pub record InviteRecord : Type 0 where
  pub alias : Bytes
  pub role : PeerRole

pub record PeerRecord : Type 0 where
  pub alias : Bytes
  pub role : PeerRole
  pub their_preimage : Bytes
  pub our_preimage : Bytes
  pub relay_url : Option Bytes

pub record StoredState : Type 0 where
  pub invites : List (Bytes × InviteRecord)
  pub peers : List (Bytes × PeerRecord)

abbrev pub empty : StoredState
empty = record { invites = []; peers = [] }

-- What the switch uses from outside: the storage, the ed25519 key of 32 bytes, the text of a public
-- key, the hash, the encoding of tokens, and the JSON of the state and of commands.
pub record Board (V S : Type 0) : Type 0 where
  pub nvs : Nvs S
  pub key : Bytes → SecretKey
  pub id52_text : Bytes → Bytes
  pub sha256 : Bytes → Bytes
  pub base64_encode : Bytes → Bytes
  pub write_state : StoredState → Bytes
  pub read_state : Bytes → Option StoredState
  pub json : Json V

pub record DeviceState (S : Type 0) : Type 0 where
  pub secret_key : Bytes
  pub state : StoredState
  pub nvs : S

abbrev pub zeros : ℕ → Bytes
zeros zero = []
zeros (suc n) = 0 ∷ zeros n

-- `expect`.
unfoldable pub expect : {A : Type 0} → Option A → Result A
expect none = panic
expect (some a) = ok a

-- The key that was read stands at the start of a buffer of zeros.
unfoldable pub load_or_create_key : {V S : Type 0} → Board V S → Bytes → S → Result (S × Bytes)
unfolding expect
load_or_create_key b fresh nvs = elim (b.nvs.get_blob key_secret 32 nvs) [
  | found v ↦ ok (nvs, v ++ zeros (32 - length v))
  | absent ↦ do nvs ← expect (b.nvs.set_blob key_secret fresh nvs); ok (nvs, fresh)
  | failed ↦ do nvs ← expect (b.nvs.set_blob key_secret fresh nvs); ok (nvs, fresh)
]

unfoldable pub load_state : {V S : Type 0} → Board V S → S → Option StoredState
load_state b nvs = elim (b.nvs.get_blob key_state 4096 nvs) [
  | found v ↦ b.read_state v
  | absent ↦ none
  | failed ↦ none
]

unfoldable pub unwrap_or_default : Option StoredState → StoredState
unwrap_or_default none = empty
unwrap_or_default (some s) = s

unfoldable pub load : {V S : Type 0} → Board V S → Bytes → S → Result (DeviceState S)
unfolding load_or_create_key load_state unwrap_or_default
load b fresh nvs = do
  (nvs, key) ← load_or_create_key b fresh nvs
  ok (record { secret_key = key; state = unwrap_or_default (load_state b nvs); nvs = nvs })

unfoldable pub id52 : {V S : Type 0} → Board V S → DeviceState S → Bytes
id52 b d = b.id52_text (b.key d.secret_key).public_key

unfoldable pub is_paired : {S : Type 0} → DeviceState S → Bool
is_paired d = ltb 0 (length d.state.peers) || ltb 0 (length d.state.invites)

unfoldable pub create_invite_token : {V S : Type 0} → Board V S → Bytes → Bytes → Bytes
create_invite_token b id52_bytes preimage = b.base64_encode (concat (id52_bytes ∷ preimage ∷ []))

unfoldable pub get_invite_token : {V S : Type 0} → Board V S → DeviceState S → Option Bytes
unfolding create_invite_token
get_invite_token b d = elim d.state.invites [
  | [] ↦ none
  | (preimage, i) ∷ more ↦ some (create_invite_token b (b.key d.secret_key).public_key preimage)
]

unfoldable pub invite_commits : (Bytes → Bytes) → List (Bytes × InviteRecord) → List Bytes
invite_commits sha256 [] = []
invite_commits sha256 ((preimage, i) ∷ m) = sha256 preimage ∷ invite_commits sha256 m

unfoldable pub peer_commits : (Bytes → Bytes) → List (Bytes × PeerRecord) → List Bytes
peer_commits sha256 [] = []
peer_commits sha256 ((id, p) ∷ m) = sha256 p.their_preimage ∷ peer_commits sha256 m

unfoldable pub get_commits : {V S : Type 0} → Board V S → DeviceState S → List Bytes
unfolding invite_commits peer_commits
get_commits b d = invite_commits b.sha256 d.state.invites ++ peer_commits b.sha256 d.state.peers

unfoldable pub save : {V S : Type 0} → Board V S → DeviceState S → Result (DeviceState S)
unfolding expect
save b d = do
  nvs ← expect (b.nvs.set_blob key_state (b.write_state d.state) d.nvs)
  ok (record d { nvs = nvs })

unfoldable pub create_owner_invite :
    {V S : Type 0} → Board V S → Bytes → DeviceState S → Result (DeviceState S × Bytes)
unfolding save create_invite_token
create_owner_invite b fresh d =
    let invite : InviteRecord = record { alias = ascii "owner"; role = owner } in
    do
      d ← save b (record d {
        state = record d.state { invites = d.state.invites ++ (fresh, invite) ∷ [] };
      })
      ok (d, create_invite_token b (b.key d.secret_key).public_key fresh)

-- The first invite with the preimage's commit, and the invites without it: `position` and `remove`.
unfoldable pub take_invite :
    (Bytes → Bytes)
    → Bytes
    → List (Bytes × InviteRecord)
    → Option (InviteRecord × List (Bytes × InviteRecord))
take_invite sha256 preimage [] = none
take_invite sha256 preimage ((p, i) ∷ m) = elim (sha256 p == sha256 preimage) [
  | true ↦ some (i, m)
  | false ↦ elim (take_invite sha256 preimage m) [
    | none ↦ none
    | some (j, rest) ↦ some (j, (p, i) ∷ rest)
  ]
]

-- `None` if the url is empty.
unfoldable pub non_empty : Bytes → Option Bytes
non_empty [] = none
non_empty (c ∷ cs) = some (c ∷ cs)

unfoldable pub paired : Bytes → HandshakeInit → InviteRecord → PeerRecord
unfolding non_empty
paired fresh init invite = record {
  alias = invite.alias;
  role = invite.role;
  their_preimage = fresh;
  our_preimage = init.preimage_for_peer;
  relay_url = non_empty init.relay_url;
}

unfoldable pub accept_handshake :
    {V S : Type 0}
    → Board V S
    → Bytes
    → HandshakeInit
    → Bytes
    → DeviceState S
    → Result (DeviceState S × Option (Bytes × Option Bytes))
unfolding take_invite paired save
accept_handshake b fresh init preimage d = elim (take_invite b.sha256 preimage d.state.invites) [
  | none ↦ ok (d, none)
  | some (invite, rest) ↦ do
    d ← save b (record d {
      state = record {
        invites = rest;
        peers = d.state.peers ++ (init.sender_id52, paired fresh init invite) ∷ [];
      };
    })
    let complete : HandshakeComplete = record {
      status = handshake_accepted;
      preimage_for_peer = fresh;
      relay_url = [];
    }
    ok (d, some (HandshakeComplete.to_bytes complete, some (b.sha256 fresh)))
]

unfoldable pub handle_handshake :
    {V S : Type 0}
    → Board V S
    → Bytes
    → IncomingMessage
    → DeviceState S
    → Result (DeviceState S × Option (Bytes × Option Bytes))
unfolding accept_handshake
handle_handshake b fresh msg d = elim (HandshakeInit.from_bytes msg.payload) [
  | panic ↦ panic
  | err e ↦ ok (d, none)
  | ok init ↦ accept_handshake b fresh init msg.preimage d
]

abbrev pub reject_handshake : Bytes
reject_handshake =
    HandshakeComplete.to_bytes
      (record { status = handshake_rejected; preimage_for_peer = zeros 32; relay_url = [] })

-- The loop of `lookup_preimage`.
unfoldable pub find_peer :
    (Bytes → Bytes) → Bytes → List (Bytes × PeerRecord) → Option (Bytes × PeerRecord)
find_peer sha256 commit [] = none
find_peer sha256 commit ((id, p) ∷ m) =
    if sha256 p.their_preimage == commit then some (id, p) else find_peer sha256 commit m

unfoldable pub lookup_preimage :
    {V S : Type 0} → Board V S → Bytes → DeviceState S → Option (Bytes × PeerRecord)
unfolding find_peer
lookup_preimage b preimage d = find_peer b.sha256 (b.sha256 preimage) d.state.peers

-- The loop of `renew_preimage`: the peers with the first match changed.
unfoldable pub replace_preimage :
    (Bytes → Bytes)
    → Bytes
    → Bytes
    → Bytes
    → List (Bytes × PeerRecord)
    → Option (List (Bytes × PeerRecord))
replace_preimage sha256 fresh peer_id52 old_commit [] = none
replace_preimage sha256 fresh peer_id52 old_commit ((id, p) ∷ m) =
    elim (id == peer_id52 && sha256 p.their_preimage == old_commit) [
      | true ↦ some ((id, record p { their_preimage = fresh }) ∷ m)
      | false ↦ elim (replace_preimage sha256 fresh peer_id52 old_commit m) [
        | none ↦ none
        | some m' ↦ some ((id, p) ∷ m')
      ]
    ]

unfoldable pub renew_preimage :
    {V S : Type 0}
    → Board V S
    → Bytes
    → Bytes
    → Bytes
    → DeviceState S
    → Result (DeviceState S × Option (Bytes × Bytes))
unfolding replace_preimage save
renew_preimage b fresh peer_id52 old d =
    elim (replace_preimage b.sha256 fresh peer_id52 (b.sha256 old) d.state.peers) [
      | none ↦ ok (d, none)
      | some peers ↦ do
        d ← save b (record d { state = record d.state { peers = peers } })
        ok (d, some (fresh, b.sha256 fresh))
    ]

unfoldable pub load_led_state : {V S : Type 0} → Board V S → DeviceState S → Bool
load_led_state b d = elim (b.nvs.get_u8 key_led_on d.nvs) [
  | found v ↦ not (nat_eq v 0)
  | absent ↦ false
  | failed ↦ false
]

-- A write that fails changes nothing.
unfoldable pub save_led_state : {V S : Type 0} → Board V S → Bool → DeviceState S → DeviceState S
save_led_state b on d = elim (b.nvs.set_u8 key_led_on (if on then 1 else 0) d.nvs) [
  | none ↦ d
  | some nvs ↦ record d { nvs = nvs }
]
