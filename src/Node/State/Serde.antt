-- ===== src/Node/State/Serde.antt =====
-- How the records of a node's state are written to JSON and read, bhumi-node/src/state.rs: the modules
-- `hex_bytes`, `hex_bytes_opt` and `hex_bytes_vec`. A record that is written has a hexadecimal text
-- for each array of 32 bytes. HEXLOWER is a parameter.
use bhumi.Base.{
  ◌≡◌, refl, List, [], ◌∷◌, Option, none, some, if◌then◌else◌, nat_eq, nat_eq_iff, length, true,
  All, bytes_has_eq,
}
use bhumi.Base.Map
use bhumi.Proto.Buffer.{Bytes}
use bhumi.Node.State.{InviteRecord, PendingPeerRecord, PeerRecord}

pub record Hex : Type 0 where
  pub encode : Bytes → Bytes
  pub decode : Bytes → Option Bytes

pub record IsHex (h : Hex) : Type 0 where
  pub decode-encode : (b : Bytes) → h.decode (h.encode b) ≡ some b

unfoldable pub bytes_to_hex : Hex → Bytes → Bytes
bytes_to_hex h bytes = h.encode bytes

-- `try_into` takes 32 bytes.
unfoldable pub sized : Bytes → Option Bytes
sized bytes = if nat_eq (length bytes) 32 then some bytes else none

unfoldable pub hex_to_bytes : Hex → Bytes → Option Bytes
unfolding sized
hex_to_bytes h text = elim (h.decode text) [ none ↦ none | some bytes ↦ sized bytes ]

unfoldable pub serialize_opt : Hex → Option Bytes → Option Bytes
serialize_opt h none = none
serialize_opt h (some bytes) = some (h.encode bytes)

unfoldable pub deserialize_opt : Hex → Option Bytes → Option (Option Bytes)
unfolding hex_to_bytes
deserialize_opt h none = some none
deserialize_opt h (some text) = elim (hex_to_bytes h text) [ none ↦ none | some b ↦ some (some b) ]

unfoldable pub serialize_vec : Hex → List Bytes → List Bytes
serialize_vec h [] = []
serialize_vec h (bytes ∷ vec) = h.encode bytes ∷ serialize_vec h vec

-- One text that is not that of 32 bytes makes all of it an error.
unfoldable pub deserialize_vec : Hex → List Bytes → Option (List Bytes)
unfolding hex_to_bytes
deserialize_vec h [] = some []
deserialize_vec h (text ∷ strings) = elim (hex_to_bytes h text) [
  | none ↦ none
  | some bytes ↦ elim (deserialize_vec h strings) [ none ↦ none | some vec ↦ some (bytes ∷ vec) ]
]

unfoldable pub serialize_invite : Hex → InviteRecord → InviteRecord
unfolding bytes_to_hex
serialize_invite h i = record i { preimage = bytes_to_hex h i.preimage }

unfoldable pub deserialize_invite : Hex → InviteRecord → Option InviteRecord
unfolding hex_to_bytes
deserialize_invite h i = elim (hex_to_bytes h i.preimage) [
  | none ↦ none
  | some preimage ↦ some (record i { preimage = preimage })
]

unfoldable pub serialize_pending : Hex → PendingPeerRecord → PendingPeerRecord
unfolding bytes_to_hex
serialize_pending h p = record p {
  their_id52 = bytes_to_hex h p.their_id52;
  their_preimage = bytes_to_hex h p.their_preimage;
  my_preimage = bytes_to_hex h p.my_preimage;
}

unfoldable pub deserialize_pending : Hex → PendingPeerRecord → Option PendingPeerRecord
unfolding hex_to_bytes
deserialize_pending h p = elim (hex_to_bytes h p.their_id52) [
  | none ↦ none
  | some their_id52 ↦ elim (hex_to_bytes h p.their_preimage) [
    | none ↦ none
    | some their_preimage ↦ elim (hex_to_bytes h p.my_preimage) [
      | none ↦ none
      | some my_preimage ↦ some (record p {
        their_id52 = their_id52;
        their_preimage = their_preimage;
        my_preimage = my_preimage;
      })
    ]
  ]
]

unfoldable pub serialize_peer : Hex → PeerRecord → PeerRecord
unfolding serialize_vec serialize_opt
serialize_peer h p = record p {
  issued_preimages = serialize_vec h p.issued_preimages;
  their_preimage = serialize_opt h p.their_preimage;
}

unfoldable pub deserialize_peer : Hex → PeerRecord → Option PeerRecord
unfolding deserialize_vec deserialize_opt
deserialize_peer h p = elim (deserialize_vec h p.issued_preimages) [
  | none ↦ none
  | some issued ↦ elim (deserialize_opt h p.their_preimage) [
    | none ↦ none
    | some theirs ↦ some (record p { issued_preimages = issued; their_preimage = theirs })
  ]
]

-- The values of a map, each by one of these.
unfoldable pub serialize_values : {V : Type 0} → (V → V) → List (Bytes × V) → List (Bytes × V)
serialize_values f [] = []
serialize_values f ((k, v) ∷ m) = (k, f v) ∷ serialize_values f m

unfoldable pub deserialize_values :
    {V : Type 0} → (V → Option V) → List (Bytes × V) → Option (List (Bytes × V))
deserialize_values g [] = some []
deserialize_values g ((k, v) ∷ m) = elim (g v) [
  | none ↦ none
  | some w ↦ elim (deserialize_values g m) [ none ↦ none | some rest ↦ some ((k, w) ∷ rest) ]
]

-- The arrays of a record have 32 bytes.
abbrev pub Is32 : Bytes → Type 0
Is32 b = length b ≡ 32

abbrev pub IsInvite : InviteRecord → Type 0
IsInvite i = Is32 i.preimage

abbrev pub IsPending : PendingPeerRecord → Type 0
IsPending p = Is32 p.their_id52 × Is32 p.their_preimage × Is32 p.my_preimage

abbrev IsOpt : Option Bytes → Type 0
IsOpt none = Unit {0}
IsOpt (some b) = Is32 b

abbrev pub IsPeer : PeerRecord → Type 0
IsPeer p = All Is32 p.issued_preimages × IsOpt p.their_preimage

module _ (h : Hex) (law : IsHex h) where
  pub hex_to_bytes-bytes_to_hex : (k : Bytes) → Is32 k → hex_to_bytes h (h.encode k) ≡ some k
  unfolding hex_to_bytes sized
  hex_to_bytes-bytes_to_hex k size =
      let same : nat_eq (length k) 32 ≡ true = (nat_eq_iff (length k) 32).1 size in
      rw (hex_to_bytes, law.decode-encode k, sized, same) refl

  deserialize-serialize_vec :
      (l : List Bytes) → All Is32 l → deserialize_vec h (serialize_vec h l) ≡ some l
  unfolding deserialize_vec serialize_vec
  deserialize-serialize_vec [] v = refl
  deserialize-serialize_vec (b ∷ l) v =
      rw
        (
          deserialize_vec,
          serialize_vec,
          hex_to_bytes-bytes_to_hex b v.0,
          deserialize-serialize_vec l v.1,
        )
        refl

  deserialize-serialize_opt :
      (x : Option Bytes) → IsOpt x → deserialize_opt h (serialize_opt h x) ≡ some x
  unfolding deserialize_opt serialize_opt
  deserialize-serialize_opt none v = refl
  deserialize-serialize_opt (some b) v =
      rw (deserialize_opt, serialize_opt, hex_to_bytes-bytes_to_hex b v) refl

  pub deserialize-serialize_invite :
      (i : InviteRecord) → IsInvite i → deserialize_invite h (serialize_invite h i) ≡ some i
  unfolding deserialize_invite serialize_invite bytes_to_hex
  deserialize-serialize_invite i v =
      rw
        (deserialize_invite, serialize_invite, bytes_to_hex, hex_to_bytes-bytes_to_hex i.preimage v)
        refl

  pub deserialize-serialize_pending :
      (p : PendingPeerRecord) → IsPending p → deserialize_pending h (serialize_pending h p) ≡ some p
  unfolding deserialize_pending serialize_pending bytes_to_hex
  deserialize-serialize_pending p (v, w, u) =
      rw
        (
          deserialize_pending,
          serialize_pending,
          bytes_to_hex,
          hex_to_bytes-bytes_to_hex p.their_id52 v,
          hex_to_bytes-bytes_to_hex p.their_preimage w,
          hex_to_bytes-bytes_to_hex p.my_preimage u,
        )
        refl

  pub deserialize-serialize_peer :
      (p : PeerRecord) → IsPeer p → deserialize_peer h (serialize_peer h p) ≡ some p
  unfolding deserialize_peer serialize_peer
  deserialize-serialize_peer p (v, w) =
      rw
        (
          deserialize_peer,
          serialize_peer,
          deserialize-serialize_vec p.issued_preimages v,
          deserialize-serialize_opt p.their_preimage w,
        )
        refl

pub deserialize-serialize_values :
    {V : Type 0} (f : V → V) (g : V → Option V) (P : V → Type 0) (m : List (Bytes × V))
    → ((v : V) → P v → g (f v) ≡ some v)
    → Map.Every (λ (k : Bytes) (v : V). P v) m
    → deserialize_values g (serialize_values f m) ≡ some m
unfolding deserialize_values serialize_values
deserialize-serialize_values f g P [] round e = refl
deserialize-serialize_values f g P ((k, v) ∷ m) round e =
    rw
      (
        deserialize_values,
        serialize_values,
        round v e.0,
        deserialize-serialize_values f g P m round e.1,
      )
      refl
