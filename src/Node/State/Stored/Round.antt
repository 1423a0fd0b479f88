-- ===== src/Node/State/Stored/Round.antt =====
-- The round trip of a node's state through its file, `DeviceState::save` and `DeviceState::load` of
-- bhumi-node/src/state.rs.
use bhumi.Base.{
  ◌≡◌, refl, sym, ap, ◌∙◌, List, [], ◌∷◌, ◌++◌, Bool, true, false, Option, none, some, ◌==◌,
  bytes_has_eq, bytes_eq_iff, arith, append_assoc, append-nil, subst, inl, inr, Bool-cases, Result,
  ok,
}
use bhumi.Base.Map
use bhumi.Proto.Buffer.{Bytes}
use bhumi.Node.State.Serde.{
  Hex, IsHex, bytes_to_hex, hex_to_bytes, hex_to_bytes-bytes_to_hex, serialize_values,
  deserialize_values, serialize_invite, deserialize_invite, serialize_pending, deserialize_pending,
  serialize_peer, deserialize_peer, IsInvite, IsPending, IsPeer, deserialize-serialize_values,
  deserialize-serialize_invite, deserialize-serialize_pending, deserialize-serialize_peer,
}
use bhumi.Node.State.{DeviceState, InviteRecord, PendingPeerRecord, PeerRecord}
use bhumi.Node.State.Stored.{
  collect, hex_keys, byte_keys, to_serializable, from_serializable, serialize, deserialize,
  StateJson, save, load_parsed, load, AreKeys,
}

state_eq :
    {a a' : List (Bytes × InviteRecord)} {b b' : List (Bytes × PendingPeerRecord)}
    {c c' : List (Bytes × PeerRecord)}
    → a ≡ a'
    → b ≡ b'
    → c ≡ c'
    → ◌≡◌ {A = Result DeviceState}
        (ok (record { invites = a; pending_peers = b; peers = c }))
        (ok (record { invites = a'; pending_peers = b'; peers = c' }))
state_eq p q r = rw (p, q, r) refl

apart : (b : Bool) → b ≡ false → ¬ (b ≡ true)
apart b e f = cc

some-ne-none : {A : Type 0} (x : A) → ¬ (some x ≡ none)
some-ne-none x h = cc

flip : (j k : Bytes) → ((k == j) ≡ false) → ((j == k) ≡ false)
flip j k e = ground (arith, bytes_eq_iff j k, bytes_eq_iff k j, e)

some_eq : {A : Type 0} (x y : A) → some x ≡ some y → x ≡ y
some_eq x y h = cc

encode_eq : (h : Hex) → IsHex h → (j k : Bytes) → ((h.encode j == h.encode k) ≡ (j == k))
encode_eq h law j k = elim (Bool-cases (j == k)) [
  | inl e ↦ rw e ((bytes_eq_iff (h.encode j) (h.encode k)).1 (ap h.encode ((bytes_eq_iff j k).0 e)))
  | inr e ↦ elim (Bool-cases (h.encode j == h.encode k)) [
    | inr f ↦ f ∙ sym e
    | inl f ↦
        let same : some j ≡ some k =
          sym (law.decode-encode j)
          ∙ ap h.decode ((bytes_eq_iff (h.encode j) (h.encode k)).0 f)
          ∙ law.decode-encode k in
        absurd (apart (j == k) e ((bytes_eq_iff j k).1 (some_eq j k same)))
  ]
]

module _ {V : Type 0} where
  -- Inserting a key that is not there puts it at the end.
  insert-new :
      (k : Bytes) (v : V) (m : List (Bytes × V))
      → Map.lookup k m ≡ none
      → Map.insert k v m ≡ m ++ (k, v) ∷ []
  unfolding Map.insert Map.lookup
  insert-new k v [] h = refl
  insert-new k v ((j, w) ∷ m) h = elim (Bool-cases (j == k)) [
    | inl e ↦ absurd (some-ne-none w (rw e at h))
    | inr e ↦ rw e (ap (◌∷◌ (j, w)) (insert-new k v m (rw e at h)))
  ]

  other_key :
      (j k : Bytes) (v : V) (a rest : List (Bytes × V))
      → Map.lookup j (a ++ (k, v) ∷ rest) ≡ none
      → ((k == j) ≡ false)
  unfolding Map.lookup
  other_key j k v [] rest h = ground (arith, h)
  other_key j k v ((i, w) ∷ a) rest h = ground (arith, h, other_key j k v a rest)

  unique-new :
      (k : Bytes) (v : V) (a rest : List (Bytes × V))
      → Map.IsUnique (a ++ (k, v) ∷ rest)
      → Map.lookup k a ≡ none
  unfolding Map.lookup
  unique-new k v [] rest u = refl
  unique-new k v ((j, w) ∷ a) rest u =
      let e = other_key j k v a rest u.0 in rw (flip j k e) (unique-new k v a rest u.1)

  collect-append : (l m : List (Bytes × V)) → Map.IsUnique (m ++ l) → collect l m ≡ m ++ l
  unfolding collect
  collect-append [] m u = sym (append-nil m)
  collect-append ((k, v) ∷ rest) m u =
      let end = append_assoc m ((k, v) ∷ []) rest in
      ap (collect rest) (insert-new k v m (unique-new k v m rest u))
      ∙ collect-append rest (m ++ (k, v) ∷ []) (subst Map.IsUnique (sym end) u)
      ∙ end

  collect_unique : (l : List (Bytes × V)) → Map.IsUnique l → collect l [] ≡ l
  collect_unique l u = collect-append l [] u

  lookup-hex_keys :
      (h : Hex) (k : Bytes) (m : List (Bytes × V))
      → IsHex h
      → Map.lookup (h.encode k) (hex_keys h m) ≡ Map.lookup k m
  unfolding Map.lookup hex_keys bytes_to_hex
  lookup-hex_keys h k [] law = refl
  lookup-hex_keys h k ((j, v) ∷ m) law = rw (encode_eq h law j k, lookup-hex_keys h k m law) refl

  hex_keys-IsUnique :
      (h : Hex) (m : List (Bytes × V)) → IsHex h → Map.IsUnique m → Map.IsUnique (hex_keys h m)
  unfolding hex_keys bytes_to_hex
  hex_keys-IsUnique h [] law u = tt
  hex_keys-IsUnique h ((k, v) ∷ m) law u =
      (lookup-hex_keys h k m law ∙ u.0, hex_keys-IsUnique h m law u.1)

  byte_keys_step :
      (h : Hex) (t key : Bytes) (v : V) (m : List (Bytes × V))
      → hex_to_bytes h t ≡ some key
      → byte_keys h ((t, v) ∷ m) ≡ (key, v) ∷ byte_keys h m
  unfolding byte_keys
  byte_keys_step h t key v m e = rw (byte_keys, e) refl

  byte_keys-hex_keys :
      (h : Hex) (m : List (Bytes × V)) → IsHex h → AreKeys m → byte_keys h (hex_keys h m) ≡ m
  unfolding byte_keys hex_keys bytes_to_hex
  byte_keys-hex_keys h [] law ks = refl
  byte_keys-hex_keys h ((k, v) ∷ m) law ks =
      byte_keys_step h (h.encode k) k v (hex_keys h m) (hex_to_bytes-bytes_to_hex h law k ks.0)
      ∙ ap (◌∷◌ (k, v)) (byte_keys-hex_keys h m law ks.1)

  map-round :
      (h : Hex) (m : List (Bytes × V))
      → IsHex h
      → Map.IsUnique m
      → AreKeys m
      → collect (byte_keys h (collect (hex_keys h m) [])) [] ≡ m
  map-round h m law u ks =
      ap (λ (x : List (Bytes × V)). collect (byte_keys h x) [])
        (collect_unique (hex_keys h m) (hex_keys-IsUnique h m law u))
      ∙ ap (λ (x : List (Bytes × V)). collect x []) (byte_keys-hex_keys h m law ks)
      ∙ collect_unique m u

hex_keys-Every :
    {V : Type 0} (h : Hex) (P : V → Type 0) (m : List (Bytes × V))
    → Map.Every (λ (k : Bytes) (v : V). P v) m
    → Map.Every (λ (k : Bytes) (v : V). P v) (hex_keys h m)
unfolding hex_keys bytes_to_hex
hex_keys-Every h P [] e = tt
hex_keys-Every h P ((k, v) ∷ m) e = (e.0, hex_keys-Every h P m e.1)

-- The texts of one map give the map's values back.
values-round :
    {V : Type 0} (h : Hex) (f : V → V) (g : V → Option V) (P : V → Type 0) (m : List (Bytes × V))
    → IsHex h
    → ((v : V) → P v → g (f v) ≡ some v)
    → Map.IsUnique m
    → Map.Every (λ (k : Bytes) (v : V). P v) m
    → deserialize_values g (serialize_values f (collect (hex_keys h m) []))
      ≡ some (collect (hex_keys h m) [])
values-round {V} h f g P m law round u e =
    let same = collect_unique (hex_keys h m) (hex_keys-IsUnique h m law u) in
    deserialize-serialize_values f g P (collect (hex_keys h m) []) round (
      subst (λ (x : List (Bytes × V)). Map.Every (λ (k : Bytes) (v : V). P v) x) (sym same)
        (hex_keys-Every h P m e))

-- A state that can be stored: each map has each key once, and the keys and the arrays in the records
-- have 32 bytes.
pub record IsStorable (s : DeviceState) : Type 0 where
  pub invites : Map.IsUnique s.invites
  pub pending_peers : Map.IsUnique s.pending_peers
  pub peers : Map.IsUnique s.peers
  pub invite_keys : AreKeys s.invites
  pub pending_keys : AreKeys s.pending_peers
  pub peer_keys : AreKeys s.peers
  pub each_invite : Map.Every (λ (k : Bytes) (i : InviteRecord). IsInvite i) s.invites
  pub each_pending : Map.Every (λ (k : Bytes) (p : PendingPeerRecord). IsPending p) s.pending_peers
  pub each_peer : Map.Every (λ (k : Bytes) (p : PeerRecord). IsPeer p) s.peers

load_saved :
    (h : Hex) (j : StateJson) (s : DeviceState)
    → IsHex h
    → j.read (j.write (serialize h (to_serializable h s)))
      ≡ some (serialize h (to_serializable h s))
    → IsStorable s
    → load h j (some (save h j s)) ≡ ok s
unfolding load load_parsed save from_serializable to_serializable serialize deserialize
load_saved h j s law reads v =
    rw
      (
        load,
        save,
        reads,
        load_parsed,
        deserialize,
        values-round h (serialize_invite h) (deserialize_invite h) IsInvite s.invites law
            (deserialize-serialize_invite h law) v.invites v.each_invite,
        values-round h (serialize_pending h) (deserialize_pending h) IsPending s.pending_peers law
            (deserialize-serialize_pending h law) v.pending_peers v.each_pending,
        values-round h (serialize_peer h) (deserialize_peer h) IsPeer s.peers law
            (deserialize-serialize_peer h law) v.peers v.each_peer,
      )
      (state_eq (map-round h s.invites law v.invites v.invite_keys)
        (map-round h s.pending_peers law v.pending_peers v.pending_keys)
        (map-round h s.peers law v.peers v.peer_keys))

-- A state that was saved is loaded without a panic, and each of the three maps has under each key
-- what it had. The maps have each key once, and the keys and the arrays in the records have 32 bytes.
-- HEXLOWER decodes what it encoded; and the JSON library reads back what it wrote for this state,
-- which has a text for each key and array.
pub load-save :
    (h : Hex) (j : StateJson) (s : DeviceState)
    → IsHex h
    → j.read (j.write (serialize h (to_serializable h s)))
      ≡ some (serialize h (to_serializable h s))
    → IsStorable s
    → (s' : DeviceState) × (load h j (some (save h j s)) ≡ ok s')
      × ((k : Bytes) → Map.lookup k s'.invites ≡ Map.lookup k s.invites)
      × ((k : Bytes) → Map.lookup k s'.pending_peers ≡ Map.lookup k s.pending_peers)
      × ((k : Bytes) → Map.lookup k s'.peers ≡ Map.lookup k s.peers)
load-save h j s law reads v = (s, load_saved h j s law reads v, λ k. refl, λ k. refl, λ k. refl)
