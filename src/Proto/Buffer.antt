-- ===== src/Proto/Buffer.antt =====
-- Byte buffers of bhumi-proto/src/lib.rs: what `to_be_bytes`, `from_be_bytes`, `data[i]` and
-- `data[a..b]` do. A byte slice is a list of numbers; `usize` has 64 bits, so that no offset wraps.
use bhumi.Base.{
  get_or-drop, All-drop, take-append-drop, concat-append, length-append, concat, All, refl, ap, sym,
  ◌∙◌, ℕ, zero, suc, ◌+◌, ◌-◌, ◌*◌, ◌/◌, ◌%◌, ◌^◌, ◌≤◌, ◌<◌, ◌≡◌, refl, sym, ap, ◌∙◌, List, [], ◌∷◌,
  ◌++◌, ◌&&◌, zero, arith, ltb, leb, nat_eq, if◌then◌else◌, length, get_or, take, drop, concat, All,
  Result, ok, panic, ◌>>=◌, length-append, take-append, drop-append, get_or-append, length-take,
  length-drop, concat-append, drop-drop,
}

abbrev pub Bytes : Type 0
Bytes = List ℕ

abbrev pub IsByte : ℕ → Type 0
IsByte b = b < 256

unfoldable pub be16 : ℕ → Bytes
be16 n = (n / 256 % 256) ∷ (n % 256) ∷ []

unfoldable pub be32 : ℕ → Bytes
be32 n = (n / 0x100_0000 % 256) ∷ (n / 0x1_0000 % 256) ∷ (n / 256 % 256) ∷ (n % 256) ∷ []

-- `x as u16` and `x as u32`.
abbrev pub as_u16 : ℕ → ℕ
as_u16 n = n % 2 ^ 16

abbrev pub as_u32 : ℕ → ℕ
as_u32 n = n % 2 ^ 32

-- `data[i]`.
unfoldable pub index : Bytes → ℕ → Result ℕ
index buf i = if ltb i (length buf) then ok (get_or buf i 0) else panic

-- `data[a..b]`.
unfoldable pub slice : Bytes → ℕ → ℕ → Result Bytes
slice buf a b = if leb a b && leb b (length buf) then ok (take (b - a) (drop a buf)) else panic

-- `data[a..b].try_into().unwrap()` at an array of `n` bytes.
unfoldable pub array : ℕ → Bytes → ℕ → ℕ → Result Bytes
array n buf a b = do s ← slice buf a b; if nat_eq (length s) n then ok s else panic

-- `u16::from_be_bytes([data[i], data[i + 1]])`.
unfoldable pub read_u16 : Bytes → ℕ → Result ℕ
read_u16 buf i = do b0 ← index buf i; b1 ← index buf (i + 1); ok (b0 * 256 + b1)

-- `u32::from_be_bytes([data[i], data[i + 1], data[i + 2], data[i + 3]])`.
unfoldable pub read_u32 : Bytes → ℕ → Result ℕ
read_u32 buf i = do
  b0 ← index buf i
  b1 ← index buf (i + 1)
  b2 ← index buf (i + 2)
  b3 ← index buf (i + 3)
  ok (b0 * 0x100_0000 + b1 * 0x1_0000 + b2 * 256 + b3)

-- The values that these return where they do not panic.
unfoldable pub cut : Bytes → ℕ → ℕ → Bytes
cut buf a b = take (b - a) (drop a buf)

unfoldable pub u16_at : Bytes → ℕ → ℕ
u16_at buf i = get_or buf i 0 * 256 + get_or buf (i + 1) 0

unfoldable pub u32_at : Bytes → ℕ → ℕ
u32_at buf i =
    get_or buf i 0 * 0x100_0000
    + get_or buf (i + 1) 0 * 0x1_0000
    + get_or buf (i + 2) 0 * 256
    + get_or buf (i + 3) 0

pub index_ok : (buf : Bytes) (i : ℕ) → i < length buf → index buf i ≡ ok (get_or buf i 0)
unfolding index
index_ok buf i h = ground arith

pub slice_ok : (buf : Bytes) (a b : ℕ) → a ≤ b → b ≤ length buf → slice buf a b ≡ ok (cut buf a b)
unfolding slice cut
slice_ok buf a b h k = ground arith

pub length-cut : (buf : Bytes) (a b : ℕ) → b ≤ length buf → length (cut buf a b) ≡ b - a
unfolding cut
length-cut buf a b h = omega (arith, length-take (b - a) (drop a buf), length-drop a buf)

pub array_ok :
    (n : ℕ) (buf : Bytes) (a b : ℕ)
    → a + n ≡ b
    → b ≤ length buf
    → array n buf a b ≡ ok (cut buf a b)
unfolding array
array_ok n buf a b h k = ground (arith, slice_ok buf a b, length-cut buf a b)

pub read_u16_ok : (buf : Bytes) (i : ℕ) → i + 2 ≤ length buf → read_u16 buf i ≡ ok (u16_at buf i)
unfolding read_u16 u16_at index
read_u16_ok buf i h = ground arith

pub read_u32_ok : (buf : Bytes) (i : ℕ) → i + 4 ≤ length buf → read_u32 buf i ≡ ok (u32_at buf i)
unfolding read_u32 u32_at index
read_u32_ok buf i h = ground arith

pub length-be16 : (n : ℕ) → length (be16 n) ≡ 2
unfolding be16
length-be16 n = refl

pub length-be32 : (n : ℕ) → length (be32 n) ≡ 4
unfolding be32
length-be32 n = refl

-- What stands at a field of a message that is laid out piece after piece.
pub cut-append :
    (pre mid post : Bytes) (a b : ℕ)
    → length pre ≡ a
    → a + length mid ≡ b
    → cut (pre ++ (mid ++ post)) a b ≡ mid
unfolding cut
cut-append pre mid post a b p q =
    let e : b - a ≡ length mid = omega arith in
    rw (e, ← p, drop-append pre (mid ++ post)) (take-append mid post)

pub u16_at-be16 :
    (pre post : Bytes) (n i : ℕ)
    → length pre ≡ i
    → n < 2 ^ 16
    → u16_at (pre ++ (be16 n ++ post)) i ≡ n
unfolding u16_at be16
u16_at-be16 pre post n i p h =
    ground (arith, get_or-append pre (be16 n ++ post) 0 0, get_or-append pre (be16 n ++ post) 1 0)

pub u32_at-be32 :
    (pre post : Bytes) (n i : ℕ)
    → length pre ≡ i
    → n < 2 ^ 32
    → u32_at (pre ++ (be32 n ++ post)) i ≡ n
unfolding u32_at be32
u32_at-be32 pre post n i p h = ground (
  arith,
  get_or-append pre (be32 n ++ post) 0 0,
  get_or-append pre (be32 n ++ post) 1 0,
  get_or-append pre (be32 n ++ post) 2 0,
  get_or-append pre (be32 n ++ post) 3 0,
)

-- A message that was read is what the buffer held: its pieces join up again.
pub cut-drop : (buf : Bytes) (a b : ℕ) → a ≤ b → cut buf a b ++ drop b buf ≡ drop a buf
unfolding cut
cut-drop buf a b h =
    let e : a + (b - a) ≡ b = omega arith in
    let d : drop (b - a) (drop a buf) ≡ drop b buf = drop-drop (b - a) a buf ∙ rw e in
    rw (← d) (take-append-drop (b - a) (drop a buf))

abbrev pub AreBytes : Bytes → Type 0
AreBytes = All IsByte

-- A message as the list of its pieces: `pre` are those before a field, `post` those behind it.
abbrev pub total : List Bytes → ℕ
total [] = 0
total (p ∷ ps) = length p + total ps

pub length-concat : (ps : List Bytes) → length (concat ps) ≡ total ps
length-concat [] = refl
length-concat (p ∷ ps) = omega (arith, length-append p (concat ps), length-concat ps)

pub cut_piece :
    (pre : List Bytes) (mid : Bytes) (post : List Bytes) (a b : ℕ)
    → total pre ≡ a
    → a + length mid ≡ b
    → cut (concat (pre ++ mid ∷ post)) a b ≡ mid
cut_piece pre mid post a b p q =
    rw (concat-append pre (mid ∷ post))
      (cut-append (concat pre) mid (concat post) a b (length-concat pre ∙ p) q)

pub u16_piece :
    (pre : List Bytes) (n : ℕ) (post : List Bytes) (i : ℕ)
    → total pre ≡ i
    → n < 2 ^ 16
    → u16_at (concat (pre ++ be16 n ∷ post)) i ≡ n
u16_piece pre n post i p h =
    rw (concat-append pre (be16 n ∷ post))
      (u16_at-be16 (concat pre) (concat post) n i (length-concat pre ∙ p) h)

pub u32_piece :
    (pre : List Bytes) (n : ℕ) (post : List Bytes) (i : ℕ)
    → total pre ≡ i
    → n < 2 ^ 32
    → u32_at (concat (pre ++ be32 n ∷ post)) i ≡ n
u32_piece pre n post i p h =
    rw (concat-append pre (be32 n ∷ post))
      (u32_at-be32 (concat pre) (concat post) n i (length-concat pre ∙ p) h)

-- Reading a number and writing it again gives the bytes that were read.
be16_head : (d : Bytes) → 2 ≤ length d → AreBytes d → be16 (u16_at d 0) ≡ take 2 d
unfolding be16 u16_at
be16_head [] h v = absurd (omega arith)
be16_head (a ∷ []) h v = absurd (omega arith)
be16_head (a ∷ b ∷ r) h v = ground arith

be32_head : (d : Bytes) → 4 ≤ length d → AreBytes d → be32 (u32_at d 0) ≡ take 4 d
unfolding be32 u32_at
be32_head [] h v = absurd (omega arith)
be32_head (a ∷ []) h v = absurd (omega arith)
be32_head (a ∷ b ∷ []) h v = absurd (omega arith)
be32_head (a ∷ b ∷ c ∷ []) h v = absurd (omega arith)
be32_head (a ∷ b ∷ c ∷ e ∷ r) h v = ground arith

u16_at-drop : (buf : Bytes) (i : ℕ) → u16_at buf i ≡ u16_at (drop i buf) 0
unfolding u16_at
u16_at-drop buf i = ground (arith, get_or-drop i 0 buf 0, get_or-drop i 1 buf 0)

u32_at-drop : (buf : Bytes) (i : ℕ) → u32_at buf i ≡ u32_at (drop i buf) 0
unfolding u32_at
u32_at-drop buf i = ground (
  arith,
  get_or-drop i 0 buf 0,
  get_or-drop i 1 buf 0,
  get_or-drop i 2 buf 0,
  get_or-drop i 3 buf 0,
)

pub be16-u16_at :
    (buf : Bytes) (i j : ℕ)
    → AreBytes buf
    → i + 2 ≡ j
    → j ≤ length buf
    → be16 (u16_at buf i) ≡ cut buf i j
unfolding cut
be16-u16_at buf i j v e h =
    let n : j - i ≡ 2 = omega arith in
    rw (u16_at-drop buf i, n)
      (be16_head (drop i buf) (omega (arith, length-drop i buf)) (All-drop IsByte i buf v))

pub be32-u32_at :
    (buf : Bytes) (i j : ℕ)
    → AreBytes buf
    → i + 4 ≡ j
    → j ≤ length buf
    → be32 (u32_at buf i) ≡ cut buf i j
unfolding cut
be32-u32_at buf i j v e h =
    let n : j - i ≡ 4 = omega arith in
    rw (u32_at-drop buf i, n)
      (be32_head (drop i buf) (omega (arith, length-drop i buf)) (All-drop IsByte i buf v))

get_or-IsByte : (d : Bytes) (k : ℕ) → AreBytes d → IsByte (get_or d k 0)
get_or-IsByte [] k v = omega arith
get_or-IsByte (x ∷ d) zero v = v.0
get_or-IsByte (x ∷ d) (suc k) v = get_or-IsByte d k v.1

pub u16_at-lt : (buf : Bytes) (i : ℕ) → AreBytes buf → u16_at buf i < 2 ^ 16
unfolding u16_at
u16_at-lt buf i v = omega (arith, get_or-IsByte buf i v, get_or-IsByte buf (i + 1) v)

pub u32_at-lt : (buf : Bytes) (i : ℕ) → AreBytes buf → u32_at buf i < 2 ^ 32
unfolding u32_at
u32_at-lt buf i v = omega (
  arith,
  get_or-IsByte buf i v,
  get_or-IsByte buf (i + 1) v,
  get_or-IsByte buf (i + 2) v,
  get_or-IsByte buf (i + 3) v,
)

-- One byte as a piece.
pub byte_piece :
    (pre : List Bytes) (x : ℕ) (post : List Bytes) (i : ℕ)
    → total pre ≡ i
    → get_or (concat (pre ++ (x ∷ []) ∷ post)) i 0 ≡ x
byte_piece pre x post i p =
    rw (concat-append pre ((x ∷ []) ∷ post))
      (ground (arith, length-concat pre, get_or-append (concat pre) (x ∷ concat post) 0 0))

byte_head : (d : Bytes) → 1 ≤ length d → get_or d 0 0 ∷ drop 1 d ≡ d
byte_head [] h = absurd (omega arith)
byte_head (x ∷ d) h = refl

pub byte-drop :
    (buf : Bytes) (i j : ℕ) → i + 1 ≡ j → j ≤ length buf → get_or buf i 0 ∷ drop j buf ≡ drop i buf
byte-drop buf i j e h =
    let z : i ≡ i + 0 = omega arith in
    rw (ap (λ k. get_or buf k 0) z ∙ get_or-drop i 0 buf 0, ← e, ← drop-drop 1 i buf)
      (byte_head (drop i buf) (omega (arith, length-drop i buf)))

pub tag-drop :
    (buf : Bytes) (tag : ℕ) → get_or buf 0 0 ≡ tag → 1 ≤ length buf → tag ∷ drop 1 buf ≡ buf
tag-drop buf tag t h = ap (λ x. x ∷ drop 1 buf) (sym t) ∙ byte-drop buf 0 1 refl h
