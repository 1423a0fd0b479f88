-- ===== src/Proto/Responses.antt =====
-- `RecentResponse` and the loop over them in `IAm::to_bytes` and `IAm::from_bytes`,
-- bhumi-proto/src/lib.rs. The loop carries the offset `pos`.
use bhumi.Base.{
  ℕ, zero, suc, ◌+◌, ◌^◌, ◌≤◌, ◌<◌, ◌≡◌, ◌≢◌, refl, sym, ap, ◌∙◌, List, [], ◌∷◌, ◌++◌, arith, ltb,
  if◌then◌else◌, length, drop, concat, All, Result, ok, err, panic, invalid_data, ◌>>=◌,
  append_assoc, length-append, concat-snoc, append-nil, map,
}
use bhumi.Proto.Buffer.{
  Bytes, be32, as_u32, slice, array, read_u32, cut, u32_at, slice_ok, array_ok, read_u32_ok,
  cut_piece, u32_piece, length-concat, length-be32, length-cut, cut-drop, AreBytes, be32-u32_at,
  u32_at-lt,
}
use bhumi.Proto.Commits.{Is32}

pub record RecentResponse : Type 0 where
  pub preimage : Bytes
  pub response : Bytes

unfoldable pub response_bytes : RecentResponse → Bytes
response_bytes r = concat (r.preimage ∷ be32 (as_u32 (length r.response)) ∷ r.response ∷ [])

unfoldable pub read_responses : Bytes → ℕ → ℕ → Result (List RecentResponse)
read_responses buf pos zero = ok []
read_responses buf pos (suc left) =
    if ltb (length buf) (pos + 36) then err (invalid_data "I_AM responses truncated") else do
      preimage ← array 32 buf pos (pos + 32)
      resp_len ← read_u32 buf (pos + 32)
      if ltb (length buf) (pos + 36 + resp_len)
          then err (invalid_data "I_AM response data truncated")
          else do
            response ← slice buf (pos + 36) (pos + 36 + resp_len)
            rest ← read_responses buf (pos + 36 + resp_len) left
            ok (record { preimage = preimage; response = response } ∷ rest)

pub record IsValid (r : RecentResponse) : Type 0 where
  pub preimage_size : Is32 r.preimage
  pub response_size : length r.response < 2 ^ 32

pub response_at : Bytes → ℕ → RecentResponse
response_at buf pos = record {
  preimage = cut buf pos (pos + 32);
  response = cut buf (pos + 36) (pos + 36 + u32_at buf (pos + 32));
}

-- One round, with the branches that the code takes and no panic.
read_responses_step :
    (buf : Bytes) (pos left : ℕ)
    → read_responses buf pos (suc left) ≡ (
        if ltb (length buf) (pos + 36)
        then err (invalid_data "I_AM responses truncated")
        else if ltb (length buf) (pos + 36 + u32_at buf (pos + 32))
        then err (invalid_data "I_AM response data truncated")
        else (read_responses buf (pos + 36 + u32_at buf (pos + 32)) left >>= λ rest.
            ok (response_at buf pos ∷ rest)))
unfolding read_responses response_at
read_responses_step buf pos left = ground (
  arith,
  array_ok 32 buf pos (pos + 32),
  read_u32_ok buf (pos + 32),
  slice_ok buf (pos + 36) (pos + 36 + u32_at buf (pos + 32)),
)

pub read_responses-ne-panic : (buf : Bytes) (pos left : ℕ) → read_responses buf pos left ≢ panic
read_responses-ne-panic buf pos zero = unfold read_responses in λ p. cc
read_responses-ne-panic buf pos (suc left) =
    rw (read_responses_step buf pos left)
      (ground (arith, read_responses-ne-panic buf (pos + 36 + u32_at buf (pos + 32)) left))

response_at-eq :
    (buf pre : Bytes) (r : RecentResponse) (post : Bytes) (pos : ℕ)
    → buf ≡ pre ++ (response_bytes r ++ post)
    → length pre ≡ pos
    → IsValid r
    → (response_at buf pos ≡ r)
      × (u32_at buf (pos + 32) ≡ length r.response)
      × (pos + 36 + length r.response ≤ length buf)
unfolding response_at response_bytes
response_at-eq buf pre r post pos e p v =
    let len = length r.response in
    let k : as_u32 len ≡ len = omega arith in
    let ps = pre ∷ r.preimage ∷ be32 len ∷ r.response ∷ post ∷ [] in
    let f : buf ≡ concat ps =
      e
      ∙ ap (◌++◌ pre) (
          concat-snoc (r.preimage ∷ be32 (as_u32 (length r.response)) ∷ r.response ∷ []) post
          ∙ rw k) in
    rw f (
      ground (
        arith,
        length-concat ps,
        length-be32 len,
        cut_piece (pre ∷ []) r.preimage (be32 len ∷ r.response ∷ post ∷ []) pos (pos + 32),
        u32_piece (pre ∷ r.preimage ∷ []) len (r.response ∷ post ∷ []) (pos + 32),
        cut_piece (pre ∷ r.preimage ∷ be32 len ∷ []) r.response (post ∷ []) (pos + 36)
            (pos + 36 + len),
      ))

pub length-response_bytes :
    (r : RecentResponse) → IsValid r → length (response_bytes r) ≡ 36 + length r.response
unfolding response_bytes
length-response_bytes r v =
    let n = be32 (as_u32 (length r.response)) in
    omega (
      arith,
      length-concat (r.preimage ∷ n ∷ r.response ∷ []),
      length-be32 (as_u32 (length r.response)),
    )

pub read_responses-eq :
    (buf pre : Bytes) (rs : List RecentResponse) (post : Bytes) (pos : ℕ)
    → buf ≡ pre ++ (concat (map response_bytes rs) ++ post)
    → length pre ≡ pos
    → All IsValid rs
    → read_responses buf pos (length rs) ≡ ok rs
read_responses-eq buf pre [] post pos e p v = unfold read_responses in refl
read_responses-eq buf pre (r ∷ rs) post pos e p v =
    let more = concat (map response_bytes rs) in
    let front : buf ≡ pre ++ (response_bytes r ++ (more ++ post)) =
      e ∙ ap (◌++◌ pre) (append_assoc (response_bytes r) more post) in
    let back = front ∙ sym (append_assoc pre (response_bytes r) (more ++ post)) in
    let n = pos + 36 + length r.response in
    let ih =
      read_responses-eq buf (pre ++ response_bytes r) rs post n back
        (omega (arith, length-append pre (response_bytes r), length-response_bytes r v.0)) v.1 in
    ground (
      arith,
      read_responses_step buf pos (length rs),
      response_at-eq buf pre r (more ++ post) pos front p v.0,
      ih,
    )

-- What one round read is what the buffer held there.
response_at-joins :
    (buf : Bytes) (pos : ℕ)
    → AreBytes buf
    → pos + 36 + u32_at buf (pos + 32) ≤ length buf
    → response_bytes (response_at buf pos) ++ drop (pos + 36 + u32_at buf (pos + 32)) buf
      ≡ drop pos buf
unfolding response_at response_bytes
response_at-joins buf pos v h =
    let n = u32_at buf (pos + 32) in
    let e : as_u32 (length (cut buf (pos + 36) (pos + 36 + n))) ≡ n =
      omega (arith, length-cut buf (pos + 36) (pos + 36 + n) h, u32_at-lt buf (pos + 32) v) in
    rw
      (
        concat-snoc,
        e,
        be32-u32_at buf (pos + 32) (pos + 36) v (omega arith) (omega arith),
        append-nil,
        cut-drop buf (pos + 36) (pos + 36 + n) (omega arith),
        cut-drop buf (pos + 32) (pos + 36) (omega arith),
        cut-drop buf pos (pos + 32) (omega arith),
      )
      refl

read_responses_inv :
    (buf : Bytes) (pos left : ℕ) (r : RecentResponse) (rs : List RecentResponse)
    → read_responses buf pos (suc left) ≡ ok (r ∷ rs)
    → (response_at buf pos ≡ r)
      × (pos + 36 + u32_at buf (pos + 32) ≤ length buf)
      × (read_responses buf (pos + 36 + u32_at buf (pos + 32)) left ≡ ok rs)
read_responses_inv buf pos left r rs h = ground (arith, read_responses_step buf pos left)

pub read_responses-joins :
    (buf : Bytes) (pos left : ℕ) (rs : List RecentResponse)
    → AreBytes buf
    → read_responses buf pos left ≡ ok rs
    → (length rs ≡ left)
      × ((rest : Bytes) × (concat (map response_bytes rs) ++ rest ≡ drop pos buf))
read_responses-joins buf pos zero [] v h = (refl, (drop pos buf, refl))
read_responses-joins buf pos zero (r ∷ rs) v h = unfold read_responses in cc
read_responses-joins buf pos (suc left) [] v h = ground (arith, read_responses_step buf pos left)
read_responses-joins buf pos (suc left) (r ∷ rs) v h =
    let (here, fits, later) = read_responses_inv buf pos left r rs h in
    let n = pos + 36 + u32_at buf (pos + 32) in
    let (count, (rest, e)) = read_responses-joins buf n left rs v later in
    let more = concat (map response_bytes rs) in
    (
      ap suc count,
      (
        rest,
        append_assoc (response_bytes r) more rest
            ∙ rw (e, ← here) (response_at-joins buf pos v fits),
      ),
    )
