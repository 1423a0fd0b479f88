-- ===== src/Proto/IAm.antt =====
-- `IAm`, bhumi-proto/src/lib.rs: a device signs the relay's nonce and registers its commits.
use bhumi.Base.{
  ℕ, ◌+◌, ◌*◌, ◌^◌, ◌≤◌, ◌<◌, ◌≡◌, ◌≢◌, refl, sym, ◌∙◌, List, [], ◌∷◌, ◌++◌, arith, ltb,
  if◌then◌else◌, length, concat, All, Result, ok, err, panic, invalid_data, ◌>>=◌, concat-snoc,
  concat-append, append-nil, map,
}
use bhumi.Proto.Buffer.{
  Bytes, be16, as_u16, array, read_u16, cut, u16_at, array_ok, read_u16_ok, cut_piece, u16_piece,
  length-concat, length-be16, cut-drop, AreBytes, be16-u16_at, u16_at-lt, total,
}
use bhumi.Proto.Commits.{
  read_commits, chunks, read_commits_ok, Is32, chunks_piece, length-concat_32, length-chunks,
  chunks-drop_all,
}
use bhumi.Proto.Responses.{
  RecentResponse, response_bytes, read_responses, read_responses-ne-panic, read_responses-eq,
  read_responses-joins,
}
use bhumi.Proto.Responses

pub record IAm : Type 0 where
  pub id52 : Bytes
  pub signature : Bytes
  pub commits : List Bytes
  pub recent_responses : List RecentResponse

unfoldable pub new : Bytes → Bytes → List Bytes → IAm
new id52 signature commits = record {
  id52 = id52;
  signature = signature;
  commits = commits;
  recent_responses = [];
}

unfoldable pub to_bytes : IAm → Bytes
to_bytes m = concat (
    m.id52
    ∷ m.signature
    ∷ be16 (as_u16 (length m.commits))
    ∷ concat m.commits
    ∷ be16 (as_u16 (length m.recent_responses))
    ∷ concat (map response_bytes m.recent_responses)
    ∷ [])

unfoldable pub from_bytes : Bytes → Result IAm
from_bytes buf = if ltb (length buf) (32 + 64 + 2) then err (invalid_data "I_AM too short") else do
  id52 ← array 32 buf 0 32
  signature ← array 64 buf 32 96
  commit_count ← read_u16 buf 96
  let commits_end = 98 + commit_count * 32
  if ltb (length buf) (commits_end + 2) then err (invalid_data "I_AM commits truncated") else do
    commits ← read_commits buf 98 0 commit_count
    response_count ← read_u16 buf commits_end
    recent_responses ← read_responses buf (commits_end + 2) response_count
    ok (record {
      id52 = id52;
      signature = signature;
      commits = commits;
      recent_responses = recent_responses;
    })

-- The arrays have their sizes, and the two counts and each response's length fit their fields.
pub record IsValid (m : IAm) : Type 0 where
  pub id52_size : Is32 m.id52
  pub signature_size : length m.signature ≡ 64
  pub commit_size : All Is32 m.commits
  pub commit_count : length m.commits < 2 ^ 16
  pub responses : All Responses.IsValid m.recent_responses
  pub response_count : length m.recent_responses < 2 ^ 16

commits_end : Bytes → ℕ
commits_end buf = 98 + u16_at buf 96 * 32

parsed : Bytes → List RecentResponse → IAm
parsed buf rs = record {
  id52 = cut buf 0 32;
  signature = cut buf 32 96;
  commits = chunks buf 98 0 (u16_at buf 96);
  recent_responses = rs;
}

from_bytes_lem :
    (buf : Bytes)
    → from_bytes buf ≡ (
        if ltb (length buf) 98
        then err (invalid_data "I_AM too short")
        else if ltb (length buf) (commits_end buf + 2)
        then err (invalid_data "I_AM commits truncated")
        else (read_responses buf (commits_end buf + 2) (u16_at buf (commits_end buf)) >>= λ rs.
            ok (parsed buf rs)))
unfolding from_bytes parsed commits_end
from_bytes_lem buf =
    let n = u16_at buf 96 in
    ground (
      arith,
      array_ok 32 buf 0 32,
      array_ok 64 buf 32 96,
      read_u16_ok buf 96,
      read_commits_ok buf 98 0 n,
      read_u16_ok buf (98 + n * 32),
    )

pub from_bytes-ne-panic : (buf : Bytes) → from_bytes buf ≢ panic
from_bytes-ne-panic buf = rw (from_bytes_lem buf) (
    ground
      (arith, read_responses-ne-panic buf (commits_end buf + 2) (u16_at buf (commits_end buf))))

-- What `to_bytes` writes for a valid I_AM, its commits and its recent responses included,
-- `from_bytes` reads back, whatever bytes follow it.
pub i_am_from_bytes-to_bytes :
    (m : IAm) (rest : Bytes) → IsValid m → from_bytes (to_bytes m ++ rest) ≡ ok m
unfolding to_bytes parsed commits_end
i_am_from_bytes-to_bytes m rest v =
    let n = length m.commits in
    let k = length m.recent_responses in
    let en : as_u16 n ≡ n = omega (arith, v.commit_count) in
    let ek : as_u16 k ≡ k = omega (arith, v.response_count) in
    let id = m.id52 in
    let sig = m.signature in
    let cs = concat m.commits in
    let rs = concat (map response_bytes m.recent_responses) in
    let front = id ∷ sig ∷ be16 n ∷ cs ∷ be16 k ∷ [] in
    let buf = concat (id ∷ sig ∷ be16 n ∷ cs ∷ be16 k ∷ rs ∷ rest ∷ []) in
    let c32 = length-concat_32 m.commits v.commit_size in
    let ends : 98 + n * 32 + 2 ≡ total front =
      omega (arith, v.id52_size, v.signature_size, length-be16 n, length-be16 k, c32) in
    rw (concat-snoc, en, ek, from_bytes_lem)
      (ground (
        arith,
        v.id52_size,
        v.signature_size,
        length-concat (id ∷ sig ∷ be16 n ∷ cs ∷ be16 k ∷ rs ∷ rest ∷ []),
        length-be16 n,
        length-be16 k,
        c32,
        cut_piece [] id (sig ∷ be16 n ∷ cs ∷ be16 k ∷ rs ∷ rest ∷ []) 0 32,
        cut_piece (id ∷ []) sig (be16 n ∷ cs ∷ be16 k ∷ rs ∷ rest ∷ []) 32 96,
        u16_piece (id ∷ sig ∷ []) n (cs ∷ be16 k ∷ rs ∷ rest ∷ []) 96,
        chunks_piece (id ∷ sig ∷ be16 n ∷ []) m.commits (be16 k ∷ rs ∷ rest ∷ []) 98,
        u16_piece (id ∷ sig ∷ be16 n ∷ cs ∷ []) k (rs ∷ rest ∷ []) (98 + n * 32),
        read_responses-eq buf (concat front) m.recent_responses (rest ++ []) (98 + n * 32 + 2)
            (concat-append front (rs ∷ rest ∷ [])) (length-concat front ∙ sym ends) v.responses,
      ))

parsed-joins :
    (buf : Bytes) (rs : List RecentResponse)
    → AreBytes buf
    → commits_end buf + 2 ≤ length buf
    → read_responses buf (commits_end buf + 2) (u16_at buf (commits_end buf)) ≡ ok rs
    → (rest : Bytes) × (to_bytes (parsed buf rs) ++ rest ≡ buf)
unfolding to_bytes parsed commits_end
parsed-joins buf rs v h r =
    let n = u16_at buf 96 in
    let end = 98 + n * 32 in
    let k = u16_at buf end in
    let (count, (rest, joins)) = read_responses-joins buf (end + 2) k rs v r in
    let en : as_u16 (length (chunks buf 98 0 n)) ≡ n =
      omega (arith, length-chunks buf 98 0 n, u16_at-lt buf 96 v) in
    let ek : as_u16 (length rs) ≡ k = omega (arith, count, u16_at-lt buf end v) in
    (
      rest,
      rw
          (
            concat-snoc,
            en,
            ek,
            be16-u16_at buf 96 98 v refl (omega arith),
            be16-u16_at buf end (end + 2) v refl (omega arith),
            append-nil,
            joins,
            cut-drop buf end (end + 2) (omega arith),
            chunks-drop_all buf 98 n,
            cut-drop buf 96 98 (omega arith),
            cut-drop buf 32 96 (omega arith),
            cut-drop buf 0 32 (omega arith),
          )
          refl,
    )

from_bytes_inv :
    (buf : Bytes) (m : IAm)
    → from_bytes buf ≡ ok m
    → (commits_end buf + 2 ≤ length buf)
      × (read_responses buf (commits_end buf + 2) (u16_at buf (commits_end buf))
          ≡ ok m.recent_responses)
      × (parsed buf m.recent_responses ≡ m)
unfolding parsed
from_bytes_inv buf m h = ground (arith, from_bytes_lem buf)

-- An I_AM that `from_bytes` accepts is the start of the bytes that it was given.
pub i_am_from_bytes-IsPrefix :
    (buf : Bytes) (m : IAm)
    → AreBytes buf
    → from_bytes buf ≡ ok m
    → (rest : Bytes) × (to_bytes m ++ rest ≡ buf)
i_am_from_bytes-IsPrefix buf m v h =
    let (fits, responses, e) = from_bytes_inv buf m h in
    rw (← e) (parsed-joins buf m.recent_responses v fits responses)
