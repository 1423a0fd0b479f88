-- ===== src/Proto/UpdateCommits.antt =====
-- `UpdateCommits`, bhumi-proto/src/lib.rs: commits to add to a connection.
use bhumi.Base.{
  ◌+◌, ◌*◌, ◌^◌, ◌≤◌, ◌<◌, ◌≡◌, ◌≢◌, refl, List, [], ◌∷◌, ◌++◌, arith, ltb, if◌then◌else◌, length,
  drop, concat, All, Result, ok, err, panic, invalid_data, ◌>>=◌, concat-snoc, append-nil,
}
use bhumi.Proto.Buffer.{
  Bytes, be16, as_u16, read_u16, u16_at, read_u16_ok, u16_piece, length-concat, length-be16,
  cut-drop, AreBytes, be16-u16_at, u16_at-lt,
}
use bhumi.Proto.Commits.{
  read_commits, chunks, read_commits_ok, Is32, chunks_piece, length-concat_32, length-chunks,
  chunks-drop_all,
}

pub record UpdateCommits : Type 0 where
  pub commits : List Bytes

unfoldable pub to_bytes : UpdateCommits → Bytes
to_bytes m = concat (be16 (as_u16 (length m.commits)) ∷ concat m.commits ∷ [])

unfoldable pub from_bytes : Bytes → Result UpdateCommits
from_bytes buf = if ltb (length buf) 2 then err (invalid_data "UPDATE_COMMITS too short") else do
  commit_count ← read_u16 buf 0
  if ltb (length buf) (2 + commit_count * 32)
      then err (invalid_data "UPDATE_COMMITS truncated")
      else do commits ← read_commits buf 2 0 commit_count; ok (record { commits = commits })

-- Each commit has 32 bytes, and their number fits its field.
pub record IsValid (m : UpdateCommits) : Type 0 where
  pub commit_size : All Is32 m.commits
  pub commit_count : length m.commits < 2 ^ 16

parsed : Bytes → UpdateCommits
parsed buf = record { commits = chunks buf 2 0 (u16_at buf 0) }

from_bytes_lem :
    (buf : Bytes)
    → from_bytes buf ≡ (
        if ltb (length buf) 2
        then err (invalid_data "UPDATE_COMMITS too short")
        else if ltb (length buf) (2 + u16_at buf 0 * 32)
        then err (invalid_data "UPDATE_COMMITS truncated")
        else ok (parsed buf))
unfolding from_bytes parsed
from_bytes_lem buf = ground (arith, read_u16_ok buf 0, read_commits_ok buf 2 0 (u16_at buf 0))

pub from_bytes-ne-panic : (buf : Bytes) → from_bytes buf ≢ panic
from_bytes-ne-panic buf = rw (from_bytes_lem buf) (ground arith)

-- What `to_bytes` writes for fewer than 65536 commits of 32 bytes, `from_bytes` reads back,
-- whatever bytes follow it.
pub update_commits_from_bytes-to_bytes :
    (m : UpdateCommits) (rest : Bytes) → IsValid m → from_bytes (to_bytes m ++ rest) ≡ ok m
unfolding to_bytes parsed
update_commits_from_bytes-to_bytes m rest v =
    let n = length m.commits in
    let e : as_u16 n ≡ n = omega arith in
    let cs = concat m.commits in
    rw (concat-snoc, e, from_bytes_lem)
      (ground (
        arith,
        length-concat (be16 n ∷ cs ∷ rest ∷ []),
        length-be16 n,
        length-concat_32 m.commits v.commit_size,
        u16_piece [] n (cs ∷ rest ∷ []) 0,
        chunks_piece (be16 n ∷ []) m.commits (rest ∷ []) 2,
      ))

parsed-joins :
    (buf : Bytes)
    → AreBytes buf
    → 2 + u16_at buf 0 * 32 ≤ length buf
    → to_bytes (parsed buf) ++ drop (2 + u16_at buf 0 * 32) buf ≡ buf
unfolding to_bytes parsed
parsed-joins buf v h =
    let n = u16_at buf 0 in
    let e : as_u16 (length (chunks buf 2 0 n)) ≡ n =
      omega (arith, length-chunks buf 2 0 n, u16_at-lt buf 0 v) in
    rw
      (
        concat-snoc,
        e,
        be16-u16_at buf 0 2 v refl (omega arith),
        append-nil,
        chunks-drop_all buf 2 n,
        cut-drop buf 0 2 (omega arith),
      )
      refl

-- An update that `from_bytes` accepts is the start of the bytes that it was given.
pub update_commits_from_bytes-IsPrefix :
    (buf : Bytes) (m : UpdateCommits)
    → AreBytes buf
    → from_bytes buf ≡ ok m
    → (rest : Bytes) × (to_bytes m ++ rest ≡ buf)
update_commits_from_bytes-IsPrefix buf m v h =
    (drop (2 + u16_at buf 0 * 32) buf, ground (arith, from_bytes_lem buf, parsed-joins buf v))
