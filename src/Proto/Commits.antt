-- ===== src/Proto/Commits.antt =====
-- The loop `for i in 0..commit_count` of `IAm::from_bytes` and `UpdateCommits::from_bytes`,
-- bhumi-proto/src/lib.rs: an array of 32 bytes for each commit, from the offset `base` on.
use bhumi.Base.{
  ℕ, zero, suc, ◌+◌, ◌*◌, ◌≤◌, ◌≡◌, refl, sym, ap, ◌∙◌, List, [], ◌∷◌, ◌++◌, arith, length, drop,
  concat, All, Result, ok, ◌>>=◌, append_assoc, length-append, concat-append,
}
use bhumi.Proto.Buffer.{Bytes, array, cut, array_ok, length-concat, cut-drop, total, cut-append}

unfoldable pub read_commits : Bytes → ℕ → ℕ → ℕ → Result (List Bytes)
read_commits buf base i zero = ok []
read_commits buf base i (suc left) = do
  let start = base + i * 32
  commit ← array 32 buf start (start + 32)
  commits ← read_commits buf base (i + 1) left
  ok (commit ∷ commits)

pub chunks : Bytes → ℕ → ℕ → ℕ → List Bytes
chunks buf base i zero = []
chunks buf base i (suc left) =
    cut buf (base + i * 32) (base + i * 32 + 32) ∷ chunks buf base (i + 1) left

-- Where the buffer is long enough, the loop reads every commit.
pub read_commits_ok :
    (buf : Bytes) (base i left : ℕ)
    → base + (i + left) * 32 ≤ length buf
    → read_commits buf base i left ≡ ok (chunks buf base i left)
unfolding read_commits chunks
read_commits_ok buf base i zero h = refl
read_commits_ok buf base i (suc left) h = rw (
  array_ok 32 buf (base + i * 32) (base + i * 32 + 32) refl (omega arith),
  read_commits_ok buf base (i + 1) left (omega arith),
)

abbrev pub Is32 : Bytes → Type 0
Is32 b = length b ≡ 32

pub length-concat_32 : (cs : List Bytes) → All Is32 cs → length (concat cs) ≡ 32 * length cs
length-concat_32 [] v = omega arith
length-concat_32 (c ∷ cs) v =
    omega (arith, length-append c (concat cs), length-concat_32 cs v.1, v.0)

chunks-eq :
    (buf pre : Bytes) (cs : List Bytes) (post : Bytes) (base i : ℕ)
    → buf ≡ pre ++ (concat cs ++ post)
    → length pre ≡ base + i * 32
    → All Is32 cs
    → chunks buf base i (length cs) ≡ cs
unfolding chunks
chunks-eq buf pre [] post base i e p v = refl
chunks-eq buf pre (c ∷ cs) post base i e p v =
    let start = base + i * 32 in
    let front : buf ≡ pre ++ (c ++ (concat cs ++ post)) =
      e ∙ ap (◌++◌ pre) (append_assoc c (concat cs) post) in
    let here = cut-append pre c (concat cs ++ post) start (start + 32) p (omega (arith, v.0)) in
    let back = front ∙ sym (append_assoc pre c (concat cs ++ post)) in
    cc (
      front,
      here,
      chunks-eq buf (pre ++ c) cs post base (i + 1) back (omega (arith, length-append pre c, v.0))
          v.1,
    )

pub chunks_piece :
    (pre : List Bytes) (cs : List Bytes) (post : List Bytes) (base : ℕ)
    → total pre ≡ base
    → All Is32 cs
    → chunks (concat (pre ++ concat cs ∷ post)) base 0 (length cs) ≡ cs
chunks_piece pre cs post base p v =
    chunks-eq _ (concat pre) cs (concat post) base 0 (concat-append pre (concat cs ∷ post))
      (omega (arith, length-concat pre, p)) v

pub length-chunks : (buf : Bytes) (base i n : ℕ) → length (chunks buf base i n) ≡ n
unfolding chunks
length-chunks buf base i zero = refl
length-chunks buf base i (suc n) = ap suc (length-chunks buf base (i + 1) n)

pub chunks-drop :
    (buf : Bytes) (base i n : ℕ)
    → concat (chunks buf base i n) ++ drop (base + (i + n) * 32) buf ≡ drop (base + i * 32) buf
unfolding chunks
chunks-drop buf base i zero = let e : base + (i + 0) * 32 ≡ base + i * 32 = omega arith in rw e
chunks-drop buf base i (suc n) =
    let e : base + (i + suc n) * 32 ≡ base + (i + 1 + n) * 32 = omega arith in
    let k : base + (i + 1) * 32 ≡ base + i * 32 + 32 = omega arith in
    rw (
      append_assoc,
      e,
      chunks-drop buf base (i + 1) n,
      k,
      cut-drop buf (base + i * 32) (base + i * 32 + 32) (omega arith),
    )

pub chunks-drop_all :
    (buf : Bytes) (base n : ℕ)
    → concat (chunks buf base 0 n) ++ drop (base + n * 32) buf ≡ drop base buf
chunks-drop_all buf base n =
    let e : base + (0 + n) * 32 ≡ base + n * 32 = omega arith in
    let z : base + 0 * 32 ≡ base = omega arith in rw e at (chunks-drop buf base 0 n) ∙ rw z
