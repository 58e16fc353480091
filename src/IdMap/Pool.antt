-- ===== src/IdMap/Pool.antt =====
-- What a pool stands for: a number of chunks of one size, each with a status and the first free id.
use dinamite.Shared.{
  ℕ, zero, suc, ◌+◌, ◌-◌, ◌*◌, ◌<◌, ◌≤◌, ◌^◌, ◌≡◌, ◌≢◌, ◌⊎◌, refl, ap, ◌∙◌, arith, StdMap, ℤ, pos,
  negsuc, wrap32, wrap32-pos, ◌+ℤ◌, Bool, true, false, Option, some, ◌==◌, if◌then◌else◌, ltb, le_ℤ,
  lookup, assign, lookup-assign, same, inl, inr,
}
use native.Mathlib.Decide.{dec_lt, ℕ_discrete}
use dinamite.IdMap.{Chunk, put_chunk, get_chunk, index, find_open_chunk, new_chunk}
use dinamite.IdMap.Chunks.{
  Field, status, start, stop, chunk_field, chunk_at, size_key, latest_key, lookup-put_chunk,
  lookup-put_chunk_latest, lookup-put_chunk_size, same-latest_chunk_field,
}

pub record Cell : Type 0 where
  pub state : ℕ
  pub free : ℕ

abbrev pub cell : ℕ → ℕ → Cell
cell s a = record { state = s; free = a }

abbrev pub set_cell : (ℕ → Cell) → ℕ → Cell → ℕ → Cell
set_cell cells k c i = if k == i then c else cells i

-- `latest_chunk_id` where there are `n` chunks.
abbrev pub latest_of : ℕ → ℤ
latest_of zero = negsuc 0
latest_of (suc n) = pos n

-- The last id of chunk `k`.
abbrev pub last_id : ℕ → ℕ → ℕ
last_id size k = k * size + size - 1

-- The pool has the entries of `n` chunks, with ids that an `int` can hold.
pub record Represents (pool : StdMap ℤ) (n size : ℕ) (cells : ℕ → Cell) : Type 0 where
  pub sizes : lookup size_key pool ≡ some (pos size)
  pub latest : lookup latest_key pool ≡ some (latest_of n)
  pub states : (k : ℕ) → k < n → lookup (chunk_field k status) pool ≡ some (pos (cells k).state)
  pub frees : (k : ℕ) → k < n → lookup (chunk_field k start) pool ≡ some (pos (cells k).free)
  pub lasts : (k : ℕ) → k < n → lookup (chunk_field k stop) pool ≡ some (pos (last_id size k))
  pub size_pos : 0 < size
  pub fits : n * size < 2 ^ 31

le_ℤ-latest_of : (i n : ℕ) → le_ℤ (pos i) (latest_of n) ≡ ltb i n
le_ℤ-latest_of i zero = ground arith
le_ℤ-latest_of i (suc n) = ground arith

wrap32-latest_of : (n : ℕ) → n < 2 ^ 31 → wrap32 (latest_of n +ℤ pos 1) ≡ pos n
unfolding wrap32
wrap32-latest_of zero h = refl
wrap32-latest_of (suc n) h = ground arith

wrap32-pred : (x : ℕ) → 0 < x → x < 2 ^ 31 → wrap32 (pos x +ℤ negsuc 0) ≡ pos (x - 1)
unfolding wrap32
wrap32-pred x h k = ground arith

-- The chunk as a process holds it.
abbrev pub held : ℕ → ℕ → ℕ → Chunk
held size k a = chunk_at k (pos 2) (pos a) (pos (last_id size k))

-- An opened chunk was taken, or there is none.
abbrev pub Searched : StdMap ℤ → ℕ → ℕ → (ℕ → Cell) → Option (Bool × StdMap ℤ × Chunk) → Type 0
Searched pool n size cells res =
    ((j : ℕ) × (j < n)
      × ((cells j).state ≡ 1)
      × (res
          ≡ some (true, put_chunk pool (held size j (cells j).free), held size j (cells j).free)))
    ⊎ ((chk : Chunk) × (res ≡ some (false, pool, chk)))

-- The pool after `pool["latest_chunk_id"] += 1`.
abbrev pub counted : StdMap ℤ → ℕ → StdMap ℤ
counted pool n = assign latest_key (pos n) pool

module _ (pool : StdMap ℤ) (n size : ℕ) (cells : ℕ → Cell) (r : Represents pool n size cells) where
  -- Writing a chunk of the pool changes its cell.
  pub put_chunk-Represents :
      (k s a : ℕ)
      → Represents
          (put_chunk pool (chunk_at k (pos s) (pos a) (pos (last_id size k))))
          n
          size
          (set_cell cells k (cell s a))
  put_chunk-Represents k s a = record {
    sizes = lookup-put_chunk_size pool k (pos s) (pos a) (pos (last_id size k)) ∙ r.sizes;
    latest = lookup-put_chunk_latest pool k (pos s) (pos a) (pos (last_id size k)) ∙ r.latest;
    states = λ i h. rw lookup-put_chunk (ground (arith, r.states i h));
    frees = λ i h. rw lookup-put_chunk (ground (arith, r.frees i h));
    lasts = λ i h. rw lookup-put_chunk (ground (arith, r.lasts i h));
    size_pos = r.size_pos;
    fits = r.fits;
  }

  pub get_chunk-eq :
      (k : ℕ)
      → k < n
      → get_chunk pool (pos k)
        ≡ (pool, chunk_at k (pos (cells k).state) (pos (cells k).free) (pos (last_id size k)))
  unfolding get_chunk index
  get_chunk-eq k h = ground (arith, r.states k h, r.frees k h, r.lasts k h)

  index_latest : index latest_key pool ≡ (latest_of n, pool)
  unfolding index
  index_latest = ground (arith, r.latest)

  chunks-lt : n < 2 ^ 31
  chunks-lt = grind (arith, r.fits, r.size_pos)

  round_past_end :
      (fuel i : ℕ) (chk : Chunk)
      → n ≤ i
      → find_open_chunk (suc fuel) (pos i) pool chk ≡ some (false, pool, chk)
  unfolding find_open_chunk
  round_past_end fuel i chk h =
      let past : le_ℤ (pos i) (latest_of n) ≡ false = le_ℤ-latest_of i n ∙ ground arith in
      rw index_latest (rw past)

  round_opened :
      (fuel i : ℕ) (chk : Chunk)
      → i < n
      → (cells i).state ≡ 1
      → find_open_chunk (suc fuel) (pos i) pool chk
        ≡ some (true, put_chunk pool (held size i (cells i).free), held size i (cells i).free)
  unfolding find_open_chunk
  round_opened fuel i chk h e =
      let within : le_ℤ (pos i) (latest_of n) ≡ true = le_ℤ-latest_of i n ∙ ground arith in
      rw index_latest (rw within (rw (get_chunk-eq i h) (ground arith)))

  round_other :
      (fuel i : ℕ) (chk : Chunk)
      → i < n
      → (cells i).state ≢ 1
      → find_open_chunk (suc fuel) (pos i) pool chk
        ≡ find_open_chunk fuel
            (pos (suc i))
            pool
            (chunk_at i (pos (cells i).state) (pos (cells i).free) (pos (last_id size i)))
  unfolding find_open_chunk
  round_other fuel i chk h ne =
      let within : le_ℤ (pos i) (latest_of n) ≡ true = le_ℤ-latest_of i n ∙ ground arith in
      let next : wrap32 (pos (i + 1)) ≡ pos (suc i) =
        wrap32-pos (i + 1) (omega (arith, chunks-lt)) ∙ ap pos (omega arith) in
      rw index_latest (rw within (rw (get_chunk-eq i h) (rw next (ground arith))))

  pub find_open_chunk-Searched :
      (fuel i : ℕ) (chk : Chunk)
      → i ≤ n
      → n < fuel + i
      → Searched pool n size cells (find_open_chunk fuel (pos i) pool chk)
  find_open_chunk-Searched zero i chk h lt = absurd (omega arith)
  find_open_chunk-Searched (suc fuel) i chk h lt = elim (dec_lt i n) [
    | no past ↦ inr (chk, round_past_end fuel i chk (omega arith))
    | yes within ↦ elim (ℕ_discrete (cells i).state 1) [
      | yes open_ ↦ inl (i, within, open_, round_opened fuel i chk within open_)
      | no other ↦ rw (round_other fuel i chk within other) (
          find_open_chunk-Searched fuel (suc i)
            (chunk_at i (pos (cells i).state) (pos (cells i).free) (pos (last_id size i)))
            (omega arith) (omega arith))
    ]
  ]

  next_id : wrap32 (latest_of n +ℤ pos 1) ≡ pos n
  next_id = wrap32-latest_of n chunks-lt

  index_size : index size_key (counted pool n) ≡ (pos size, (counted pool n))
  unfolding index same
  index_size = ground (arith, lookup-assign latest_key size_key (pos n) pool, r.sizes)

  lookup-counted :
      (k : ℕ) (f : Field)
      → lookup (chunk_field k f) (counted pool n) ≡ lookup (chunk_field k f) pool
  lookup-counted k f = rw lookup-assign (rw same-latest_chunk_field)

  pub made_chunk :
      suc n * size < 2 ^ 31
      → new_chunk pool
        ≡ (put_chunk (counted pool n) (held size n (n * size)), held size n (n * size))
  unfolding new_chunk
  made_chunk room =
      let fits : n * size + size < 2 ^ 31 = grind arith in
      let first : wrap32 (pos (n * size)) ≡ pos (n * size) = wrap32-pos (n * size) (omega arith) in
      let past : wrap32 (pos (n * size + size)) ≡ pos (n * size + size) =
        wrap32-pos (n * size + size) fits in
      let last : wrap32 (pos (n * size + size) +ℤ negsuc 0) ≡ pos (last_id size n) =
        wrap32-pred (n * size + size) (omega (arith, r.size_pos)) fits in
      rw index_latest (rw next_id (rw index_size (rw first (rw past (rw last)))))

  -- The chunk that is made where none was open, and the pool with it.
  pub new_chunk-Represents :
      suc n * size < 2 ^ 31
      → Represents
          (put_chunk (counted pool n) (held size n (n * size)))
          (suc n)
          size
          (set_cell cells n (cell 2 (n * size)))
  unfolding same
  new_chunk-Represents room = record {
    sizes =
        lookup-put_chunk_size (counted pool n) n (pos 2) (pos (n * size)) (pos (last_id size n))
        ∙ ground (arith, lookup-assign latest_key size_key (pos n) pool, r.sizes);
    latest =
        lookup-put_chunk_latest (counted pool n) n (pos 2) (pos (n * size)) (pos (last_id size n))
        ∙ ground (arith, lookup-assign latest_key latest_key (pos n) pool);
    states = λ k h. rw lookup-put_chunk (rw lookup-counted (ground (arith, r.states k)));
    frees = λ k h. rw lookup-put_chunk (rw lookup-counted (ground (arith, r.frees k)));
    lasts = λ k h. rw lookup-put_chunk (rw lookup-counted (ground (arith, r.lasts k)));
    size_pos = r.size_pos;
    fits = room;
  }
