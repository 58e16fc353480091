-- ===== src/IdMap/Reserve.antt =====
-- `reserveNewChunk`: the search through the pool and the chunk that it hands out.
use dinamite.Shared.{
  ℕ, zero, suc, ◌+◌, ◌*◌, ◌<◌, ◌^◌, ◌≡◌, ◌⊎◌, refl, ap, ◌∙◌, arith, StdMap, ℤ, pos, Bool, [],
  Option, none, some, if◌then◌else◌, ltb, lookup, contains, assign, same, before, inl, inr,
}
use dinamite.IdMap.{
  Chunk, no_chunk, put_chunk, with_defaults, closing_status, close_chunk, put_current,
  find_open_chunk, new_chunk, rounds, reserve_chunk,
}
use dinamite.IdMap.Chunks.{chunk_at}
use dinamite.IdMap.Pool.{
  Cell, cell, set_cell, last_id, Represents, held, Searched, counted, put_chunk-Represents,
  find_open_chunk-Searched, made_chunk, new_chunk-Represents,
}

-- A pool file that is absent or empty stands for no chunk, of the default size.
abbrev pub Holds : StdMap ℤ → ℕ → ℕ → (ℕ → Cell) → Type 0
Holds pool n size cells = (pool ≡ []) × (n ≡ 0) × (size ≡ 1024) ⊎ Represents pool n size cells

empty-Represents : (cells : ℕ → Cell) → Represents (with_defaults []) 0 1024 cells
unfolding with_defaults contains lookup assign same before
empty-Represents cells = record {
  sizes = refl;
  latest = refl;
  states = λ k h. absurd (omega arith);
  frees = λ k h. absurd (omega arith);
  lasts = λ k h. absurd (omega arith);
  size_pos = omega arith;
  fits = omega arith;
}

with_defaults-eq :
    (pool : StdMap ℤ) (n size : ℕ) (cells : ℕ → Cell)
    → Represents pool n size cells
    → with_defaults pool ≡ pool
unfolding with_defaults contains
with_defaults-eq pool n size cells r = ground (arith, r.sizes, r.latest)

pub with_defaults-Represents :
    (pool : StdMap ℤ) (n size : ℕ) (cells : ℕ → Cell)
    → Holds pool n size cells
    → Represents (with_defaults pool) n size cells
with_defaults-Represents pool n size cells (inl (e, en, es)) =
    rw (e, en, es) (empty-Represents cells)
with_defaults-Represents pool n size cells (inr r) = rw (with_defaults-eq pool n size cells r) r

rounds-eq :
    (pool : StdMap ℤ) (n size : ℕ) (cells : ℕ → Cell)
    → Represents pool n size cells
    → rounds pool ≡ n + 1
unfolding rounds
rounds-eq pool zero size cells r = ground (arith, r.latest)
rounds-eq pool (suc n) size cells r = ground (arith, r.latest)

-- An opened chunk was free and is now in use, or a new chunk is in use.
abbrev pub Reserved : ℕ → ℕ → (ℕ → Cell) → StdMap ℤ → Chunk → Type 0
Reserved n size cells pool' chk' =
    ((j : ℕ) × (j < n)
      × ((cells j).state ≡ 1)
      × (chk' ≡ held size j (cells j).free)
      × Represents pool' n size (set_cell cells j (cell 2 (cells j).free)))
    ⊎ (chk' ≡ held size n (n * size))
      × Represents pool' (suc n) size (set_cell cells n (cell 2 (n * size)))

-- What is left of `reserveNewChunk` after the current chunk was put.
abbrev chosen : Option (Bool × StdMap ℤ × Chunk) → Option (StdMap ℤ × Chunk)
chosen res = elim res [
  | none ↦ none
  | some (found, pool2, chk2) ↦ some (if found then (pool2, chk2) else new_chunk pool2)
]

abbrev searched : StdMap ℤ × Chunk → Option (StdMap ℤ × Chunk)
searched p = chosen (find_open_chunk (rounds p.0) (pos 0) p.0 p.1)

module _ (pool : StdMap ℤ) (n size : ℕ) (cells : ℕ → Cell) (r : Represents pool n size cells)
    (room : suc n * size < 2 ^ 31) where
  chosen-Reserved :
      (res : Option (Bool × StdMap ℤ × Chunk))
      → Searched pool n size cells res
      → (pool' : StdMap ℤ) × (chk' : Chunk) × (chosen res ≡ some (pool', chk'))
        × Reserved n size cells pool' chk'
  chosen-Reserved res (inl (j, lt, open_, e)) = (
    put_chunk pool (held size j (cells j).free),
    held size j (cells j).free,
    rw e,
    inl (j, lt, open_, refl, put_chunk-Represents pool n size cells r j 2 (cells j).free),
  )
  chosen-Reserved res (inr (chk, e)) = (
    put_chunk (counted pool n) (held size n (n * size)),
    held size n (n * size),
    rw e (ap some (made_chunk pool n size cells r room)),
    inr (refl, new_chunk-Represents pool n size cells r room),
  )

  search-Reserved :
      (chk : Chunk)
      → (pool' : StdMap ℤ) × (chk' : Chunk) × (chosen
            (find_open_chunk (rounds pool) (pos 0) pool chk)
          ≡ some (pool', chk'))
        × Reserved n size cells pool' chk'
  search-Reserved chk = chosen-Reserved (find_open_chunk (rounds pool) (pos 0) pool chk) (
      find_open_chunk-Searched pool n size cells r (rounds pool) 0 chk (omega arith)
        (omega (arith, rounds-eq pool n size cells r)))

-- The state of a chunk that its process gives back with `a` as its next id: full past the last id, else open.
abbrev pub closed_cell : ℕ → ℕ → ℕ → Cell
closed_cell size k a = cell (if ltb (last_id size k) a then 3 else 1) a

put_current-held :
    (pool : StdMap ℤ) (size k a : ℕ)
    → put_current pool (held size k a) ≡ (
      put_chunk pool (chunk_at k (pos (closed_cell size k a).state) (pos a) (pos (last_id size k))),
      chunk_at k (pos (closed_cell size k a).state) (pos a) (pos (last_id size k)),
    )
unfolding put_current close_chunk closing_status
put_current-held pool size k a = ground arith

-- Where the ids of one more chunk fit an `int`, a process that starts is given an opened chunk of the pool, which is then in use, or a new one behind the others; an absent or empty pool file has no chunk.
pub reserve_chunk-new :
    (pool : StdMap ℤ) (n size : ℕ) (cells : ℕ → Cell)
    → Holds pool n size cells
    → suc n * size < 2 ^ 31
    → (pool' : StdMap ℤ) × (chk' : Chunk) × (reserve_chunk pool no_chunk ≡ some (pool', chk'))
      × Reserved n size cells pool' chk'
unfolding reserve_chunk put_current
reserve_chunk-new pool n size cells h room =
    search-Reserved (with_defaults pool) n size cells (with_defaults-Represents pool n size cells h)
      room no_chunk

-- Where the ids of one more chunk fit an `int`, a process that holds chunk `k` and has `a` as its next id gives it back, open or full, and is given an opened chunk of the pool, which is then in use, or a new one behind the others.
pub reserve_chunk-held :
    (pool : StdMap ℤ) (n size : ℕ) (cells : ℕ → Cell) (k a : ℕ)
    → Represents pool n size cells
    → suc n * size < 2 ^ 31
    → (pool' : StdMap ℤ) × (chk' : Chunk) × (reserve_chunk pool (held size k a)
        ≡ some (pool', chk'))
      × Reserved n size (set_cell cells k (closed_cell size k a)) pool' chk'
unfolding reserve_chunk
reserve_chunk-held pool n size cells k a r room =
    let pool1 =
      put_chunk pool
        (chunk_at k (pos (closed_cell size k a).state) (pos a) (pos (last_id size k))) in
    let closed = chunk_at k (pos (closed_cell size k a).state) (pos a) (pos (last_id size k)) in
    let r1 = put_chunk-Represents pool n size cells r k (closed_cell size k a).state a in
    let (pool', chk', e, res) =
      search-Reserved pool1 n size (set_cell cells k (closed_cell size k a)) r1 room closed in
    (
      pool',
      chk',
      ap searched (
            ap (λ q. put_current q (held size k a)) (with_defaults-eq pool n size cells r)
            ∙ put_current-held pool size k a)
          ∙ e,
      res,
    )
