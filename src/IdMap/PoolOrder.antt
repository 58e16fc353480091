-- ===== src/IdMap/PoolOrder.antt =====
-- The order of the keys of the pool in `reserveNewChunk` and `recycleCurChunk`.
use dinamite.Shared.{
  ℕ, zero, suc, ◌≡◌, subst, Bytes, StdMap, ℤ, pos, Bool, true, false, Option, none, some,
  if◌then◌else◌, lookup, contains, assign, IsOrdered, assign-IsOrdered, codes, wrap32, ◌+ℤ◌, le_ℤ,
  eq_ℤ, negsuc, Option-cases, inl, inr, Bool-cases,
}
use dinamite.IdMap.{
  Chunk, index, chunk_key, put_chunk, get_chunk, with_defaults, put_current, close_chunk,
  find_open_chunk, new_chunk, rounds, reserve_chunk, default_chunk_size, chunk_being_used,
  chunk_opened, chunk_not_init,
}

index-IsOrdered : (key : Bytes) (pool : StdMap ℤ) → IsOrdered pool → IsOrdered (index key pool).1
unfolding index
index-IsOrdered key pool o = elim (Option-cases (lookup key pool)) [
  | inl e ↦ rw (e, index) (assign-IsOrdered key (pos 0) pool o)
  | inr (v, e) ↦ rw (e, index) o
]

pub put_chunk-IsOrdered :
    (pool : StdMap ℤ) (chk : Chunk) → IsOrdered pool → IsOrdered (put_chunk pool chk)
unfolding put_chunk
put_chunk-IsOrdered pool chk o =
    assign-IsOrdered _ chk.stop _
      (assign-IsOrdered _ chk.start _ (assign-IsOrdered _ chk.status pool o))

get_chunk-IsOrdered : (pool : StdMap ℤ) (id : ℤ) → IsOrdered pool → IsOrdered (get_chunk pool id).0
unfolding get_chunk
get_chunk-IsOrdered pool id o =
    index-IsOrdered _ _
      (index-IsOrdered _ _ (index-IsOrdered (chunk_key id (codes "_status")) pool o))

if-IsOrdered :
    (b : Bool) (p q : StdMap ℤ) → IsOrdered p → IsOrdered q → IsOrdered (if b then p else q)
if-IsOrdered true p q hp hq = hp
if-IsOrdered false p q hp hq = hq

with_defaults-IsOrdered : (pool : StdMap ℤ) → IsOrdered pool → IsOrdered (with_defaults pool)
unfolding with_defaults
with_defaults-IsOrdered pool o =
    let sized =
      (if contains (codes "size_of_each_chunk") pool
        then pool
        else assign (codes "size_of_each_chunk") default_chunk_size pool) in
    let o' =
      if-IsOrdered (contains (codes "size_of_each_chunk") pool) pool _ o
        (assign-IsOrdered (codes "size_of_each_chunk") default_chunk_size pool o) in
    if-IsOrdered (contains (codes "latest_chunk_id") sized) sized _ o'
      (assign-IsOrdered (codes "latest_chunk_id") (negsuc 0) sized o')

put_current-IsOrdered :
    (pool : StdMap ℤ) (chk : Chunk) → IsOrdered pool → IsOrdered (put_current pool chk).0
unfolding put_current
put_current-IsOrdered pool chk o = elim (Bool-cases (eq_ℤ chk.status chunk_not_init)) [
  | inl e ↦ rw (e, put_current) o
  | inr e ↦ rw (e, put_current) (put_chunk-IsOrdered pool (close_chunk chk) o)
]

new_chunk-IsOrdered : (pool : StdMap ℤ) → IsOrdered pool → IsOrdered (new_chunk pool).0
unfolding new_chunk
new_chunk-IsOrdered pool o = put_chunk-IsOrdered _ _ (
    index-IsOrdered _ _ (assign-IsOrdered _ _ _ (index-IsOrdered (codes "latest_chunk_id") pool o)))

-- The pool in a result of the search, where there is one, is ordered.
abbrev OrderedResult : Option (Bool × StdMap ℤ × Chunk) → Type 0
OrderedResult none = Unit
OrderedResult (some (found, pool, chk)) = IsOrdered pool

if-OrderedResult :
    (b : Bool) (p q : Option (Bool × StdMap ℤ × Chunk))
    → OrderedResult p
    → OrderedResult q
    → OrderedResult (if b then p else q)
if-OrderedResult true p q hp hq = hp
if-OrderedResult false p q hp hq = hq

find_open_chunk-OrderedResult :
    (fuel : ℕ) (i : ℤ) (pool : StdMap ℤ) (chk : Chunk)
    → IsOrdered pool
    → OrderedResult (find_open_chunk fuel i pool chk)
unfolding find_open_chunk
find_open_chunk-OrderedResult zero i pool chk o = tt
find_open_chunk-OrderedResult (suc fuel) i pool chk o =
    let latest = (index (codes "latest_chunk_id") pool).0 in
    let pool1 = (index (codes "latest_chunk_id") pool).1 in
    let o1 : IsOrdered pool1 = index-IsOrdered (codes "latest_chunk_id") pool o in
    let pool2 = (get_chunk pool1 i).0 in
    let chk' = (get_chunk pool1 i).1 in
    let o2 : IsOrdered pool2 = get_chunk-IsOrdered pool1 i o1 in
    if-OrderedResult (le_ℤ i latest) _ (some (false, pool1, chk))
      (if-OrderedResult (eq_ℤ chk'.status chunk_opened) _ _
        (put_chunk-IsOrdered pool2 (record chk' { status = chunk_being_used }) o2)
        (find_open_chunk-OrderedResult fuel (wrap32 (i +ℤ pos 1)) pool2 chk' o2))
      o1

abbrev OrderedReserve : Option (StdMap ℤ × Chunk) → Type 0
OrderedReserve none = Unit
OrderedReserve (some (pool, chk)) = IsOrdered pool

chosen-OrderedReserve :
    (res : Option (Bool × StdMap ℤ × Chunk))
    → OrderedResult res
    → OrderedReserve (elim res [
      | none ↦ none
      | some (found, pool2, chk2) ↦ some (if found then (pool2, chk2) else new_chunk pool2)
    ])
chosen-OrderedReserve none o = tt
chosen-OrderedReserve (some (true, pool, chk)) o = o
chosen-OrderedReserve (some (false, pool, chk)) o = new_chunk-IsOrdered pool o

pub reserve_chunk-IsOrdered :
    (pool : StdMap ℤ) (chk : Chunk) (pool' : StdMap ℤ) (chk' : Chunk)
    → IsOrdered pool
    → reserve_chunk pool chk ≡ some (pool', chk')
    → IsOrdered pool'
unfolding reserve_chunk
reserve_chunk-IsOrdered pool chk pool' chk' o e =
    let p = put_current (with_defaults pool) chk in
    let o1 = put_current-IsOrdered (with_defaults pool) chk (with_defaults-IsOrdered pool o) in
    subst OrderedReserve e (
      chosen-OrderedReserve (find_open_chunk (rounds p.0) (pos 0) p.0 p.1)
        (find_open_chunk-OrderedResult (rounds p.0) (pos 0) p.0 p.1 o1))
