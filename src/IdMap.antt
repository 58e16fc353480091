-- ===== src/IdMap.antt =====
-- IdMap.hpp: names of sources, types, variables and functions to integers. The map is a file that the
-- compilations of a build share; the integers come in chunks from a second shared file, the pool.
-- A method that takes a file lock is one function from the files to the files.

pub mod Chunks
pub mod Pool
pub mod Reserve
pub mod Ownership
pub mod PoolOrder
pub mod World
pub mod Links
pub mod Reservations
pub mod Issues
pub mod Ends
pub mod Unique
pub mod Stable
pub mod SavedMap
pub mod Answers
use dinamite.Shared.{
  ℕ, ◌+◌, Bytes, codes, StdMap, ℤ, pos, negsuc, ◌+ℤ◌, ◌*ℤ◌, zero, suc, wrap32, le_ℤ, lt_ℤ, eq_ℤ,
  Bool, true, false, [], ◌∷◌, ◌++◌, Option, none, some, if◌then◌else◌, lookup, contains, assign,
  insert_all, decimal,
}
use dinamite.Json.{Json11}
use dinamite.Environment.{Files, write_file, maps_path, assign_entries}

-- CHUNK_NOT_INIT and so on
abbrev pub chunk_not_init : ℤ
chunk_not_init = pos 0

abbrev pub chunk_opened : ℤ
chunk_opened = pos 1

abbrev pub chunk_being_used : ℤ
chunk_being_used = pos 2

abbrev pub chunk_full : ℤ
chunk_full = pos 3

abbrev pub default_chunk_size : ℤ
default_chunk_size = pos 1024

-- The record's fields are the source's; `stop` is its `end`.
pub record Chunk : Type 0 where
  pub id : ℤ
  pub status : ℤ
  pub start : ℤ
  pub stop : ℤ

abbrev pub no_chunk : Chunk
no_chunk = record { id = pos 0; status = chunk_not_init; start = pos 0; stop = pos 0 }

-- `pool[key]`: an absent key is entered with 0.
unfoldable pub index : Bytes → StdMap ℤ → ℤ × StdMap ℤ
index key pool = elim (lookup key pool) [
  | none ↦ (pos 0, assign key (pos 0) pool)
  | some v ↦ (v, pool)
]

-- `"chunk_" + s(id) + field`
unfoldable pub chunk_key : ℤ → Bytes → Bytes
chunk_key id field = codes "chunk_" ++ (decimal id ++ field)

unfoldable pub put_chunk : StdMap ℤ → Chunk → StdMap ℤ
put_chunk pool chk = assign (chunk_key chk.id (codes "_end")) chk.stop (
    assign (chunk_key chk.id (codes "_start")) chk.start
      (assign (chunk_key chk.id (codes "_status")) chk.status pool))

unfoldable pub get_chunk : StdMap ℤ → ℤ → StdMap ℤ × Chunk
get_chunk pool id =
    let (status, pool1) = index (chunk_key id (codes "_status")) pool in
    let (start, pool2) = index (chunk_key id (codes "_start")) pool1 in
    let (stop, pool3) = index (chunk_key id (codes "_end")) pool2 in
    (pool3, record { id = id; status = status; start = start; stop = stop })

-- The entries that `reserveNewChunk` makes where they are missing.
unfoldable pub with_defaults : StdMap ℤ → StdMap ℤ
with_defaults pool =
    let sized =
      (if contains (codes "size_of_each_chunk") pool
        then pool
        else assign (codes "size_of_each_chunk") default_chunk_size pool) in
    if contains (codes "latest_chunk_id") sized
    then sized
    else assign (codes "latest_chunk_id") (negsuc 0) sized

-- `start > end ? CHUNK_FULL : CHUNK_OPENED`
unfoldable pub closing_status : Chunk → ℤ
closing_status chk = if lt_ℤ chk.stop chk.start then chunk_full else chunk_opened

unfoldable pub close_chunk : Chunk → Chunk
close_chunk chk = record chk { status = closing_status chk }

-- "update current chunk in the pool"
unfoldable pub put_current : StdMap ℤ → Chunk → StdMap ℤ × Chunk
put_current pool chk =
    if eq_ℤ chk.status chunk_not_init
    then (pool, chk)
    else (put_chunk pool (close_chunk chk), close_chunk chk)

-- The loop that looks for an opened chunk. `none` means that the fuel ran out; the flag is `foundOpenChunk`.
unfoldable pub find_open_chunk : ℕ → ℤ → StdMap ℤ → Chunk → Option (Bool × StdMap ℤ × Chunk)
find_open_chunk zero i pool chk = none
find_open_chunk (suc fuel) i pool chk =
    let (latest, pool1) = index (codes "latest_chunk_id") pool in
    let (pool2, chk') = get_chunk pool1 i in
    let used = record chk' { status = chunk_being_used } in
    let rest = find_open_chunk fuel (wrap32 (i +ℤ pos 1)) pool2 chk' in
    if le_ℤ i latest
    then if eq_ℤ chk'.status chunk_opened then some (true, put_chunk pool2 used, used) else rest
    else some (false, pool1, chk)

-- The new chunk that is made where no opened one was found.
unfoldable pub new_chunk : StdMap ℤ → StdMap ℤ × Chunk
new_chunk pool =
    let (latest, pool1) = index (codes "latest_chunk_id") pool in
    let id = wrap32 (latest +ℤ pos 1) in
    let pool2 = assign (codes "latest_chunk_id") id pool1 in
    let (size, pool3) = index (codes "size_of_each_chunk") pool2 in
    let start = wrap32 (id *ℤ size) in
    let stop = wrap32 (wrap32 (start +ℤ size) +ℤ negsuc 0) in
    let chk : Chunk = record { id = id; status = chunk_being_used; start = start; stop = stop } in
    (put_chunk pool3 chk, chk)

-- One round of the loop for each chunk, and one to see its end.
unfoldable pub rounds : StdMap ℤ → ℕ
rounds pool = elim (lookup (codes "latest_chunk_id") pool) [
  | none ↦ 2
  | some latest ↦ elim latest [ pos n ↦ n + 2 | negsuc _ ↦ 1 ]
]

-- `reserveNewChunk` on the pool that was read: the pool to write and the new current chunk.
unfoldable pub reserve_chunk : StdMap ℤ → Chunk → Option (StdMap ℤ × Chunk)
reserve_chunk pool chk =
    let (pool1, closed) = put_current (with_defaults pool) chk in
    elim (find_open_chunk (rounds pool1) (pos 0) pool1 closed) [
      | none ↦ none
      | some (found, pool2, chk2) ↦ some (if found then (pool2, chk2) else new_chunk pool2)
    ]

module _ (J : Json11) where
  pub record IdMap : Type 0 where
    pub id_map : StdMap ℤ
    pub new_id_map : StdMap ℤ
    pub curchunk : Chunk
    pub fname : Bytes
    pub fchunkspool : Bytes

  -- `readMapFromJson`: the map as it was where the file does not open.
  unfoldable pub read_map_from_json : StdMap ℤ → Option Bytes → StdMap ℤ
  read_map_from_json mp none = mp
  read_map_from_json mp (some text) = assign_entries J mp (J.object_items (J.parse text))

  -- `writeMapToJson`
  unfoldable pub write_map_to_json : StdMap ℤ → Bytes → Files → Files
  write_map_to_json mp jsonfile files = write_file files jsonfile (J.dump (J.of_map mp))

  unfoldable pub read_map : Files → IdMap → IdMap
  read_map files m = record m { id_map = read_map_from_json m.id_map (files m.fname) }

  unfoldable pub save_map : Files → IdMap → Files × IdMap
  save_map files m =
      let merged = insert_all (read_map_from_json m.id_map (files m.fname)) m.new_id_map in
      (write_map_to_json merged m.fname files, record m { id_map = merged })

  -- `reserveNewChunk`
  unfoldable pub reserve_new_chunk : Files → IdMap → Option (Files × IdMap)
  reserve_new_chunk files m =
      elim (reserve_chunk (read_map_from_json [] (files m.fchunkspool)) m.curchunk) [
        | none ↦ none
        | some (pool, chk) ↦
            some (write_map_to_json pool m.fchunkspool files, record m { curchunk = chk })
      ]

  -- `recycleCurChunk`, the work of the destructor.
  unfoldable pub recycle_cur_chunk : Files → IdMap → Files
  recycle_cur_chunk files m =
      let pool = read_map_from_json [] (files m.fchunkspool) in
      write_map_to_json (put_chunk pool (close_chunk m.curchunk)) m.fchunkspool files

  -- The constructor: the map is read in one lock, from the files `seen`, and the chunk is reserved in
  -- another one, from `files`.
  unfoldable pub create : Option Bytes → Bytes → Files → Files → Option (Files × IdMap)
  create din_maps filename seen files =
      let path = maps_path din_maps filename in
      let m : IdMap = record {
        id_map = [];
        new_id_map = [];
        curchunk = no_chunk;
        fname = path;
        fchunkspool = path ++ codes ".chunkspool.json";
      } in
      reserve_new_chunk files (read_map seen m)

  -- `int new_id = curchunk.start++; new_id_map[src] = new_id;`
  unfoldable pub take_id : Bytes → IdMap → IdMap × ℤ
  take_id src m =
      let new_id = m.curchunk.start in
      let chk = m.curchunk in
      (
        record m {
          curchunk = record chk { start = wrap32 (new_id +ℤ pos 1) };
          new_id_map = assign src new_id m.new_id_map;
        },
        new_id,
      )

  -- A name that neither map has.
  unfoldable pub assign_new_id : Bytes → Files → IdMap → Option (Files × IdMap × ℤ)
  assign_new_id src files m =
      elim (if lt_ℤ m.curchunk.stop m.curchunk.start
        then reserve_new_chunk files m
        else some (files, m)) [
          | none ↦ none
          | some (files', m') ↦ let (m2, new_id) = take_id src m' in some (files', m2, new_id)
        ]

  unfoldable pub get_id : Bytes → Files → IdMap → Option (Files × IdMap × ℤ)
  get_id src files m = elim (lookup src m.id_map) [
    | some id ↦ some (files, m, id)
    | none ↦ elim (lookup src m.new_id_map) [
      | some id ↦ some (files, m, id)
      | none ↦ assign_new_id src files m
    ]
  ]
