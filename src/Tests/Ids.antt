-- ===== src/Tests/Ids.antt =====
-- Runs of the maps from names to ids.
use dinamite.Shared.{
  ℕ, ◌≡◌, inl, ◌*◌, ◌<◌, ◌^◌, zero, suc, refl, arith, Bytes, codes, StdMap, ℤ, pos, [], ◌∷◌, Option,
  none, some, lookup, contains, assign, same, before, decimal, decimal_digits, wrap32,
}
use dinamite.Json.{Json11}
use dinamite.Environment.{Files, maps_path, env_value, assign_entries}
use dinamite.Tests.SampleJson.{sample, sample-ReadsBack}
use dinamite.IdMap.{
  IdMap, Chunk, no_chunk, index, chunk_key, put_chunk, get_chunk, with_defaults, put_current,
  find_open_chunk, new_chunk, rounds, reserve_chunk, read_map_from_json, write_map_to_json,
  read_map, save_map, reserve_new_chunk, create, take_id, assign_new_id, get_id,
}
use dinamite.IdMap.Chunks.{latest_key, size_key}
use dinamite.IdMap.Pool.{
  Cell, cell, set_cell, Represents, held, latest_of, counted, new_chunk-Represents,
}
use dinamite.IdMap.Reserve.{
  with_defaults-Represents, Reserved, closed_cell, reserve_chunk-new, reserve_chunk-held,
}
use dinamite.IdMap.Ownership.{update, AllDistinct}
use dinamite.IdMap.World.{World, starts, asks, Reach, here, next, IsFresh, HasRoom, pool_of}
use dinamite.IdMap.Unique.{issued-AllDistinct}
use dinamite.IdMap.Answers.{Answers, Reach-Answers}
use dinamite.IdMap.Stable.{known_id, get_id-keeps}
use dinamite.IdMap.SavedMap.{lookup-save_map}

abbrev no_files : Files
no_files path = none

abbrev map_name : Bytes
map_name = codes "map_types.json"

abbrev fresh : World sample none map_name
fresh = record { files = no_files; procs = λ p. none; issued = [] }

abbrev dummy : IdMap sample
dummy = record { id_map = []; new_id_map = []; curchunk = no_chunk; fname = []; fchunkspool = [] }

abbrev started : Files × IdMap sample
started = elim (create sample none map_name no_files no_files) [
  | none ↦ (no_files, dummy)
  | some r ↦ r
]

started-eq : create sample none map_name no_files no_files ≡ some started
unfolding create reserve_new_chunk read_map reserve_chunk with_defaults put_current find_open_chunk
    new_chunk rounds index chunk_key put_chunk get_chunk read_map_from_json write_map_to_json lookup
    contains assign same before decimal decimal_digits maps_path env_value assign_entries
started-eq = refl

abbrev asked : Files × IdMap sample × ℤ
asked = elim (get_id sample (codes "int") started.0 started.1) [
  | none ↦ (no_files, dummy, pos 0)
  | some r ↦ r
]

asked-eq : get_id sample (codes "int") started.0 started.1 ≡ some asked
unfolding create reserve_new_chunk read_map reserve_chunk with_defaults put_current find_open_chunk
    new_chunk rounds index chunk_key put_chunk get_chunk read_map_from_json write_map_to_json lookup
    contains assign same before decimal decimal_digits maps_path env_value assign_entries get_id
    assign_new_id take_id wrap32
asked-eq = refl

first_room : HasRoom sample none map_name no_files
unfolding with_defaults read_map_from_json lookup contains assign same before
first_room n size l s = ground arith

latest-eq :
    lookup latest_key (with_defaults (pool_of sample none map_name started.0)) ≡ some (pos 0)
unfolding create reserve_new_chunk read_map reserve_chunk with_defaults put_current find_open_chunk
    new_chunk rounds index chunk_key put_chunk get_chunk read_map_from_json write_map_to_json lookup
    contains assign same before decimal decimal_digits maps_path env_value assign_entries wrap32
latest-eq = refl

size-eq : lookup size_key (with_defaults (pool_of sample none map_name started.0)) ≡ some (pos 1024)
unfolding create reserve_new_chunk read_map reserve_chunk with_defaults put_current find_open_chunk
    new_chunk rounds index chunk_key put_chunk get_chunk read_map_from_json write_map_to_json lookup
    contains assign same before decimal decimal_digits maps_path env_value assign_entries wrap32
size-eq = refl

room-one :
    (n size : ℕ) (l s : Option ℤ)
    → l ≡ some (pos 0)
    → s ≡ some (pos 1024)
    → l ≡ some (latest_of n)
    → s ≡ some (pos size)
    → suc n * size < 2 ^ 31
room-one zero size l s le se ln sn = absurd (ground arith)
room-one (suc n) size l s le se ln sn = ground arith

second_room : HasRoom sample none map_name started.0
second_room n size l s = room-one n size _ _ latest-eq size-eq l s

-- One process starts and asks for the id of a name; then it vanishes.
abbrev world_one : World sample none map_name
world_one = record { files = started.0; procs = update fresh.procs 0 (some started.1); issued = [] }

abbrev world_two : World sample none map_name
world_two = record {
  files = asked.0;
  procs = update world_one.procs 0 (some asked.1);
  issued = asked.2 ∷ [];
}

one-Reach : Reach sample none map_name fresh world_one
one-Reach = next here (starts 0 no_files started.0 started.1 refl first_room started-eq refl)

two-Reach : Reach sample none map_name fresh world_two
unfolding create reserve_new_chunk read_map reserve_chunk with_defaults put_current find_open_chunk
    new_chunk rounds index chunk_key put_chunk get_chunk read_map_from_json write_map_to_json lookup
    contains assign same before decimal decimal_digits maps_path env_value assign_entries get_id
    assign_new_id take_id wrap32
two-Reach =
    next one-Reach
      (asks 0 started.1 (codes "int") asked.0 asked.1 asked.2 refl second_room asked-eq refl)

fresh-IsFresh : IsFresh sample none map_name fresh
fresh-IsFresh = record { no_pool = refl; no_process = λ p. refl; no_id = refl }

issued-AllDistinct_example : AllDistinct world_two.issued
issued-AllDistinct_example =
    issued-AllDistinct sample none map_name sample-ReadsBack fresh world_two fresh-IsFresh two-Reach

Reach-Answers_example :
    ((files : Files) × (m : IdMap sample) × (create sample none map_name no_files world_one.files
        ≡ some (files, m)))
    × ((p : ℕ) (m : IdMap sample) (src : Bytes)
        → world_one.procs p ≡ some m
        → Answers sample none map_name sample-ReadsBack src world_one.files m)
Reach-Answers_example =
    Reach-Answers sample none map_name sample-ReadsBack fresh world_one no_files fresh-IsFresh
      one-Reach second_room

reserve_chunk-new_example :
    (pool' : StdMap ℤ) × (chk' : Chunk) × (reserve_chunk [] no_chunk ≡ some (pool', chk'))
    × Reserved 0 1024 (λ k. cell 0 0) pool' chk'
reserve_chunk-new_example =
    reserve_chunk-new [] 0 1024 (λ k. cell 0 0) (inl (refl, refl, refl)) (omega arith)

abbrev cells_one : ℕ → Cell
cells_one = set_cell (λ k. cell 0 0) 0 (cell 2 0)

abbrev pool_one : StdMap ℤ
pool_one = put_chunk (counted (with_defaults []) 0) (held 1024 0 0)

pool_one-Represents : Represents pool_one 1 1024 cells_one
pool_one-Represents =
    new_chunk-Represents (with_defaults []) 0 1024 (λ k. cell 0 0)
      (with_defaults-Represents [] 0 1024 (λ k. cell 0 0) (inl (refl, refl, refl))) (omega arith)

reserve_chunk-held_example :
    (pool' : StdMap ℤ) × (chk' : Chunk) × (reserve_chunk pool_one (held 1024 0 5)
      ≡ some (pool', chk'))
    × Reserved 1 1024 (set_cell cells_one 0 (closed_cell 1024 0 5)) pool' chk'
reserve_chunk-held_example =
    reserve_chunk-held pool_one 1 1024 cells_one 0 5 pool_one-Represents (omega arith)

get_id-keeps_example :
    ((later : Files) → get_id sample (codes "int") later asked.1 ≡ some (later, asked.1, asked.2))
    × ((name : Bytes) (j : ℤ) (later : Files)
        → known_id sample started.1 name ≡ some j
        → get_id sample name later asked.1 ≡ some (later, asked.1, j))
get_id-keeps_example =
    get_id-keeps sample (codes "int") started.0 asked.0 started.1 asked.1 asked.2 asked-eq

-- The file gives 7 to the name; this process gave it 1024.
abbrev behind : IdMap sample
behind = record {
  id_map = [];
  new_id_map = (codes "int", pos 1024) ∷ [];
  curchunk = no_chunk;
  fname = codes "map";
  fchunkspool = codes "pool";
}

abbrev ahead : Files
ahead path = some (Json11.dump sample (Json11.of_map sample ((codes "int", pos 7) ∷ [])))

lookup-save_map_example :
    lookup
      (codes "int")
      (read_map_from_json sample [] ((save_map sample ahead behind).0 (codes "map")))
    ≡ some (pos 7)
unfolding lookup same
lookup-save_map_example =
    lookup-save_map sample ahead behind ((codes "int", pos 7) ∷ []) (codes "int") sample-ReadsBack
      (tt, tt) tt refl
