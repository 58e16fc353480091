-- ===== src/IdMap/World.antt =====
-- Compilations that run at the same time on the files of one map. Each locked operation of IdMap.hpp
-- is one step; between its steps a process does nothing to the files, and it may end without warning.
use dinamite.Shared.{
  ℕ, suc, ◌*◌, ◌<◌, ◌^◌, ◌≡◌, Bytes, codes, StdMap, ℤ, pos, Bool, List, [], ◌∷◌, ◌++◌, Option, none,
  some, if◌then◌else◌, ◌&&◌, not, contains, lookup,
}
use dinamite.Json.{Json11}
use dinamite.Environment.{Files, maps_path}
use dinamite.IdMap.{
  with_defaults, IdMap, read_map_from_json, save_map, recycle_cur_chunk, create, get_id,
}
use dinamite.IdMap.Chunks.{size_key, latest_key}
use dinamite.IdMap.Pool.{Cell, latest_of, held}
use dinamite.IdMap.Reserve.{Holds}
use dinamite.IdMap.Ownership.{update, Owned}

module _ (J : Json11) (din_maps : Option Bytes) (filename : Bytes) where
  abbrev pub map_path : Bytes
  map_path = maps_path din_maps filename

  abbrev pub pool_path : Bytes
  pool_path = map_path ++ codes ".chunkspool.json"

  -- The pool as a process reads it.
  abbrev pub pool_of : Files → StdMap ℤ
  pool_of files = read_map_from_json J [] (files pool_path)

  -- `issued` are the ids that were given to new names, the latest first.
  pub record World : Type 0 where
    pub files : Files
    pub procs : ℕ → Option (IdMap J)
    pub issued : List ℤ

  -- One more chunk has ids that an `int` can hold.
  abbrev pub HasRoom : Files → Type 0
  HasRoom files =
      (n size : ℕ)
      → lookup latest_key (with_defaults (pool_of files)) ≡ some (latest_of n)
      → lookup size_key (with_defaults (pool_of files)) ≡ some (pos size)
      → suc n * size < 2 ^ 31

  abbrev pub is_new : Bytes → IdMap J → Bool
  is_new src m = not (contains src m.id_map) && not (contains src m.new_id_map)

  -- A process that starts can have read its map from earlier files: any are admitted.
  pub data Step (w w' : World) : Type 0 where
    starts :
        (p : ℕ) (seen files' : Files) (m : IdMap J)
        → w.procs p ≡ none
        → HasRoom w.files
        → create J din_maps filename seen w.files ≡ some (files', m)
        → w' ≡ record { files = files'; procs = update w.procs p (some m); issued = w.issued }
        → Step w w'
    asks :
        (p : ℕ) (m : IdMap J) (src : Bytes) (files' : Files) (m' : IdMap J) (id : ℤ)
        → w.procs p ≡ some m
        → HasRoom w.files
        → get_id J src w.files m ≡ some (files', m', id)
        → w' ≡ record {
          files = files';
          procs = update w.procs p (some m');
          issued = if is_new src m then id ∷ w.issued else w.issued;
        }
        → Step w w'
    saves :
        (p : ℕ) (m : IdMap J)
        → w.procs p ≡ some m
        → w' ≡ record {
          files = (save_map J w.files m).0;
          procs = update w.procs p (some (save_map J w.files m).1);
          issued = w.issued;
        }
        → Step w w'
    ends :
        (p : ℕ) (m : IdMap J)
        → w.procs p ≡ some m
        → w' ≡ record {
          files = recycle_cur_chunk J w.files m;
          procs = update w.procs p none;
          issued = w.issued;
        }
        → Step w w'
    crashes :
        (p : ℕ)
        → w' ≡ record { files = w.files; procs = update w.procs p none; issued = w.issued }
        → Step w w'

  pub data Reach (w : World) : World → Type 0 where
    here : Reach w w
    next : {u v : World} → Reach w u → Step u v → Reach w v

  -- No process runs, and the pool file is absent.
  pub record IsFresh (w : World) : Type 0 where
    pub no_pool : w.files pool_path ≡ none
    pub no_process : (p : ℕ) → w.procs p ≡ none
    pub no_id : w.issued ≡ []

  -- A process holds chunk `k` and has its next id.
  abbrev pub Linked : ℕ → (ℕ → ℕ) → Option (IdMap J) → Option ℕ → Type 0
  Linked size nx none none = Unit
  Linked size nx none (some k) = ⊥
  Linked size nx (some m) none = ⊥
  Linked size nx (some m) (some k) =
      (m.curchunk ≡ held size k (nx k)) × (m.fname ≡ map_path) × (m.fchunkspool ≡ pool_path)

  pub record Invariant (w : World) : Type 0 where
    pub n : ℕ
    pub size : ℕ
    pub cells : ℕ → Cell
    pub next_id : ℕ → ℕ
    pub holder : ℕ → Option ℕ
    pub holds : Holds (pool_of w.files) n size cells
    pub owned : Owned n size cells next_id holder w.issued
    pub linked : (p : ℕ) → Linked size next_id (w.procs p) (holder p)
