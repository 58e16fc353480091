-- ===== src/IdMap/Unique.antt =====
-- The steps of all compilations together, and the ids that they give to new names.
use dinamite.Shared.{inl, inr, refl, subst, sym, ap, Bytes, [], Option, none}
use dinamite.Json.{Json11, ReadsBack}
use dinamite.Environment.{Files}
use dinamite.IdMap.{IdMap, read_map_from_json}
use dinamite.IdMap.Pool.{cell}
use dinamite.IdMap.Ownership.{Owned, Owned-empty, AllDistinct}
use dinamite.IdMap.World.{
  pool_path, World, Step, starts, asks, saves, ends, crashes, Reach, here, next, IsFresh, Invariant,
}
use dinamite.IdMap.Reservations.{starts-Invariant}
use dinamite.IdMap.Issues.{same_chunk-Invariant, get_id-cases, new_id-Invariant, saves-Invariant}
use dinamite.IdMap.Ends.{ends-Invariant, crashes-Invariant}

module _ (J : Json11) (din_maps : Option Bytes) (filename : Bytes) (back : ReadsBack J) where
  -- Every step of a process keeps the invariant.
  Step-Invariant :
      {w w' : World J din_maps filename}
      → Step J din_maps filename w w'
      → Invariant J din_maps filename w
      → Invariant J din_maps filename w'
  Step-Invariant {w} {w'} (starts p seen files' m e room made eq) i =
      subst (Invariant J din_maps filename) (sym eq)
        (starts-Invariant J din_maps filename back w p seen files' m i e room made)
  Step-Invariant {w} {w'} (asks p m src files' m' id e room got eq) i =
      elim (get_id-cases J din_maps filename back src w.files files' m m' id got) [
        | inl (old, files_eq, m_eq) ↦ rw eq (
            rw old (
              same_chunk-Invariant J din_maps filename back w p files' m m' i e
                (ap (λ (r : IdMap J). r.curchunk) m_eq) (ap (λ (r : IdMap J). r.fname) m_eq)
                (ap (λ (r : IdMap J). r.fchunkspool) m_eq)
                (ap (λ (g : Files). g (pool_path J din_maps filename)) files_eq)))
        | inr (fresh, made) ↦ rw eq (
            rw fresh
              (new_id-Invariant J din_maps filename back w p m src files' m' id i e room made))
      ]
  Step-Invariant {w} {w'} (saves p m e eq) i =
      subst (Invariant J din_maps filename) (sym eq)
        (saves-Invariant J din_maps filename back w p m i e)
  Step-Invariant {w} {w'} (ends p m e eq) i =
      subst (Invariant J din_maps filename) (sym eq)
        (ends-Invariant J din_maps filename back w p m i e)
  Step-Invariant {w} {w'} (crashes p eq) i =
      subst (Invariant J din_maps filename) (sym eq)
        (crashes-Invariant J din_maps filename back w p i)

  pub fresh-Invariant :
      (w : World J din_maps filename)
      → IsFresh J din_maps filename w
      → Invariant J din_maps filename w
  unfolding read_map_from_json
  fresh-Invariant w fresh = record {
    n = 0;
    size = 1024;
    cells = λ _. cell 0 0;
    next_id = λ _. 0;
    holder = λ _. none;
    holds = inl (ap (read_map_from_json J []) fresh.no_pool, refl, refl);
    owned =
        subst (Owned 0 1024 (λ _. cell 0 0) (λ _. 0) (λ _. none)) (sym fresh.no_id)
          (Owned-empty 1024 (λ _. cell 0 0));
    linked = λ p. rw (fresh.no_process p) tt;
  }

  pub Reach-Invariant :
      (w : World J din_maps filename) {w' : World J din_maps filename}
      → Invariant J din_maps filename w
      → Reach J din_maps filename w w'
      → Invariant J din_maps filename w'
  Reach-Invariant w i here = i
  Reach-Invariant w i (next r st) = Step-Invariant st (Reach-Invariant w i r)

  -- Compilations that start from no pool file, and start, ask for ids, save, end or vanish in any order, each where the ids of one more chunk fit an `int` when it starts or asks, never give one id to two new names, if what is dumped is read back.
  pub issued-AllDistinct :
      (w w' : World J din_maps filename)
      → IsFresh J din_maps filename w
      → Reach J din_maps filename w w'
      → AllDistinct w'.issued
  issued-AllDistinct w w' fresh r = (Reach-Invariant w (fresh-Invariant w fresh) r).owned.unique
