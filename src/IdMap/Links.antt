-- ===== src/IdMap/Links.antt =====
-- The chunk that a process holds, in the files and in its own state.
use dinamite.Shared.{
  ℕ, suc, ◌+◌, ◌*◌, ◌<◌, ◌^◌, ◌≡◌, ◌≢◌, inl, inr, refl, sym, ap, ◌∙◌, arith, Bytes, same, same_iff,
  StdMap, ℤ, pos, wrap32, wrap32-pos, lt_ℤ, false, [], ◌++◌, Option, none, some, ◌==◌, IsOrdered,
  length, length-append, Bool-cases, ◌+ℤ◌,
}
use dinamite.Json.{Json11, ReadsBack}
use dinamite.Environment.{Files, write_file-eq}
use dinamite.Environment.Reload.{assign_entries-reload, assign_entries-IsOrdered}
use dinamite.IdMap.{Chunk, IdMap, read_map_from_json, write_map_to_json}
use dinamite.IdMap.Chunks.{chunk_at}
use dinamite.IdMap.Pool.{last_id, held}
use dinamite.IdMap.Ownership.{update}
use dinamite.IdMap.World.{map_path, pool_path, pool_of, Linked}

pub read_map_from_json-IsOrdered :
    (J : Json11) (text : Option Bytes) → IsOrdered (read_map_from_json J [] text)
unfolding read_map_from_json
read_map_from_json-IsOrdered J none = tt
read_map_from_json-IsOrdered J (some text) =
    assign_entries-IsOrdered J [] (J.object_items (J.parse text)) tt

pub same_suffix : (s t : Bytes) → 0 < length t → same s (s ++ t) ≡ false
same_suffix s t h = ground (arith, same_iff s (s ++ t), ap (length {A = ℕ}), length-append s t)

pub chunk_fits : (k n size a : ℕ) → k < n → a < k * size + size → n * size < 2 ^ 31 → suc a < 2 ^ 31
chunk_fits k n size a lt left fits = grind arith

pub update_self : (f : ℕ → ℕ) (k v : ℕ) → update f k v k ≡ v
update_self f k v = ground arith

-- The chunk after `curchunk.start++`.
pub taken_chunk :
    (d : Chunk) (size k a : ℕ)
    → d ≡ held size k a
    → suc a < 2 ^ 31
    → record d { start = wrap32 (d.start +ℤ pos 1) } ≡ held size k (suc a)
taken_chunk d size k a e small =
    ap (λ (c : Chunk). record c { start = wrap32 (c.start +ℤ pos 1) }) e
    ∙ ap (λ x. chunk_at k (pos 2) x (pos (last_id size k)))
        (wrap32-pos (a + 1) (omega arith) ∙ ap pos (omega arith))

module _ (J : Json11) (din_maps : Option Bytes) (filename : Bytes) (back : ReadsBack J) where
  pub pool_of-write :
      (pool : StdMap ℤ) (files : Files)
      → IsOrdered pool
      → pool_of J din_maps filename (write_map_to_json J pool (pool_path J din_maps filename) files)
        ≡ pool
  unfolding read_map_from_json write_map_to_json
  pool_of-write pool files o =
      ap (read_map_from_json J []) (write_file-eq files (J.dump (J.of_map pool)) refl)
      ∙ assign_entries-reload J back pool o

  pub Linked-none :
      (size : ℕ) (nx : ℕ → ℕ) (h : Option ℕ) → Linked J din_maps filename size nx none h → h ≡ none
  Linked-none size nx none l = refl
  Linked-none size nx (some k) l = absurd l

  pub Linked-some :
      (size : ℕ) (nx : ℕ → ℕ) (m : IdMap J) (h : Option ℕ)
      → Linked J din_maps filename size nx (some m) h
      → (k : ℕ) × (h ≡ some k)
        × (m.curchunk ≡ held size k (nx k))
        × (m.fname ≡ map_path J din_maps filename)
        × (m.fchunkspool ≡ pool_path J din_maps filename)
  Linked-some size nx m none l = absurd l
  Linked-some size nx m (some k) l = (k, refl, l.0, l.1, l.2)

  pub Linked-change :
      (size : ℕ) (nx nx' : ℕ → ℕ) (m : Option (IdMap J)) (h : Option ℕ)
      → ((k : ℕ) → h ≡ some k → nx' k ≡ nx k)
      → Linked J din_maps filename size nx m h
      → Linked J din_maps filename size nx' m h
  Linked-change size nx nx' none none e l = tt
  Linked-change size nx nx' none (some k) e l = absurd l
  Linked-change size nx nx' (some m) none e l = absurd l
  Linked-change size nx nx' (some m) (some k) e l =
      (l.0 ∙ ap (held size k) (sym (e k refl)), l.1, l.2)

  -- A process with its chunk among the others.
  pub Linked-update :
      (size : ℕ) (nx : ℕ → ℕ) (procs : ℕ → Option (IdMap J)) (holder : ℕ → Option ℕ) (p : ℕ)
      (m : Option (IdMap J)) (h : Option ℕ)
      → Linked J din_maps filename size nx m h
      → ((q : ℕ) → p ≢ q → Linked J din_maps filename size nx (procs q) (holder q))
      → (q : ℕ) → Linked J din_maps filename size nx (update procs p m q) (update holder p h q)
  Linked-update size nx procs holder p m h l others q = elim (Bool-cases (p == q)) [
    | inl here_ ↦ rw here_ l
    | inr other ↦ rw other (others q (λ e. ground arith))
  ]

  -- The chunk in hand has an id left.
  abbrev pub HasId : IdMap J → Type 0
  HasId m = lt_ℤ m.curchunk.stop m.curchunk.start ≡ false
