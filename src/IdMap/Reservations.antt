-- ===== src/IdMap/Reservations.antt =====
-- A process that starts, and one whose chunk is used up.
use dinamite.Shared.{
  ℕ, suc, ◌*◌, ◌<◌, ◌^◌, ◌≡◌, ◌≢◌, inl, inr, refl, subst, sym, ap, ◌∙◌, arith, Bytes, StdMap, ℤ,
  List, [], Option, none, some, IsOrdered,
}
use dinamite.Json.{Json11, ReadsBack}
use dinamite.Environment.{Files}
use dinamite.IdMap.{
  Chunk, no_chunk, reserve_chunk, IdMap, read_map_from_json, write_map_to_json, reserve_new_chunk,
  create, read_map,
}
use dinamite.IdMap.Pool.{Cell, cell, set_cell, Represents, held}
use dinamite.IdMap.Reserve.{
  Holds, with_defaults-Represents, Reserved, reserve_chunk-new, reserve_chunk-held, closed_cell,
}
use dinamite.IdMap.Ownership.{update, Owned, Owned-open, Owned-make, Owned-close}
use dinamite.IdMap.PoolOrder.{reserve_chunk-IsOrdered}
use dinamite.IdMap.World.{map_path, pool_path, pool_of, World, HasRoom, Linked, Invariant}
use dinamite.IdMap.Links.{read_map_from_json-IsOrdered}
use dinamite.IdMap.Links.{
  pool_of-write, Linked-none, Linked-some, Linked-change, Linked-update, HasId,
}

module _ (J : Json11) (din_maps : Option Bytes) (filename : Bytes) (back : ReadsBack J) where
  -- What the reservation of a chunk leaves, for a process that held none.
  pub Reserved-Invariant :
      (n size : ℕ) (cells : ℕ → Cell) (nx : ℕ → ℕ) (holder : ℕ → Option ℕ) (issued : List ℤ)
      (procs : ℕ → Option (IdMap J)) (files : Files) (p : ℕ) (m : IdMap J) (pool : StdMap ℤ)
      → Owned n size cells nx holder issued
      → holder p ≡ none
      → 0 < size
      → ((q : ℕ) → p ≢ q → Linked J din_maps filename size nx (procs q) (holder q))
      → Reserved n size cells pool m.curchunk
      → IsOrdered pool
      → m.fname ≡ map_path J din_maps filename
      → m.fchunkspool ≡ pool_path J din_maps filename
      → Invariant J din_maps filename (record {
        files = write_map_to_json J pool (pool_path J din_maps filename) files;
        procs = update procs p (some m);
        issued = issued;
      })
        × HasId J din_maps filename back m
  Reserved-Invariant n size cells nx holder issued procs files p m pool o none_held size_pos others
        (inl (j, lt, open_, e, r)) ordered path1 path2 =
      let free : (cells j).free ≡ nx j = o.saved j lt (λ s. absurd (omega arith)) in
      let mine : m.curchunk ≡ held size j (nx j) = e ∙ ap (held size j) free in
      let left = o.room j lt open_ in
      (
        record {
          n = n;
          size = size;
          cells = set_cell cells j (cell 2 (cells j).free);
          next_id = nx;
          holder = update holder p (some j);
          holds = inr (rw (pool_of-write J din_maps filename back pool files ordered) r);
          owned = Owned-open n size cells nx holder issued o p j none_held lt open_;
          linked =
              Linked-update J din_maps filename back size nx procs holder p (some m) (some j)
                (mine, path1, path2) others;
        },
        rw mine (ground arith),
      )
  Reserved-Invariant n size cells nx holder issued procs files p m pool o none_held size_pos others
        (inr (e, r)) ordered path1 path2 =
      let nx' = update nx n (n * size) in
      let mine : m.curchunk ≡ held size n (nx' n) = e ∙ ap (held size n) (ground arith) in
      (
        record {
          n = suc n;
          size = size;
          cells = set_cell cells n (cell 2 (n * size));
          next_id = nx';
          holder = update holder p (some n);
          holds = inr (rw (pool_of-write J din_maps filename back pool files ordered) r);
          owned = Owned-make n size cells nx holder issued o p size_pos none_held;
          linked =
              Linked-update J din_maps filename back size nx' procs holder p (some m) (some n)
                (mine, path1, path2)
                (λ q d.
                  Linked-change J din_maps filename back size nx nx' (procs q) (holder q)
                    (λ k h. ground (arith, o.used q k h)) (others q d));
        },
        rw e (ground arith),
      )

  -- `reserveNewChunk` from what `reserve_chunk` answers on the pool of the files.
  pub reserve_new_chunk-eq :
      (files : Files) (m : IdMap J) (pool : StdMap ℤ) (chk : Chunk)
      → m.fchunkspool ≡ pool_path J din_maps filename
      → reserve_chunk (pool_of J din_maps filename files) m.curchunk ≡ some (pool, chk)
      → reserve_new_chunk J files m
        ≡ some (
          write_map_to_json J pool (pool_path J din_maps filename) files,
          record m { curchunk = chk },
        )
  unfolding reserve_new_chunk
  reserve_new_chunk-eq files m pool chk path e = ground arith

  pub room_of :
      (files : Files) (n size : ℕ) (cells : ℕ → Cell)
      → Holds (pool_of J din_maps filename files) n size cells
      → HasRoom J din_maps filename files
      → suc n * size < 2 ^ 31
  room_of files n size cells h room =
      let r = with_defaults-Represents (pool_of J din_maps filename files) n size cells h in
      room n size r.latest r.sizes

  pub held-Represents :
      (pool : StdMap ℤ) (n size k : ℕ) (cells : ℕ → Cell)
      → k < n
      → Holds pool n size cells
      → Represents pool n size cells
  held-Represents pool n size k cells lt (inl (e, en, es)) = absurd (omega arith)
  held-Represents pool n size k cells lt (inr r) = r

  -- A process that starts.
  pub starts-Invariant :
      (w : World J din_maps filename) (p : ℕ) (seen files : Files) (m : IdMap J)
      → Invariant J din_maps filename w
      → w.procs p ≡ none
      → HasRoom J din_maps filename w.files
      → create J din_maps filename seen w.files ≡ some (files, m)
      → Invariant J din_maps filename
          (record { files = files; procs = update w.procs p (some m); issued = w.issued })
  unfolding create read_map
  starts-Invariant w p seen files m i e room made =
      let none_held =
        Linked-none J din_maps filename back i.size i.next_id (i.holder p) (
          subst (λ o. Linked J din_maps filename i.size i.next_id o (i.holder p)) e (i.linked p)) in
      let fits = room_of w.files i.n i.size i.cells i.holds room in
      let (pool, chk, er, res) =
        reserve_chunk-new (pool_of J din_maps filename w.files) i.n i.size i.cells i.holds fits in
      let path = map_path J din_maps filename in
      let m0 : IdMap J = record {
        id_map = read_map_from_json J [] (seen path);
        new_id_map = [];
        curchunk = no_chunk;
        fname = path;
        fchunkspool = pool_path J din_maps filename;
      } in
      let made' = sym made ∙ reserve_new_chunk-eq w.files m0 pool chk refl er in
      let files_eq : files ≡ write_map_to_json J pool (pool_path J din_maps filename) w.files =
        cc in
      let m_eq : m ≡ record m0 { curchunk = chk } = cc in
      let r =
        with_defaults-Represents (pool_of J din_maps filename w.files) i.n i.size i.cells i.holds in
      rw (files_eq, m_eq)
        (Reserved-Invariant i.n i.size i.cells i.next_id i.holder w.issued w.procs w.files p
          (record m0 { curchunk = chk }) pool i.owned none_held r.size_pos (λ q d. i.linked q) res
          (reserve_chunk-IsOrdered (pool_of J din_maps filename w.files) no_chunk pool chk
            (read_map_from_json-IsOrdered J (w.files (pool_path J din_maps filename))) er)
          refl refl).0

  -- A process whose chunk is used up is given another.
  pub refill-Invariant :
      (w : World J din_maps filename) (p : ℕ) (files : Files) (m m' : IdMap J)
      → Invariant J din_maps filename w
      → w.procs p ≡ some m
      → HasRoom J din_maps filename w.files
      → reserve_new_chunk J w.files m ≡ some (files, m')
      → Invariant J din_maps filename
          (record { files = files; procs = update w.procs p (some m'); issued = w.issued })
        × HasId J din_maps filename back m'
  refill-Invariant w p files m m' i e room made =
      let (k, h, c, f, l) =
        Linked-some J din_maps filename back i.size i.next_id m (i.holder p) (
          subst (λ o. Linked J din_maps filename i.size i.next_id o (i.holder p)) e (i.linked p)) in
      let (lt, in_use) = i.owned.used p k h in
      let r =
        held-Represents (pool_of J din_maps filename w.files) i.n i.size k i.cells lt i.holds in
      let fits = room_of w.files i.n i.size i.cells i.holds room in
      let pool0 = pool_of J din_maps filename w.files in
      let (pool, chk, er, res) =
        reserve_chunk-held pool0 i.n i.size i.cells k (i.next_id k) r fits in
      let er' : reserve_chunk pool0 m.curchunk ≡ some (pool, chk) =
        ap (reserve_chunk pool0) c ∙ er in
      let made' = sym made ∙ reserve_new_chunk-eq w.files m pool chk l er' in
      let files_eq : files ≡ write_map_to_json J pool (pool_path J din_maps filename) w.files =
        cc in
      let m_eq : m' ≡ record m { curchunk = chk } = cc in
      let closed =
        Owned-close i.n i.size i.cells i.next_id i.holder w.issued i.owned p k r.size_pos h in
      rw (files_eq, m_eq)
        (Reserved-Invariant i.n i.size (set_cell i.cells k (closed_cell i.size k (i.next_id k)))
          i.next_id (update i.holder p none) w.issued w.procs w.files p
          (record m { curchunk = chk }) pool closed (ground arith) r.size_pos
          (λ q d.
            subst (λ o. Linked J din_maps filename i.size i.next_id (w.procs q) o) (ground arith)
              (i.linked q))
          res
          (reserve_chunk-IsOrdered pool0 m.curchunk pool chk
            (read_map_from_json-IsOrdered J (w.files (pool_path J din_maps filename))) er')
          f l)
