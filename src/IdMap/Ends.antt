-- ===== src/IdMap/Ends.antt =====
-- A process that ends or vanishes.
use dinamite.Shared.{ℕ, ◌≡◌, inr, subst, sym, ap, ◌∙◌, arith, Bytes, pos, [], Option, none, some}
use dinamite.Json.{Json11, ReadsBack}
use dinamite.IdMap.{
  put_chunk, IdMap, read_map_from_json, write_map_to_json, recycle_cur_chunk, close_chunk,
  closing_status,
}
use dinamite.IdMap.Chunks.{chunk_at}
use dinamite.IdMap.Pool.{cell, set_cell, last_id, held, put_chunk-Represents}
use dinamite.IdMap.Reserve.{closed_cell}
use dinamite.IdMap.Ownership.{update, Owned-close, Owned-crash}
use dinamite.IdMap.PoolOrder.{put_chunk-IsOrdered}
use dinamite.IdMap.World.{pool_path, pool_of, World, Linked, Invariant}
use dinamite.IdMap.Links.{read_map_from_json-IsOrdered}
use dinamite.IdMap.Links.{pool_of-write, Linked-some, Linked-update}
use dinamite.IdMap.Reservations.{held-Represents}

module _ (J : Json11) (din_maps : Option Bytes) (filename : Bytes) (back : ReadsBack J) where
  pub close_chunk-held :
      (size k a : ℕ)
      → close_chunk (held size k a)
        ≡ chunk_at k (pos (closed_cell size k a).state) (pos a) (pos (last_id size k))
  unfolding close_chunk closing_status
  close_chunk-held size k a = ground arith

  -- A process that ends gives its chunk back.
  pub ends-Invariant :
      (w : World J din_maps filename) (p : ℕ) (m : IdMap J)
      → Invariant J din_maps filename w
      → w.procs p ≡ some m
      → Invariant J din_maps filename (record {
        files = recycle_cur_chunk J w.files m;
        procs = update w.procs p none;
        issued = w.issued;
      })
  unfolding recycle_cur_chunk
  ends-Invariant w p m i e =
      let (k, h, c, f, l) =
        Linked-some J din_maps filename back i.size i.next_id m (i.holder p) (
          subst (λ o. Linked J din_maps filename i.size i.next_id o (i.holder p)) e (i.linked p)) in
      let (lt, in_use) = i.owned.used p k h in
      let pool0 = pool_of J din_maps filename w.files in
      let r = held-Represents J din_maps filename back pool0 i.n i.size k i.cells lt i.holds in
      let a = i.next_id k in
      let state = (closed_cell i.size k a).state in
      let pool = put_chunk pool0 (chunk_at k (pos state) (pos a) (pos (last_id i.size k))) in
      let ordered =
        put_chunk-IsOrdered pool0 (chunk_at k (pos state) (pos a) (pos (last_id i.size k)))
          (read_map_from_json-IsOrdered J (w.files (pool_path J din_maps filename))) in
      let written : recycle_cur_chunk J w.files m
          ≡ write_map_to_json J pool (pool_path J din_maps filename) w.files =
        ap
          (λ path.
            write_map_to_json J
              (put_chunk (read_map_from_json J [] (w.files path)) (close_chunk m.curchunk)) path
              w.files)
          l
        ∙ ap (λ d. write_map_to_json J (put_chunk pool0 d) (pool_path J din_maps filename) w.files)
            (ap close_chunk c ∙ close_chunk-held i.size k a) in
      subst
        (λ g.
          Invariant J din_maps filename
            (record { files = g; procs = update w.procs p none; issued = w.issued }))
        (sym written)
        (record {
          n = i.n;
          size = i.size;
          cells = set_cell i.cells k (cell state a);
          next_id = i.next_id;
          holder = update i.holder p none;
          holds = inr (
              rw (pool_of-write J din_maps filename back pool w.files ordered)
                (put_chunk-Represents pool0 i.n i.size i.cells r k state a));
          owned =
              Owned-close i.n i.size i.cells i.next_id i.holder w.issued i.owned p k r.size_pos h;
          linked =
              Linked-update J din_maps filename back i.size i.next_id w.procs i.holder p none none
                tt (λ q d. i.linked q);
        })

  -- A process that vanishes.
  pub crashes-Invariant :
      (w : World J din_maps filename) (p : ℕ)
      → Invariant J din_maps filename w
      → Invariant J din_maps filename
          (record { files = w.files; procs = update w.procs p none; issued = w.issued })
  crashes-Invariant w p i = record {
    n = i.n;
    size = i.size;
    cells = i.cells;
    next_id = i.next_id;
    holder = update i.holder p none;
    holds = i.holds;
    owned = Owned-crash i.n i.size i.cells i.next_id i.holder w.issued i.owned p;
    linked =
        Linked-update J din_maps filename back i.size i.next_id w.procs i.holder p none none tt
          (λ q d. i.linked q);
  }
