-- ===== src/IdMap/Issues.antt =====
-- A process that asks for an id, and one that only reads or saves.
use mathlib.Core.Path.{fun_ext}
use dinamite.Shared.{
  ℕ, suc, ◌+◌, ◌*◌, ◌<◌, ◌^◌, ◌≡◌, ◌⊎◌, inl, inr, refl, subst, sym, ap, ◌∙◌, arith, Bytes, codes,
  same, ℤ, lt_ℤ, true, false, ◌∷◌, Option, some, ◌==◌, ==_iff, contains, Bool-cases, Option-cases,
}
use dinamite.Json.{Json11, ReadsBack}
use dinamite.Environment.{Files}
use dinamite.IdMap.{
  Chunk, IdMap, write_map_to_json, save_map, reserve_new_chunk, take_id, assign_new_id, get_id,
}
use dinamite.IdMap.Pool.{held}
use dinamite.IdMap.Ownership.{update, Owned, Owned-take}
use dinamite.IdMap.World.{map_path, pool_path, pool_of, World, HasRoom, is_new, Linked, Invariant}
use dinamite.IdMap.Links.{same_suffix, chunk_fits, update_self, taken_chunk}
use dinamite.IdMap.Links.{Linked-some, Linked-change, HasId}
use dinamite.IdMap.Reservations.{held-Represents, refill-Invariant}

module _ (J : Json11) (din_maps : Option Bytes) (filename : Bytes) (back : ReadsBack J) where
  -- A process that changes nothing but its maps.
  pub same_chunk-Invariant :
      (w : World J din_maps filename) (p : ℕ) (files : Files) (m m' : IdMap J)
      → Invariant J din_maps filename w
      → w.procs p ≡ some m
      → m'.curchunk ≡ m.curchunk
      → m'.fname ≡ m.fname
      → m'.fchunkspool ≡ m.fchunkspool
      → files (pool_path J din_maps filename) ≡ w.files (pool_path J din_maps filename)
      → Invariant J din_maps filename
          (record { files = files; procs = update w.procs p (some m'); issued = w.issued })
  same_chunk-Invariant w p files m m' i e same_chunk same_fname same_pool same_file = record {
    n = i.n;
    size = i.size;
    cells = i.cells;
    next_id = i.next_id;
    holder = i.holder;
    holds = rw same_file i.holds;
    owned = i.owned;
    linked = λ q. elim (Bool-cases (p == q)) [
      | inl here_ ↦
          let (k, h, c, f, l) =
            Linked-some J din_maps filename back i.size i.next_id m (i.holder p) (
              subst (λ o. Linked J din_maps filename i.size i.next_id o (i.holder p)) e
                (i.linked p)) in
          let hq : i.holder q ≡ some k =
            subst (λ r. i.holder r ≡ some k) ((==_iff p q).0 here_) h in
          rw (here_, hq) (same_chunk ∙ c, same_fname ∙ f, same_pool ∙ l)
      | inr other ↦ rw other (i.linked q)
    ];
  }

  -- A process that gives the next id of its chunk to a name.
  pub take_id-Invariant :
      (w : World J din_maps filename) (p : ℕ) (m : IdMap J) (src : Bytes)
      → Invariant J din_maps filename w
      → w.procs p ≡ some m
      → HasId J din_maps filename back m
      → Invariant J din_maps filename (record {
        files = w.files;
        procs = update w.procs p (some (take_id J src m).0);
        issued = (take_id J src m).1 ∷ w.issued;
      })
  unfolding take_id
  take_id-Invariant w p m src i e has =
      let (k, h, c, f, l) =
        Linked-some J din_maps filename back i.size i.next_id m (i.holder p) (
          subst (λ o. Linked J din_maps filename i.size i.next_id o (i.holder p)) e (i.linked p)) in
      let (lt, in_use) = i.owned.used p k h in
      let r =
        held-Represents J din_maps filename back (pool_of J din_maps filename w.files) i.n i.size k
          i.cells lt i.holds in
      let size_pos = r.size_pos in
      let has' : lt_ℤ (held i.size k (i.next_id k)).stop (held i.size k (i.next_id k)).start
          ≡ false =
        subst (λ d. lt_ℤ d.stop d.start ≡ false) c has in
      let left : i.next_id k < k * i.size + i.size = ground arith in
      let fits = r.fits in
      let small : suc (i.next_id k) < 2 ^ 31 = chunk_fits k i.n i.size (i.next_id k) lt left fits in
      let mine =
        taken_chunk m.curchunk i.size k (i.next_id k) c small
        ∙ ap (held i.size k) (sym (update_self i.next_id k (suc (i.next_id k)))) in
      let nx' = update i.next_id k (suc (i.next_id k)) in
      record {
        n = i.n;
        size = i.size;
        cells = i.cells;
        next_id = nx';
        holder = i.holder;
        holds = i.holds;
        owned =
            subst (λ x. Owned i.n i.size i.cells nx' i.holder (x ∷ w.issued))
              (sym (ap (λ (d : Chunk). d.start) c))
              (Owned-take i.n i.size i.cells i.next_id i.holder w.issued i.owned p k h left);
        linked = λ q. elim (Bool-cases (p == q)) [
          | inl here_ ↦
              let hq : i.holder q ≡ some k =
                subst (λ r. i.holder r ≡ some k) ((==_iff p q).0 here_) h in
              rw (here_, hq) (mine, f, l)
          | inr other ↦ rw other (
              Linked-change J din_maps filename back i.size i.next_id nx' (w.procs q) (i.holder q)
                (λ j hj. ground (arith, hj, i.owned.distinct p q k h)) (i.linked q))
        ];
      }

  -- The three ways of `getId`.
  pub get_id-cases :
      (src : Bytes) (files files' : Files) (m m' : IdMap J) (id : ℤ)
      → get_id J src files m ≡ some (files', m', id)
      → (is_new J din_maps filename src m ≡ false) × (files' ≡ files) × (m' ≡ m)
        ⊎ (is_new J din_maps filename src m ≡ true)
          × (assign_new_id J src files m ≡ some (files', m', id))
  unfolding get_id contains
  get_id-cases src files files' m m' id e = ground arith

  pub new_id-Invariant :
      (w : World J din_maps filename) (p : ℕ) (m : IdMap J) (src : Bytes) (files : Files)
      (m' : IdMap J) (id : ℤ)
      → Invariant J din_maps filename w
      → w.procs p ≡ some m
      → HasRoom J din_maps filename w.files
      → assign_new_id J src w.files m ≡ some (files, m', id)
      → Invariant J din_maps filename
          (record { files = files; procs = update w.procs p (some m'); issued = id ∷ w.issued })
  unfolding assign_new_id
  new_id-Invariant w p m src files m' id i e room made =
      elim (Bool-cases (lt_ℤ m.curchunk.stop m.curchunk.start)) [
        | inr has ↦
            let files_eq : files ≡ w.files = ground arith in
            let m_eq : m' ≡ (take_id J src m).0 = ground arith in
            let id_eq : id ≡ (take_id J src m).1 = ground arith in
            rw (files_eq, m_eq, id_eq) (take_id-Invariant w p m src i e has)
        | inl used_up ↦ elim (Option-cases (reserve_new_chunk J w.files m)) [
          | inl failed ↦ absurd (ground arith)
          | inr ((files1, m1), made1) ↦
              let files_eq : files ≡ files1 = ground arith in
              let m_eq : m' ≡ (take_id J src m1).0 = ground arith in
              let id_eq : id ≡ (take_id J src m1).1 = ground arith in
              let (i1, has) =
                refill-Invariant J din_maps filename back w p files1 m m1 i e room made1 in
              let w1 : World J din_maps filename = record {
                files = files1;
                procs = update w.procs p (some m1);
                issued = w.issued;
              } in
              let procs_eq : update w.procs p (some (take_id J src m1).0)
                  ≡ update (update w.procs p (some m1)) p (some (take_id J src m1).0) =
                fun_ext (λ q. ground arith) in
              rw (files_eq, m_eq, id_eq, procs_eq)
                (take_id-Invariant w1 p m1 src i1 (ground arith) has)
        ]
      ]

  -- Saving the map leaves the pool file alone.
  pub saves-Invariant :
      (w : World J din_maps filename) (p : ℕ) (m : IdMap J)
      → Invariant J din_maps filename w
      → w.procs p ≡ some m
      → Invariant J din_maps filename (record {
        files = (save_map J w.files m).0;
        procs = update w.procs p (some (save_map J w.files m).1);
        issued = w.issued;
      })
  unfolding save_map write_map_to_json
  saves-Invariant w p m i e =
      let (k, h, c, f, l) =
        Linked-some J din_maps filename back i.size i.next_id m (i.holder p) (
          subst (λ o. Linked J din_maps filename i.size i.next_id o (i.holder p)) e (i.linked p)) in
      let apart : same m.fname (pool_path J din_maps filename) ≡ false =
        ap (λ path. same path (pool_path J din_maps filename)) f
        ∙ same_suffix (map_path J din_maps filename) (codes ".chunkspool.json") (omega arith) in
      same_chunk-Invariant w p (save_map J w.files m).0 m (save_map J w.files m).1 i e refl refl
        refl (rw apart refl)
