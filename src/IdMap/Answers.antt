-- ===== src/IdMap/Answers.antt =====
-- Whether a compilation starts, and whether it is answered.
use dinamite.Shared.{
  ℕ, ◌≡◌, refl, subst, ap, ◌∙◌, arith, Bytes, ℤ, [], Option, some, Option-cases, Bool-cases, inl,
  inr, lookup, lt_ℤ,
}
use dinamite.Json.{Json11, ReadsBack}
use dinamite.Environment.{Files}
use dinamite.IdMap.{
  IdMap, no_chunk, read_map_from_json, read_map, reserve_chunk, reserve_new_chunk, create, take_id,
  assign_new_id, get_id,
}
use dinamite.IdMap.Reserve.{reserve_chunk-new, reserve_chunk-held}
use dinamite.IdMap.World.{
  map_path, pool_path, pool_of, World, HasRoom, Reach, IsFresh, Linked, Invariant,
}
use dinamite.IdMap.Links.{Linked-some}
use dinamite.IdMap.Reservations.{reserve_new_chunk-eq, room_of, held-Represents}
use dinamite.IdMap.Unique.{fresh-Invariant, Reach-Invariant}

module _ (J : Json11) (din_maps : Option Bytes) (filename : Bytes) (back : ReadsBack J) where
  abbrev pub Answers : Bytes → Files → IdMap J → Type 0
  Answers src files m =
      (files' : Files) × (m' : IdMap J) × (id : ℤ) × (get_id J src files m ≡ some (files', m', id))

  create-some :
      (w : World J din_maps filename) (seen : Files)
      → Invariant J din_maps filename w
      → HasRoom J din_maps filename w.files
      → (files : Files) × (m : IdMap J) × (create J din_maps filename seen w.files
          ≡ some (files, m))
  unfolding create read_map
  create-some w seen i room =
      let fits = room_of J din_maps filename back w.files i.n i.size i.cells i.holds room in
      let (pool, chk, er, res) =
        reserve_chunk-new (pool_of J din_maps filename w.files) i.n i.size i.cells i.holds fits in
      let path = map_path J din_maps filename in
      let m0 : IdMap J = record {
        id_map = read_map_from_json J [] (seen path);
        new_id_map = [];
        curchunk = no_chunk;
        fname = path;
        fchunkspool = pool_path J din_maps filename;
      } in
      (_, _, reserve_new_chunk-eq J din_maps filename back w.files m0 pool chk refl er)

  reserve_new_chunk-some :
      (w : World J din_maps filename) (p : ℕ) (m : IdMap J)
      → Invariant J din_maps filename w
      → HasRoom J din_maps filename w.files
      → w.procs p ≡ some m
      → (files : Files) × (m' : IdMap J) × (reserve_new_chunk J w.files m ≡ some (files, m'))
  reserve_new_chunk-some w p m i room e =
      let (k, h, c, f, l) =
        Linked-some J din_maps filename back i.size i.next_id m (i.holder p) (
          subst (λ o. Linked J din_maps filename i.size i.next_id o (i.holder p)) e (i.linked p)) in
      let (lt, in_use) = i.owned.used p k h in
      let pool0 = pool_of J din_maps filename w.files in
      let r = held-Represents J din_maps filename back pool0 i.n i.size k i.cells lt i.holds in
      let fits = room_of J din_maps filename back w.files i.n i.size i.cells i.holds room in
      let (pool, chk, er, res) =
        reserve_chunk-held pool0 i.n i.size i.cells k (i.next_id k) r fits in
      (
        _,
        _,
        reserve_new_chunk-eq J din_maps filename back w.files m pool chk l
            (ap (reserve_chunk pool0) c ∙ er),
      )

  assign_new_id-some :
      (w : World J din_maps filename) (p : ℕ) (m : IdMap J) (src : Bytes)
      → Invariant J din_maps filename w
      → HasRoom J din_maps filename w.files
      → w.procs p ≡ some m
      → (files' : Files) × (m' : IdMap J) × (id : ℤ) × (assign_new_id J src w.files m
          ≡ some (files', m', id))
  unfolding assign_new_id
  assign_new_id-some w p m src i room e =
      elim (Bool-cases (lt_ℤ m.curchunk.stop m.curchunk.start)) [
        | inl full ↦
            let (files, m1, made) = reserve_new_chunk-some w p m i room e in
            (files, (take_id J src m1).0, (take_id J src m1).1, ground arith)
        | inr left ↦ (w.files, (take_id J src m).0, (take_id J src m).1, ground arith)
      ]

  get_id-some :
      (w : World J din_maps filename) (p : ℕ) (m : IdMap J) (src : Bytes)
      → Invariant J din_maps filename w
      → HasRoom J din_maps filename w.files
      → w.procs p ≡ some m
      → Answers src w.files m
  unfolding get_id
  get_id-some w p m src i room e = elim (Option-cases (lookup src m.id_map)) [
    | inr (id, h) ↦ (w.files, m, id, ground arith)
    | inl h ↦ elim (Option-cases (lookup src m.new_id_map)) [
      | inr (id, h') ↦ (w.files, m, id, ground arith)
      | inl h' ↦
          let (files, m', id, made) = assign_new_id-some w p m src i room e in
          (files, m', id, ground arith)
    ]
  ]

  -- In every state that compilations reach from no pool file, where the ids of one more chunk fit an `int`, another compilation starts, whatever files it read its map from, and each running one is answered an id for every name, if what is dumped is read back: the search for a chunk ends.
  pub Reach-Answers :
      (w w' : World J din_maps filename) (seen : Files)
      → IsFresh J din_maps filename w
      → Reach J din_maps filename w w'
      → HasRoom J din_maps filename w'.files
      → ((files : Files) × (m : IdMap J) × (create J din_maps filename seen w'.files
            ≡ some (files, m)))
        × ((p : ℕ) (m : IdMap J) (src : Bytes) → w'.procs p ≡ some m → Answers src w'.files m)
  Reach-Answers w w' seen fresh r room =
      let i =
        Reach-Invariant J din_maps filename back w
          (fresh-Invariant J din_maps filename back w fresh) r in
      (create-some w' seen i room, λ p m src e. get_id-some w' p m src i room e)
