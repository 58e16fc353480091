-- ===== src/IdMap/Stable.antt =====
-- `getId` asked again.
use dinamite.Shared.{
  ◌≡◌, refl, sym, ap, ◌∙◌, arith, Bytes, same, same_iff, ℤ, Option, none, some, if◌then◌else◌,
  lookup, lookup-assign, Option-cases, lt_ℤ, Bool-cases, same_refl, inl, inr, ◌⊎◌,
}
use dinamite.Json.{Json11}
use dinamite.Environment.{Files}
use dinamite.IdMap.{IdMap, reserve_new_chunk, take_id, assign_new_id, get_id}

module _ (J : Json11) where
  -- The id that a process answers for a name without assigning one.
  unfoldable pub known_id : IdMap J → Bytes → Option ℤ
  known_id m src = elim (lookup src m.id_map) [ some id ↦ some id | none ↦ lookup src m.new_id_map ]

  take_id-known :
      (m : IdMap J) (src name : Bytes)
      → lookup src m.id_map ≡ none
      → known_id (take_id J src m).0 name
        ≡ (if same src name then some m.curchunk.start else known_id m name)
  unfolding known_id take_id
  take_id-known m src name h =
      ground (arith, same_iff src name, lookup-assign src name m.curchunk.start m.new_id_map)

  reserve_new_chunk-maps :
      (files files' : Files) (m m' : IdMap J)
      → reserve_new_chunk J files m ≡ some (files', m')
      → (m'.id_map ≡ m.id_map) × (m'.new_id_map ≡ m.new_id_map)
  unfolding reserve_new_chunk
  reserve_new_chunk-maps files files' m m' h = ground arith

  get_id-known :
      (src : Bytes) (files : Files) (m : IdMap J) (id : ℤ)
      → known_id m src ≡ some id
      → get_id J src files m ≡ some (files, m, id)
  unfolding get_id known_id
  get_id-known src files m id h = ground arith

  known_id-maps :
      (m m' : IdMap J) (name : Bytes)
      → m'.id_map ≡ m.id_map
      → m'.new_id_map ≡ m.new_id_map
      → known_id m' name ≡ known_id m name
  unfolding known_id
  known_id-maps m m' name e n = rw e (rw n refl)

  known_id-none :
      (m : IdMap J) (name : Bytes) → known_id m name ≡ none → lookup name m.id_map ≡ none
  unfolding known_id
  known_id-none m name h = ground arith

  assign_new_id-takes :
      (src : Bytes) (files files' : Files) (m m' : IdMap J) (id : ℤ)
      → assign_new_id J src files m ≡ some (files', m', id)
      → (m1 : IdMap J) × (m1.id_map ≡ m.id_map)
        × (m1.new_id_map ≡ m.new_id_map)
        × ((take_id J src m1).0 ≡ m')
        × (m1.curchunk.start ≡ id)
  unfolding assign_new_id take_id
  assign_new_id-takes src files files' m m' id h =
      elim (Bool-cases (lt_ℤ m.curchunk.stop m.curchunk.start)) [
        | inl e ↦ elim (Option-cases (reserve_new_chunk J files m)) [
          | inl r ↦ absurd (ground arith)
          | inr ((files1, m1), r) ↦
              let maps = reserve_new_chunk-maps files files1 m m1 r in
              (m1, maps.0, maps.1, ground arith, ground arith)
        ]
        | inr e ↦ (m, refl, refl, ground arith, ground arith)
      ]

  assign_new_id-known :
      (src name : Bytes) (files files' : Files) (m m' : IdMap J) (id : ℤ)
      → known_id m src ≡ none
      → assign_new_id J src files m ≡ some (files', m', id)
      → known_id m' name ≡ (if same src name then some id else known_id m name)
  unfolding assign_new_id
  assign_new_id-known src name files files' m m' id k h =
      let (m1, maps, new, taken, e) = assign_new_id-takes src files files' m m' id h in
      let known = take_id-known m1 src name (ap (lookup src) maps ∙ known_id-none m src k) in
      ap (λ x. known_id x name) (sym taken)
      ∙ (known ∙ rw e (rw (known_id-maps m m1 name maps new) refl))

  get_id-cases :
      (src : Bytes) (files files' : Files) (m m' : IdMap J) (id : ℤ)
      → get_id J src files m ≡ some (files', m', id)
      → (known_id m src ≡ some id) × (m ≡ m')
        ⊎ (known_id m src ≡ none) × (assign_new_id J src files m ≡ some (files', m', id))
  unfolding get_id known_id
  get_id-cases src files files' m m' id h = ground arith

  get_id-known_after :
      (src name : Bytes) (files files' : Files) (m m' : IdMap J) (id : ℤ)
      → get_id J src files m ≡ some (files', m', id)
      → known_id m' name ≡ (if same src name then some id else known_id m name)
  get_id-known_after src name files files' m m' id h =
      elim (get_id-cases src files files' m m' id h) [
        | inl (k, e) ↦ ap (λ x. known_id x name) (sym e) ∙ ground (arith, same_iff src name)
        | inr (k, a) ↦ assign_new_id-known src name files files' m m' id k a
      ]

  -- Where `getId` answers an id for a name, every later call for the name answers the same id and changes nothing, on whatever files; and so does every later call for a name that had an id before.
  pub get_id-keeps :
      (src : Bytes) (files files' : Files) (m m' : IdMap J) (id : ℤ)
      → get_id J src files m ≡ some (files', m', id)
      → ((later : Files) → get_id J src later m' ≡ some (later, m', id))
        × ((name : Bytes) (j : ℤ) (later : Files)
            → known_id m name ≡ some j
            → get_id J name later m' ≡ some (later, m', j))
  get_id-keeps src files files' m m' id h =
      let own : known_id m' src ≡ some id =
        get_id-known_after src src files files' m m' id h ∙ rw (same_refl src) refl in
      let kept : (name : Bytes) (j : ℤ) → known_id m name ≡ some j → known_id m' name ≡ some j =
        λ name j k. ground (
          arith,
          get_id-known_after src name files files' m m' id h,
          get_id-cases src files files' m m' id h,
          same_iff src name,
        ) in
      (
        λ later. get_id-known src later m' id own,
        λ name j later k. get_id-known name later m' j (kept name j k),
      )
