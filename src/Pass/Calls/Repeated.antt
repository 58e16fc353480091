-- ===== src/Pass/Calls/Repeated.antt =====
-- A place, a type and a variable that were logged before.
use dinamite.Shared.{
  ℕ, Bytes, codes, ℤ, ◌≡◌, ◌∙◌, refl, sym, ap, arith, true, ◌++◌, Option, none, some, Option-cases,
  inl, inr,
}
use dinamite.Json.{Json11}
use dinamite.Environment.{Files}
use dinamite.IdMap.{IdMap, get_id}
use dinamite.IdMap.Stable.{get_id-keeps}
use dinamite.Pass.Calls.{
  DebugLocation, SourceLoc, AccessCall, place_of, Maps, get_source_loc, type_id, var_id,
  instrument_access,
}

module _ (J : Json11) where
  -- A name that was answered is answered the same, on the files and by the map of a later state.
  get_id-later :
      (name : Bytes) (files files' later : Files) (m m' n : IdMap J) (id : ℤ)
      → get_id J name files m ≡ some (files', m', id)
      → n ≡ m'
      → get_id J name later n ≡ some (later, n, id)
  get_id-later name files files' later m m' n id h e =
      ap (get_id J name later) e
      ∙ (get_id-keeps J name files files' m m' id h).0 later
      ∙ ap (λ k. some (later, k, id)) (sym e)

  get_source_loc-again :
      (loc : Option DebugLocation) (maps maps' : Maps J) (place : SourceLoc) (later : Maps J)
      → get_source_loc J loc maps ≡ some (maps', place)
      → later.srcmap ≡ maps'.srcmap
      → get_source_loc J loc later ≡ some (later, place)
  unfolding get_source_loc
  get_source_loc-again none maps maps' place later h e = ground arith
  get_source_loc-again (some loc) maps maps' place later h e =
      let name = loc.directory ++ (codes "/" ++ loc.filename) in
      elim (Option-cases (get_id J name maps.files maps.srcmap)) [
        | inl q ↦ absurd (ground arith)
        | inr ((files, srcmap, id), q) ↦
            let s : maps'.srcmap ≡ srcmap = ground arith in
            let placed : place_of id (some loc) ≡ place = ground arith in
            ap
              (λ o. elim o [
                | none ↦ none
                | some (f, m, i) ↦
                    some (record later { files = f; srcmap = m }, place_of i (some loc))
              ])
              (get_id-later name maps.files files later.files maps.srcmap srcmap later.srcmap id q
                (e ∙ s))
            ∙ ap (λ p. some (later, p)) placed
      ]

  type_id-again :
      (name : Bytes) (maps maps' : Maps J) (id : ℤ) (later : Maps J)
      → type_id J name maps ≡ some (maps', id)
      → later.typemap ≡ maps'.typemap
      → type_id J name later ≡ some (later, id)
  unfolding type_id
  type_id-again name maps maps' id later h e =
      elim (Option-cases (get_id J name maps.files maps.typemap)) [
        | inl q ↦ absurd (ground arith)
        | inr ((files, typemap, i), q) ↦
            let s : maps'.typemap ≡ typemap = ground arith in
            let same_id : i ≡ id = ground arith in
            ap
              (λ o. elim o [
                | none ↦ none
                | some (f, m, j) ↦ some (record later { files = f; typemap = m }, j)
              ])
              (get_id-later name maps.files files later.files maps.typemap typemap later.typemap i q
                (e ∙ s))
            ∙ ap (λ j. some (later, j)) same_id
      ]

  var_id-again :
      (name : Bytes) (maps maps' : Maps J) (id : ℤ) (later : Maps J)
      → var_id J name maps ≡ some (maps', id)
      → later.varmap ≡ maps'.varmap
      → var_id J name later ≡ some (later, id)
  unfolding var_id
  var_id-again name maps maps' id later h e =
      elim (Option-cases (get_id J name maps.files maps.varmap)) [
        | inl q ↦ absurd (ground arith)
        | inr ((files, varmap, i), q) ↦
            let s : maps'.varmap ≡ varmap = ground arith in
            let same_id : i ≡ id = ground arith in
            ap
              (λ o. elim o [
                | none ↦ none
                | some (f, m, j) ↦ some (record later { files = f; varmap = m }, j)
              ])
              (get_id-later name maps.files files later.files maps.varmap varmap later.varmap i q
                (e ∙ s))
            ∙ ap (λ j. some (later, j)) same_id
      ]

  -- Each of the three leaves the other maps alone.
  type_id-others :
      (name : Bytes) (maps maps' : Maps J) (id : ℤ)
      → type_id J name maps ≡ some (maps', id)
      → maps'.srcmap ≡ maps.srcmap
  unfolding type_id
  type_id-others name maps maps' id h = ground arith

  var_id-others :
      (name : Bytes) (maps maps' : Maps J) (id : ℤ)
      → var_id J name maps ≡ some (maps', id)
      → (maps'.srcmap ≡ maps.srcmap) × (maps'.typemap ≡ maps.typemap)
  unfolding var_id
  var_id-others name maps maps' id h = ground arith

  access-eq :
      (kind : ℕ) (loc : Option DebugLocation) (full_type var_name : Bytes) (later : Maps J)
      (place : SourceLoc) (tid varid : ℤ)
      → get_source_loc J loc later ≡ some (later, place)
      → type_id J full_type later ≡ some (later, tid)
      → var_id J var_name later ≡ some (later, varid)
      → instrument_access J kind loc true full_type var_name later
        ≡ some (later, some (record { kind = kind; place = place; type_id = tid; var_id = varid }))
  unfolding instrument_access
  access-eq kind loc full_type var_name later place tid varid p t v =
      rw (p, instrument_access) (rw t (rw v refl))

  -- The parts of an access that was logged.
  access-parts :
      (kind : ℕ) (loc : Option DebugLocation) (full_type var_name : Bytes) (maps maps' : Maps J)
      (call : AccessCall)
      → instrument_access J kind loc true full_type var_name maps ≡ some (maps', some call)
      → (maps1 maps2 : Maps J) × (get_source_loc J loc maps ≡ some (maps1, call.place))
        × (type_id J full_type maps1 ≡ some (maps2, call.type_id))
        × (var_id J var_name maps2 ≡ some (maps', call.var_id))
  unfolding instrument_access
  access-parts kind loc full_type var_name maps maps' call h =
      elim (Option-cases (get_source_loc J loc maps)) [
        | inl q ↦ absurd (ground arith)
        | inr ((maps1, place), q) ↦ elim (Option-cases (type_id J full_type maps1)) [
          | inl q1 ↦ absurd (ground arith)
          | inr ((maps2, tid), q1) ↦ elim (Option-cases (var_id J var_name maps2)) [
            | inl q2 ↦ absurd (ground arith)
            | inr ((maps3, varid), q2) ↦ (maps1, maps2, ground arith, ground arith, ground arith)
          ]
        ]
      ]

  -- An access that is logged again, on whatever files the other compilations left, as any kind: the call passes the same place, type and variable, and no map changes.
  pub instrument_access-again :
      (kind again : ℕ) (loc : Option DebugLocation) (full_type var_name : Bytes)
      (maps maps' : Maps J) (call : AccessCall) (files : Files)
      → instrument_access J kind loc true full_type var_name maps ≡ some (maps', some call)
      → instrument_access J again loc true full_type var_name (record maps' { files = files })
        ≡ some (record maps' { files = files }, some (record call { kind = again }))
  instrument_access-again kind again loc full_type var_name maps maps' call files h =
      let (maps1, maps2, p, t, v) = access-parts kind loc full_type var_name maps maps' call h in
      let later = record maps' { files = files } in
      let others = var_id-others var_name maps2 maps' call.var_id v in
      access-eq again loc full_type var_name later call.place call.type_id call.var_id
        (get_source_loc-again loc maps maps1 call.place later p
          (others.0 ∙ type_id-others full_type maps1 maps2 call.type_id t))
        (type_id-again full_type maps1 maps2 call.type_id later t others.1)
        (var_id-again var_name maps2 maps' call.var_id later v refl)
