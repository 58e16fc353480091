-- ===== src/Pass/Calls/Saved.antt =====
-- access_instrument.cpp: the four saves at the end of `runOnModule`.
use dinamite.Shared.{
  ◌≡◌, ◌≢◌, refl, sym, ap, ◌∙◌, Bytes, some, if◌then◌else◌, insert_all, different,
}
use dinamite.Json.{Json11}
use dinamite.Environment.{Files, write_file-eq}
use dinamite.IdMap.{IdMap, save_map, read_map_from_json, write_map_to_json}
use dinamite.Pass.Calls.{Maps, save_maps}

module _ (J : Json11) where
  -- A save writes no other file, and reads none.
  save_map-other :
      (files : Files) (m : IdMap J) (name : Bytes)
      → m.fname ≢ name
      → (save_map J files m).0 name ≡ files name
  unfolding save_map write_map_to_json
  save_map-other files m name ne =
      ap
        (λ b.
          if b
          then some (
              J.dump (
                J.of_map (insert_all (read_map_from_json J m.id_map (files m.fname)) m.new_id_map)))
          else files name)
        (different m.fname name ne)

  save_map-own :
      (files other : Files) (m : IdMap J)
      → files m.fname ≡ other m.fname
      → (save_map J files m).0 m.fname ≡ (save_map J other m).0 m.fname
  unfolding save_map write_map_to_json
  save_map-own files other m e =
      write_file-eq files _ refl
      ∙ ap
          (λ text.
            some (J.dump (J.of_map (insert_all (read_map_from_json J m.id_map text) m.new_id_map))))
          e
      ∙ sym (write_file-eq other _ refl)

  -- The four maps have different files, as the names in the constructor of the pass give them.
  pub record AreApart (maps : Maps J) : Type 0 where
    pub src_type : maps.srcmap.fname ≢ maps.typemap.fname
    pub src_var : maps.srcmap.fname ≢ maps.varmap.fname
    pub src_fn : maps.srcmap.fname ≢ maps.fnmap.fname
    pub type_var : maps.typemap.fname ≢ maps.varmap.fname
    pub type_fn : maps.typemap.fname ≢ maps.fnmap.fname
    pub var_fn : maps.varmap.fname ≢ maps.fnmap.fname

  -- The file of a map is what its save alone makes of it.
  abbrev pub IsSaved : Maps J → IdMap J → Type 0
  IsSaved maps m = (save_maps J maps).files m.fname ≡ (save_map J maps.files m).0 m.fname

  -- With different files, the four saves at the end of `runOnModule`, one after another, leave in the file of each map what the save of that map alone would leave in it, and change no other file.
  pub save_maps-IsSaved :
      (maps : Maps J) (other : Bytes)
      → AreApart maps
      → maps.srcmap.fname ≢ other
      → maps.typemap.fname ≢ other
      → maps.varmap.fname ≢ other
      → maps.fnmap.fname ≢ other
      → IsSaved maps maps.srcmap
        × IsSaved maps maps.typemap
        × IsSaved maps maps.varmap
        × IsSaved maps maps.fnmap
        × ((save_maps J maps).files other ≡ maps.files other)
  unfolding save_maps
  save_maps-IsSaved maps other apart ns nt nv nf = (
    save_map-other files3 fnmap srcmap.fname (λ e. apart.src_fn (sym e))
        ∙ save_map-other files2 varmap srcmap.fname (λ e. apart.src_var (sym e))
        ∙ save_map-other files1 typemap srcmap.fname (λ e. apart.src_type (sym e)),
    save_map-other files3 fnmap typemap.fname (λ e. apart.type_fn (sym e))
        ∙ save_map-other files2 varmap typemap.fname (λ e. apart.type_var (sym e))
        ∙ save_map-own files1 files typemap
            (save_map-other files srcmap typemap.fname apart.src_type),
    save_map-other files3 fnmap varmap.fname (λ e. apart.var_fn (sym e))
        ∙ save_map-own files2 files varmap (
            save_map-other files1 typemap varmap.fname apart.type_var
            ∙ save_map-other files srcmap varmap.fname apart.src_var),
    save_map-own files3 files fnmap (
        save_map-other files2 varmap fnmap.fname apart.var_fn
        ∙ save_map-other files1 typemap fnmap.fname apart.type_fn
        ∙ save_map-other files srcmap fnmap.fname apart.src_fn),
    save_map-other files3 fnmap other nf
        ∙ save_map-other files2 varmap other nv
        ∙ save_map-other files1 typemap other nt
        ∙ save_map-other files srcmap other ns,
  )
    where
      open maps use {files, srcmap, typemap, varmap, fnmap}

      files1 : Files
      files1 = (save_map J files srcmap).0

      files2 : Files
      files2 = (save_map J files1 typemap).0

      files3 : Files
      files3 = (save_map J files2 varmap).0
