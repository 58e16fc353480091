-- ===== src/Pass/Calls.antt =====
-- access_instrument.cpp: the ids and places that the inserted calls pass (getSourceLoc, instrumentAccess,
-- instrumentAlloc, instrumentFnEvent, instrumentExit). The names of the type and of the variable, and
-- whether there is a log function for the value, are given; casts are left out.
pub mod Repeated
pub mod Saved
use dinamite.Shared.{
  ℕ, Bytes, codes, ℤ, pos, negsuc, eq_ℤ, wrap32, Bool, true, false, ◌++◌, Option, none, some,
  if◌then◌else◌,
}
use dinamite.Json.{Json11}
use dinamite.Environment.{Files}
use dinamite.IdMap.{IdMap, get_id, save_map}
use dinamite.AllocDefs.{AllocDefinition}
use dinamite.Pass.{EventFunction, event_function, exit_log_func}

-- What the "dbg" metadata of an instruction says.
pub record DebugLocation : Type 0 where
  pub line : ℕ
  pub column : ℕ
  pub filename : Bytes
  pub directory : Bytes

-- `SourceLoc`
pub record SourceLoc : Type 0 where
  pub file_id : ℤ
  pub line : ℤ
  pub col : ℤ

-- The arguments of a call of a log function for an access: `kind` is the access type.
pub record AccessCall : Type 0 where
  pub kind : ℕ
  pub place : SourceLoc
  pub type_id : ℤ
  pub var_id : ℤ

-- The arguments of a call of `logAlloc`: the operand with the size, and that with the number, for which
-- the constant 1 stands where there is none.
pub record AllocCall : Type 0 where
  pub size_arg : ℤ
  pub num_arg : Option ℤ
  pub type_id : ℤ
  pub place : SourceLoc

abbrev pub place_of : ℤ → Option DebugLocation → SourceLoc
place_of file_id none = record { file_id = file_id; line = negsuc 0; col = negsuc 0 }
place_of file_id (some loc) = record {
  file_id = file_id;
  line = wrap32 (pos loc.line);
  col = wrap32 (pos loc.column);
}

module _ (J : Json11) where
  -- The files, and the four maps of the pass.
  pub record Maps : Type 0 where
    pub files : Files
    pub srcmap : IdMap J
    pub typemap : IdMap J
    pub varmap : IdMap J
    pub fnmap : IdMap J

  -- `getSourceLoc`; without metadata every member is -1.
  unfoldable pub get_source_loc : Option DebugLocation → Maps → Option (Maps × SourceLoc)
  get_source_loc none maps = some (maps, place_of (negsuc 0) none)
  get_source_loc (some loc) maps =
      elim (get_id J (loc.directory ++ (codes "/" ++ loc.filename)) maps.files maps.srcmap) [
        | none ↦ none
        | some (files, srcmap, id) ↦
            some (record maps { files = files; srcmap = srcmap }, place_of id (some loc))
      ]

  unfoldable pub type_id : Bytes → Maps → Option (Maps × ℤ)
  type_id name maps = elim (get_id J name maps.files maps.typemap) [
    | none ↦ none
    | some (files, typemap, id) ↦ some (record maps { files = files; typemap = typemap }, id)
  ]

  unfoldable pub var_id : Bytes → Maps → Option (Maps × ℤ)
  var_id name maps = elim (get_id J name maps.files maps.varmap) [
    | none ↦ none
    | some (files, varmap, id) ↦ some (record maps { files = files; varmap = varmap }, id)
  ]

  -- `instrumentAccess` where `getLogFunction` returns, a function or the null pointer: the place is looked
  -- up first, whether or not there is a log function.
  unfoldable pub instrument_access :
      ℕ → Option DebugLocation → Bool → Bytes → Bytes → Maps → Option (Maps × Option AccessCall)
  instrument_access kind loc has_function full_type var_name maps = elim (get_source_loc loc maps) [
    | none ↦ none
    | some (maps1, place) ↦
        if has_function
        then (elim (type_id full_type maps1) [
          | none ↦ none
          | some (maps2, tid) ↦ elim (var_id var_name maps2) [
            | none ↦ none
            | some (maps3, varid) ↦
                some (
                  maps3,
                  some (record { kind = kind; place = place; type_id = tid; var_id = varid }),
                )
          ]
        ])
        else some (maps1, none)
  ]

  -- `instrumentAlloc` for a definition that was found: the type is looked up before the place.
  -- `cast_type` is the type of a cast that follows the call.
  unfoldable pub instrument_alloc :
      AllocDefinition → Option Bytes → Option DebugLocation → Maps → Option (Maps × AllocCall)
  instrument_alloc adef cast_type loc maps =
      elim (type_id (elim cast_type [ none ↦ codes "void" | some t ↦ t ]) maps) [
        | none ↦ none
        | some (maps1, tid) ↦ elim (get_source_loc loc maps1) [
          | none ↦ none
          | some (maps2, place) ↦ some (
            maps2,
            record {
              size_arg = adef.size_idx;
              num_arg = if eq_ℤ adef.num_idx (negsuc 0) then none else some adef.num_idx;
              type_id = tid;
              place = place;
            },
          )
        ]
      ]

  -- `instrumentFnEvent`: the function that is called, and the id that it is passed.
  unfoldable pub instrument_fn_event :
      (Bytes → Bytes) → Bytes → Bool → Maps → Option (Maps × EventFunction × ℤ)
  instrument_fn_event demangle name begin maps =
      elim (get_id J (demangle name) maps.files maps.fnmap) [
        | none ↦ none
        | some (files, fnmap, id) ↦
            some (record maps { files = files; fnmap = fnmap }, event_function name begin, id)
      ]

  -- `instrumentExit` for a call of `exit`.
  unfoldable pub instrument_exit : EventFunction × ℤ
  instrument_exit = (exit_log_func, negsuc 0)

  -- The four saves at the end of `runOnModule`.
  unfoldable pub save_maps : Maps → Maps
  save_maps maps =
      let (files1, srcmap) = save_map J maps.files maps.srcmap in
      let (files2, typemap) = save_map J files1 maps.typemap in
      let (files3, varmap) = save_map J files2 maps.varmap in
      let (files4, fnmap) = save_map J files3 maps.fnmap in
      record { files = files4; srcmap = srcmap; typemap = typemap; varmap = varmap; fnmap = fnmap }
