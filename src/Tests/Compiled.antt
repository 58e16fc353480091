-- ===== src/Tests/Compiled.antt =====
-- A run of the pass with what it loads, and of its saves.
use dinamite.Shared.{
  Bytes, ◌≡◌, arith, pos, strip_prefix, ℕ, refl, codes, true, false, [], ◌∷◌, none, Outcome, Option,
}
use dinamite.LogFunctions.{ValueType}
use dinamite.Pass.Started.{Surroundings, Module, AccessInstrumentationPass, Instrumented, run_pass}
use dinamite.IdMap.{IdMap, no_chunk}
use dinamite.Pass.Names.{named_struct, erase_prefix, end_type, get_gep_type}
use dinamite.Pass.Calls.{Maps, save_maps}
use dinamite.Pass.Calls.Saved.{AreApart, IsSaved, save_maps-IsSaved}
use dinamite.Tests.SampleJson.{sample}
use dinamite.Tests.Instrumented.{library, dwarf, debug_nodes, no_names, units, undecorated}
use dinamite.Tests.Logged.{no_filter, writer}

abbrev surroundings : Surroundings
surroundings = record { din_filters = none; alloc_in = none; files = λ path. none }

abbrev unit : Module
unit = record {
  identifier = codes "a.c";
  functions = writer ∷ [];
  nodes = debug_nodes;
  compile_units = units;
  instructions = [];
}

-- Every value is an integer of 32 bits.
abbrev every_value : ℕ → ValueType
every_value v = record {
  is_floating_point = false;
  is_integer = true;
  is_pointer = false;
  scalar_size_in_bits = 32;
}

abbrev new_pass : AccessInstrumentationPass sample library undecorated dwarf every_value false
new_pass = record { adm = []; mdc = no_names; lfm = none; insfilt = no_filter }

abbrev result : Outcome (Option (Instrumented sample library undecorated dwarf every_value false))
result = run_pass sample library undecorated dwarf every_value false surroundings unit new_pass

abbrev named : Bytes → IdMap sample
named name = record {
  id_map = (codes "x", pos 9) ∷ [];
  new_id_map = (codes "y", pos 10) ∷ [];
  curchunk = no_chunk;
  fname = name;
  fchunkspool = codes "pool";
}

abbrev four_maps : Maps sample
four_maps = record {
  files = λ path. none;
  srcmap = named (codes "map_sources.json");
  typemap = named (codes "map_types.json");
  varmap = named (codes "map_variables.json");
  fnmap = named (codes "map_functions.json");
}

four_maps-AreApart : AreApart sample four_maps
four_maps-AreApart = record {
  src_type = λ e. ground arith;
  src_var = λ e. ground arith;
  src_fn = λ e. ground arith;
  type_var = λ e. ground arith;
  type_fn = λ e. ground arith;
  var_fn = λ e. ground arith;
}

save_maps-IsSaved_example :
    IsSaved sample four_maps four_maps.srcmap
    × IsSaved sample four_maps four_maps.typemap
    × IsSaved sample four_maps four_maps.varmap
    × IsSaved sample four_maps four_maps.fnmap
    × ((save_maps sample four_maps).files (codes "a.c") ≡ none)
save_maps-IsSaved_example =
    save_maps-IsSaved sample four_maps (codes "a.c") four_maps-AreApart (λ e. ground arith)
      (λ e. ground arith) (λ e. ground arith) (λ e. ground arith)

-- `getGEPType` for a member of a structure in a class.
gep_type :
    get_gep_type (named_struct (codes "struct.point")) (named_struct (codes "class.shape") ∷ [])
    ≡ codes "shape.point"
unfolding get_gep_type end_type erase_prefix strip_prefix
gep_type = refl
