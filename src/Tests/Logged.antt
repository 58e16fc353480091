-- ===== src/Tests/Logged.antt =====
-- Runs of the names and of the calls that the pass logs.
use dinamite.Shared.{
  ◌==◌, if◌then◌else◌, Bytes, ℕ, All, ◌≡◌, refl, arith, codes, same, lookup, pos, negsuc, true,
  false, [], ◌∷◌, none, some,
}
use dinamite.Json.{Json11}
use dinamite.Filter.{InstrumentationFilter}
use dinamite.Cfg.{returns, successors, IsClosed}
use dinamite.Pass.{LogChoice, has_function, stops, Function, original, store, ret}
use dinamite.Environment.{Files}
use dinamite.Tests.SampleJson.{sample}
use dinamite.IdMap.{IdMap, no_chunk, get_id}
use dinamite.Metadata.{MetadataCrawler}
use dinamite.Pass.Names.{Variable, get_var_name}
use dinamite.Pass.Names.Slots.{get_var_name-slot}
use dinamite.Pass.Calls.{AccessCall, Maps, get_source_loc, type_id, var_id, instrument_access}
use dinamite.Pass.Calls.Repeated.{instrument_access-again}

abbrev no_fields : MetadataCrawler
no_fields = record { visited = []; typedef_map = λ n. none; field_map = [] }

abbrev slot : Variable
slot = record { name = codes "count.addr"; type_text = codes "i32*"; gep = none; is_global = false }

get_var_name-slot_example :
    get_var_name no_fields (pos 0) (codes "add(int, int)") slot ≡ some (codes "add().count")
get_var_name-slot_example =
    get_var_name-slot no_fields (pos 0) (codes "add") (codes "int, int)") (codes "count") slot refl
      (λ e. ground arith) refl refl (omega arith) (ground arith)

abbrev known_map : IdMap sample
known_map = record {
  id_map = (codes "i32*", pos 4) ∷ (codes "x", pos 9) ∷ [];
  new_id_map = [];
  curchunk = no_chunk;
  fname = codes "map";
  fchunkspool = codes "pool";
}

abbrev nothing_saved : Files
nothing_saved path = none

abbrev maps : Maps sample
maps = record {
  files = nothing_saved;
  srcmap = known_map;
  typemap = known_map;
  varmap = known_map;
  fnmap = known_map;
}

abbrev call_x : AccessCall
call_x = record {
  kind = b'w';
  place = record { file_id = negsuc 0; line = negsuc 0; col = negsuc 0 };
  type_id = pos 4;
  var_id = pos 9;
}

abbrev other_files : Files
other_files path = some []

instrument_access-again_example :
    instrument_access sample b'r' none true
      (codes "i32*")
      (codes "x")
      (record maps { files = other_files })
    ≡ some (record maps { files = other_files }, some (record call_x { kind = b'r' }))
unfolding instrument_access get_source_loc type_id var_id get_id lookup same
instrument_access-again_example =
    instrument_access-again sample b'w' b'r' none (codes "i32*") (codes "x") maps maps call_x
      other_files refl

abbrev pub no_filter : InstrumentationFilter sample
no_filter = record {
  filters = Json11.null sample;
  loaded = false;
  fname = codes "sizes";
  functions = [];
}

-- A function that stores and returns.
abbrev pub writer : Function
writer = record {
  name = codes "writer";
  args = 3 ∷ [];
  blocks = (original (store 3) ∷ original ret ∷ []) ∷ [];
  shape = record { lines = some 1 ∷ some 2 ∷ []; terminator = returns } ∷ [];
  backedges = 0;
}

pub writer-IsClosed : All (λ (fn : Function). IsClosed fn.shape) (writer ∷ [])
unfolding successors
writer-IsClosed = ((tt, tt), tt)

-- There is a log function for every value but 9.
abbrev choice : Bytes → ℕ → LogChoice
choice name v = if v == 9 then stops else has_function
