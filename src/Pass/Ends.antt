-- ===== src/Pass/Ends.antt =====
-- access_instrument.cpp: the ways `runOnModule` can end, from the files and the library it is given.
use dinamite.Shared.{
  ℕ, ◌≡◌, Bytes, Bool, true, false, List, [], Option, none, some, Outcome, value, exited, crashed,
  ◌>>=◌, Some,
}
use dinamite.Json.{Json11}
use dinamite.Filter.{InstrumentationFilter, load_filter_data_env, check_file_filter}
use dinamite.AllocDefs.{AllocDefinition, get_alloc_in_path, load_alloc_defs}
use dinamite.LogFunctions.{
  Functions, LogFunctionManager, load_functions, is_log_function, ValueType,
}
use dinamite.LogFunctions.Leaves.{Missing, library_names}
use dinamite.Metadata.{Tags}
use dinamite.Pass.{LogChoice}
use dinamite.Pass.OddWidths.{HasOddValue}
use dinamite.Pass.Whole.{chosen, run_on_functions}
use dinamite.Pass.WholeModule.{code_of}
use dinamite.Pass.Started.{
  Surroundings, Module, AccessInstrumentationPass, Instrumented, crawl_and_instrument,
}

module _ (J : Json11) (L : Functions) (demangle : Bytes → Bytes) (tags : Tags)
    (value_type : ℕ → ValueType) (is_arg : Bool) where
  abbrev Pass : Type 0
  Pass = AccessInstrumentationPass J L demangle tags value_type is_arg

  -- What `getLogFunction` does with a value, in the function with the name.
  abbrev log_choice : LogFunctionManager L → Bytes → ℕ → LogChoice
  log_choice lfm name v = chosen L lfm (value_type v) name

  abbrev Result : Type 0
  Result = Outcome (Option (Instrumented J L demangle tags value_type is_arg))

  module _ (env : Surroundings) (m : Module) (p : Pass) where
    -- The filter after it is loaded, and the definitions after they are.
    abbrev pub loaded_filter : InstrumentationFilter J
    loaded_filter = load_filter_data_env J env.din_filters env.files p.insfilt

    abbrev pub loaded_defs : Option (List AllocDefinition)
    loaded_defs = load_alloc_defs p.adm (env.files (get_alloc_in_path env.alloc_in))

    -- The filter rejects the file, and nothing else is done.
    abbrev pub LeavesAlone : Result → Type 0
    LeavesAlone r =
        (check_file_filter J loaded_filter m.identifier ≡ false)
        × (r
            ≡ value (
                some (record {
                  changed = false;
                  pass = record p { insfilt = loaded_filter };
                  functions = m.functions;
                })))

    -- alloc.in has a line that is no definition.
    abbrev pub StopsAtAllocs : Result → Type 0
    StopsAtAllocs r =
        (check_file_filter J loaded_filter m.identifier ≡ true)
        × (loaded_defs ≡ none)
        × (r ≡ exited)

    -- The library lacks a log function.
    abbrev pub CrashesInLibrary : Result → Type 0
    CrashesInLibrary r =
        (check_file_filter J loaded_filter m.identifier ≡ true)
        × (defs : List AllocDefinition) × (loaded_defs ≡ some defs)
        × Missing L library_names
        × (r ≡ crashed)

    -- The functions are gone through with what was loaded, and keep their code.
    abbrev pub Instruments : Result → Type 0
    Instruments r =
        (check_file_filter J loaded_filter m.identifier ≡ true)
        × (defs : List AllocDefinition) × (lfm : LogFunctionManager L) × (done : Instrumented J L
            demangle tags value_type is_arg)
        × (loaded_defs ≡ some defs)
        × (load_functions L ≡ value lfm)
        × (r ≡ value (some done))
        × (run_on_functions J (log_choice lfm) is_arg (is_log_function L lfm) defs loaded_filter []
              m.functions
            ≡ value (some (done.pass.insfilt, done.functions)))
        × (code_of done.functions ≡ code_of m.functions)

    -- `getLogFunction` exits at the width of a value.
    abbrev pub StopsAtValue : Result → Type 0
    StopsAtValue r =
        (check_file_filter J loaded_filter m.identifier ≡ true)
        × (defs : List AllocDefinition) × (lfm : LogFunctionManager L) × (loaded_defs ≡ some defs)
        × (load_functions L ≡ value lfm)
        × (r ≡ exited)
        × Some (HasOddValue value_type) m.functions

    rejected : Result
    rejected = value (
        some (record {
          changed = false;
          pass = record p { insfilt = loaded_filter };
          functions = m.functions;
        }))

    p_filter : Pass
    p_filter = record p { insfilt = loaded_filter }

    p_loaded : List AllocDefinition → Pass
    p_loaded defs = record p { insfilt = loaded_filter; adm = defs }

    then_crawl : List AllocDefinition → LogFunctionManager L → Result
    then_crawl defs lfm =
        crawl_and_instrument J L demangle tags value_type is_arg m lfm (p_loaded defs)

    after_allocs : Option (List AllocDefinition) → Result
    after_allocs o = elim o [ none ↦ exited | some defs ↦ load_functions L >>= then_crawl defs ]
