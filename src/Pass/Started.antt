-- ===== src/Pass/Started.antt =====
-- access_instrument.cpp: `runOnModule` from its first line: the filter, the definitions of allocations, the
-- log functions and the debug metadata are loaded, and then the functions are gone through. The saves
-- of the maps come behind it.
use dinamite.Shared.{
  ℕ, Bytes, Bool, true, false, not, List, [], Option, none, some, if◌then◌else◌, Outcome, value,
  exited, ◌>>=◌,
}
use dinamite.Json.{Json11}
use dinamite.Environment.{Files}
use dinamite.Filter.{InstrumentationFilter, load_filter_data_env, check_file_filter}
use dinamite.AllocDefs.{AllocDefinition, get_alloc_in_path, load_alloc_defs}
use dinamite.LogFunctions.{
  Functions, LogFunctionManager, load_functions, is_log_function, ValueType,
}
use dinamite.Metadata.Crawl
use dinamite.Metadata.{Operand, Nodes, Tags, MetadataCrawler}
use dinamite.Metadata.Crawl.{crawl_module}
use dinamite.Pass.{Function}
use dinamite.Pass.Whole.{chosen, run_on_functions}

-- What the compiler's process has around it: DIN_FILTERS, ALLOC_IN and the files.
pub record Surroundings : Type 0 where
  pub din_filters : Option Bytes
  pub alloc_in : Option Bytes
  pub files : Files

-- What LLVM says of the module: its name, its functions and its debug metadata.
pub record Module : Type 0 where
  pub identifier : Bytes
  pub functions : List Function
  pub nodes : Nodes
  pub compile_units : Option (List (Option Operand))
  pub instructions : List Crawl.Instruction

-- `value_type` is what LLVM says of the type of a value.
module _ (J : Json11) (L : Functions) (demangle : Bytes → Bytes) (tags : Tags)
    (value_type : ℕ → ValueType) (is_arg : Bool) where
  -- The members of the pass but its maps; `lfm` is there once it is loaded.
  pub record AccessInstrumentationPass : Type 0 where
    pub adm : List AllocDefinition
    pub mdc : MetadataCrawler
    pub lfm : Option (LogFunctionManager L)
    pub insfilt : InstrumentationFilter J

  -- Whether the module changed, the pass, and the functions that the module is left with.
  pub record Instrumented : Type 0 where
    pub changed : Bool
    pub pass : AccessInstrumentationPass
    pub functions : List Function

  -- The loop, after everything is loaded.
  unfoldable pub instrument_all :
      Module → LogFunctionManager L → AccessInstrumentationPass → Outcome (Option Instrumented)
  instrument_all m lfm p = do
    r ←
        run_on_functions J (λ name v. chosen L lfm (value_type v) name) is_arg
          (is_log_function L lfm) p.adm p.insfilt [] m.functions
    value (elim r [
      | none ↦ none
      | some (f, out) ↦ some (record {
        changed = true;
        pass = record p { insfilt = f; lfm = some lfm };
        functions = out;
      })
    ])

  -- `mdc.crawlModule(m)` and the loop.
  unfoldable pub crawl_and_instrument :
      Module → LogFunctionManager L → AccessInstrumentationPass → Outcome (Option Instrumented)
  crawl_and_instrument m lfm p =
      elim (crawl_module demangle tags m.nodes m.compile_units m.instructions p.mdc) [
        | none ↦ value none
        | some c ↦ instrument_all m lfm (record p { mdc = c })
      ]

  -- From `adm.loadAllocDefs()` on.
  unfoldable pub load_and_instrument :
      Surroundings → Module → AccessInstrumentationPass → Outcome (Option Instrumented)
  load_and_instrument env m p =
      elim (load_alloc_defs p.adm (env.files (get_alloc_in_path env.alloc_in))) [
        | none ↦ exited
        | some defs ↦ do
          lfm ← load_functions L
          crawl_and_instrument m lfm (record p { adm = defs })
      ]

  -- `runOnModule`, but for the saves at its end; `none` would be a recursion that does not end.
  unfoldable pub run_pass :
      Surroundings → Module → AccessInstrumentationPass → Outcome (Option Instrumented)
  run_pass env m p =
      let f = load_filter_data_env J env.din_filters env.files p.insfilt in
      if not (check_file_filter J f m.identifier)
      then value (
          some
            (record { changed = false; pass = record p { insfilt = f }; functions = m.functions }))
      else load_and_instrument env m (record p { insfilt = f })
