-- ===== src/Pass/Whole.antt =====
-- access_instrument.cpp: the loop of `runOnModule` over the functions of a module, with the decisions of
-- the filter for each.
use dinamite.Shared.{
  ℕ, ◌-◌, ◌^◌, Bytes, codes, pos, Bool, true, false, ◌&&◌, List, [], ◌∷◌, Option, none, some,
  length, any, if◌then◌else◌, Outcome, value, exited, crashed, ◌>>=◌,
}
use dinamite.Json.{Json11}
use dinamite.Cfg.{get_function_loc_size, check_function_loops, longest_path_size}
use dinamite.Filter.{
  fn_size_loc, fn_size_ir, fn_size_path, InstrumentationFilter, check_function_filter,
  check_function_arg_filter, check_function_size, loop_check_enabled, get_function_size_metric,
}
use dinamite.AllocDefs.{AllocDefinition}
use dinamite.LogFunctions.{Functions, LogFunctionManager, ValueType, get_log_function}
use dinamite.Pass.{
  LogChoice, has_function, no_function, stops, Item, original, added, alloca, load_again, arg_store,
  log_access, stop, log_alloc, fn_event, Function, Decisions, instrument_function,
}

-- What `getLogFunction` does with a value of the type, in the function `parent`.
unfoldable pub chosen : (L : Functions) → LogFunctionManager L → ValueType → Bytes → LogChoice
chosen L lfm t parent = elim (get_log_function L lfm t parent) [
  | value f ↦ if L.is_null f then no_function else has_function
  | exited ↦ stops
  | crashed ↦ stops
]

abbrev pub is_stop : Item → Bool
is_stop (original i) = false
is_stop (added (stop v)) = true
is_stop (added alloca) = false
is_stop (added load_again) = false
is_stop (added (arg_store v)) = false
is_stop (added (log_access kind v)) = false
is_stop (added (log_alloc def)) = false
is_stop (added (fn_event g)) = false

-- The compiler exits at some place of the blocks.
abbrev pub stops_in : List (List Item) → Bool
stops_in bs = any (any is_stop) bs

-- `log_choice` has the name of the function first.
module _ (J : Json11) (log_choice : Bytes → ℕ → LogChoice) (is_arg : Bool)
    (is_log_function : Bytes → Bool) (allocs : List AllocDefinition) where
  -- The size of a function by the filter's metric; loops make it large for the metric of paths.
  unfoldable pub function_size : InstrumentationFilter J → Function → Option ℕ
  function_size f fn = elim (get_function_size_metric J f) [
    | fn_size_ir ↦ some (length fn.blocks)
    | fn_size_loc ↦ some (get_function_loc_size fn.shape)
    | fn_size_path ↦ elim (longest_path_size fn.shape) [
      | none ↦ none
      | some size ↦ some (
          if check_function_loops fn.shape fn.backedges && loop_check_enabled J f
          then 2 ^ 32 - 1
          else size)
    ]
  ]

  unfoldable pub decide : InstrumentationFilter J → Bytes → Decisions
  decide f name = record {
    name = name;
    access_filter = check_function_filter J f name (codes "access");
    function_filter = check_function_filter J f name (codes "function");
    alloc_filter = check_function_filter J f name (codes "alloc");
    allocs = allocs;
    is_arg = is_arg;
    log_choice = log_choice name;
  }

  abbrev pub Runs : Type 0
  Runs = Outcome (Option (InstrumentationFilter J × List Function))

  unfoldable pub put_first : Function → Runs → Runs
  put_first fn rest = do
    r ← rest
    value (elim r [ none ↦ none | some (f, out) ↦ some (f, fn ∷ out) ])

  -- The filter, the set `argLogSet` and the functions that were left instrumented. The compiler exits where
  -- `getLogFunction` does; `none` would be a recursion that does not end.
  unfoldable pub run_on_functions : InstrumentationFilter J → List ℕ → List Function → Runs
  run_on_functions f s [] = value (some (f, []))
  run_on_functions f s (fn ∷ fns) =
      let skipped : Runs = put_first fn (run_on_functions f s fns) in
      let sized : Runs = elim (function_size f fn) [
        | none ↦ value none
        | some size ↦
            let (f1, accepted) = check_function_size J f fn.name size in
            let d = decide f1 fn.name in
            let (blocks, s1) =
              (if accepted
                then instrument_function d (λ i. check_function_arg_filter J f1 fn.name (pos i))
                    fn.args fn.blocks s
                else (fn.blocks, s)) in
            let rest = put_first (record fn { blocks = blocks }) (run_on_functions f1 s1 fns) in
            if stops_in blocks then exited else rest
      ] in
      if is_log_function fn.name then skipped else sized
