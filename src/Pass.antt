-- ===== src/Pass.antt =====
-- access_instrument.cpp: the calls that `runOnModule` inserts into a function. A value is the number of
-- its pointer, and a function is what LLVM says of it. Of an inserted call the model has the callee here,
-- and what it passes in Pass.Calls; casts are not in it. The loop over the functions is in Pass.Whole.
pub mod Erase
pub mod Items
pub mod Cleared
pub mod Pending
pub mod Arguments
pub mod Events
pub mod Whole
pub mod Stops
pub mod OddWidths
pub mod WholeModule
pub mod Started
pub mod Ends
pub mod Names
pub mod Calls
use dinamite.Shared.{
  ℕ, zero, suc, ◌+◌, ◌-◌, ◌^◌, Bytes, codes, same, strip_prefix, ℤ, pos, Bool, true, false, not,
  ◌&&◌, ◌||◌, List, [], ◌∷◌, ◌++◌, Option, none, some, ◌==◌, any, length, if◌then◌else◌,
}
use dinamite.Json.{Json11}
use dinamite.Cfg.{Blocks, get_function_loc_size, check_function_loops, longest_path_size}
use dinamite.Filter.{
  SizeMetric, fn_size_loc, fn_size_ir, fn_size_path, InstrumentationFilter, check_function_filter,
  check_function_arg_filter, check_file_filter, check_function_size, loop_check_enabled,
  get_function_size_metric,
}
use dinamite.AllocDefs.{AllocDefinition, get_alloc_def}

-- `load` has the value that is read, `store` the value that is written, `call` the name of the
-- called function where it is known.
pub data Instruction : Type 0 where
  load store : ℕ → Instruction
  call : Option Bytes → Instruction
  ret plain : Instruction

-- The members of `LogFunctionManager` for events.
pub data EventFunction : Type 0 where
  init_log_func exit_log_func fn_begin_log_func fn_end_log_func : EventFunction

-- What `getLogFunction` does with a value: it returns a function or the null pointer, or it exits.
pub data LogChoice : Type 0 where
  has_function no_function stops : LogChoice

-- What the pass adds: `log_access` has the access type, `fn_event` the event's function. `stop` stands
-- where the compiler exits at a value: run_on_functions of Pass.Whole ends there.
pub data Added : Type 0 where
  alloca load_again : Added
  arg_store : ℕ → Added
  log_access : ℕ → ℕ → Added
  stop : ℕ → Added
  log_alloc : AllocDefinition → Added
  fn_event : EventFunction → Added

pub data Item : Type 0 where
  original : Instruction → Item
  added : Added → Item

-- `shape` is what the sizes are counted from, `backedges` the number of back edges.
pub record Function : Type 0 where
  pub name : Bytes
  pub args : List ℕ
  pub blocks : List (List Item)
  pub shape : Blocks
  pub backedges : ℕ

-- `instrumentFnEvent`: the function that is called at the begin or the end of `f`.
unfoldable pub event_function : Bytes → Bool → EventFunction
event_function name begin = elim (strip_prefix (codes "_GLOBAL_") name) [
  | some _ ↦ if begin then init_log_func else exit_log_func
  | none ↦
      if same name (codes "main")
      then (if begin then init_log_func else exit_log_func)
      else (if begin then fn_begin_log_func else fn_end_log_func)
]

-- `argLogSet.erase(v)`
unfoldable pub erase : ℕ → List ℕ → List ℕ
erase v [] = []
erase v (x ∷ s) = let rest = erase v s in if x == v then s else x ∷ rest

-- `argLogSet.insert(v)`
unfoldable pub insert_arg : ℕ → List ℕ → List ℕ
insert_arg v s = if any (λ x. x == v) s then s else v ∷ s

-- `checkAndConsumeArg`
unfoldable pub check_and_consume_arg : ℕ → List ℕ → Bool × List ℕ
check_and_consume_arg v s = if any (λ x. x == v) s then (true, erase v s) else (false, s)

-- The answers that the pass asks of the filter for one function, with the definitions of allocations.
-- `is_arg` stands for the value that the variable `isArg` has before it is assigned. `log_choice`
-- tells what `getLogFunction` does with a value.
pub record Decisions : Type 0 where
  pub name : Bytes
  pub access_filter : Bool
  pub function_filter : Bool
  pub alloc_filter : Bool
  pub allocs : List AllocDefinition
  pub is_arg : Bool
  pub log_choice : ℕ → LogChoice

module _ (d : Decisions) where
  -- `(functionFilter) || (f.getName().str().compare("main") == 0)`
  abbrev pub has_events : Bool
  has_events = d.function_filter || same d.name (codes "main")

  -- The call that `instrumentAccess` adds before the access, by the answer of `getLogFunction`.
  unfoldable pub log_call : ℕ → ℕ → List Item
  log_call kind v = elim (d.log_choice v) [
    | has_function ↦ added (log_access kind v) ∷ []
    | no_function ↦ []
    | stops ↦ added (stop v) ∷ []
  ]

  -- The store instructions of the loop: the calls before one, and the set after it.
  unfoldable pub visit_store : ℕ → List ℕ → List Item × List ℕ
  visit_store v s =
      if d.function_filter
      then (let (hit, s') = check_and_consume_arg v s in
          if hit
          then (log_call b'a' v, s')
          else if d.access_filter
          then (log_call b'w' v, s')
          else ([], s'))
      else if d.access_filter
      then (log_call (if d.is_arg then b'a' else b'w') v, s)
      else ([], s)

  -- The load instructions: the value is loaded again for the call.
  unfoldable pub visit_load : ℕ → List Item
  visit_load v = if d.access_filter then added load_again ∷ log_call b'r' v else []

  -- `instrumentExit`: what is added before a call.
  unfoldable pub before_call : Option Bytes → List Item
  before_call none = []
  before_call (some callee) =
      if has_events && same callee (codes "exit") then added (fn_event exit_log_func) ∷ [] else []

  -- `instrumentAlloc`: what is added behind a call.
  unfoldable pub behind_call : Option Bytes → List Item
  behind_call none = []
  behind_call (some callee) =
      if d.alloc_filter
      then (elim (get_alloc_def d.allocs callee) [
        | none ↦ []
        | some def ↦ added (log_alloc def) ∷ []
      ])
      else []

  -- One round of the loop over the instructions of a block. The stores added for arguments are
  -- instructions of the block; no definition of an allocation names an added call.
  unfoldable pub visit_item : Item → List ℕ → List Item × List ℕ
  visit_item (original (load v)) s = (visit_load v ++ original (load v) ∷ [], s)
  visit_item (original (store v)) s =
      let (calls, s') = visit_store v s in (calls ++ original (store v) ∷ [], s')
  visit_item (original (call callee)) s =
      (before_call callee ++ original (call callee) ∷ behind_call callee, s)
  visit_item (original ret) s = (original ret ∷ [], s)
  visit_item (original plain) s = (original plain ∷ [], s)
  visit_item (added (arg_store v)) s =
      let (calls, s') = visit_store v s in (calls ++ added (arg_store v) ∷ [], s')
  visit_item (added alloca) s = (added alloca ∷ [], s)
  visit_item (added load_again) s = (added load_again ∷ [], s)
  visit_item (added (log_access kind v)) s = (added (log_access kind v) ∷ [], s)
  visit_item (added (stop v)) s = (added (stop v) ∷ [], s)
  visit_item (added (log_alloc def)) s = (added (log_alloc def) ∷ [], s)
  visit_item (added (fn_event g)) s = (added (fn_event g) ∷ [], s)

  unfoldable pub visit_items : List Item → List ℕ → List Item × List ℕ
  visit_items [] s = ([], s)
  visit_items (i ∷ is) s =
      let (out, s1) = visit_item i s in let (rest, s2) = visit_items is s1 in (out ++ rest, s2)

  -- The event at the end, before a return that ends the block.
  unfoldable pub end_event : List Item → List Item
  end_event [] = []
  end_event (original ret ∷ []) = added (fn_event (event_function d.name false)) ∷ original ret ∷ []
  end_event (i ∷ []) = i ∷ []
  end_event (i ∷ j ∷ is) = i ∷ end_event (j ∷ is)

  -- The loop over the blocks.
  unfoldable pub visit_blocks : List (List Item) → List ℕ → List (List Item) × List ℕ
  visit_blocks [] s = ([], s)
  visit_blocks (b ∷ bs) s =
      let (out, s1) = visit_items (if has_events then end_event b else b) s in
      let (rest, s2) = visit_blocks bs s1 in (out ∷ rest, s2)

  -- The event at the begin, at the front of the entry block.
  unfoldable pub begin_event : List (List Item) → List (List Item)
  begin_event [] = []
  begin_event (b ∷ bs) =
      (if has_events then added (fn_event (event_function d.name true)) ∷ b else b) ∷ bs

-- The loop of `queueAndInjectArgsToLog`: the stores for the arguments, and the set after it.
unfoldable pub queue_args : (ℕ → Bool) → ℕ → List ℕ → List ℕ → List Item × List ℕ
queue_args filter idx [] s = ([], s)
queue_args filter idx (arg ∷ args) s =
    let (stores, s') =
      queue_args filter (idx + 1) args (if filter idx then insert_arg arg s else s) in
    ((if filter idx then added alloca ∷ added (arg_store arg) ∷ stores else stores), s')

-- `queueAndInjectArgsToLog`
unfoldable pub inject_args :
    (ℕ → Bool) → List ℕ → List (List Item) → List ℕ → List (List Item) × List ℕ
inject_args filter args [] s = ([], s)
inject_args filter args (entry ∷ bs) s =
    let (stores, s') = queue_args filter 0 args s in ((stores ++ entry) ∷ bs, s')

-- What `runOnModule` does with a function whose size the filter accepts.
unfoldable pub instrument_function :
    Decisions → (ℕ → Bool) → List ℕ → List (List Item) → List ℕ → List (List Item) × List ℕ
instrument_function d filter args blocks s =
    let (blocks1, s1) =
      (if d.function_filter then inject_args filter args blocks s else (blocks, s)) in
    visit_blocks d (begin_event d blocks1) s1
