-- ===== src/Tests/Instrumented.antt =====
-- Runs of the pass, of the crawl through debug metadata and of the choice of log functions.
use dinamite.Shared.{
  ℕ, ◌≡◌, ◌↔◌, ◌⊎◌, ◌++◌, inl, inr, refl, arith, Bytes, codes, pos, true, false, List, [], ◌∷◌,
  Option, none, some, value, crashed, All, Some, if◌then◌else◌, ◌==◌,
}
use dinamite.LogFunctions.{
  ValueType, Functions, LogFunctionManager, load_functions, get_log_function, integer_function,
  is_log_function,
}
use dinamite.LogFunctions.Leaves.{access_name, library_names, IsLoaded, Missing}
use dinamite.LogFunctions.Loaded.{load_functions_lem}
use dinamite.LogFunctions.Chosen.{
  recognised_names, is_log_function_iff, get_log_function-is_log_function,
}
use dinamite.Metadata.{
  Operand, OperandKind, node, text, number, Nodes, MetadataCrawler, Tags, typedef_traversal,
  field_name_traversal,
}
use dinamite.Metadata.Crawl.{crawl_module, enter}
use dinamite.Metadata.Graph.{Reaches, root, IsGraph, Below, seen}
use dinamite.Metadata.Walk.{Entered, unchanged, entered}
use dinamite.Metadata.Reached.{all_roots, crawl_module-reached}
use dinamite.Metadata.Fields.{Entered-typedef_map}
use dinamite.Pass.{
  EventFunction, has_function, no_function, Item, original, added, store, ret, call, plain,
  fn_event, Decisions, instrument_function,
}
use dinamite.Pass.Erase.{programs, programs-instrument_function}
use dinamite.Pass.Items.{arg_items, NoArgument, IsEvent}
use dinamite.Pass.Arguments.{instrument_function-arguments}
use dinamite.Pass.Events.{AllEndIn, instrument_function-events}

-- A library in which every name is found; a function is its name, the empty one the null pointer.
abbrev pub library : Functions
library = record {
  fn = Option Bytes;
  null = none;
  is_null = λ f. elim f [ none ↦ true | some _ ↦ false ];
  name = λ f. elim f [ none ↦ [] | some s ↦ s ];
  fn_type = ℕ;
  get_function = λ name. some 0;
  declare = λ ft name. some name;
}

abbrev manager : LogFunctionManager library
manager = record {
  log_functions = λ kind size. some (access_name kind size);
  ptr_log_func = some (codes "logAccessPtr");
  string_log_func = some (codes "logAccessStaticString");
  alloc_log_func = some (codes "logAlloc");
  fn_begin_log_func = some (codes "logFnBegin");
  fn_end_log_func = some (codes "logFnEnd");
  init_log_func = some (codes "logInit");
  exit_log_func = some (codes "logExit");
}

manager-IsLoaded : IsLoaded library manager
manager-IsLoaded = record {
  accesses = λ kind size. (0, refl, refl);
  ptr = (0, refl, refl);
  string = (0, refl, refl);
  alloc = (0, refl, refl);
  fn_begin = (0, refl, refl);
  fn_end = (0, refl, refl);
  init = (0, refl, refl);
  exit = (0, refl, refl);
}

load_functions_lem_example :
    (All (λ name. (ft : ℕ) × (Functions.get_function library name ≡ some ft)) library_names
      → (lfm : LogFunctionManager library) × (load_functions library ≡ value lfm)
        × IsLoaded library lfm)
    × (Missing library library_names → load_functions library ≡ crashed)
load_functions_lem_example = load_functions_lem library (λ ft name. refl)

is_log_function_iff_example :
    (is_log_function library manager (codes "logFnBegin") ≡ true)
    ↔ Some (λ name. codes "logFnBegin" ≡ name) recognised_names
is_log_function_iff_example =
    is_log_function_iff library manager (codes "logFnBegin") (λ ft name. refl) manager-IsLoaded

abbrev flag_type : ValueType
flag_type = record {
  is_floating_point = false;
  is_integer = true;
  is_pointer = false;
  scalar_size_in_bits = 1;
}

get_log_function-is_log_function_example :
    (is_log_function library manager (codes "logAccessI8") ≡ true)
    ⊎ (codes "main" ≡ codes "__dinamite_tracepoint")
      × (some (codes "logAccessI8") ≡ manager.string_log_func)
    ⊎ (some (codes "logAccessI8") ≡ Functions.null library)
      × (flag_type.is_floating_point ≡ false)
      × (flag_type.is_pointer ≡ false)
      × (flag_type.is_integer ≡ false)
unfolding get_log_function integer_function
get_log_function-is_log_function_example =
    get_log_function-is_log_function library manager flag_type (codes "main")
      (some (codes "logAccessI8")) refl

-- The numbers of DWARF.
abbrev pub dwarf : Tags
dwarf = record { dw_tag_typedef = 22; dw_tag_class_type = 2; dw_tag_structure_type = 19 }

abbrev operand_of : OperandKind → Bytes → Option Operand
operand_of kind name = some (record { kind = kind; name = name })

-- A structure with one field, a typedef of it, and a node that names itself.
abbrev pub debug_nodes : Nodes
debug_nodes =
    (operand_of (number (pos 19)) []
      ∷ none
      ∷ none
      ∷ operand_of (text []) []
      ∷ none
      ∷ none
      ∷ none
      ∷ none
      ∷ none
      ∷ none
      ∷ operand_of (node 1) []
      ∷ [])
    ∷ (operand_of (node 2) [] ∷ [])
    ∷ (operand_of (number (pos 13)) []
        ∷ none
        ∷ none
        ∷ operand_of (text (codes "next")) (codes "next")
        ∷ [])
    ∷ (operand_of (number (pos 22)) []
        ∷ none
        ∷ none
        ∷ operand_of (text (codes "list")) (codes "list")
        ∷ none
        ∷ none
        ∷ none
        ∷ none
        ∷ none
        ∷ operand_of (node 0) []
        ∷ operand_of (node 3) []
        ∷ [])
    ∷ []

pub debug_nodes-IsGraph : IsGraph debug_nodes
debug_nodes-IsGraph = ground arith

abbrev pub no_names : MetadataCrawler
no_names = record { visited = []; typedef_map = λ n. none; field_map = [] }

abbrev pub units : Option (List (Option Operand))
units = some (operand_of (node 3) [] ∷ [])

pub units-Below : All (Below 4) (all_roots units [])
units-Below = ground arith

abbrev pub undecorated : Bytes → Bytes
undecorated s = s

crawl_module-reached_example :
    (c1 c2 : MetadataCrawler) × (crawl_module undecorated dwarf debug_nodes units [] no_names
      ≡ some c2)
    × Entered undecorated dwarf debug_nodes typedef_traversal (all_roots units []) no_names c1
    × Entered undecorated dwarf debug_nodes field_name_traversal
        (all_roots units [])
        (record c1 { visited = [] })
        c2
    × ((m : ℕ) → (seen c1.visited m ≡ true) ↔ Reaches debug_nodes (all_roots units []) m)
    × ((m : ℕ) → (seen c2.visited m ≡ true) ↔ Reaches debug_nodes (all_roots units []) m)
crawl_module-reached_example =
    crawl_module-reached undecorated dwarf debug_nodes units [] no_names debug_nodes-IsGraph
      units-Below refl

abbrev two_fields : MetadataCrawler
two_fields = record no_names { field_map = (codes "list", codes "next" ∷ codes "size" ∷ []) ∷ [] }

abbrev named : MetadataCrawler
named = record no_names { typedef_map = λ n. if n == 0 then some (codes "first") else none }

abbrev after_typedef : MetadataCrawler
after_typedef = enter undecorated dwarf debug_nodes typedef_traversal 3 named

Entered-typedef_map_example : after_typedef.typedef_map 0 ≡ some (codes "first")
Entered-typedef_map_example =
    Entered-typedef_map undecorated dwarf debug_nodes typedef_traversal (all_roots units []) 0
      (codes "first") (entered 3 unchanged refl (root (inl refl))) refl

-- A function with two arguments, the first of which is logged.
abbrev decisions : Decisions
decisions = record {
  name = codes "main";
  access_filter = true;
  function_filter = true;
  alloc_filter = false;
  allocs = [];
  is_arg = false;
  log_choice = λ v. if v == 8 then no_function else has_function;
}

abbrev body : List (List Item)
body =
    (original (store 7) ∷ original (call (some (codes "exit"))) ∷ [])
    ∷ (original plain ∷ original ret ∷ [])
    ∷ []

programs-instrument_function_example :
    programs (instrument_function decisions (λ i. true) (7 ∷ 8 ∷ []) body []).0 ≡ programs body
programs-instrument_function_example =
    programs-instrument_function decisions (λ i. true) (7 ∷ 8 ∷ []) body []

instrument_function-arguments_example :
    (g : EventFunction) × (rest : List Item) × (others : List (List Item)) × IsEvent
      (codes "main")
      true
      g
    × (instrument_function decisions (λ i. true) (7 ∷ 8 ∷ []) body [] ≡ (
      (added (fn_event g) ∷ (arg_items decisions (λ i. true) 0 (7 ∷ 8 ∷ []) ++ rest)) ∷ others,
      [],
    ))
    × NoArgument rest
    × All NoArgument others
instrument_function-arguments_example =
    instrument_function-arguments decisions (λ i. true) (7 ∷ 8 ∷ [])
      (original (store 7) ∷ original (call (some (codes "exit"))) ∷ [])
      ((original plain ∷ original ret ∷ []) ∷ []) refl (refl, (refl, tt)) (tt, (tt, tt))

instrument_function-events_example :
    (g h : EventFunction) × (rest : List Item) × (others : List (List Item)) × IsEvent
      (codes "main")
      true
      g
    × IsEvent (codes "main") false h
    × ((instrument_function decisions (λ i. true) (7 ∷ 8 ∷ []) body []).0
        ≡ (added (fn_event g) ∷ rest) ∷ others)
    × AllEndIn h body ((added (fn_event g) ∷ rest) ∷ others)
instrument_function-events_example =
    instrument_function-events decisions (λ i. true) (7 ∷ 8 ∷ [])
      (original (store 7) ∷ original (call (some (codes "exit"))) ∷ [])
      ((original plain ∷ original ret ∷ []) ∷ []) [] (inr refl)
