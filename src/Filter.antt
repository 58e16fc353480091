-- ===== src/Filter.antt =====
-- InstrumentationFilter.hpp and InstrumentationFilter.cpp: the user's filter file and the decisions
-- taken from it. A method with no effect on the object is a function of it; the others return it.
pub mod BestMatch
pub mod Functions
pub mod FileNames
pub mod Sizes
pub mod Saved
use dinamite.Shared.{
  ℕ, Bytes, codes, same, StdMap, ℤ, eq_ℤ, to_size, size_to_int, Bool, true, false, not, ◌&&◌, [],
  ◌∷◌, Option, none, some, ltb, leb, ◌==◌, length, any, if◌then◌else◌, assign, contains,
}
use dinamite.Json.{Json11}
use dinamite.Environment.{Files, write_file, env_value, maps_path, assign_entries}
use dinamite.Glob.{star, glob_match}

-- `fn_size_metrics`
pub data SizeMetric : Type 0 where
  fn_size_loc fn_size_ir fn_size_path : SizeMetric

module _ (J : Json11) where
  -- `filters` is null before a file is loaded.
  pub record InstrumentationFilter : Type 0 where
    pub filters : J.json
    pub loaded : Bool
    pub fname : Bytes
    pub functions : StdMap ℤ

  -- The entries of a saved text, or nothing where the file does not open.
  unfoldable pub saved_functions : Option Bytes → StdMap ℤ
  saved_functions none = []
  saved_functions (some text) = assign_entries J [] (J.object_items (J.parse text))

  -- The constructor: the sizes that an earlier run saved.
  unfoldable pub create : Option Bytes → Files → InstrumentationFilter
  create din_maps files =
      let path = maps_path din_maps (codes "function_sizes.json") in
      record {
        filters = J.null;
        loaded = false;
        fname = path;
        functions = saved_functions (files path);
      }

  -- The destructor.
  unfoldable pub destroy : InstrumentationFilter → Files → Files
  destroy f files = write_file files f.fname (J.dump (J.of_map f.functions))

  unfoldable pub load_filter_data : Bytes → Files → InstrumentationFilter → InstrumentationFilter
  load_filter_data filename files f = elim (files filename) [
    | none ↦ f
    | some text ↦
        let filters = J.parse text in
        let loaded = (if J.is_null filters then f.loaded else true) in
        record f { filters = filters; loaded = loaded }
  ]

  unfoldable pub load_filter_data_env :
      Option Bytes → Files → InstrumentationFilter → InstrumentationFilter
  load_filter_data_env din_filters files f = elim (env_value din_filters) [
    | none ↦ f
    | some val ↦ load_filter_data val files f
  ]

  -- filters["whitelist"]["function_filters"], and so on
  abbrev pub function_whitelist : InstrumentationFilter → J.json
  function_whitelist f = J.at (J.at f.filters (codes "whitelist")) (codes "function_filters")

  abbrev pub file_whitelist : InstrumentationFilter → J.json
  file_whitelist f = J.at (J.at f.filters (codes "whitelist")) (codes "file_filters")

  abbrev pub function_blacklist : InstrumentationFilter → J.json
  function_blacklist f = J.at (J.at f.filters (codes "blacklist")) (codes "function_filters")

  abbrev pub file_blacklist : InstrumentationFilter → J.json
  file_blacklist f = J.at (J.at f.filters (codes "blacklist")) (codes "file_filters")

  -- The loop of `findBestFunctionMatch`, with its flag `matched_star`.
  unfoldable pub scan_keys : Bytes → StdMap J.json → Bool → Bytes
  scan_keys name [] matched_star = if matched_star then codes "*" else []
  scan_keys name ((key, _) ∷ entries) matched_star =
      let rest = scan_keys name entries (if same key (codes "*") then true else matched_star) in
      if same key (codes "*") then rest else if glob_match key name then key else rest

  unfoldable pub find_best_function_match : InstrumentationFilter → Bytes → Bytes
  find_best_function_match f name =
      if not (J.is_null (J.at (function_whitelist f) name))
      then name
      else scan_keys name (J.object_items (function_whitelist f)) false

  -- `globMatch("*" + it.string_value(), name)`
  abbrev pub matches_entry : Bytes → J.json → Bool
  matches_entry name entry = glob_match (star ∷ J.string_value entry) name

  unfoldable pub check_function_blacklist : InstrumentationFilter → Bytes → Bool
  check_function_blacklist f name =
      if not f.loaded
      then false
      else if J.is_null (function_blacklist f)
      then false
      else any (matches_entry name) (J.array_items (function_blacklist f))

  unfoldable pub check_file_blacklist : InstrumentationFilter → Bytes → Bool
  check_file_blacklist f name =
      if not f.loaded
      then false
      else if J.is_null (file_blacklist f)
      then false
      else any (matches_entry name) (J.array_items (file_blacklist f))

  -- The event is listed for the best match of the name.
  unfoldable pub event_listed : InstrumentationFilter → Bytes → Bytes → Bool
  event_listed f name event =
      let entry = J.at (function_whitelist f) (find_best_function_match f name) in
      any (λ it. same event (J.string_value it)) (J.array_items (J.at entry (codes "events")))

  -- The body of `checkFunctionFilter`, given the answer of its recursive call for "*".
  unfoldable pub check_function_filter_body : InstrumentationFilter → Bool → Bytes → Bytes → Bool
  check_function_filter_body f star_answer name event =
      if not f.loaded
      then true
      else if check_function_blacklist f name
      then false
      else if not (same name (codes "*")) && star_answer
      then true
      else if length (J.object_items (function_whitelist f)) == 0
      then true
      else event_listed f name event

  -- The recursion is one deep: the call for "*" makes no further call.
  unfoldable pub check_function_filter : InstrumentationFilter → Bytes → Bytes → Bool
  check_function_filter f name event =
      check_function_filter_body f (check_function_filter_body f false (codes "*") event) name event

  unfoldable pub check_function_arg_filter : InstrumentationFilter → Bytes → ℤ → Bool
  check_function_arg_filter f name arg =
      let entry = J.at (function_whitelist f) (find_best_function_match f name) in
      let filter = J.at entry (codes "arguments") in
      if not f.loaded
      then false
      else if J.is_array filter
      then any (λ it. eq_ℤ (J.int_value it) arg) (J.array_items filter)
      else if J.is_string filter
      then same (J.string_value filter) (codes "*")
      else false

  unfoldable pub check_file_filter : InstrumentationFilter → Bytes → Bool
  check_file_filter f name =
      if not f.loaded
      then true
      else if check_file_blacklist f name
      then false
      else if J.is_null (file_whitelist f)
      then true
      else if length (J.array_items (file_whitelist f)) == 0
      then true
      else any (matches_entry name) (J.array_items (file_whitelist f))

  unfoldable pub loop_check_enabled : InstrumentationFilter → Bool
  loop_check_enabled f =
      let entry = J.at f.filters (codes "check_small_function_loops") in
      if J.is_null entry then true else J.bool_value entry

  -- The size is recorded first, as an `int`, where the name has no size yet.
  unfoldable pub record_function_size : InstrumentationFilter → Bytes → ℕ → InstrumentationFilter
  record_function_size f name size =
      if ltb 0 size && not (contains name f.functions)
      then record f { functions = assign name (size_to_int size) f.functions }
      else f

  unfoldable pub size_accepted : InstrumentationFilter → Bytes → ℕ → Bool
  size_accepted f name size =
      let minimum = J.at f.filters (codes "minimum_function_size") in
      let best = find_best_function_match f name in
      if J.is_null minimum
      then true
      else if leb (to_size (J.int_value minimum)) size
      then true
      else not (same best (codes "*")) && not (same best [])

  unfoldable pub check_function_size :
      InstrumentationFilter → Bytes → ℕ → InstrumentationFilter × Bool
  check_function_size f name size =
      let f' = record_function_size f name size in (f', size_accepted f' name size)

  unfoldable pub get_function_size_metric : InstrumentationFilter → SizeMetric
  get_function_size_metric f =
      let metric = J.at f.filters (codes "function_size_metric") in
      if not (J.is_null metric)
      then if same (J.string_value metric) (codes "IR")
        then fn_size_ir
        else if same (J.string_value metric) (codes "LOC_PATH")
        then fn_size_path
        else fn_size_loc
      else fn_size_loc
