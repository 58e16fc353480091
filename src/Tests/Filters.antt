-- ===== src/Tests/Filters.antt =====
-- Runs of the filter's decisions on a small filter file.
use dinamite.Shared.{
  wrap32, ◌≡◌, ◌≢◌, ◌≤◌, ◌↔◌, ◌⊎◌, ◌&&◌, not, refl, codes, pos, true, false, [], ◌∷◌, none, some,
  lookup, contains, same, assign, ltb, if◌then◌else◌, to_size, size_to_int,
}
use dinamite.Json.{Json11}
use dinamite.Tests.SampleJson.{
  sample, sample-ReadsBack, Value, number, entries, entry, stop, texts, one, two,
}
use dinamite.Glob.{glob_match, Matches, double_star_end, is_literal}
use dinamite.Glob.Correct.{glob_match-Matches, glob_match-misses_double_star}
use dinamite.Environment.{Files, maps_path, env_value, assign_entries}
use dinamite.Filter.{
  InstrumentationFilter, create, destroy, function_whitelist, file_whitelist, file_blacklist,
  find_best_function_match, check_function_blacklist, event_listed, scan_keys, saved_functions,
  check_function_filter, check_function_filter_body, check_file_filter, check_function_size,
}
use dinamite.Filter.BestMatch.{FirstServing, NoneServes, HasStar, find_best_function_match_lem}
use dinamite.Filter.Functions.{Blacklisted, Whitelisted, check_function_filter_iff}
use dinamite.Filter.FileNames.{MatchesSome, check_file_filter_iff}
use dinamite.Filter.Sizes.{minimum_size, check_function_size_lem}
use dinamite.Filter.Saved.{check_sizes, create-destroy-check_sizes}

glob_match-Matches_example :
    (glob_match (codes "f*o") (codes "foo") ≡ true → Matches (codes "f*o") (codes "foo"))
    × (double_star_end (codes "f*o") ≡ false
        → Matches (codes "f*o") (codes "foo")
        → glob_match (codes "f*o") (codes "foo") ≡ true)
glob_match-Matches_example = glob_match-Matches (codes "f*o") (codes "foo")

glob_match-misses_double_star_example :
    Matches (codes "foo**") (codes "foo") × (glob_match (codes "foo**") (codes "foo") ≡ false)
unfolding is_literal
glob_match-misses_double_star_example = glob_match-misses_double_star (codes "foo") refl

abbrev demo_filters : Value
demo_filters = entries (
    entry (codes "blacklist")
      (two (codes "file_filters") (texts (codes "gen.c" ∷ [])) (codes "function_filters")
        (texts (codes "bad*" ∷ [])))
      (entry (codes "minimum_function_size") (number (pos 5)) (
        entry (codes "whitelist")
          (two (codes "file_filters") (texts (codes "main.c" ∷ [])) (codes "function_filters") (
            two (codes "*") (one (codes "events") (texts (codes "access" ∷ []))) (codes "fo*")
              (one (codes "events") (texts (codes "function" ∷ [])))))
          stop)))

abbrev demo : InstrumentationFilter sample
demo = record { filters = demo_filters; loaded = true; fname = codes "sizes"; functions = [] }

check_function_filter_iff_example :
    (check_function_filter sample demo (codes "foo") (codes "function") ≡ true)
    ↔ (¬ Blacklisted sample demo (codes "foo"))
      × ((codes "foo" ≢ codes "*")
            × (¬ Blacklisted sample demo (codes "*"))
            × Whitelisted sample demo (codes "*") (codes "function")
          ⊎ Whitelisted sample demo (codes "foo") (codes "function"))
check_function_filter_iff_example =
    check_function_filter_iff sample demo (codes "foo") (codes "function") refl

foo_access : check_function_filter sample demo (codes "foo") (codes "access") ≡ true
unfolding check_function_filter check_function_filter_body check_function_blacklist event_listed
    find_best_function_match scan_keys glob_match lookup same
foo_access = refl

foo_alloc : check_function_filter sample demo (codes "foo") (codes "alloc") ≡ false
unfolding check_function_filter check_function_filter_body check_function_blacklist event_listed
    find_best_function_match scan_keys glob_match lookup same
foo_alloc = refl

find_best_function_match_lem_example :
    ((Json11.is_null sample (Json11.at sample (function_whitelist sample demo) (codes "foo"))
        ≡ false)
      × (find_best_function_match sample demo (codes "foo") ≡ codes "foo"))
    ⊎ (Json11.is_null sample (Json11.at sample (function_whitelist sample demo) (codes "foo"))
        ≡ true)
      × (FirstServing sample
            (codes "foo")
            (find_best_function_match sample demo (codes "foo"))
            (Json11.object_items sample (function_whitelist sample demo))
          ⊎ NoneServes sample
              (codes "foo")
              (Json11.object_items sample (function_whitelist sample demo))
            × HasStar sample (Json11.object_items sample (function_whitelist sample demo))
            × (find_best_function_match sample demo (codes "foo") ≡ codes "*")
          ⊎ NoneServes sample
              (codes "foo")
              (Json11.object_items sample (function_whitelist sample demo))
            × (¬ HasStar sample (Json11.object_items sample (function_whitelist sample demo)))
            × (find_best_function_match sample demo (codes "foo") ≡ []))
find_best_function_match_lem_example = find_best_function_match_lem sample demo (codes "foo")

check_file_filter_iff_example :
    (check_file_filter sample demo (codes "src/main.c") ≡ true)
    ↔ (¬ (
        (Json11.is_null sample (file_blacklist sample demo) ≡ false)
        × MatchesSome sample
            (Json11.array_items sample (file_blacklist sample demo))
            (codes "src/main.c")))
      × ((Json11.is_null sample (file_whitelist sample demo) ≡ true)
          ⊎ (Json11.array_items sample (file_whitelist sample demo) ≡ [])
          ⊎ MatchesSome sample
              (Json11.array_items sample (file_whitelist sample demo))
              (codes "src/main.c"))
unfolding lookup same double_star_end
check_file_filter_iff_example =
    check_file_filter_iff sample demo (codes "src/main.c") refl (refl, tt) (refl, tt)

check_function_size_lem_example :
    (((check_function_size sample demo (codes "tiny") 3).1 ≡ true) ↔ (
      (Json11.is_null sample (minimum_size sample demo) ≡ true)
      ⊎ (to_size (Json11.int_value sample (minimum_size sample demo)) ≤ 3)
      ⊎ (find_best_function_match sample demo (codes "tiny") ≢ codes "*")
        × (find_best_function_match sample demo (codes "tiny") ≢ [])))
    × (lookup (codes "tiny") (check_function_size sample demo (codes "tiny") 3).0.functions ≡ (
        if same (codes "tiny") (codes "tiny")
          && ltb 0 3
          && not (contains (codes "tiny") demo.functions)
        then some (size_to_int 3)
        else lookup (codes "tiny") demo.functions))
    × ((check_function_size sample demo (codes "tiny") 3).0.filters ≡ demo.filters)
check_function_size_lem_example =
    check_function_size_lem sample demo (codes "tiny") (codes "tiny") 3

abbrev sizes_file : Files
sizes_file path =
    if same path (codes "maps/function_sizes.json")
    then some (Json11.dump sample (Json11.of_map sample ((codes "f", pos 7) ∷ [])))
    else none

abbrev earlier : InstrumentationFilter sample
earlier = create sample (some (codes "maps")) sizes_file

abbrev later : InstrumentationFilter sample
later = check_sizes sample earlier ((codes "f", 9) ∷ (codes "g", 4) ∷ [])

create-destroy-check_sizes_example :
    ((create sample (some (codes "maps")) (destroy sample later sizes_file)).functions
      ≡ later.functions)
    × (lookup
          (codes "g")
          (create sample (some (codes "maps")) (destroy sample later sizes_file)).functions
        ≡ some (pos 4))
unfolding create saved_functions maps_path env_value assign_entries assign lookup same wrap32
create-destroy-check_sizes_example =
    create-destroy-check_sizes sample (some (codes "maps")) sizes_file
      ((codes "f", 9) ∷ (codes "g", 4) ∷ []) (codes "g") sample-ReadsBack
