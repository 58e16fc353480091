-- ===== src/Tests/Sizes.antt =====
-- Runs of the sizes of functions and of the load of allocation functions.
use dinamite.Shared.{
  decimal, decimal_digits, ℕ, ◌≡◌, ◌≤◌, ◌↔◌, ◌⊎◌, ◌++◌, refl, arith, codes, ℤ, pos, negsuc, List,
  [], ◌∷◌, none, some, All, Some, length,
}
use dinamite.Shared.IntSets.{IntSet, In, Increasing, size}
use dinamite.Cfg.{
  Block, Blocks, returns, goes_to, get_function_loc_size, longest_path_size, Walk, walk_lines,
  IsClosed, successors,
}
use dinamite.Cfg.Lines.{LineOf, get_function_loc_size_lem}
use dinamite.Cfg.LongestPath.{
  longest_path_size-Walk, longest_path_size-le-loc_size, longest_path_size-dead_end,
}
use dinamite.AllocDefs.{AllocDefinition, fallback_defs, load_alloc_defs}
use dinamite.AllocDefs.Stream.{is_space}
use dinamite.AllocDefs.FileText.{
  Gaps, definition_line, IsWell, IsWritable, Line, comment, definition, file_text,
}
use dinamite.AllocDefs.Load.{load_alloc_defs-file_text, load_alloc_defs-blank_line}

-- A branch with a loop back to the entry.
abbrev diamond : Blocks
diamond =
    record { lines = some 1 ∷ some 2 ∷ none ∷ []; terminator = goes_to (1 ∷ 2 ∷ []) }
    ∷ record { lines = some 3 ∷ []; terminator = goes_to (0 ∷ 3 ∷ []) }
    ∷ record { lines = some 4 ∷ some 5 ∷ []; terminator = goes_to (3 ∷ []) }
    ∷ record { lines = some 6 ∷ []; terminator = returns }
    ∷ []

diamond-IsClosed : IsClosed diamond
unfolding successors
diamond-IsClosed = ground arith

longest_path_size-Walk_example :
    (n : ℕ) × (longest_path_size diamond ≡ some n)
    × ((n ≡ 0) ⊎ ((w : Walk diamond 0) × (n ≡ size (walk_lines diamond w))))
longest_path_size-Walk_example = longest_path_size-Walk diamond diamond-IsClosed

longest_path_size-le-loc_size_example :
    (n : ℕ) × (longest_path_size diamond ≡ some n) × (n ≤ get_function_loc_size diamond)
longest_path_size-le-loc_size_example = longest_path_size-le-loc_size diamond diamond-IsClosed

abbrev aborts : Block
aborts = record { lines = some 1 ∷ some 2 ∷ []; terminator = goes_to [] }

longest_path_size-dead_end_example : longest_path_size (aborts ∷ []) ≡ some 0
longest_path_size-dead_end_example = longest_path_size-dead_end aborts [] refl

get_function_loc_size_lem_example :
    (s : IntSet) × (get_function_loc_size diamond ≡ length s)
    × Increasing s
    × ((x : ℤ) → In x s ↔ Some (λ (b : Block). LineOf x b.lines) diamond)
get_function_loc_size_lem_example = get_function_loc_size_lem diamond

abbrev pool_alloc : AllocDefinition
pool_alloc = record {
  name = codes "pool_alloc";
  size_idx = pos 2;
  num_idx = negsuc 0;
  addr_idx = pos 10;
}

abbrev padding : Gaps
padding = record { num = 13; size = 6; addr = 4; behind = 1 }

abbrev alloc_in : List Line
alloc_in = comment (codes " name num size addr") ∷ definition padding pool_alloc ∷ []

pool_alloc-IsWritable : IsWritable pool_alloc
unfolding is_space
pool_alloc-IsWritable = record {
  named = ground arith;
  num = omega arith;
  size = omega arith;
  addr = omega arith;
}

alloc_in-IsWell : All IsWell alloc_in
alloc_in-IsWell = ground (arith, pool_alloc-IsWritable)

load_alloc_defs-file_text_example :
    (load_alloc_defs [] (some (file_text alloc_in)) ≡ some (pool_alloc ∷ []))
    × (load_alloc_defs [] none ≡ some fallback_defs)
load_alloc_defs-file_text_example = load_alloc_defs-file_text [] alloc_in alloc_in-IsWell

load_alloc_defs-blank_line_example :
    load_alloc_defs [] (some (file_text alloc_in ++ 10 ∷ codes "malloc -1 0 -1")) ≡ none
load_alloc_defs-blank_line_example =
    load_alloc_defs-blank_line [] alloc_in (codes "malloc -1 0 -1") alloc_in-IsWell

-- The first line of a definition in the sample alloc.in.
padded_line :
    definition_line padding
      (record { name = codes "__wt_calloc"; num_idx = pos 1; size_idx = pos 2; addr_idx = pos 3 })
    ≡ codes "__wt_calloc              1       2     3 "
unfolding decimal decimal_digits
padded_line = refl
