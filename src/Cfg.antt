-- ===== src/Cfg.antt =====
-- Util.cpp: the sizes of a function, from the lines of its instructions and its graph of basic blocks.
-- A block's pointer is its index in the function; what LLVM says of a block is the record `Block`.
pub mod Explore
pub mod LongestPath
pub mod Lines
use dinamite.Shared.{
  ℕ, zero, suc, ◌+◌, ◌<◌, ◌≡◌, ◌⊎◌, Bool, true, false, not, List, [], ◌∷◌, Option, none, some, ltb,
  ◌==◌, if◌then◌else◌, length, get_elem?, ℤ, pos, negsuc, eq_ℤ, wrap32, Some, All,
}
use dinamite.Shared.IntSets.{IntSet, insert, union, size}

-- What `getTerminator` and its successors are: no terminator, a `ReturnInst`, or another with its successors.
pub data Terminator : Type 0 where
  missing : Terminator
  returns : Terminator
  goes_to : List ℕ → Terminator

-- `lines` holds, for each instruction, `getLineNumber` of its "dbg" metadata where it has any.
pub record Block : Type 0 where
  pub lines : List (Option ℕ)
  pub terminator : Terminator

-- `demangle`, given what `abi::__cxa_demangle` answers: no text where its status is not 0.
unfoldable pub demangle : (List ℕ → Option (List ℕ)) → List ℕ → List ℕ
demangle cxa_demangle name = elim (cxa_demangle name) [ none ↦ name | some text ↦ text ]

abbrev pub Blocks : Type 0
Blocks = List Block

-- `curline`: the line as an `int`, or -1.
unfoldable pub curline : Option ℕ → ℤ
curline none = negsuc 0
curline (some n) = wrap32 (pos n)

-- The body of both line loops: -1 is no line, and a line that is there is not inserted again.
unfoldable pub add_line : IntSet → Option ℕ → IntSet
add_line s line = if eq_ℤ (curline line) (negsuc 0) then s else insert (curline line) s

unfoldable pub add_lines : IntSet → List (Option ℕ) → IntSet
add_lines s [] = s
add_lines s (line ∷ lines) = add_lines (add_line s line) lines

-- `calculateBlock`
unfoldable pub calculate_block : Block → IntSet
calculate_block b = add_lines [] b.lines

unfoldable pub add_blocks : IntSet → Blocks → IntSet
add_blocks s [] = s
add_blocks s (b ∷ blocks) = add_blocks (add_lines s b.lines) blocks

-- `getFunctionLOCSize`
unfoldable pub get_function_loc_size : Blocks → ℕ
get_function_loc_size [] = 0
get_function_loc_size (b ∷ blocks) = size (add_blocks [] (b ∷ blocks))

-- `checkFunctionLoops`, given the number of back edges that `FindFunctionBackedges` finds.
unfoldable pub check_function_loops : Blocks → ℕ → Bool
check_function_loops [] backedges = false
check_function_loops (b ∷ blocks) backedges = not (backedges == 0)

-- The map `visits`.
abbrev pub Visits : Type 0
Visits = ℕ → Option IntSet

abbrev pub visit : Visits → ℕ → IntSet → Visits
visit visits b s c = if b == c then some s else visits c

-- `visits[c]`, which is empty for a key that is absent.
abbrev pub visited_lines : Visits → ℕ → IntSet
visited_lines visits c = elim (visits c) [ none ↦ [] | some s ↦ s ]

-- One choice of the loop over the successors: the larger of the two sets, the earlier one if they tie.
unfoldable pub larger : IntSet → IntSet → IntSet
larger max_lines p_lines = if ltb (size max_lines) (size p_lines) then p_lines else max_lines

-- The loop over the successors, with `explore` for the recursive call.
unfoldable pub explore_successors :
    (Visits → ℕ → Option Visits) → IntSet → List ℕ → Visits → IntSet → Option (Visits × IntSet)
explore_successors explore current [] visits max_lines = some (visits, max_lines)
explore_successors explore current (c ∷ cs) visits max_lines = elim (explore visits c) [
  | none ↦ none
  | some visits' ↦
      explore_successors explore current cs visits'
        (larger max_lines (union (visited_lines visits' c) current))
]

-- The work of `explorePath` on a block that is new, by its terminator.
unfoldable pub explore_terminator :
    (Visits → ℕ → Option Visits) → ℕ → IntSet → Terminator → Visits → Option Visits
explore_terminator explore b current missing visits = some visits
explore_terminator explore b current returns visits = some visits
explore_terminator explore b current (goes_to cs) visits =
    elim (explore_successors explore current cs visits []) [
      | none ↦ none
      | some (visits', max_lines) ↦ some (visit visits' b max_lines)
    ]

-- What is read through a block's pointer.
unfoldable pub lines_of : Option Block → IntSet
lines_of none = []
lines_of (some block) = calculate_block block

unfoldable pub terminator_at : Option Block → Terminator
terminator_at none = missing
terminator_at (some block) = block.terminator

module _ (blocks : Blocks) where
  unfoldable pub block_lines : ℕ → IntSet
  block_lines b = lines_of (get_elem? blocks b)

  unfoldable pub terminator_of : ℕ → Terminator
  terminator_of b = terminator_at (get_elem? blocks b)

  -- `explorePath`; `none` means that the fuel, a bound on the depth of the recursion, ran out.
  unfoldable pub explore_path : ℕ → Visits → ℕ → Option Visits
  explore_path zero visits b = none
  explore_path (suc fuel) visits b = elim (visits b) [
    | some _ ↦ some visits
    | none ↦
        explore_terminator (explore_path fuel) b (block_lines b) (terminator_of b)
          (visit visits b (block_lines b))
  ]

-- `longestPathSize`. The entry block is the first.
unfoldable pub longest_path_size : Blocks → Option ℕ
longest_path_size [] = some 0
longest_path_size (b ∷ blocks) =
    elim (explore_path (b ∷ blocks) (suc (length (b ∷ blocks))) (λ _. none) 0) [
      | none ↦ none
      | some visits ↦ some (size (visited_lines visits 0))
    ]

-- The blocks that can follow a block: none after a return.
unfoldable pub successors : Terminator → List ℕ
successors missing = []
successors returns = []
successors (goes_to cs) = cs

-- A walk through the graph that begins at a block.
pub data Walk (blocks : Blocks) : ℕ → Type 0 where
  stop : (b : ℕ) → Walk blocks b
  step :
      (b : ℕ) {c : ℕ}
      → Some (λ d. d ≡ c) (successors (terminator_of blocks b))
      → Walk blocks c
      → Walk blocks b

-- The lines of the blocks on a walk.
unfoldable pub walk_lines : (blocks : Blocks) {b : ℕ} → Walk blocks b → IntSet
walk_lines blocks (stop b) = block_lines blocks b
walk_lines blocks (step b m w) = union (walk_lines blocks w) (block_lines blocks b)

-- Every successor is a block of the function.
abbrev pub IsClosed : Blocks → Type 0
IsClosed blocks = All (λ (b : Block). All (λ c. c < length blocks) (successors b.terminator)) blocks
