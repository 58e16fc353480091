-- ===== src/Cfg/LongestPath.antt =====
-- The answer of `longestPathSize`.
use dinamite.Shared.{
  ℕ, zero, suc, ◌≤◌, ◌≡◌, ◌⊎◌, inl, inr, refl, ap, arith, [], ◌∷◌, Option, none, some, length,
  get_elem?, Some, ℤ, Option-cases,
}
use dinamite.Shared.IntSets.{IntSet, size, In, Increasing, In-union, union-Increasing}
use dinamite.Shared.IntSets.Subset.{length-le_of_subset}
use dinamite.Cfg.{
  Block, Blocks, goes_to, calculate_block, lines_of, terminator_at, visited_lines,
  explore_successors, explore_terminator, block_lines, terminator_of, explore_path,
  longest_path_size, get_function_loc_size, Walk, stop, step, walk_lines, IsClosed,
}
use dinamite.Cfg.Lines.{LineOf, add_lines-Increasing, In-add_lines, get_function_loc_size_lem}
use dinamite.Cfg.Explore.{unseen, IsWalkSet, explore_path_ends}

unseen-none : (n : ℕ) → unseen n (λ _. none) ≡ n
unseen-none zero = refl
unseen-none (suc n) = omega (arith, unseen-none n)

-- In a function whose successors are all blocks of it, the exploration ends within its fuel, and the answer is 0 or the number of lines on some walk from the entry block.
pub longest_path_size-Walk :
    (blocks : Blocks)
    → IsClosed blocks
    → (n : ℕ) × (longest_path_size blocks ≡ some n)
      × ((n ≡ 0) ⊎ ((w : Walk blocks 0) × (n ≡ size (walk_lines blocks w))))
unfolding longest_path_size
longest_path_size-Walk [] closed = (0, refl, inl refl)
longest_path_size-Walk (b ∷ bs) closed =
    let (v, e, _, seen, walks) =
      explore_path_ends (b ∷ bs) (suc (length (b ∷ bs))) closed (λ _. none) 0 (omega arith)
        (omega (arith, unseen-none (length (b ∷ bs)))) (λ c s q. cc) in
    elim (Option-cases (v 0)) [
      | inl q ↦ absurd (seen q)
      | inr (s, q) ↦
          let counted : size (visited_lines v 0) ≡ size s = rw (q, visited_lines) in
          (size s, rw (e, longest_path_size) (ap some counted), counts s (walks 0 s q))
    ]
  where
    counts :
        (s : IntSet)
        → IsWalkSet (b ∷ bs) 0 s
        → (size s ≡ 0) ⊎ ((w : Walk (b ∷ bs) 0) × (size s ≡ size (walk_lines (b ∷ bs) w)))
    counts s (inl q) = inl (ap size q)
    counts s (inr (w, q)) = inr (w, ap size q)

-- Every line of a block is the line of an instruction of the function.
In-block_lines :
    (x : ℤ) (b : ℕ) (blocks : Blocks)
    → In x (block_lines blocks b)
    → Some (λ (c : Block). LineOf x c.lines) blocks
unfolding block_lines lines_of calculate_block
In-block_lines x b [] m = absurd m
In-block_lines x zero (c ∷ blocks) m = ground (arith, In-add_lines x [] c.lines)
In-block_lines x (suc b) (c ∷ blocks) m = inr (In-block_lines x b blocks m)

In-walk_lines :
    (blocks : Blocks) (x : ℤ) {b : ℕ} (w : Walk blocks b)
    → In x (walk_lines blocks w)
    → Some (λ (c : Block). LineOf x c.lines) blocks
unfolding walk_lines
In-walk_lines blocks x (stop b) m = In-block_lines x b blocks m
In-walk_lines blocks x (step b q w) m =
    elim ((In-union x (walk_lines blocks w) (block_lines blocks b)).0 m) [
      | inl before ↦ In-walk_lines blocks x w before
      | inr now ↦ In-block_lines x b blocks now
    ]

lines_of-Increasing : (block : Option Block) → Increasing (lines_of block)
unfolding lines_of calculate_block
lines_of-Increasing none = tt
lines_of-Increasing (some block) = add_lines-Increasing [] block.lines tt

walk_lines-Increasing :
    (blocks : Blocks) {b : ℕ} (w : Walk blocks b) → Increasing (walk_lines blocks w)
unfolding walk_lines block_lines
walk_lines-Increasing blocks (stop b) = lines_of-Increasing (get_elem? blocks b)
walk_lines-Increasing blocks (step b q w) =
    union-Increasing (walk_lines blocks w) (block_lines blocks b) (walk_lines-Increasing blocks w)

size-walk_lines-le :
    {b : ℕ} (blocks : Blocks) (w : Walk blocks b)
    → size (walk_lines blocks w) ≤ get_function_loc_size blocks
size-walk_lines-le blocks w =
    let (s, e, inc, members) = get_function_loc_size_lem blocks in
    rw e (
      length-le_of_subset (walk_lines blocks w) s (walk_lines-Increasing blocks w) inc
        (λ x m. (members x).1 (In-walk_lines blocks x w m)))

-- In a function whose successors are all blocks of it, `longestPathSize` answers, with at most the number that `getFunctionLOCSize` counts.
pub longest_path_size-le-loc_size :
    (blocks : Blocks)
    → IsClosed blocks
    → (n : ℕ) × (longest_path_size blocks ≡ some n) × (n ≤ get_function_loc_size blocks)
longest_path_size-le-loc_size blocks closed =
    let (n, e, counts) = longest_path_size-Walk blocks closed in (n, e, bound n counts)
  where
    bound :
        (n : ℕ)
        → (n ≡ 0) ⊎ ((w : Walk blocks 0) × (n ≡ size (walk_lines blocks w)))
        → n ≤ get_function_loc_size blocks
    bound n (inl q) = omega arith
    bound n (inr (w, q)) = rw q (size-walk_lines-le blocks w)

-- Where the entry block ends in a terminator that is no return and has no successor, such as `unreachable`, the answer is 0, whatever lines the block has.
pub longest_path_size-dead_end :
    (b : Block) (bs : Blocks) → b.terminator ≡ goes_to [] → longest_path_size (b ∷ bs) ≡ some 0
unfolding longest_path_size explore_path explore_terminator explore_successors terminator_of
    terminator_at
longest_path_size-dead_end b bs e = ground arith
