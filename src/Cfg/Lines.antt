-- ===== src/Cfg/Lines.antt =====
-- The sets of lines that the loops over instructions collect.
use dinamite.Shared.{
  ℕ, ◌≡◌, ◌≢◌, ◌⊎◌, ◌↔◌, refl, arith, List, [], ◌∷◌, Option, ℤ, negsuc, eq_ℤ_iff, Some, length,
}
use dinamite.Shared.IntSets.{IntSet, In, Increasing, In-insert, insert-Increasing}
use dinamite.Cfg.{Block, Blocks, curline, add_line, add_lines, add_blocks, get_function_loc_size}

add_line-Increasing : (s : IntSet) (line : Option ℕ) → Increasing s → Increasing (add_line s line)
unfolding add_line
add_line-Increasing s line i = ground (arith, insert-Increasing (curline line) s)

pub add_lines-Increasing :
    (s : IntSet) (lines : List (Option ℕ)) → Increasing s → Increasing (add_lines s lines)
unfolding add_lines
add_lines-Increasing s [] i = i
add_lines-Increasing s (line ∷ lines) i =
    add_lines-Increasing (add_line s line) lines (add_line-Increasing s line i)

pub add_blocks-Increasing :
    (s : IntSet) (blocks : Blocks) → Increasing s → Increasing (add_blocks s blocks)
unfolding add_blocks
add_blocks-Increasing s [] i = i
add_blocks-Increasing s (b ∷ blocks) i =
    add_blocks-Increasing (add_lines s b.lines) blocks (add_lines-Increasing s b.lines i)

-- The line is that of one of the instructions.
abbrev pub LineOf : ℤ → List (Option ℕ) → Type 0
LineOf x lines = (x ≢ negsuc 0) × Some (λ l. curline l ≡ x) lines

In-add_line :
    (x : ℤ) (s : IntSet) (line : Option ℕ)
    → In x (add_line s line) ↔ (In x s ⊎ (x ≢ negsuc 0) × (curline line ≡ x))
unfolding add_line
In-add_line x s line =
    ground (arith, In-insert (curline line) x s, eq_ℤ_iff (curline line) (negsuc 0))

pub In-add_lines :
    (x : ℤ) (s : IntSet) (lines : List (Option ℕ))
    → In x (add_lines s lines) ↔ (In x s ⊎ LineOf x lines)
unfolding add_lines
In-add_lines x s [] = ground arith
In-add_lines x s (line ∷ lines) =
    ground (arith, In-add_line x s line, In-add_lines x (add_line s line) lines)

pub In-add_blocks :
    (x : ℤ) (s : IntSet) (blocks : Blocks)
    → In x (add_blocks s blocks) ↔ (In x s ⊎ Some (λ (b : Block). LineOf x b.lines) blocks)
unfolding add_blocks
In-add_blocks x s [] = ground arith
In-add_blocks x s (b ∷ blocks) =
    ground (arith, In-add_lines x s b.lines, In-add_blocks x (add_lines s b.lines) blocks)

-- `getFunctionLOCSize` is the number of elements of a set that holds exactly the lines of the instructions, where -1 is no line.
pub get_function_loc_size_lem :
    (blocks : Blocks)
    → (s : IntSet) × (get_function_loc_size blocks ≡ length s)
      × Increasing s
      × ((x : ℤ) → In x s ↔ Some (λ (b : Block). LineOf x b.lines) blocks)
unfolding get_function_loc_size
get_function_loc_size_lem [] = ([], refl, tt, λ x. (λ h. h, λ h. h))
get_function_loc_size_lem (b ∷ blocks) =
    let s = add_blocks [] (b ∷ blocks) in
    (
      s,
      refl,
      add_blocks-Increasing [] (b ∷ blocks) tt,
      λ x. ground (arith, In-add_blocks x [] (b ∷ blocks)),
    )
