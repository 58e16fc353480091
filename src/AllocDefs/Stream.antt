-- ===== src/AllocDefs/Stream.antt =====
-- The standard library's reads that AllocDefs.cpp makes: `getline`, `>>` into a string and into an `int`.
use dinamite.Shared.{
  ℕ, ◌^◌, Bytes, ℤ, pos, negsuc, Bool, true, false, ◌&&◌, ◌||◌, List, [], ◌∷◌, Option, none, some,
  ltb, leb, ◌==◌, if◌then◌else◌, zero, suc, read_digits,
}

-- `isspace`: a blank, or one of the control characters 9 to 13.
unfoldable pub is_space : ℕ → Bool
is_space c = (c == b' ') || leb 9 c && leb c 13

unfoldable pub is_digit : ℕ → Bool
is_digit c = leb b'0' c && leb c b'9'

unfoldable pub skip_spaces : Bytes → Bytes
skip_spaces [] = []
skip_spaces (c ∷ s) = if is_space c then skip_spaces s else c ∷ s

-- The characters before the first space, and the rest.
unfoldable pub take_word : Bytes → Bytes × Bytes
take_word [] = ([], [])
take_word (c ∷ s) =
    let (word, rest) = take_word s in if is_space c then ([], c ∷ s) else (c ∷ word, rest)

-- A word with a character in it.
unfoldable pub some_word : Bytes × Bytes → Option (Bytes × Bytes)
some_word ([], rest) = none
some_word (c ∷ word, rest) = some (c ∷ word, rest)

-- `>> string`, which fails where no character is left.
unfoldable pub read_word : Bytes → Option (Bytes × Bytes)
read_word s = some_word (take_word (skip_spaces s))

-- The digits that stand first, and the rest.
unfoldable pub take_digits : Bytes → Bytes × Bytes
take_digits [] = ([], [])
take_digits (c ∷ s) =
    let (digits, rest) = take_digits s in if is_digit c then (c ∷ digits, rest) else ([], c ∷ s)

-- The value with its sign, where an `int` holds it.
unfoldable pub signed_value : Bool → ℕ → Option ℤ
signed_value false n = if ltb n (2 ^ 31) then some (pos n) else none
signed_value true zero = some (pos 0)
signed_value true (suc n) = if ltb n (2 ^ 31) then some (negsuc n) else none

-- The number that the digits make: no digit, or too large a number, is a failure.
unfoldable pub some_number : Bool → Bytes × Bytes → Option (ℤ × Bytes)
some_number minus ([], rest) = none
some_number minus (c ∷ digits, rest) = elim (signed_value minus (read_digits 0 (c ∷ digits))) [
  | none ↦ none
  | some v ↦ some (v, rest)
]

unfoldable pub read_unsigned : Bool → Bytes → Option (ℤ × Bytes)
read_unsigned minus s = some_number minus (take_digits s)

unfoldable pub read_signed : Bytes → Option (ℤ × Bytes)
read_signed [] = none
read_signed (c ∷ s) =
    if c == b'-'
    then read_unsigned true s
    else if c == b'+'
    then read_unsigned false s
    else read_unsigned false (c ∷ s)

-- `>> int`
unfoldable pub read_int : Bytes → Option (ℤ × Bytes)
read_int s = read_signed (skip_spaces s)

-- The lines that `getline` gives: a last line without a newline counts if it is not empty.
unfoldable pub split_lines : Bytes → List Bytes
split_lines [] = []
split_lines (c ∷ s) =
    let rest = split_lines s in
    if c == 10
    then [] ∷ rest
    else elim rest [ [] ↦ (c ∷ []) ∷ [] | line ∷ lines ↦ (c ∷ line) ∷ lines ]
