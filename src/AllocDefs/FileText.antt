-- ===== src/AllocDefs/FileText.antt =====
-- The text of a well-formed alloc.in, and how a line of it is read.
use dinamite.Shared.{
  ℕ, zero, suc, ◌≡◌, ◌≢◌, refl, arith, Bytes, ℤ, pos, negsuc, false, List, [], ◌∷◌, ◌++◌, some, All,
  decimal, decimal_digits-IsDigit, IsDigit,
}
use dinamite.AllocDefs.{AllocDefinition, parse_line, is_comment}
use dinamite.AllocDefs.Stream.{
  is_space, is_digit, skip_spaces, take_word, some_word, read_word, split_lines,
}
use dinamite.AllocDefs.Numbers.{InRange, blanks, EndsNumber-blanks, read_int-padded}

-- The blanks of a line, over the one that has to stand behind the name and behind the first two numbers.
pub record Gaps : Type 0 where
  pub num : ℕ
  pub size : ℕ
  pub addr : ℕ
  pub behind : ℕ

-- The last number and the blanks behind it; the last two numbers; the three numbers.
abbrev addr_text : Gaps → AllocDefinition → Bytes
addr_text g d = blanks g.addr ++ (decimal d.addr_idx ++ blanks g.behind)

abbrev size_text : Gaps → AllocDefinition → Bytes
size_text g d = blanks g.size ++ (decimal d.size_idx ++ b' ' ∷ addr_text g d)

abbrev num_text : Gaps → AllocDefinition → Bytes
num_text g d = blanks g.num ++ (decimal d.num_idx ++ b' ' ∷ size_text g d)

-- A line of alloc.in that gives a definition.
abbrev pub definition_line : Gaps → AllocDefinition → Bytes
definition_line g d = d.name ++ b' ' ∷ num_text g d

-- A name of at least one character, with no space in it, that does not begin a comment.
abbrev pub IsName : Bytes → Type 0
IsName [] = ⊥
IsName (c ∷ s) = (c ≢ b'#') × All (λ x. is_space x ≡ false) (c ∷ s)

pub record IsWritable (d : AllocDefinition) : Type 0 where
  pub named : IsName d.name
  pub num : InRange d.num_idx
  pub size : InRange d.size_idx
  pub addr : InRange d.addr_idx

take_word-append :
    (w s : Bytes) → All (λ x. is_space x ≡ false) w → take_word (w ++ b' ' ∷ s) ≡ (w, b' ' ∷ s)
unfolding take_word is_space
take_word-append [] s h = refl
take_word-append (c ∷ w) s h = ground (arith, take_word-append w s h.1)

read_word-name : (w s : Bytes) → IsName w → read_word (w ++ b' ' ∷ s) ≡ some (w, b' ' ∷ s)
unfolding read_word skip_spaces some_word
read_word-name [] s h = absurd h
read_word-name (c ∷ w) s h =
    let kept = h.1.0 in let word = take_word-append (c ∷ w) s h.1 in rw kept (rw word)

pub parse_line-definition_line :
    (g : Gaps) (d : AllocDefinition) → IsWritable d → parse_line (definition_line g d) ≡ some d
unfolding parse_line is_digit
parse_line-definition_line g d w =
    let name = read_word-name d.name (num_text g d) w.named in
    let num = read_int-padded g.num d.num_idx (b' ' ∷ size_text g d) w.num refl in
    let size = read_int-padded g.size d.size_idx (b' ' ∷ addr_text g d) w.size refl in
    let addr =
      read_int-padded g.addr d.addr_idx (blanks g.behind) w.addr (EndsNumber-blanks g.behind) in
    rw (name, parse_line) (rw (num, parse_line) (rw (size, parse_line) (rw (addr, parse_line))))

-- What a line of a well-formed file is.
pub data Line : Type 0 where
  comment : Bytes → Line
  definition : Gaps → AllocDefinition → Line

-- The text has no newline.
abbrev pub OneLine : Bytes → Type 0
OneLine s = All (λ c. c ≢ 10) s

abbrev pub IsWell : Line → Type 0
IsWell (comment s) = OneLine s
IsWell (definition g d) = IsWritable d

abbrev pub line_text : Line → Bytes
line_text (comment s) = b'#' ∷ s
line_text (definition g d) = definition_line g d

abbrev pub file_text : List Line → Bytes
file_text [] = []
file_text (l ∷ ls) = line_text l ++ 10 ∷ file_text ls

abbrev pub definitions : List Line → List AllocDefinition
definitions [] = []
definitions (comment s ∷ ls) = definitions ls
definitions (definition g d ∷ ls) = d ∷ definitions ls

pub split_lines-append :
    (s rest : Bytes) → OneLine s → split_lines (s ++ 10 ∷ rest) ≡ s ∷ split_lines rest
unfolding split_lines
split_lines-append [] rest h = refl
split_lines-append (c ∷ s) rest h = ground (arith, split_lines-append s rest h.1)

OneLine-append : (s t : Bytes) → OneLine s → OneLine t → OneLine (s ++ t)
OneLine-append [] t hs ht = ht
OneLine-append (c ∷ s) t hs ht = (hs.0, OneLine-append s t hs.1 ht)

OneLine-digits : (s : Bytes) → All IsDigit s → OneLine s
OneLine-digits [] h = tt
OneLine-digits (c ∷ s) h = (λ e. omega arith, OneLine-digits s h.1)

OneLine-decimal : (v : ℤ) → OneLine (decimal v)
unfolding decimal
OneLine-decimal (pos n) = OneLine-digits _ (decimal_digits-IsDigit (suc n) n)
OneLine-decimal (negsuc n) =
    (λ e. omega arith, OneLine-digits _ (decimal_digits-IsDigit (suc (suc n)) (suc n)))

OneLine-name : (s : Bytes) → All (λ x. is_space x ≡ false) s → OneLine s
unfolding is_space
OneLine-name [] h = tt
OneLine-name (c ∷ s) h = (λ e. ground arith, OneLine-name s h.1)

IsName-spaceless : (s : Bytes) → IsName s → All (λ x. is_space x ≡ false) s
IsName-spaceless [] h = absurd h
IsName-spaceless (c ∷ s) h = h.1

OneLine-blanks : (n : ℕ) → OneLine (blanks n)
OneLine-blanks zero = tt
OneLine-blanks (suc n) = (λ e. omega arith, OneLine-blanks n)

OneLine-padded : (n : ℕ) (v : ℤ) (s : Bytes) → OneLine s → OneLine (blanks n ++ (decimal v ++ s))
OneLine-padded n v s h =
    OneLine-append (blanks n) _ (OneLine-blanks n)
      (OneLine-append (decimal v) s (OneLine-decimal v) h)

pub OneLine-line_text : (l : Line) → IsWell l → OneLine (line_text l)
OneLine-line_text (comment s) h = (λ e. omega arith, h)
OneLine-line_text (definition g d) h =
    let addr = OneLine-padded g.addr d.addr_idx (blanks g.behind) (OneLine-blanks g.behind) in
    let size = OneLine-padded g.size d.size_idx (b' ' ∷ addr_text g d) (λ e. omega arith, addr) in
    let num = OneLine-padded g.num d.num_idx (b' ' ∷ size_text g d) (λ e. omega arith, size) in
    OneLine-append d.name _ (OneLine-name d.name (IsName-spaceless d.name h.named))
      (λ e. omega arith, num)

pub is_comment-name : (s t : Bytes) → IsName s → is_comment (s ++ t) ≡ false
unfolding is_comment
is_comment-name [] t h = absurd h
is_comment-name (c ∷ s) t h = ground arith
