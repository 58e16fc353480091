-- ===== src/Glob.antt =====
-- InstrumentationFilter::globMatch (InstrumentationFilter.cpp), and what it means for a text to match a
-- pattern in which `*` stands for any run of bytes.
pub mod Correct
use dinamite.Shared.{
  ℕ, Bytes, codes, same, Bool, true, false, ◌||◌, List, [], ◌∷◌, ◌≡◌, ◌≢◌, ◌==◌, if◌then◌else◌, not,
}

abbrev pub star : ℕ
star = b'*'

-- `globMatch(glob, s)`. A call with an empty side ends the recursion; `||` stops at the first `true`.
unfoldable pub glob_match : Bytes → Bytes → Bool
glob_match [] [] = true
glob_match [] (c ∷ s) = false
glob_match (g ∷ glob) [] = same (g ∷ glob) (codes "*")
glob_match (g ∷ glob) (c ∷ s) =
    let both = glob_match glob s in
    let stay = glob_match (g ∷ glob) s in
    let skip = glob_match glob (c ∷ s) in
    let stay_or_skip = (if stay then true else skip) in
    if g == star
    then (if both then true else stay_or_skip)
    else if not (g == c)
    then false
    else both

-- The text matches the pattern: an independent description, with no order of search in it.
pub data Matches : Bytes → Bytes → Type 0 where
  done : Matches [] []
  byte : {c : ℕ} {p s : Bytes} → c ≢ star → Matches p s → Matches (c ∷ p) (c ∷ s)
  leave : {g : ℕ} {p s : Bytes} → g ≡ star → Matches p s → Matches (g ∷ p) s
  take : {g c : ℕ} {p s : Bytes} → g ≡ star → Matches (g ∷ p) s → Matches (g ∷ p) (c ∷ s)

-- The pattern ends in two stars.
unfoldable pub double_star_end : Bytes → Bool
double_star_end [] = false
double_star_end (a ∷ []) = false
double_star_end (a ∷ b ∷ []) = if a == star then b == star else false
double_star_end (a ∷ b ∷ c ∷ p) = double_star_end (b ∷ c ∷ p)

-- No byte of the text is a star.
unfoldable pub is_literal : Bytes → Bool
is_literal [] = true
is_literal (c ∷ p) = if c == star then false else is_literal p
