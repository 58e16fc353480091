-- ===== src/Shared/Decimal.antt =====
-- `sprintf(buf, "%d", i)`: the decimal text of an integer, and that a number can be read back from it.
use Prim.Native.Nat.{ℕ, zero, suc, ◌+◌, ◌-◌, ◌*◌, ◌/◌, ◌%◌, ◌≤◌, ◌<◌}
use mathlib.Core.Path.{◌≡◌, refl, sym, ◌∙◌, ap}
use mathlib.Core.Logic.{inl, inr}
use mathlib.Core.List.{[], ◌∷◌, ◌++◌}
use native.Mathlib.Omega.{arith}
use dinamite.Shared.Tests.{ltb, if◌then◌else◌, Bool-cases, ltb→lt}
use dinamite.Shared.Lists.{All}
use dinamite.Shared.Integers.{ℤ, pos, negsuc}
use dinamite.Shared.ByteStrings.{Bytes}

-- The digits of `n`, most significant first; one unit of fuel for each digit.
unfoldable pub decimal_digits : ℕ → ℕ → Bytes
decimal_digits zero n = []
decimal_digits (suc f) n =
    let more = decimal_digits f (n / 10) ++ (b'0' + n % 10) ∷ [] in
    if ltb n 10 then (b'0' + n) ∷ [] else more

-- `sprintf(buf, "%d", i)`
unfoldable pub decimal : ℤ → Bytes
decimal (pos n) = decimal_digits (suc n) n
decimal (negsuc n) = b'-' ∷ decimal_digits (suc (suc n)) (suc n)

-- The number that digits stand for, after `acc`.
unfoldable pub read_digits : ℕ → Bytes → ℕ
read_digits acc [] = acc
read_digits acc (c ∷ s) = read_digits (acc * 10 + (c - b'0')) s

pub read_digits-append :
    (acc c : ℕ) (s : Bytes) → read_digits acc (s ++ c ∷ []) ≡ read_digits acc s * 10 + (c - b'0')
unfolding read_digits
read_digits-append acc c [] = refl
read_digits-append acc c (d ∷ s) = read_digits-append (acc * 10 + (d - b'0')) c s

pub read_digits-decimal_digits : (f n : ℕ) → n < f → read_digits 0 (decimal_digits f n) ≡ n
unfolding decimal_digits read_digits
read_digits-decimal_digits zero n h = absurd (omega arith)
read_digits-decimal_digits (suc f) n h = elim (Bool-cases (ltb n 10)) [
  | inl small ↦ rw small (omega arith)
  | inr large ↦ rw large (
      rw (read_digits-append 0 (b'0' + n % 10) (decimal_digits f (n / 10)))
        (rw (read_digits-decimal_digits f (n / 10) (ground arith)) (omega arith)))
]

abbrev pub IsDigit : ℕ → Type 0
IsDigit c = (b'0' ≤ c) × (c ≤ b'9')

All-IsDigit-append : (s t : Bytes) → All IsDigit s → All IsDigit t → All IsDigit (s ++ t)
All-IsDigit-append [] t hs ht = ht
All-IsDigit-append (c ∷ s) t hs ht = (hs.0, All-IsDigit-append s t hs.1 ht)

pub decimal_digits-IsDigit : (f n : ℕ) → All IsDigit (decimal_digits f n)
unfolding decimal_digits
decimal_digits-IsDigit zero n = tt
decimal_digits-IsDigit (suc f) n = elim (Bool-cases (ltb n 10)) [
  | inl small ↦ let lt = ltb→lt n 10 small in rw small (omega arith)
  | inr large ↦ rw large (
      All-IsDigit-append (decimal_digits f (n / 10)) ((b'0' + n % 10) ∷ [])
        (decimal_digits-IsDigit f (n / 10)) (omega arith))
]

-- Digits before an underscore end at the first underscore.
digits_before :
    (s t a b : Bytes)
    → All IsDigit s
    → All IsDigit t
    → s ++ b'_' ∷ a ≡ t ++ b'_' ∷ b
    → (s ≡ t) × (a ≡ b)
digits_before [] [] a b hs ht e = (refl, cc)
digits_before [] (d ∷ t) a b hs ht e = absurd (ground arith)
digits_before (c ∷ s) [] a b hs ht e = absurd (ground arith)
digits_before (c ∷ s) (d ∷ t) a b hs ht e =
    let rest : s ++ b'_' ∷ a ≡ t ++ b'_' ∷ b = cc in
    let (es, ea) = digits_before s t a b hs.1 ht.1 rest in (cc, ea)

-- The text of a number that is not negative, an underscore and a word determine the number and the word.
pub decimal_injective :
    (i j : ℕ) (a b : Bytes)
    → decimal (pos i) ++ b'_' ∷ a ≡ decimal (pos j) ++ b'_' ∷ b
    → (i ≡ j) × (a ≡ b)
unfolding decimal
decimal_injective i j a b e =
    let (digits, words) =
      digits_before (decimal_digits (suc i) i) (decimal_digits (suc j) j) a b
        (decimal_digits-IsDigit (suc i) i) (decimal_digits-IsDigit (suc j) j) e in
    (
      sym (read_digits-decimal_digits (suc i) i (omega arith))
          ∙ ap (read_digits 0) digits
          ∙ read_digits-decimal_digits (suc j) j (omega arith),
      words,
    )
