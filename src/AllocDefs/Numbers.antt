-- ===== src/AllocDefs/Numbers.antt =====
-- `iss >> int` on the text of a number.
use dinamite.Shared.{
  ℕ, zero, suc, ◌+◌, ◌/◌, ◌%◌, ◌<◌, ◌^◌, ◌≡◌, inl, inr, refl, sym, ap, ◌∙◌, arith, Bytes, subst, ℤ,
  pos, negsuc, Bool, true, false, [], ◌∷◌, ◌++◌, some, ltb, All, decimal, decimal_digits,
  read_digits, read_digits-decimal_digits, decimal_digits-IsDigit, IsDigit, Bool-cases,
}
use dinamite.AllocDefs.Stream.{
  is_space, is_digit, skip_spaces, take_digits, signed_value, some_number, read_unsigned,
  read_signed, read_int,
}

-- What may follow a number: no digit.
abbrev pub EndsNumber : Bytes → Type 0
EndsNumber [] = Unit
EndsNumber (c ∷ s) = is_digit c ≡ false

take_digits-append :
    (ds s : Bytes) → All IsDigit ds → EndsNumber s → take_digits (ds ++ s) ≡ (ds, s)
unfolding take_digits is_digit
take_digits-append [] [] h e = refl
take_digits-append [] (c ∷ s) h e = ground arith
take_digits-append (d ∷ ds) s h e = ground (arith, take_digits-append ds s h.1 e)

decimal_digits-head : (f n : ℕ) → (c : ℕ) × (ds : Bytes) × (decimal_digits (suc f) n ≡ c ∷ ds)
unfolding decimal_digits
decimal_digits-head zero n = elim (Bool-cases (ltb n 10)) [
  | inl small ↦ (b'0' + n, [], rw small)
  | inr large ↦ (b'0' + n % 10, [], rw large)
]
decimal_digits-head (suc f) n = elim (Bool-cases (ltb n 10)) [
  | inl small ↦ (b'0' + n, [], rw small)
  | inr large ↦
      let (c, ds, e) = decimal_digits-head f (n / 10) in
      (c, ds ++ (b'0' + n % 10) ∷ [], rw large (ap (λ t. t ++ (b'0' + n % 10) ∷ []) e))
]

some_number-eq :
    (minus : Bool) (n c : ℕ) (ds s : Bytes) (v : ℤ)
    → read_digits 0 (c ∷ ds) ≡ n
    → signed_value minus n ≡ some v
    → some_number minus (c ∷ ds, s) ≡ some (v, s)
unfolding some_number
some_number-eq minus n c ds s v e h =
    let value : signed_value minus (read_digits 0 (c ∷ ds)) ≡ some v =
      ap (signed_value minus) e ∙ h in
    rw (value, some_number)

-- A number read back from its digits.
read_unsigned-decimal_digits :
    (minus : Bool) (n : ℕ) (s : Bytes) (v : ℤ)
    → EndsNumber s
    → signed_value minus n ≡ some v
    → read_unsigned minus (decimal_digits (suc n) n ++ s) ≡ some (v, s)
unfolding read_unsigned
read_unsigned-decimal_digits minus n s v e h =
    let (c, ds, shape) = decimal_digits-head n n in
    let digits =
      take_digits-append (decimal_digits (suc n) n) s (decimal_digits-IsDigit (suc n) n) e in
    let number : read_digits 0 (c ∷ ds) ≡ n =
      ap (read_digits 0) (sym shape) ∙ read_digits-decimal_digits (suc n) n (omega arith) in
    ap (some_number minus) digits
    ∙ ap (λ t. some_number minus (t, s)) shape
    ∙ some_number-eq minus n c ds s v number h

-- An integer that a 32-bit `int` holds.
abbrev pub InRange : ℤ → Type 0
InRange (pos n) = n < 2 ^ 31
InRange (negsuc n) = n < 2 ^ 31

-- A digit is no sign and no space.
digit-read_signed :
    (c : ℕ) (s : Bytes) → IsDigit c → read_signed (c ∷ s) ≡ read_unsigned false (c ∷ s)
unfolding read_signed
digit-read_signed c s h = ground arith

digit-skip_spaces : (c : ℕ) (s : Bytes) → IsDigit c → skip_spaces (c ∷ s) ≡ c ∷ s
unfolding skip_spaces is_space
digit-skip_spaces c s h = ground arith

signed_value-range_false : (n : ℕ) → n < 2 ^ 31 → signed_value false n ≡ some (pos n)
unfolding signed_value
signed_value-range_false n h = ground arith

signed_value-range_true : (n : ℕ) → n < 2 ^ 31 → signed_value true (suc n) ≡ some (negsuc n)
unfolding signed_value
signed_value-range_true n h = ground arith

blank-read_int : (s : Bytes) → read_int (b' ' ∷ s) ≡ read_signed (skip_spaces s)
unfolding read_int skip_spaces is_space
blank-read_int s = refl

-- Any number of blanks.
abbrev pub blanks : ℕ → Bytes
blanks zero = []
blanks (suc n) = b' ' ∷ blanks n

skip_spaces-blanks : (n : ℕ) (s : Bytes) → skip_spaces (blanks n ++ s) ≡ skip_spaces s
unfolding skip_spaces is_space
skip_spaces-blanks zero s = refl
skip_spaces-blanks (suc n) s = skip_spaces-blanks n s

pub EndsNumber-blanks : (n : ℕ) → EndsNumber (blanks n)
unfolding is_digit
EndsNumber-blanks zero = tt
EndsNumber-blanks (suc n) = refl

minus-read_int : (s : Bytes) → read_int (b' ' ∷ b'-' ∷ s) ≡ read_unsigned true s
unfolding read_int skip_spaces is_space read_signed
minus-read_int s = refl

-- An integer read back from its text, behind a blank.
read_int-decimal :
    (v : ℤ) (s : Bytes)
    → InRange v
    → EndsNumber s
    → read_int (b' ' ∷ (decimal v ++ s)) ≡ some (v, s)
unfolding decimal
read_int-decimal (pos n) s r e =
    let (c, ds, shape) = decimal_digits-head n n in
    let digits : All IsDigit (c ∷ ds) =
      subst (All IsDigit) shape (decimal_digits-IsDigit (suc n) n) in
    blank-read_int (decimal_digits (suc n) n ++ s)
    ∙ ap (λ t. read_signed (skip_spaces (t ++ s))) shape
    ∙ ap read_signed (digit-skip_spaces c (ds ++ s) digits.0)
    ∙ digit-read_signed c (ds ++ s) digits.0
    ∙ ap (λ t. read_unsigned false (t ++ s)) (sym shape)
    ∙ read_unsigned-decimal_digits false n s (pos n) e (signed_value-range_false n r)
read_int-decimal (negsuc n) s r e =
    minus-read_int (decimal_digits (suc (suc n)) (suc n) ++ s)
    ∙ read_unsigned-decimal_digits true (suc n) s (negsuc n) e (signed_value-range_true n r)

-- Behind a blank and more blanks.
pub read_int-padded :
    (n : ℕ) (v : ℤ) (s : Bytes)
    → InRange v
    → EndsNumber s
    → read_int (b' ' ∷ (blanks n ++ (decimal v ++ s))) ≡ some (v, s)
read_int-padded n v s r e =
    blank-read_int (blanks n ++ (decimal v ++ s))
    ∙ ap read_signed (skip_spaces-blanks n (decimal v ++ s))
    ∙ sym (blank-read_int (decimal v ++ s))
    ∙ read_int-decimal v s r e
