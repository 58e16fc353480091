-- ===== src/Runtime/FileNames.antt =====
-- binaryinstrumentation.c: the names of the trace files of different ids.
use dinamite.Shared.{
  ℕ, zero, suc, ◌+◌, ◌-◌, ◌/◌, ◌%◌, ◌≤◌, ◌<◌, ◌≡◌, refl, sym, ap, ◌∙◌, Bytes, codes, pos, [], ◌∷◌,
  ◌++◌, length, length-append, decimal, decimal_digits, read_digits, read_digits-decimal_digits,
  first_bytes, arith, strip_prefix, strip_prefix-append,
}
use mathlib.Core.Option.{some-injective}
use dinamite.Runtime.Excluded.{Host, max_threads}
use dinamite.Runtime.Buffers.{path_max, trace_directory, trace_name}

-- The prefix leaves room for the name of each file: ten bytes of text and three digits.
abbrev pub Fits : Host → Type 0
Fits host = length (trace_directory host.prefix) + 13 ≤ path_max - 2

length-decimal_digits_small : (f n : ℕ) → n < 10 → length (decimal_digits (suc f) n) ≤ 1
unfolding decimal_digits
length-decimal_digits_small f n h = ground arith

length-decimal_digits_step :
    (f n b : ℕ)
    → 0 < b
    → length (decimal_digits f (n / 10)) ≤ b
    → length (decimal_digits (suc f) n) ≤ b + 1
unfolding decimal_digits
length-decimal_digits_step f n b p h =
    ground (arith, length-append (decimal_digits f (n / 10)) ((b'0' + n % 10) ∷ []))

-- The text of an id has three digits at most.
length-decimal : (n : ℕ) → n < max_threads → length (decimal (pos n)) ≤ 3
unfolding decimal
length-decimal zero h = omega (arith, length-decimal_digits_small 0 0)
length-decimal (suc zero) h = omega (arith, length-decimal_digits_small 1 1)
length-decimal (suc (suc n)) h =
    length-decimal_digits_step (suc (suc n)) (suc (suc n)) 2 (omega arith) (
      length-decimal_digits_step (suc n) (suc (suc n) / 10) 1 (omega arith)
        (length-decimal_digits_small n (suc (suc n) / 10 / 10) (omega arith)))

first_bytes_all : (n : ℕ) (s : Bytes) → length s ≤ n → first_bytes n s ≡ s
first_bytes_all zero [] h = refl
first_bytes_all zero (c ∷ s) h = absurd (omega arith)
first_bytes_all (suc n) [] h = refl
first_bytes_all (suc n) (c ∷ s) h = ap (λ l. c ∷ l) (first_bytes_all n s (omega arith))

-- A name that fits is not cut.
trace_name-whole :
    (host : Host)
    → Fits host
    → (i : ℕ) → i < max_threads
    → trace_name host i ≡ trace_directory host.prefix ++ (codes "trace.bin." ++ decimal (pos i))
unfolding trace_name
trace_name-whole host fits i h = first_bytes_all (path_max - 2) _ (
    omega (
      arith,
      length-decimal i h,
      length-append (trace_directory host.prefix) (codes "trace.bin." ++ decimal (pos i)),
    ))

decimal-injective : (i j : ℕ) → decimal (pos i) ≡ decimal (pos j) → i ≡ j
unfolding decimal
decimal-injective i j e =
    sym (read_digits-decimal_digits (suc i) i (omega arith))
    ∙ ap (read_digits 0) e
    ∙ read_digits-decimal_digits (suc j) j (omega arith)

append_cancel : (p s t : Bytes) → p ++ s ≡ p ++ t → s ≡ t
append_cancel p s t e =
    some-injective s t
      (sym (strip_prefix-append p s) ∙ ap (strip_prefix p) e ∙ strip_prefix-append p t)

-- Different ids have different files.
pub trace_name-injective :
    (host : Host)
    → Fits host
    → (i j : ℕ) → i < max_threads
    → j < max_threads
    → trace_name host i ≡ trace_name host j
    → i ≡ j
trace_name-injective host fits i j hi hj e = decimal-injective i j (
    append_cancel (codes "trace.bin.") _ _ (
      append_cancel (trace_directory host.prefix) _ _
        (sym (trace_name-whole host fits i hi) ∙ e ∙ trace_name-whole host fits j hj)))
