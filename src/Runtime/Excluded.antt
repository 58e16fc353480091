-- ===== src/Runtime/Excluded.antt =====
-- binaryinstrumentation.c: the threads that DINAMITE_EXCLUDE_TID excludes from the trace.
use dinamite.Shared.{
  ℕ, ◌-◌, ◌^◌, Bytes, ℤ, pos, negsuc, neg_ℕ, wrap32, eq_ℤ, Bool, true, false, List, [], ◌∷◌, ◌++◌,
  Option, none, some, ltb, ◌==◌, length, any, if◌then◌else◌, read_digits, first_bytes,
}
use dinamite.AllocDefs.Stream.{skip_spaces, take_digits}

abbrev pub max_threads : ℕ
max_threads = 128

-- What the process reads of its environment: `exclude` is DINAMITE_EXCLUDE_TID and `prefix` is
-- DINAMITE_TRACE_PREFIX. `stale` are the bytes that stand behind the 127 first ones in the allocated
-- copy, up to a zero byte.
pub record Host : Type 0 where
  pub exclude : Option Bytes
  pub stale : Bytes
  pub prefix : Option Bytes

-- The `long` that `strtol` gives, which stops at the bounds of the type.
unfoldable pub clamp_long : Bool → ℕ → ℤ
clamp_long false n = if ltb n (2 ^ 63) then pos n else pos (2 ^ 63 - 1)
clamp_long true n = if ltb (2 ^ 63) n then negsuc (2 ^ 63 - 1) else neg_ℕ n

unfoldable pub digits_value : Bytes → ℕ
digits_value s = read_digits 0 (take_digits s).0

unfoldable pub read_long : Bytes → ℤ
read_long [] = pos 0
read_long (c ∷ s) =
    if c == b'-'
    then clamp_long true (digits_value s)
    else if c == b'+'
    then clamp_long false (digits_value s)
    else clamp_long false (digits_value (c ∷ s))

-- `atoi`
unfoldable pub atoi : Bytes → ℤ
atoi s = wrap32 (read_long (skip_spaces s))

-- The tokens that `strsep` gives one after the other: none of them is left out, empty ones included.
unfoldable pub strsep : ℕ → Bytes → List Bytes
strsep sep [] = [] ∷ []
strsep sep (c ∷ s) =
    let rest = strsep sep s in
    if c == sep then [] ∷ rest else elim rest [ [] ↦ [] | token ∷ more ↦ (c ∷ token) ∷ more ]

-- `strncpy(excluded_tids, text, MAX_THREADS - 1)`, read as a string.
unfoldable pub copied : Host → Bytes → Bytes
copied host text =
    if ltb (length text) (max_threads - 1)
    then text
    else first_bytes (max_threads - 1) text ++ host.stale

-- The tests of the string and the loop over its tokens.
unfoldable pub excluded_in : Bytes → ℕ → Bool
excluded_in excluded_tids tid =
    if ltb (length excluded_tids) 1
    then false
    else any (λ token. eq_ℤ (atoi token) (pos tid)) (strsep b',' excluded_tids)

-- `__dinamite_exclude_tid`; `allocated` says that `malloc` gives memory for the copy.
unfoldable pub exclude_tid : Host → Bool → ℕ → Bool
exclude_tid host allocated tid =
    if allocated
    then elim host.exclude [ none ↦ false | some text ↦ excluded_in (copied host text) tid ]
    else false
