-- ===== src/Runtime/ExcludedList.antt =====
-- binaryinstrumentation.c: DINAMITE_EXCLUDE_TID as a list of ids with commas between them.
use mathlib.Core.List.{map}
use dinamite.Shared.{
  ℕ, suc, ◌-◌, ◌^◌, ◌<◌, ◌≡◌, ◌≢◌, ◌↔◌, refl, sym, ap, ◌∙◌, subst, Bytes, ℤ, pos, eq_ℤ, wrap32,
  wrap32-pos, Bool, true, false, ◌||◌, List, [], ◌∷◌, ◌++◌, none, some, length, length-append,
  length-eq-zero, first_bytes, ◌+◌, ◌/◌, ◌%◌, any, All, Some, ltb, lt→ltb, if◌then◌else◌, decimal,
  decimal_digits, decimal_digits-IsDigit, IsDigit, read_digits, read_digits-decimal_digits, arith,
}
use dinamite.AllocDefs.Stream.{is_space, is_digit, skip_spaces, take_digits}
use dinamite.Runtime.Excluded.{
  Host, max_threads, clamp_long, digits_value, read_long, atoi, strsep, copied, excluded_in,
  exclude_tid,
}

-- The ids in decimal, with commas between them.
abbrev pub joined : ℕ → List ℕ → Bytes
joined i [] = decimal (pos i)
joined i (j ∷ ids) = decimal (pos i) ++ b',' ∷ joined j ids

strsep-last : (s : Bytes) → All IsDigit s → strsep b',' s ≡ s ∷ []
unfolding strsep
strsep-last [] h = refl
strsep-last (c ∷ s) (d, h) = ground (arith, strsep-last s h)

strsep-token : (s t : Bytes) → All IsDigit s → strsep b',' (s ++ b',' ∷ t) ≡ s ∷ strsep b',' t
unfolding strsep
strsep-token [] t h = refl
strsep-token (c ∷ s) t (d, h) = ground (arith, strsep-token s t h)

take_digits-All : (s : Bytes) → All IsDigit s → take_digits s ≡ (s, [])
unfolding take_digits is_digit
take_digits-All [] h = refl
take_digits-All (c ∷ s) (d, h) = ground (arith, take_digits-All s h)

atoi-digits :
    (s : Bytes) → s ≢ [] → All IsDigit s → read_digits 0 s < 2 ^ 31 → atoi s ≡ pos (read_digits 0 s)
unfolding atoi skip_spaces is_space read_long clamp_long digits_value
atoi-digits [] ne h small = absurd (ne refl)
atoi-digits (c ∷ s) ne (d, h) small =
    let digits : digits_value (c ∷ s) ≡ read_digits 0 (c ∷ s) =
      ap (λ (p : Bytes × Bytes). read_digits 0 p.0) (take_digits-All (c ∷ s) (d, h)) in
    let solid : is_space c ≡ false = ground arith in
    let unsigned : read_long (c ∷ s) ≡ clamp_long false (digits_value (c ∷ s)) = ground arith in
    let long : clamp_long false (read_digits 0 (c ∷ s)) ≡ pos (read_digits 0 (c ∷ s)) =
      ground arith in
    ap (λ b. wrap32 (read_long (if b then skip_spaces s else c ∷ s))) solid
    ∙ ap wrap32 (unsigned ∙ ap (clamp_long false) digits ∙ long)
    ∙ wrap32-pos (read_digits 0 (c ∷ s)) small

decimal-ne-nil : (i : ℕ) → decimal (pos i) ≢ []
unfolding decimal decimal_digits
decimal-ne-nil i e =
    ground (arith, ap length e, length-append (decimal_digits i (i / 10)) ((b'0' + i % 10) ∷ []))

atoi-decimal : (i : ℕ) → i < 2 ^ 31 → atoi (decimal (pos i)) ≡ pos i
unfolding decimal
atoi-decimal i small =
    let back : read_digits 0 (decimal (pos i)) ≡ i =
      read_digits-decimal_digits (suc i) i (omega arith) in
    atoi-digits (decimal (pos i)) (decimal-ne-nil i) (decimal_digits-IsDigit (suc i) i)
      (omega (arith, back))
    ∙ ap pos back

-- The tokens of the list are its ids.
strsep-joined :
    (i : ℕ) (ids : List ℕ)
    → strsep b',' (joined i ids) ≡ decimal (pos i) ∷ map (λ j. decimal (pos j)) ids
unfolding decimal
strsep-joined i [] = strsep-last (decimal (pos i)) (decimal_digits-IsDigit (suc i) i)
strsep-joined i (j ∷ ids) =
    strsep-token (decimal (pos i)) (joined j ids) (decimal_digits-IsDigit (suc i) i)
    ∙ ap (λ l. decimal (pos i) ∷ l) (strsep-joined j ids)

abbrev names_tid : ℕ → Bytes → Bool
names_tid tid token = eq_ℤ (atoi token) (pos tid)

any-decimal :
    (tid : ℕ) (ids : List ℕ)
    → All (λ i. i < 2 ^ 31) ids
    → (any (names_tid tid) (map (λ j. decimal (pos j)) ids) ≡ true) ↔ Some (λ i. i ≡ tid) ids
any-decimal tid [] h = (λ e. ground arith, λ s. absurd s)
any-decimal tid (i ∷ ids) (small, h) =
    subst
      (λ (v : ℤ).
        ((eq_ℤ v (pos tid) || any (names_tid tid) (map (λ j. decimal (pos j)) ids)) ≡ true)
        ↔ Some (λ k. k ≡ tid) (i ∷ ids))
      (sym (atoi-decimal i small)) (ground (arith, any-decimal tid ids h))

joined-begun : (i : ℕ) (ids : List ℕ) → joined i ids ≢ []
joined-begun i [] e = decimal-ne-nil i e
joined-begun i (j ∷ ids) e =
    omega (arith, ap length e, length-append (decimal (pos i)) (b',' ∷ joined j ids))

-- A list of ids below 2^31 with commas between them, of less than 127 bytes, excludes exactly the ids that stand in it, where there is memory for its copy.
pub exclude_tid-joined :
    (host : Host) (i : ℕ) (ids : List ℕ) (tid : ℕ)
    → host.exclude ≡ some (joined i ids)
    → length (joined i ids) < 127
    → All (λ j. j < 2 ^ 31) (i ∷ ids)
    → (exclude_tid host true tid ≡ true) ↔ Some (λ j. j ≡ tid) (i ∷ ids)
unfolding exclude_tid copied excluded_in
exclude_tid-joined host i ids tid e short small =
    subst (λ b. (b ≡ true) ↔ Some (λ j. j ≡ tid) (i ∷ ids)) (sym tested)
      (any-decimal tid (i ∷ ids) small)
  where
    text : Bytes
    text = joined i ids

    begun : ltb (length text) 1 ≡ false
    begun = ground (arith, joined-begun i ids, length-eq-zero text)

    tested : exclude_tid host true tid ≡ any (names_tid tid) (map (λ j. decimal (pos j)) (i ∷ ids))
    tested =
        ap (λ o. elim o [ none ↦ false | some t ↦ excluded_in (copied host t) tid ]) e
        ∙ ap
            (λ b.
              excluded_in (if b then text else first_bytes (max_threads - 1) text ++ host.stale)
                tid)
            (lt→ltb (length text) (max_threads - 1) short)
        ∙ ap (λ b. if b then false else any (names_tid tid) (strsep b',' text)) begun
        ∙ ap (any (names_tid tid)) (strsep-joined i ids)
