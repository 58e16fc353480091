-- ===== src/Shared/IntSets/Subset.antt =====
-- Sets within one another, and their sizes.
use dinamite.Shared.{
  ◌≤◌, ◌≡◌, refl, inl, inr, true, false, [], ◌∷◌, ◌++◌, arith, length, ℤ, lt_ℤ, eq_ℤ, eq_ℤ_iff,
  append_assoc, append-nil, suc, sym, subst, ◌∙◌, Bool-cases,
}
use dinamite.Shared.IntSets.{IntSet, insert, union, In, Above, Increasing}

lt_of_Above : (x z : ℤ) (s : IntSet) → Above x s → In z s → lt_ℤ x z ≡ true
lt_of_Above x z [] a m = absurd m
lt_of_Above x z (y ∷ s) a (inl e) = subst (λ w. lt_ℤ x w ≡ true) e a.0
lt_of_Above x z (y ∷ s) a (inr m) = lt_of_Above x z s a.1 m

lt_ℤ-irrefl : (x : ℤ) → lt_ℤ x x ≡ true → ⊥
lt_ℤ-irrefl x h = ground arith

lt_ℤ-asymm : (x y : ℤ) → lt_ℤ x y ≡ true → lt_ℤ y x ≡ true → ⊥
lt_ℤ-asymm x y h k = ground arith

lt_ℤ_total : (a b : ℤ) → eq_ℤ a b ≡ false → lt_ℤ a b ≡ false → lt_ℤ b a ≡ true
lt_ℤ_total a b h k = ground arith

lt_ℤ-trans : (a b c : ℤ) → lt_ℤ a b ≡ true → lt_ℤ b c ≡ true → lt_ℤ a c ≡ true
lt_ℤ-trans a b c h k = ground arith

In-tail : (y z : ℤ) (t : IntSet) → lt_ℤ y z ≡ true → In z (y ∷ t) → In z t
In-tail y z t lt (inl e) = absurd (lt_ℤ-irrefl z (subst (λ w. lt_ℤ w z ≡ true) e lt))
In-tail y z t lt (inr m) = m

-- An element below the head of an increasing list is not in it.
not-In : (x y : ℤ) (t : IntSet) → lt_ℤ x y ≡ true → Above y t → ¬ In x (y ∷ t)
not-In x y t lt a (inl e) = lt_ℤ-irrefl x (subst (λ w. lt_ℤ x w ≡ true) e lt)
not-In x y t lt a (inr m) = lt_ℤ-asymm x y lt (lt_of_Above y x t a m)

-- What lies below the head lies below every element.
lt_of_lt_head :
    (y x z : ℤ) (s : IntSet) → lt_ℤ y x ≡ true → Above x s → In z (x ∷ s) → lt_ℤ y z ≡ true
lt_of_lt_head y x z s lt a (inl e) = subst (λ w. lt_ℤ y w ≡ true) e lt
lt_of_lt_head y x z s lt a (inr m) = lt_ℤ-trans y x z lt (lt_of_Above x z s a m)

pub length-le_of_subset :
    (s t : IntSet) → Increasing s → Increasing t → ((x : ℤ) → In x s → In x t) → length s ≤ length t
length-le_of_subset [] t i j sub = omega arith
length-le_of_subset (x ∷ s) [] i j sub = absurd (sub x (inl refl))
length-le_of_subset (x ∷ s) (y ∷ t) i j sub = elim (Bool-cases (eq_ℤ x y)) [
  | inl e ↦
      let e' = (eq_ℤ_iff x y).0 e in
      let rest : length s ≤ length t = length-le_of_subset s t i.1 j.1 (λ z m.
        In-tail y z t (subst (λ w. lt_ℤ w z ≡ true) e' (lt_of_Above x z s i.0 m))
          (sub z (inr m))) in
      omega arith
  | inr ne ↦ elim (Bool-cases (lt_ℤ x y)) [
    | inl lt ↦ absurd (not-In x y t lt j.0 (sub x (inl refl)))
    | inr ge ↦
        let rest : suc (length s) ≤ length t =
          length-le_of_subset (x ∷ s) t i j.1
            (λ z m. In-tail y z t (lt_of_lt_head y x z s (lt_ℤ_total x y ne ge) i.0 m) (sub z m)) in
        omega arith
  ]
]

-- Every element of the set lies below `x`.
abbrev Below : IntSet → ℤ → Type 0
Below [] x = Unit
Below (y ∷ s) x = (lt_ℤ y x ≡ true) × Below s x

insert_last : (x : ℤ) (s : IntSet) → Below s x → insert x s ≡ s ++ x ∷ []
unfolding insert
insert_last x [] b = refl
insert_last x (y ∷ s) b = ground (arith, insert_last x s)

Increasing-Below : (x : ℤ) (s t : IntSet) → Increasing (s ++ x ∷ t) → Below s x
Increasing-Below x [] t i = tt
Increasing-Below x (y ∷ s) t i =
    (lt_of_Above y x (s ++ x ∷ t) i.0 (in_middle s), Increasing-Below x s t i.1)
  where
    in_middle : (r : IntSet) → In x (r ++ x ∷ t)
    in_middle [] = inl refl
    in_middle (z ∷ r) = inr (in_middle r)

union-append : (s t : IntSet) → Increasing (s ++ t) → union s t ≡ s ++ t
unfolding union
union-append s [] i = sym (append-nil s)
union-append s (x ∷ t) i =
    let regroup = append_assoc s (x ∷ []) t in
    rw (insert_last x s (Increasing-Below x s t i))
      (union-append (s ++ x ∷ []) t (subst Increasing (sym regroup) i) ∙ regroup)

pub union-nil : (t : IntSet) → Increasing t → union [] t ≡ t
union-nil t i = union-append [] t i
