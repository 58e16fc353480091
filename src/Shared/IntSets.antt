-- ===== src/Shared/IntSets.antt =====
-- `std::set<int>` as the increasing list of its elements.
pub mod Subset
use Prim.Native.Nat.{ℕ, ◌≤◌, ◌+◌}
use mathlib.Core.Path.{◌≡◌, refl}
use mathlib.Core.Logic.{◌⊎◌, inl, inr, ◌↔◌, ◌≢◌}
use mathlib.Core.Bool.{Bool, true, false}
use mathlib.Core.List.{List, [], ◌∷◌}
use native.Mathlib.Omega.{arith}
use dinamite.Shared.Tests.{if◌then◌else◌}
use dinamite.Shared.Lists.{length, Some}
use dinamite.Shared.Integers.{ℤ, pos, negsuc, lt_ℤ, eq_ℤ, eq_ℤ_iff}

abbrev pub IntSet : Type 0
IntSet = List ℤ

-- `s.insert(x)`
unfoldable pub insert : ℤ → IntSet → IntSet
insert x [] = x ∷ []
insert x (y ∷ s) =
    let rest = insert x s in if eq_ℤ x y then y ∷ s else if lt_ℤ x y then x ∷ y ∷ s else y ∷ rest

-- `s.insert(t.begin(), t.end())`
unfoldable pub union : IntSet → IntSet → IntSet
union s [] = s
union s (x ∷ t) = union (insert x s) t

-- `s.size()`
abbrev pub size : IntSet → ℕ
size s = length s

abbrev pub In : ℤ → IntSet → Type 0
In x s = Some (λ y. y ≡ x) s

abbrev pub Above : ℤ → IntSet → Type 0
Above x [] = Unit
Above x (y ∷ s) = (lt_ℤ x y ≡ true) × Above x s

abbrev pub Increasing : IntSet → Type 0
Increasing [] = Unit
Increasing (x ∷ s) = Above x s × Increasing s

lt_ℤ-trans : (a b c : ℤ) → lt_ℤ a b ≡ true → lt_ℤ b c ≡ true → lt_ℤ a c ≡ true
lt_ℤ-trans a b c h k = ground arith

lt_ℤ_total : (a b : ℤ) → eq_ℤ a b ≡ false → lt_ℤ a b ≡ false → lt_ℤ b a ≡ true
lt_ℤ_total a b h k = ground arith

pub In-insert : (x y : ℤ) (s : IntSet) → In y (insert x s) ↔ ((x ≡ y) ⊎ In y s)
unfolding insert
In-insert x y [] = ground arith
In-insert x y (z ∷ s) = ground (arith, eq_ℤ_iff x z, In-insert x y s)

pub In-union : (y : ℤ) (s t : IntSet) → In y (union s t) ↔ (In y s ⊎ In y t)
unfolding union
In-union y s [] = ground arith
In-union y s (x ∷ t) = ground (arith, In-union y (insert x s) t, In-insert x y s)

Above-trans : (x y : ℤ) (s : IntSet) → lt_ℤ x y ≡ true → Above y s → Above x s
Above-trans x y [] h a = tt
Above-trans x y (z ∷ s) h a = (lt_ℤ-trans x y z h a.0, Above-trans x y s h a.1)

Above-insert : (x y : ℤ) (s : IntSet) → lt_ℤ y x ≡ true → Above y s → Above y (insert x s)
unfolding insert
Above-insert x y [] h a = (h, tt)
Above-insert x y (z ∷ s) h a = ground (arith, Above-insert x y s)

pub insert-Increasing : (x : ℤ) (s : IntSet) → Increasing s → Increasing (insert x s)
unfolding insert
insert-Increasing x [] i = (tt, tt)
insert-Increasing x (y ∷ s) i =
    ground (arith, lt_ℤ_total x y, Above-trans x y s, Above-insert x y s, insert-Increasing x s)

pub union-Increasing : (s t : IntSet) → Increasing s → Increasing (union s t)
unfolding union
union-Increasing s [] i = i
union-Increasing s (x ∷ t) i = union-Increasing (insert x s) t (insert-Increasing x s i)
