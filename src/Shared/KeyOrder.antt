-- ===== src/Shared/KeyOrder.antt =====
-- The order of the keys in a `std::map`, and that assignment keeps it.
use mathlib.Core.Path.{◌≡◌, refl}
use mathlib.Core.Bool.{true, false}
use mathlib.Core.List.{[], ◌∷◌, ◌++◌}
use native.Mathlib.Omega.{arith}
use dinamite.Shared.ByteStrings.{Bytes, same, same_iff, before}
use dinamite.Shared.OrderedMaps.{StdMap, assign}

pub before-asymm : (a b : Bytes) → before a b ≡ true → (before b a ≡ false) × (same a b ≡ false)
unfolding before same
before-asymm a [] h = cc
before-asymm [] (y ∷ b) h = (refl, refl)
before-asymm (x ∷ a) (y ∷ b) h = ground (arith, before-asymm a b)

pub before_trans : (a b c : Bytes) → before a b ≡ true → before b c ≡ true → before a c ≡ true
unfolding before
before_trans a [] c h k = cc
before_trans a (y ∷ b) [] h k = cc
before_trans [] (y ∷ b) (z ∷ c) h k = refl
before_trans (x ∷ a) (y ∷ b) (z ∷ c) h k = ground (arith, before_trans a b c)

pub before_total : (a b : Bytes) → same a b ≡ false → before a b ≡ false → before b a ≡ true
unfolding before same
before_total [] [] h k = cc
before_total (x ∷ a) [] h k = refl
before_total [] (y ∷ b) h k = cc
before_total (x ∷ a) (y ∷ b) h k = ground (arith, before_total a b)

module _ {ℓ} {V : Type ℓ} where
  -- Every key of the map stands behind `k`.
  abbrev pub AllBehind : Bytes → StdMap V → Type 0
  AllBehind k [] = Unit
  AllBehind k ((j, _) ∷ m) = (before k j ≡ true) × AllBehind k m

  -- Every key of the map stands before `k`.
  abbrev pub AllBefore : StdMap V → Bytes → Type 0
  AllBefore [] k = Unit
  AllBefore ((j, _) ∷ m) k = (before j k ≡ true) × AllBefore m k

  -- The keys stand in strictly increasing order.
  abbrev pub IsOrdered : StdMap V → Type 0
  IsOrdered [] = Unit
  IsOrdered ((k, _) ∷ m) = AllBehind k m × IsOrdered m

  AllBehind-trans : (i k : Bytes) (m : StdMap V) → before i k ≡ true → AllBehind k m → AllBehind i m
  AllBehind-trans i k [] h a = tt
  AllBehind-trans i k ((j, w) ∷ m) h a = (before_trans i k j h a.0, AllBehind-trans i k m h a.1)

  AllBehind-assign :
      (i k : Bytes) (v : V) (m : StdMap V)
      → before i k ≡ true
      → AllBehind i m
      → AllBehind i (assign k v m)
  unfolding assign
  AllBehind-assign i k v [] h a = (h, tt)
  AllBehind-assign i k v ((j, w) ∷ m) h a = ground (arith, AllBehind-assign i k v m)

  pub assign-IsOrdered : (k : Bytes) (v : V) (m : StdMap V) → IsOrdered m → IsOrdered (assign k v m)
  unfolding assign
  assign-IsOrdered k v [] o = (tt, tt)
  assign-IsOrdered k v ((j, w) ∷ m) o = ground (
    arith,
    same_iff j k,
    same_iff k j,
    before_total k j,
    AllBehind-trans k j m,
    AllBehind-assign j k v m,
    assign-IsOrdered k v m,
  )

  -- A key behind all others is appended.
  pub assign_last :
      (k : Bytes) (v : V) (m : StdMap V) → AllBefore m k → assign k v m ≡ m ++ (k, v) ∷ []
  unfolding assign
  assign_last k v [] h = refl
  assign_last k v ((j, w) ∷ m) h = ground (arith, before-asymm j k, assign_last k v m)

  AllBehind-append :
      (j k : Bytes) (v : V) (m n : StdMap V) → AllBehind j (m ++ (k, v) ∷ n) → before j k ≡ true
  AllBehind-append j k v [] n a = a.0
  AllBehind-append j k v ((i, w) ∷ m) n a = AllBehind-append j k v m n a.1

  pub IsOrdered-AllBefore :
      (k : Bytes) (v : V) (m n : StdMap V) → IsOrdered (m ++ (k, v) ∷ n) → AllBefore m k
  IsOrdered-AllBefore k v [] n o = tt
  IsOrdered-AllBefore k v ((j, w) ∷ m) n o =
      (AllBehind-append j k v m n o.0, IsOrdered-AllBefore k v m n o.1)
