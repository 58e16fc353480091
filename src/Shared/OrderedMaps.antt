-- ===== src/Shared/OrderedMaps.antt =====
-- `std::map<string, V>` as the list of its entries in the order of iteration, which is that of the keys.
use mathlib.Core.Path.{◌≡◌, refl}
use mathlib.Core.Bool.{Bool, true, false}
use mathlib.Core.List.{List, [], ◌∷◌}
use mathlib.Core.Option.{Option, none, some}
use native.Mathlib.Omega.{arith}
use dinamite.Shared.Tests.{if◌then◌else◌}
use dinamite.Shared.ByteStrings.{Bytes, same, same_iff, before}

abbrev pub StdMap {ℓ} : Type ℓ → Type ℓ
StdMap V = List (Bytes × V)

module _ {ℓ} {V : Type ℓ} where
  -- `m.find(k)`
  unfoldable pub lookup : Bytes → StdMap V → Option V
  lookup k [] = none
  lookup k ((j, v) ∷ m) = if same j k then some v else lookup k m

  -- `m.count(k) != 0`
  unfoldable pub contains : Bytes → StdMap V → Bool
  contains k m = elim (lookup k m) [ none ↦ false | some _ ↦ true ]

  -- `m[k] = v`
  unfoldable pub assign : Bytes → V → StdMap V → StdMap V
  assign k v [] = (k, v) ∷ []
  assign k v ((j, w) ∷ m) =
      let rest = assign k v m in
      if same j k then (k, v) ∷ m else if before k j then (k, v) ∷ (j, w) ∷ m else (j, w) ∷ rest

  pub lookup-assign :
      (k j : Bytes) (v : V) (m : StdMap V)
      → lookup j (assign k v m) ≡ (if same k j then some v else lookup j m)
  unfolding lookup assign
  lookup-assign k j v [] = refl
  lookup-assign k j v ((i, w) ∷ m) =
      ground (arith, same_iff k j, same_iff i k, same_iff i j, lookup-assign k j v m)

  -- `m.insert(first, last)`: a key that is present keeps its value.
  unfoldable pub insert_all : StdMap V → StdMap V → StdMap V
  insert_all m [] = m
  insert_all m ((k, v) ∷ new) = insert_all (if contains k m then m else assign k v m) new

  pub lookup-insert_all_old :
      (k : Bytes) (v : V) (m new : StdMap V)
      → lookup k m ≡ some v
      → lookup k (insert_all m new) ≡ some v
  unfolding insert_all contains
  lookup-insert_all_old k v m [] h = h
  lookup-insert_all_old k v m ((j, w) ∷ new) h =
      lookup-insert_all_old k v (if contains j m then m else assign j w m) new
        (ground (arith, lookup-assign j k w m, same_iff j k))

  -- A key of the new entries that was absent takes its first new value.
  pub lookup-insert_all_new :
      (k : Bytes) (m new : StdMap V)
      → lookup k m ≡ none
      → lookup k (insert_all m new) ≡ lookup k new
  unfolding insert_all contains lookup
  lookup-insert_all_new k m [] h = h
  lookup-insert_all_new k m ((j, w) ∷ new) h = ground (
    arith,
    lookup-assign j k w m,
    same_iff j k,
    lookup-insert_all_old k w (assign j w m) new,
    lookup-insert_all_new k (if contains j m then m else assign j w m) new,
  )
