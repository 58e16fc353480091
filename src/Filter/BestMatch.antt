-- ===== src/Filter/BestMatch.antt =====
-- `findBestFunctionMatch`: which entry of the whitelist speaks for a function.
use dinamite.Shared.{
  Bytes, codes, same, same_iff, StdMap, Bool, true, false, [], ◌∷◌, ◌≡◌, ◌≢◌, ◌⊎◌, inl, inr, refl,
  if◌then◌else◌, arith, All, Some,
}
use dinamite.Json.{Json11}
use dinamite.Glob.{glob_match}
use dinamite.Filter.{InstrumentationFilter, function_whitelist, scan_keys, find_best_function_match}

module _ (J : Json11) where
  -- The key is no star and matches the name.
  abbrev pub Serves : Bytes → Bytes → Type 0
  Serves name key = (key ≢ codes "*") × (glob_match key name ≡ true)

  -- The first key that serves the name, in the order of the entries.
  abbrev pub FirstServing : Bytes → Bytes → StdMap (Json11.json J) → Type 0
  FirstServing name key [] = ⊥
  FirstServing name key ((k, v) ∷ es) =
      (k ≡ key) × Serves name k ⊎ (¬ Serves name k) × FirstServing name key es

  -- No key serves the name.
  abbrev pub NoneServes : Bytes → StdMap (Json11.json J) → Type 0
  NoneServes name es = All (λ (e : Bytes × J.json). ¬ Serves name e.0) es

  abbrev pub HasStar : StdMap (Json11.json J) → Type 0
  HasStar es = Some (λ (e : Bytes × J.json). e.0 ≡ codes "*") es

  -- What the loop answers: the first serving key, or else a star that it met, or else nothing.
  abbrev LoopAnswer : Bytes → StdMap (Json11.json J) → Type 0 → Bytes → Type 0
  LoopAnswer name es star_met r =
      FirstServing name r es
      ⊎ NoneServes name es × (star_met ⊎ HasStar es) × (r ≡ codes "*")
      ⊎ NoneServes name es × ¬ (star_met ⊎ HasStar es) × (r ≡ [])

  scan_keys-LoopAnswer :
      (name : Bytes) (es : StdMap (Json11.json J)) (star_met : Bool)
      → LoopAnswer name es (star_met ≡ true) (scan_keys J name es star_met)
  unfolding scan_keys
  scan_keys-LoopAnswer name [] true = inr (inl (tt, inl refl, refl))
  scan_keys-LoopAnswer name [] false = inr (inr (tt, λ h. ground arith, refl))
  scan_keys-LoopAnswer name ((k, v) ∷ es) star_met = ground (
    arith,
    same_iff k (codes "*"),
    scan_keys-LoopAnswer name es (if same k (codes "*") then true else star_met),
  )

  -- A name with an entry of its own is its best match. For any other it is the first key in the map's order that is not "*" and that `globMatch` accepts for the name; if there is none, "*" where that is a key, and else the empty string.
  pub find_best_function_match_lem :
      (f : InstrumentationFilter J) (name : Bytes)
      → (J.is_null (J.at (function_whitelist J f) name) ≡ false)
          × (find_best_function_match J f name ≡ name)
        ⊎ (J.is_null (J.at (function_whitelist J f) name) ≡ true)
          × (FirstServing name
                (find_best_function_match J f name)
                (J.object_items (function_whitelist J f))
              ⊎ NoneServes name (J.object_items (function_whitelist J f))
                × HasStar (J.object_items (function_whitelist J f))
                × (find_best_function_match J f name ≡ codes "*")
              ⊎ NoneServes name (J.object_items (function_whitelist J f))
                × (¬ HasStar (J.object_items (function_whitelist J f)))
                × (find_best_function_match J f name ≡ []))
  unfolding find_best_function_match
  find_best_function_match_lem f name =
      ground (arith, scan_keys-LoopAnswer name (J.object_items (function_whitelist J f)) false)
