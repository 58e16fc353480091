-- ===== src/Filter/FileNames.antt =====
-- `checkFileFilter` and `checkFileBlacklist`: which source files are instrumented.
use dinamite.Shared.{
  Bytes, true, false, List, [], ◌∷◌, ◌≡◌, ◌⊎◌, ◌↔◌, arith, Some, All, any, length-eq-zero,
}
use dinamite.Json.{Json11}
use dinamite.Glob.{star, Matches, double_star_end}
use dinamite.Glob.Correct.{glob_match-Matches}
use dinamite.Filter.{
  InstrumentationFilter, file_whitelist, file_blacklist, matches_entry, check_file_blacklist,
  check_file_filter,
}

module _ (J : Json11) where
  -- Some entry, behind a star, matches the name.
  abbrev pub MatchesSome : List J.json → Bytes → Type 0
  MatchesSome entries name = Some (λ e. Matches (star ∷ J.string_value e) name) entries

  -- No entry, behind a star, ends in two stars: none is "*", and none ends in "**".
  abbrev pub NoDoubleStar : List J.json → Type 0
  NoDoubleStar entries = All (λ e. double_star_end (star ∷ J.string_value e) ≡ false) entries

  any-MatchesSome :
      (name : Bytes) (entries : List J.json)
      → NoDoubleStar entries
      → (any (matches_entry J name) entries ≡ true) ↔ MatchesSome entries name
  any-MatchesSome name [] h = (λ e. cc, λ e. absurd e)
  any-MatchesSome name (e ∷ entries) h =
      ground
        (arith, glob_match-Matches (star ∷ J.string_value e) name, any-MatchesSome name entries)

  -- With a filter file loaded whose file entries do not end in two stars behind the star put before them, a file is instrumented exactly if no entry of a blacklist that is not null matches its name, and the whitelist is null, or empty, or has an entry that matches.
  pub check_file_filter_iff :
      (f : InstrumentationFilter J) (name : Bytes)
      → f.loaded ≡ true
      → NoDoubleStar (J.array_items (file_blacklist J f))
      → NoDoubleStar (J.array_items (file_whitelist J f))
      → (check_file_filter J f name ≡ true)
        ↔ (¬ (
            (J.is_null (file_blacklist J f) ≡ false)
            × MatchesSome (J.array_items (file_blacklist J f)) name))
          × ((J.is_null (file_whitelist J f) ≡ true)
              ⊎ (J.array_items (file_whitelist J f) ≡ [])
              ⊎ MatchesSome (J.array_items (file_whitelist J f)) name)
  unfolding check_file_filter check_file_blacklist
  check_file_filter_iff f name h b w = ground (
    arith,
    any-MatchesSome name (J.array_items (file_blacklist J f)) b,
    any-MatchesSome name (J.array_items (file_whitelist J f)) w,
    length-eq-zero (J.array_items (file_whitelist J f)),
  )
