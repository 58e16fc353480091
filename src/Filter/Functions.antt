-- ===== src/Filter/Functions.antt =====
-- `checkFunctionFilter` and `checkFunctionBlacklist`: which events of a function are instrumented.
use dinamite.Shared.{
  Bytes, codes, same, same_iff, Bool, true, false, [], ◌∷◌, ◌≡◌, ◌≢◌, ◌⊎◌, ◌↔◌, arith, Some, any,
  length-eq-zero, any-Some, Some-any, List,
}
use dinamite.Json.{Json11}
use dinamite.Glob.{star, glob_match}
use dinamite.Filter.{
  InstrumentationFilter, function_whitelist, function_blacklist, find_best_function_match,
  check_function_blacklist, matches_entry, event_listed, check_function_filter_body,
  check_function_filter,
}

module _ (J : Json11) where
  -- The answer is the body's with the answer for "*" in the place of the recursive call, as in the source.
  pub check_function_filter_unfold :
      (f : InstrumentationFilter J) (name event : Bytes)
      → check_function_filter J f name event
        ≡ check_function_filter_body J f (check_function_filter J f (codes "*") event) name event
  unfolding check_function_filter check_function_filter_body same
  check_function_filter_unfold f name event = ground (arith, same_iff name (codes "*"))

  -- An entry of the blacklist whose text, behind a star, matches the name.
  abbrev pub Blacklisted : InstrumentationFilter J → Bytes → Type 0
  Blacklisted f name =
      (J.is_null (function_blacklist J f) ≡ false)
      × Some (λ e. glob_match (star ∷ J.string_value e) name ≡ true)
          (J.array_items (function_blacklist J f))

  check_function_blacklist_iff :
      (f : InstrumentationFilter J) (name : Bytes)
      → f.loaded ≡ true
      → (check_function_blacklist J f name ≡ true) ↔ Blacklisted f name
  unfolding check_function_blacklist
  check_function_blacklist_iff f name h = ground (
    arith,
    any-Some (matches_entry J name) (J.array_items (function_blacklist J f)),
    Some-any (matches_entry J name) (J.array_items (function_blacklist J f)),
  )

  -- The event is among those of an entry of the whitelist.
  abbrev pub Lists : J.json → Bytes → Type 0
  Lists entry event =
      Some (λ e. J.string_value e ≡ event) (J.array_items (J.at entry (codes "events")))

  any-Lists :
      (event : Bytes) (es : List J.json)
      → (any (λ it. same event (J.string_value it)) es ≡ true)
        ↔ Some (λ e. J.string_value e ≡ event) es
  any-Lists event [] = (λ h. cc, λ h. absurd h)
  any-Lists event (e ∷ es) = ground (arith, same_iff event (J.string_value e), any-Lists event es)

  event_listed_iff :
      (f : InstrumentationFilter J) (name event : Bytes)
      → (event_listed J f name event ≡ true)
        ↔ Lists (J.at (function_whitelist J f) (find_best_function_match J f name)) event
  unfolding event_listed
  event_listed_iff f name event = any-Lists event _

  -- No entry in the whitelist of functions.
  abbrev pub NoWhitelist : InstrumentationFilter J → Type 0
  NoWhitelist f = J.object_items (function_whitelist J f) ≡ []

  -- The whitelist lets the event through for the name: it is empty, or it lists the event for the best match.
  abbrev pub Whitelisted : InstrumentationFilter J → Bytes → Bytes → Type 0
  Whitelisted f name event =
      NoWhitelist f
      ⊎ Lists (J.at (function_whitelist J f) (find_best_function_match J f name)) event

  body_iff :
      (f : InstrumentationFilter J) (star_answer : Bool) (name event : Bytes)
      → f.loaded ≡ true
      → (check_function_filter_body J f star_answer name event ≡ true)
        ↔ (¬ Blacklisted f name)
          × ((name ≢ codes "*") × (star_answer ≡ true) ⊎ Whitelisted f name event)
  unfolding check_function_filter_body
  body_iff f star_answer name event h = ground (
    arith,
    check_function_blacklist_iff f name,
    same_iff name (codes "*"),
    length-eq-zero (J.object_items (function_whitelist J f)),
    event_listed_iff f name event,
  )

  -- With a filter file loaded, an event of a function is instrumented exactly if no blacklist entry matches the name, and the whitelist lets the event through for the name or, for a name other than "*", for "*" where no blacklist entry matches "*".
  pub check_function_filter_iff :
      (f : InstrumentationFilter J) (name event : Bytes)
      → f.loaded ≡ true
      → (check_function_filter J f name event ≡ true)
        ↔ (¬ Blacklisted f name)
          × ((name ≢ codes "*") × (¬ Blacklisted f (codes "*")) × Whitelisted f (codes "*") event
              ⊎ Whitelisted f name event)
  unfolding check_function_filter
  check_function_filter_iff f name event h = ground (
    arith,
    body_iff f (check_function_filter_body J f false (codes "*") event) name event,
    body_iff f false (codes "*") event,
  )
