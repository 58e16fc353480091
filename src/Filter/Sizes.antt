-- ===== src/Filter/Sizes.antt =====
-- `checkFunctionSize`: the sizes that are recorded and the functions that are large enough.
use dinamite.Shared.{
  ℕ, ◌-◌, ◌^◌, ◌<◌, ◌≤◌, Bytes, codes, same, same_iff, same_refl, negsuc, wrap32, to_size,
  size_to_int, true, not, ◌&&◌, [], none, some, ◌≡◌, ◌≢◌, ◌⊎◌, ◌↔◌, if◌then◌else◌, arith, ltb,
  lookup, contains, lookup-assign, IsOrdered, assign-IsOrdered,
}
use dinamite.Json.{Json11}
use dinamite.Filter.{
  InstrumentationFilter, find_best_function_match, record_function_size, size_accepted,
  check_function_size,
}

module _ (J : Json11) where
  -- filters["minimum_function_size"]
  abbrev pub minimum_size : InstrumentationFilter J → J.json
  minimum_size f = J.at f.filters (codes "minimum_function_size")

  size_accepted_iff :
      (f : InstrumentationFilter J) (name : Bytes) (size : ℕ)
      → (size_accepted J f name size ≡ true) ↔ (
          (J.is_null (minimum_size f) ≡ true)
          ⊎ (to_size (J.int_value (minimum_size f)) ≤ size)
          ⊎ (find_best_function_match J f name ≢ codes "*")
            × (find_best_function_match J f name ≢ []))
  unfolding size_accepted
  size_accepted_iff f name size = ground (
    arith,
    same_iff (find_best_function_match J f name) (codes "*"),
    same_iff (find_best_function_match J f name) [],
  )

  record_function_size_keeps :
      (f : InstrumentationFilter J) (name : Bytes) (size : ℕ)
      → (find_best_function_match J (record_function_size J f name size) name
          ≡ find_best_function_match J f name)
        × ((record_function_size J f name size).filters ≡ f.filters)
        × ((record_function_size J f name size).loaded ≡ f.loaded)
  unfolding record_function_size find_best_function_match
  record_function_size_keeps f name size = ground arith

  size_accepted-record_function_size :
      (f : InstrumentationFilter J) (name : Bytes) (size : ℕ)
      → size_accepted J (record_function_size J f name size) name size ≡ size_accepted J f name size
  unfolding size_accepted
  size_accepted-record_function_size f name size =
      ground (arith, record_function_size_keeps f name size)

  record_function_size-lookup :
      (f : InstrumentationFilter J) (name k : Bytes) (size : ℕ)
      → lookup k (record_function_size J f name size).functions ≡ (
          if same name k && ltb 0 size && not (contains name f.functions)
          then some (size_to_int size)
          else lookup k f.functions)
  unfolding record_function_size
  record_function_size-lookup f name k size =
      ground (arith, lookup-assign name k (size_to_int size) f.functions)

  -- The size of a function is accepted exactly if the filters set no minimum, or the size reaches the minimum cast to `size_t`, or the best match of the name is neither "*" nor empty. The recorded size of a name stays as it was, but for the function in question, if its size is not 0 and it had none: then it is the size as an `int`. The filters do not change.
  pub check_function_size_lem :
      (f : InstrumentationFilter J) (name k : Bytes) (size : ℕ)
      → (((check_function_size J f name size).1 ≡ true) ↔ (
          (J.is_null (minimum_size f) ≡ true)
          ⊎ (to_size (J.int_value (minimum_size f)) ≤ size)
          ⊎ (find_best_function_match J f name ≢ codes "*")
            × (find_best_function_match J f name ≢ [])))
        × (lookup k (check_function_size J f name size).0.functions ≡ (
            if same name k && ltb 0 size && not (contains name f.functions)
            then some (size_to_int size)
            else lookup k f.functions))
        × ((check_function_size J f name size).0.filters ≡ f.filters)
  unfolding check_function_size
  check_function_size_lem f name k size = (
    rw (size_accepted-record_function_size f name size) (size_accepted_iff f name size),
    record_function_size-lookup f name k size,
    (record_function_size_keeps f name size).1,
  )

  -- A size of 2^31 or more, but under 2^32, of a function that has none is recorded as a negative number.
  pub record_function_size-negative :
      (f : InstrumentationFilter J) (name : Bytes) (size : ℕ)
      → 2 ^ 31 ≤ size
      → size < 2 ^ 32
      → lookup name f.functions ≡ none
      → lookup name (record_function_size J f name size).functions
        ≡ some (negsuc (2 ^ 32 - 1 - size))
  unfolding contains wrap32
  record_function_size-negative f name size low high absent =
      ground (arith, record_function_size-lookup f name name size, same_refl name)

  pub check_function_size-IsOrdered :
      (f : InstrumentationFilter J) (name : Bytes) (size : ℕ)
      → IsOrdered f.functions
      → IsOrdered (check_function_size J f name size).0.functions
  unfolding check_function_size record_function_size
  check_function_size-IsOrdered f name size o =
      ground (arith, assign-IsOrdered name (size_to_int size) f.functions o)
