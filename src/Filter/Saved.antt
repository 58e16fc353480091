-- ===== src/Filter/Saved.antt =====
-- The sizes that the destructor writes to `function_sizes.json` and the next constructor reads.
use dinamite.Shared.{
  sym, same, ltb, ◌&&◌, not, size_to_int, if◌then◌else◌, ℕ, Bytes, codes, ℤ, List, [], ◌∷◌, ◌≡◌,
  refl, Option, none, some, arith, lookup, contains, IsOrdered, same_iff, ◌∙◌, ap,
}
use dinamite.Json.{Json11, ReadsBack}
use dinamite.Environment.{Files, write_file-eq, maps_path}
use dinamite.Environment.Reload.{assign_entries-reload, assign_entries-IsOrdered}
use dinamite.Filter.{
  InstrumentationFilter, saved_functions, create, destroy, check_function_size,
  record_function_size,
}
use dinamite.Filter.Sizes.{check_function_size_lem, check_function_size-IsOrdered}

-- The first of two values that is there.
abbrev pub earlier : Option ℤ → Option ℤ → Option ℤ
earlier none o = o
earlier (some v) o = some v

earlier-none : (o : Option ℤ) → earlier o none ≡ o
earlier-none none = refl
earlier-none (some v) = refl

-- The size of the first check of the name that is not 0.
abbrev pub first_size : Bytes → List (Bytes × ℕ) → Option ℤ
first_size k [] = none
first_size k ((name, size) ∷ rest) =
    if same name k && ltb 0 size then some (size_to_int size) else first_size k rest

module _ (J : Json11) where
  -- `checkFunctionSize` for one function after another.
  pub check_sizes : InstrumentationFilter J → List (Bytes × ℕ) → InstrumentationFilter J
  check_sizes f [] = f
  check_sizes f ((name, size) ∷ rest) = check_sizes (check_function_size J f name size).0 rest

  check_sizes-IsOrdered :
      (f : InstrumentationFilter J) (calls : List (Bytes × ℕ))
      → IsOrdered f.functions
      → IsOrdered (check_sizes f calls).functions
  unfolding check_sizes
  check_sizes-IsOrdered f [] o = o
  check_sizes-IsOrdered f ((name, size) ∷ rest) o =
      check_sizes-IsOrdered (check_function_size J f name size).0 rest
        (check_function_size-IsOrdered J f name size o)

  check_sizes-fname :
      (f : InstrumentationFilter J) (calls : List (Bytes × ℕ))
      → (check_sizes f calls).fname ≡ f.fname
  unfolding check_sizes check_function_size record_function_size
  check_sizes-fname f [] = refl
  check_sizes-fname f ((name, size) ∷ rest) =
      check_sizes-fname (record_function_size J f name size) rest ∙ ground arith

  check_sizes-lookup :
      (f : InstrumentationFilter J) (calls : List (Bytes × ℕ)) (k : Bytes)
      → lookup k (check_sizes f calls).functions
        ≡ earlier (lookup k f.functions) (first_size k calls)
  unfolding check_sizes contains
  check_sizes-lookup f [] k = sym (earlier-none (lookup k f.functions))
  check_sizes-lookup f ((name, size) ∷ rest) k =
      check_sizes-lookup (check_function_size J f name size).0 rest k
      ∙ ap (λ o. earlier o (first_size k rest)) (check_function_size_lem J f name k size).1
      ∙ by_cases
    where
      by_cases :
          earlier
            (if same name k && ltb 0 size && not (contains name f.functions)
              then some (size_to_int size)
              else lookup k f.functions)
            (first_size k rest)
          ≡ earlier (lookup k f.functions) (first_size k ((name, size) ∷ rest))
      by_cases = ground (arith, same_iff name k)

  saved_functions-IsOrdered : (text : Option Bytes) → IsOrdered (saved_functions J text)
  unfolding saved_functions
  saved_functions-IsOrdered none = tt
  saved_functions-IsOrdered (some text) =
      assign_entries-IsOrdered J [] (J.object_items (J.parse text)) tt

  create-destroy :
      (env : Option Bytes) (files : Files) (f : InstrumentationFilter J)
      → ReadsBack J
      → f.fname ≡ maps_path env (codes "function_sizes.json")
      → IsOrdered f.functions
      → (create J env (destroy J f files)).functions ≡ f.functions
  unfolding create destroy saved_functions
  create-destroy env files f back path o =
      let text = J.dump (J.of_map f.functions) in
      ap (saved_functions J) (write_file-eq files text path)
      ∙ assign_entries-reload J back f.functions o

  -- Where dumped maps are read back, a run that starts in the maps directory, checks the sizes of any functions and ends leaves its sizes to the next run in the same directory. The size of a name is then the one that the run found saved, and where there was none, that of the first check of the name with a size other than 0, as an `int`; a name without either has none.
  pub create-destroy-check_sizes :
      (env : Option Bytes) (files : Files) (calls : List (Bytes × ℕ)) (k : Bytes)
      → ReadsBack J
      → ((create J env (destroy J (check_sizes (create J env files) calls) files)).functions
          ≡ (check_sizes (create J env files) calls).functions)
        × (lookup k
              (create J env (destroy J (check_sizes (create J env files) calls) files)).functions
            ≡ earlier (lookup k (create J env files).functions) (first_size k calls))
  create-destroy-check_sizes env files calls k back =
      let f = create J env files in
      let same_sizes =
        create-destroy env files (check_sizes f calls) back
          (check_sizes-fname f calls ∙ (unfold create in refl))
          (check_sizes-IsOrdered f calls (unfold create in saved_functions-IsOrdered _)) in
      (same_sizes, ap (lookup k) same_sizes ∙ check_sizes-lookup f calls k)
