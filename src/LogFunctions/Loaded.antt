-- ===== src/LogFunctions/Loaded.antt =====
-- What `loadFunctions` needs and leaves.
use dinamite.Shared.{
  ◌≡◌, ◌⊎◌, inl, inr, refl, arith, Bytes, List, [], ◌∷◌, none, some, All, Outcome, value, exited,
  crashed,
}
use dinamite.LogFunctions.{
  float, integer, s8, s16, s32, s64, Functions, LogFunctionManager, load_functions,
}
-- The digits of the size in bits, and the letter of a kind.
use dinamite.LogFunctions.Leaves.{
  library_names, Declares, IsLoaded, Missing, Leaves, NeverNull, load_functions-Leaves,
}

module _ (L : Functions) where
  Missing-found :
      (names : List Bytes)
      → All (λ name. (ft : L.fn_type) × (L.get_function name ≡ some ft)) names
      → ¬ Missing L names
  Missing-found [] a m = m
  Missing-found (name ∷ names) a (inl e) = ground arith
  Missing-found (name ∷ names) a (inr m) = Missing-found names a.1 m

  missing-Declared : (name : Bytes) (f : L.fn) → L.get_function name ≡ none → ¬ Declares L name f
  missing-Declared name f e (ft, h, made) = ground arith

  Missing-Declares :
      (names : List Bytes) → All (λ name. (f : L.fn) × Declares L name f) names → ¬ Missing L names
  Missing-Declares [] a m = m
  Missing-Declares (name ∷ names) a (inl e) = missing-Declared name a.0.0 e a.0.1
  Missing-Declares (name ∷ names) a (inr m) = Missing-Declares names a.1 m

  IsLoaded-found :
      (lfm : LogFunctionManager L)
      → IsLoaded L lfm
      → All (λ name. (f : L.fn) × Declares L name f) library_names
  IsLoaded-found lfm l = (
    (_, l.accesses float s8),
    (
      (_, l.accesses float s16),
      (
        (_, l.accesses float s32),
        (
          (_, l.accesses float s64),
          (
            (_, l.accesses integer s8),
            (
              (_, l.accesses integer s16),
              (
                (_, l.accesses integer s32),
                (
                  (_, l.accesses integer s64),
                  (
                    (_, l.ptr),
                    (
                      (_, l.string),
                      (
                        (_, l.alloc),
                        ((_, l.fn_begin), ((_, l.fn_end), ((_, l.init), ((_, l.exit), tt)))),
                      ),
                    ),
                  ),
                ),
              ),
            ),
          ),
        ),
      ),
    ),
  )

  Leaves-cases :
      (o : Outcome (LogFunctionManager L))
      → Leaves L (IsLoaded L) library_names o
      → ((lfm : LogFunctionManager L) × (o ≡ value lfm) × IsLoaded L lfm)
        ⊎ (o ≡ crashed) × Missing L library_names
  Leaves-cases (value lfm) h = inl (lfm, refl, h)
  Leaves-cases exited h = absurd h
  Leaves-cases crashed h = inr (refl, h)

  pub load_functions-cases :
      NeverNull L
      → ((lfm : LogFunctionManager L) × (load_functions L ≡ value lfm) × IsLoaded L lfm)
        ⊎ (load_functions L ≡ crashed) × Missing L library_names
  load_functions-cases never = Leaves-cases (load_functions L) (load_functions-Leaves L never)

  -- If `Function::Create` gives no null pointer: with every name of the list in the library, `loadFunctions` ends, and each member is the declaration of the library function of its name; with some name missing it reads through a null pointer, and never takes its exit for a missing function.
  pub load_functions_lem :
      NeverNull L
      → (All (λ name. (ft : L.fn_type) × (L.get_function name ≡ some ft)) library_names
          → (lfm : LogFunctionManager L) × (load_functions L ≡ value lfm) × IsLoaded L lfm)
        × (Missing L library_names → load_functions L ≡ crashed)
  load_functions_lem never = elim (load_functions-cases never) [
    | inl (lfm, e, l) ↦ (
      λ found. (lfm, e, l),
      λ m. absurd (Missing-Declares library_names (IsLoaded-found lfm l) m),
    )
    | inr (e, m) ↦ (λ found. absurd (Missing-found library_names found m), λ _. e)
  ]
