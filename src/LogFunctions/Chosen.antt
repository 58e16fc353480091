-- ===== src/LogFunctions/Chosen.antt =====
-- `getLogFunction` and `isLogFunction` on the functions that `loadFunctions` loaded.
use dinamite.Shared.{
  ℕ, ◌≡◌, ◌≢◌, ◌↔◌, ◌⊎◌, inl, inr, refl, sym, ap, ◌∙◌, arith, Bytes, codes, same, same_iff, Bool,
  true, false, ◌||◌, List, [], ◌∷◌, Some, any, any-Some, Some-any, Bool-cases, same_refl, value,
  exited, ◌==◌, ==_iff,
}
use dinamite.LogFunctions.{
  ValueKind, ValueSize, ValueType, float, integer, s8, s16, s32, s64, Functions, LogFunctionManager,
  integer_function, get_log_function, is_log_function,
}
use dinamite.LogFunctions.Leaves.{access_name, IsLoaded, Declares}

-- The names that the loop and the two tests before it know.
abbrev pub recognised_names : List Bytes
recognised_names =
    codes "logAccessPtr"
    ∷ codes "logAlloc"
    ∷ codes "logAccessF8"
    ∷ codes "logAccessF16"
    ∷ codes "logAccessF32"
    ∷ codes "logAccessF64"
    ∷ codes "logAccessI8"
    ∷ codes "logAccessI16"
    ∷ codes "logAccessI32"
    ∷ codes "logAccessI64"
    ∷ []

abbrev pub width : ValueSize → ℕ
width s8 = 8
width s16 = 16
width s32 = 32
width s64 = 64

regroup :
    (a b c d e f g h i j : Bool)
    → (a || b || (c || d || e || f || g || h || i || j))
      ≡ (a || (b || (c || (d || (e || (f || (g || (h || (i || (j || false))))))))))
regroup true b c d e f g h i j = refl
regroup false true c d e f g h i j = refl
regroup false false true d e f g h i j = refl
regroup false false false true e f g h i j = refl
regroup false false false false true f g h i j = refl
regroup false false false false false true g h i j = refl
regroup false false false false false false true h i j = refl
regroup false false false false false false false true i j = refl
regroup false false false false false false false false true j = refl
regroup false false false false false false false false false true = refl
regroup false false false false false false false false false false = refl

Some-same :
    (f : Bytes) (names : List Bytes)
    → Some (λ name. same f name ≡ true) names ↔ Some (λ name. f ≡ name) names
Some-same f [] = (λ h. h, λ h. h)
Some-same f (name ∷ names) = ground (arith, same_iff f name, Some-same f names)

no_width :
    (bits : ℕ) (size : ValueSize)
    → (bits == 8) ≡ false
    → (bits == 16) ≡ false
    → (bits == 32) ≡ false
    → (bits == 64) ≡ false
    → bits ≢ width size
no_width bits s8 e8 e16 e32 e64 q = ground arith
no_width bits s16 e8 e16 e32 e64 q = ground arith
no_width bits s32 e8 e16 e32 e64 q = ground arith
no_width bits s64 e8 e16 e32 e64 q = ground arith

module _ (L : Functions) where
  integer_function-cases :
      (lfm : LogFunctionManager L) (bits : ℕ)
      → ((size : ValueSize) × ((bits ≡ width size) ⊎ (bits ≡ 1) × (size ≡ s8))
          × (integer_function L lfm bits ≡ value (lfm.log_functions integer size)))
        ⊎ ((size : ValueSize) → bits ≢ width size)
          × (bits ≢ 1)
          × (integer_function L lfm bits ≡ exited)
  unfolding integer_function
  integer_function-cases lfm bits = elim (Bool-cases (bits == 1)) [
    | inl e ↦ inl (s8, inr ((==_iff bits 1).0 e, refl), rw e refl)
    | inr e1 ↦ elim (Bool-cases (bits == 8)) [
      | inl e ↦ inl (s8, inl ((==_iff bits 8).0 e), rw e (ground arith))
      | inr e8 ↦ elim (Bool-cases (bits == 16)) [
        | inl e ↦ inl (s16, inl ((==_iff bits 16).0 e), rw (e1, e8, e) refl)
        | inr e16 ↦ elim (Bool-cases (bits == 32)) [
          | inl e ↦ inl (s32, inl ((==_iff bits 32).0 e), rw (e1, e8, e16, e) refl)
          | inr e32 ↦ elim (Bool-cases (bits == 64)) [
            | inl e ↦ inl (s64, inl ((==_iff bits 64).0 e), rw (e1, e8, e16, e32, e) refl)
            | inr e64 ↦ inr (
              λ size q. no_width bits size e8 e16 e32 e64 q,
              λ q. ground arith,
              rw (e1, e8, e16, e32, e64) refl,
            )
          ]
        ]
      ]
    ]
  ]

  -- A declaration has the name it was asked for.
  abbrev pub KeepsNames : Type 0
  KeepsNames = (ft : L.fn_type) (name : Bytes) → L.name (L.declare ft name) ≡ name

  Declares-name : KeepsNames → (name : Bytes) (f : L.fn) → Declares L name f → L.name f ≡ name
  Declares-name keeps name f (ft, e, made) = ap L.name made ∙ keeps ft name

  is_log_function-any :
      (lfm : LogFunctionManager L) (f : Bytes)
      → KeepsNames
      → IsLoaded L lfm
      → is_log_function L lfm f ≡ any (same f) recognised_names
  unfolding is_log_function
  is_log_function-any lfm f keeps l =
      let named : (kind : ValueKind) (size : ValueSize)
          → L.name (lfm.log_functions kind size) ≡ access_name kind size =
        λ kind size. Declares-name keeps _ _ (l.accesses kind size) in
      rw
        (
          Declares-name keeps _ _ l.ptr,
          Declares-name keeps _ _ l.alloc,
          named float s8,
          named float s16,
          named float s32,
          named float s64,
          named integer s8,
          named integer s16,
          named integer s32,
          named integer s64,
        )
        (regroup (same f (codes "logAccessPtr")) (same f (codes "logAlloc"))
          (same f (access_name float s8)) (same f (access_name float s16))
          (same f (access_name float s32)) (same f (access_name float s64))
          (same f (access_name integer s8)) (same f (access_name integer s16))
          (same f (access_name integer s32)) (same f (access_name integer s64)))

  -- Where declarations keep their names, `isLogFunction` answers yes exactly for the names of the list: not for the functions of static strings, of function events, of the start and of the end.
  pub is_log_function_iff :
      (lfm : LogFunctionManager L) (f : Bytes)
      → KeepsNames
      → IsLoaded L lfm
      → (is_log_function L lfm f ≡ true) ↔ Some (λ name. f ≡ name) recognised_names
  is_log_function_iff lfm f keeps l =
      let e = is_log_function-any lfm f keeps l in
      (
        λ h. (Some-same f recognised_names).0 (any-Some (same f) recognised_names (sym e ∙ h)),
        λ s. e ∙ Some-any (same f) recognised_names ((Some-same f recognised_names).1 s),
      )

  -- An integer of 8, 16, 32 or 64 bits is logged by the integer function of its width, one of 1 bit by that of 8 bits, and any other width ends the compilation.
  pub get_log_function-integer :
      (lfm : LogFunctionManager L) (t : ValueType) (parent : Bytes)
      → KeepsNames
      → IsLoaded L lfm
      → t.is_floating_point ≡ false
      → t.is_pointer ≡ false
      → t.is_integer ≡ true
      → ((size : ValueSize) × (f : L.fn) × ((t.scalar_size_in_bits ≡ width size)
            ⊎ (t.scalar_size_in_bits ≡ 1) × (size ≡ s8))
          × (get_log_function L lfm t parent ≡ value f)
          × (L.name f ≡ access_name integer size))
        ⊎ ((size : ValueSize) → t.scalar_size_in_bits ≢ width size)
          × (t.scalar_size_in_bits ≢ 1)
          × (get_log_function L lfm t parent ≡ exited)
  unfolding get_log_function
  get_log_function-integer lfm t parent keeps l fp ptr int =
      let named : (size : ValueSize)
          → L.name (lfm.log_functions integer size) ≡ access_name integer size =
        λ size. Declares-name keeps _ _ (l.accesses integer size) in
      rw (fp, ptr, int)
        (elim (integer_function-cases lfm t.scalar_size_in_bits) [
          | inl (size, e, r) ↦ inl (size, lfm.log_functions integer size, e, r, named size)
          | inr (other, one, r) ↦ inr (other, one, r)
        ])

  table-recognised :
      (lfm : LogFunctionManager L) (kind : ValueKind) (size : ValueSize)
      → is_log_function L lfm (L.name (lfm.log_functions kind size)) ≡ true
  unfolding is_log_function
  table-recognised lfm float s8 = ground (arith, same_refl (L.name (lfm.log_functions float s8)))
  table-recognised lfm float s16 = ground (arith, same_refl (L.name (lfm.log_functions float s16)))
  table-recognised lfm float s32 = ground (arith, same_refl (L.name (lfm.log_functions float s32)))
  table-recognised lfm float s64 = ground (arith, same_refl (L.name (lfm.log_functions float s64)))
  table-recognised lfm integer s8 =
      ground (arith, same_refl (L.name (lfm.log_functions integer s8)))
  table-recognised lfm integer s16 =
      ground (arith, same_refl (L.name (lfm.log_functions integer s16)))
  table-recognised lfm integer s32 =
      ground (arith, same_refl (L.name (lfm.log_functions integer s32)))
  table-recognised lfm integer s64 =
      ground (arith, same_refl (L.name (lfm.log_functions integer s64)))

  ptr-recognised :
      (lfm : LogFunctionManager L) → is_log_function L lfm (L.name lfm.ptr_log_func) ≡ true
  unfolding is_log_function
  ptr-recognised lfm = rw (same_refl (L.name lfm.ptr_log_func)) refl

  -- A function that `getLogFunction` selects is recognised by `isLogFunction`, except the one for static strings, which only values in `__dinamite_tracepoint` select; a value that is no number and no pointer selects the null pointer.
  pub get_log_function-is_log_function :
      (lfm : LogFunctionManager L) (t : ValueType) (parent : Bytes) (f : L.fn)
      → get_log_function L lfm t parent ≡ value f
      → (is_log_function L lfm (L.name f) ≡ true)
        ⊎ (parent ≡ codes "__dinamite_tracepoint") × (f ≡ lfm.string_log_func)
        ⊎ (f ≡ L.null)
          × (t.is_floating_point ≡ false)
          × (t.is_pointer ≡ false)
          × (t.is_integer ≡ false)
  unfolding get_log_function integer_function
  get_log_function-is_log_function lfm t parent f h = ground (
    arith,
    table-recognised lfm float s64,
    table-recognised lfm integer s8,
    table-recognised lfm integer s16,
    table-recognised lfm integer s32,
    table-recognised lfm integer s64,
    ptr-recognised lfm,
    same_iff parent (codes "__dinamite_tracepoint"),
  )
