-- ===== src/LogFunctions/Leaves.antt =====
-- What each load of `loadFunctions` needs and leaves.
use dinamite.Shared.{
  ℕ, ◌≡◌, subst, inl, inr, refl, sym, ap, arith, Bytes, codes, false, List, [], ◌∷◌, Option, none,
  some, Some, Outcome, value, exited, crashed, ◌>>=◌, Option-cases, get_elem?, zero, suc, ◌+◌, ◌++◌,
}
use dinamite.LogFunctions.{
  ValueKind, ValueSize, row, float, integer, s8, s16, s32, s64, Functions, LogFunctionManager,
  load_external_function, load_row, check_table, load_functions, table,
}

-- The digits of the size in bits, and the letter of a kind.
abbrev pub digits : ValueSize → Bytes
digits s8 = codes "8"
digits s16 = codes "16"
digits s32 = codes "32"
digits s64 = codes "64"

abbrev pub letter : ValueKind → Bytes
letter float = codes "F"
letter integer = codes "I"

abbrev pub access_name : ValueKind → ValueSize → Bytes
access_name kind size = codes "logAccess" ++ letter kind ++ digits size

abbrev pub library_names : List Bytes
library_names =
    codes "logAccessF8"
    ∷ codes "logAccessF16"
    ∷ codes "logAccessF32"
    ∷ codes "logAccessF64"
    ∷ codes "logAccessI8"
    ∷ codes "logAccessI16"
    ∷ codes "logAccessI32"
    ∷ codes "logAccessI64"
    ∷ codes "logAccessPtr"
    ∷ codes "logAccessStaticString"
    ∷ codes "logAlloc"
    ∷ codes "logFnBegin"
    ∷ codes "logFnEnd"
    ∷ codes "logInit"
    ∷ codes "logExit"
    ∷ []

module _ (L : Functions) where
  -- The library has the function, and its declaration in the module is not null.
  abbrev pub Declares : Bytes → L.fn → Type 0
  Declares name f = (ft : L.fn_type) × (L.get_function name ≡ some ft) × (f ≡ L.declare ft name)

  -- Every member is the declaration of the library function that its name says.
  pub record IsLoaded (lfm : LogFunctionManager L) : Type 0 where
    pub accesses :
        (kind : ValueKind) (size : ValueSize)
        → Declares (access_name kind size) (lfm.log_functions kind size)
    pub ptr : Declares (codes "logAccessPtr") lfm.ptr_log_func
    pub string : Declares (codes "logAccessStaticString") lfm.string_log_func
    pub alloc : Declares (codes "logAlloc") lfm.alloc_log_func
    pub fn_begin : Declares (codes "logFnBegin") lfm.fn_begin_log_func
    pub fn_end : Declares (codes "logFnEnd") lfm.fn_end_log_func
    pub init : Declares (codes "logInit") lfm.init_log_func
    pub exit : Declares (codes "logExit") lfm.exit_log_func

  -- Some name of the list is missing from the library.
  abbrev pub Missing : List Bytes → Type 0
  Missing names = Some (λ name. L.get_function name ≡ none) names

  -- The outcome is a value with the property, or a crash where a name is missing; it is no exit.
  abbrev pub Leaves : {A : Type 0} → (A → Type 0) → List Bytes → Outcome A → Type 0
  Leaves P names (value a) = P a
  Leaves P names exited = ⊥
  Leaves P names crashed = Missing names

  bind :
      {A B : Type 0} (P : A → Type 0) (Q : B → Type 0) (names : List Bytes) (m : Outcome A)
      (next : A → Outcome B)
      → Leaves P names m
      → ((a : A) → P a → Leaves Q names (next a))
      → Leaves Q names (m >>= next)
  unfolding ◌>>=◌
  bind P Q names (value a) next h k = k a h
  bind P Q names exited next h k = h
  bind P Q names crashed next h k = h

  Missing-name :
      (name : Bytes) (names : List Bytes) (k : ℕ)
      → L.get_function name ≡ none
      → get_elem? names k ≡ some name
      → Missing names
  Missing-name name [] k e i = cc
  Missing-name name (other ∷ names) zero e i = inl (ground arith)
  Missing-name name (other ∷ names) (suc k) e i = inr (Missing-name name names k e i)

  found-eq :
      (name : Bytes) (o : Option L.fn_type)
      → L.get_function name ≡ o
      → load_external_function L name
        ≡ (elim o [ none ↦ crashed | some ft ↦ value (L.declare ft name) ])
  unfolding load_external_function
  found-eq name o e =
      ap (λ found. elim found [ none ↦ crashed | some ft ↦ value (L.declare ft name) ]) e

  -- One load, of a name of the list.
  one-Leaves :
      (name : Bytes) (k : ℕ)
      → get_elem? library_names k ≡ some name
      → Leaves (Declares name) library_names (load_external_function L name)
  one-Leaves name k i = elim (Option-cases (L.get_function name)) [
    | inl e ↦
        subst (Leaves (Declares name) library_names) (sym (found-eq name none e))
          (Missing-name name library_names k e i)
    | inr (ft, e) ↦
        subst (Leaves (Declares name) library_names) (sym (found-eq name (some ft) e)) (ft, e, refl)
  ]

  abbrev Row : ValueKind → (ValueSize → L.fn) → Type 0
  Row kind r = (size : ValueSize) → Declares (access_name kind size) (r size)

  row-Row :
      (kind : ValueKind) (f8 f16 f32 f64 : L.fn)
      → Declares (access_name kind s8) f8
      → Declares (access_name kind s16) f16
      → Declares (access_name kind s32) f32
      → Declares (access_name kind s64) f64
      → Row kind (row L f8 f16 f32 f64)
  row-Row kind f8 f16 f32 f64 d8 d16 d32 d64 s8 = d8
  row-Row kind f8 f16 f32 f64 d8 d16 d32 d64 s16 = d16
  row-Row kind f8 f16 f32 f64 d8 d16 d32 d64 s32 = d32
  row-Row kind f8 f16 f32 f64 d8 d16 d32 d64 s64 = d64

  table-Row :
      (floats integers : ValueSize → L.fn)
      → Row float floats
      → Row integer integers
      → (kind : ValueKind) → Row kind (table L floats integers kind)
  table-Row floats integers df di float = df
  table-Row floats integers df di integer = di

  load_row-Leaves :
      (kind : ValueKind) (first : ℕ)
      → get_elem? library_names first ≡ some (access_name kind s8)
      → get_elem? library_names (1 + first) ≡ some (access_name kind s16)
      → get_elem? library_names (2 + first) ≡ some (access_name kind s32)
      → get_elem? library_names (3 + first) ≡ some (access_name kind s64)
      → Leaves (Row kind) library_names (load_row L (codes "logAccess" ++ letter kind))
  unfolding load_row
  load_row-Leaves kind first e8 e16 e32 e64 =
      bind _ _ library_names _ _ (one-Leaves (access_name kind s8) first e8) (λ f8 d8.
        bind _ _ library_names _ _ (one-Leaves (access_name kind s16) (1 + first) e16) (λ f16 d16.
          bind _ _ library_names _ _ (one-Leaves (access_name kind s32) (2 + first) e32) (λ f32 d32.
            bind _ _ library_names _ _ (one-Leaves (access_name kind s64) (3 + first) e64)
              (λ f64 d64. row-Row kind f8 f16 f32 f64 d8 d16 d32 d64))))

  -- No declaration is null.
  abbrev pub NeverNull : Type 0
  NeverNull = (ft : L.fn_type) (name : Bytes) → L.is_null (L.declare ft name) ≡ false

  Declares-not_null : NeverNull → (name : Bytes) (f : L.fn) → Declares name f → L.is_null f ≡ false
  Declares-not_null never name f (ft, e, made) = rw made (never ft name)

  check_table-Leaves :
      (lfm : LogFunctionManager L)
      → NeverNull
      → IsLoaded lfm
      → Leaves IsLoaded library_names (check_table L lfm)
  unfolding check_table
  check_table-Leaves lfm never l =
      let null : (kind : ValueKind) (size : ValueSize)
          → L.is_null (lfm.log_functions kind size) ≡ false =
        λ kind size. Declares-not_null never _ _ (l.accesses kind size) in
      rw
        (
          null float s8,
          null float s16,
          null float s32,
          null float s64,
          null integer s8,
          null integer s16,
          null integer s32,
          null integer s64,
        )
        l

  pub load_functions-Leaves : NeverNull → Leaves IsLoaded library_names (load_functions L)
  unfolding load_functions
  load_functions-Leaves never =
      bind _ _ library_names _ _ (load_row-Leaves float 0 refl refl refl refl) (λ floats df.
        bind _ _ library_names _ _ (load_row-Leaves integer 4 refl refl refl refl) (λ integers di.
          bind _ _ library_names _ _ (one-Leaves (codes "logAccessPtr") 8 refl) (λ ptr d_ptr.
            bind _ _ library_names _ _ (one-Leaves (codes "logAccessStaticString") 9 refl)
              (λ string d_string.
                bind _ _ library_names _ _ (one-Leaves (codes "logAlloc") 10 refl) (λ alloc d_alloc.
                  bind _ _ library_names _ _ (one-Leaves (codes "logFnBegin") 11 refl)
                    (λ fn_begin d_begin.
                      bind _ _ library_names _ _ (one-Leaves (codes "logFnEnd") 12 refl)
                        (λ fn_end d_end.
                          bind _ _ library_names _ _ (one-Leaves (codes "logInit") 13 refl)
                            (λ init d_init.
                              bind _ _ library_names _ _ (one-Leaves (codes "logExit") 14 refl)
                                (λ exit d_exit. check_table-Leaves _ never (record {
                                  accesses = table-Row floats integers df di;
                                  ptr = d_ptr;
                                  string = d_string;
                                  alloc = d_alloc;
                                  fn_begin = d_begin;
                                  fn_end = d_end;
                                  init = d_init;
                                  exit = d_exit;
                                }))))))))))
