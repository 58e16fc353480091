-- ===== src/LogFunctions.antt =====
-- LogFunctionManager.hpp and LogFunctionManager.cpp: the functions of the instrumentation library that
-- the pass calls, and the choice among them by the type of a value.
pub mod Leaves
pub mod Loaded
pub mod Chosen
use dinamite.Shared.{
  ℕ, Bytes, codes, same, Bool, true, false, ◌||◌, [], ◌++◌, Option, none, some, ◌==◌, if◌then◌else◌,
  Outcome, value, exited, crashed, ◌>>=◌,
}
use dinamite.Environment.{env_value}

-- `value_types` and `value_sizes`; the two `_MAX` members count the others.
pub data ValueKind : Type 0 where
  float integer : ValueKind

pub data ValueSize : Type 0 where
  s8 s16 s32 s64 : ValueSize

-- What LLVM answers of the type of a value.
pub record ValueType : Type 0 where
  pub is_floating_point : Bool
  pub is_integer : Bool
  pub is_pointer : Bool
  pub scalar_size_in_bits : ℕ

-- `getSizeIndex`
unfoldable pub get_size_index : ℕ → ValueSize
get_size_index size =
    if size == 8
    then s8
    else if size == 16
    then s16
    else if size == 32
    then s32
    else if size == 64
    then s64
    else s8

-- `getInstrumentationLibPath`
unfoldable pub get_instrumentation_lib_path : Option Bytes → Bytes
get_instrumentation_lib_path inst_lib = elim (env_value inst_lib) [
  | none ↦ codes "./library/instrumentation.bc"
  | some dir ↦ dir ++ codes "/instrumentation.bc"
]

-- The calls of LLVM: `Fn` is `Function *`, with the null pointer among its values; `get_function` looks
-- a name up in the library's module, and `declare` is `Function::Create` in the module at hand.
pub record Functions : Type 1 where
  pub fn : Type 0
  pub null : fn
  pub is_null : fn → Bool
  pub name : fn → Bytes
  pub fn_type : Type 0
  pub get_function : Bytes → Option fn_type
  pub declare : fn_type → Bytes → fn

module _ (L : Functions) where
  pub record LogFunctionManager : Type 0 where
    pub log_functions : ValueKind → ValueSize → L.fn
    pub ptr_log_func : L.fn
    pub string_log_func : L.fn
    pub alloc_log_func : L.fn
    pub fn_begin_log_func : L.fn
    pub fn_end_log_func : L.fn
    pub init_log_func : L.fn
    pub exit_log_func : L.fn

  -- `loadExternalFunction`: a name that the library lacks is read through a null pointer.
  unfoldable pub load_external_function : Bytes → Outcome L.fn
  load_external_function name = elim (L.get_function name) [
    | none ↦ crashed
    | some ft ↦ value (L.declare ft name)
  ]

  abbrev pub row : L.fn → L.fn → L.fn → L.fn → ValueSize → L.fn
  row f8 f16 f32 f64 s8 = f8
  row f8 f16 f32 f64 s16 = f16
  row f8 f16 f32 f64 s32 = f32
  row f8 f16 f32 f64 s64 = f64

  abbrev pub table : (ValueSize → L.fn) → (ValueSize → L.fn) → ValueKind → ValueSize → L.fn
  table floats integers float = floats
  table floats integers integer = integers

  -- The four loads for a kind.
  unfoldable pub load_row : Bytes → Outcome (ValueSize → L.fn)
  load_row prefix = do
    f8 ← load_external_function (prefix ++ codes "8")
    f16 ← load_external_function (prefix ++ codes "16")
    f32 ← load_external_function (prefix ++ codes "32")
    f64 ← load_external_function (prefix ++ codes "64")
    value (row f8 f16 f32 f64)

  -- Some entry of the table has the property, tried row by row.
  abbrev pub any_log_function : (L.fn → Bool) → LogFunctionManager → Bool
  any_log_function p lfm =
      p (lfm.log_functions float s8)
      || p (lfm.log_functions float s16)
      || p (lfm.log_functions float s32)
      || p (lfm.log_functions float s64)
      || p (lfm.log_functions integer s8)
      || p (lfm.log_functions integer s16)
      || p (lfm.log_functions integer s32)
      || p (lfm.log_functions integer s64)

  -- The loops that look for a missing entry.
  unfoldable pub check_table : LogFunctionManager → Outcome LogFunctionManager
  check_table lfm = if any_log_function L.is_null lfm then exited else value lfm

  -- `loadFunctions`
  unfoldable pub load_functions : Outcome LogFunctionManager
  load_functions = do
    floats ← load_row (codes "logAccessF")
    integers ← load_row (codes "logAccessI")
    ptr ← load_external_function (codes "logAccessPtr")
    string ← load_external_function (codes "logAccessStaticString")
    alloc ← load_external_function (codes "logAlloc")
    fn_begin ← load_external_function (codes "logFnBegin")
    fn_end ← load_external_function (codes "logFnEnd")
    init ← load_external_function (codes "logInit")
    exit ← load_external_function (codes "logExit")
    check_table (record {
      log_functions = table floats integers;
      ptr_log_func = ptr;
      string_log_func = string;
      alloc_log_func = alloc;
      fn_begin_log_func = fn_begin;
      fn_end_log_func = fn_end;
      init_log_func = init;
      exit_log_func = exit;
    })

  -- The switch over the width of an integer.
  unfoldable pub integer_function : LogFunctionManager → ℕ → Outcome L.fn
  integer_function lfm bits =
      if (bits == 1) || (bits == 8)
      then value (lfm.log_functions integer s8)
      else if bits == 16
      then value (lfm.log_functions integer s16)
      else if bits == 32
      then value (lfm.log_functions integer s32)
      else if bits == 64
      then value (lfm.log_functions integer s64)
      else exited

  -- `getLogFunction`, given the type of the value and the name of the function around it.
  unfoldable pub get_log_function : LogFunctionManager → ValueType → Bytes → Outcome L.fn
  get_log_function lfm t parent =
      if t.is_floating_point
      then value (lfm.log_functions float s64)
      else if t.is_pointer
      then (if same parent (codes "__dinamite_tracepoint")
          then value lfm.string_log_func
          else value lfm.ptr_log_func)
      else if t.is_integer
      then integer_function lfm t.scalar_size_in_bits
      else value L.null

  -- `isLogFunction`
  unfoldable pub is_log_function : LogFunctionManager → Bytes → Bool
  is_log_function lfm f =
      same f (L.name lfm.ptr_log_func)
      || same f (L.name lfm.alloc_log_func)
      || any_log_function (λ g. same f (L.name g)) lfm
