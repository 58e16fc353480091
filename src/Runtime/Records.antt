-- ===== src/Runtime/Records.antt =====
-- library/binaryinstrumentation.h: the entries of a binary trace. A field of 16 bits keeps the low bits
-- of the `int` stored in it; a `char` is its byte. Addresses and the bits of floats are numbers.
use dinamite.Shared.{ℕ, ◌-◌, ◌%◌, ◌^◌, ℤ, pos, negsuc}

unfoldable pub to_uint16 : ℤ → ℕ
to_uint16 (pos n) = n % 2 ^ 16
to_uint16 (negsuc n) = 2 ^ 16 - 1 - n % 2 ^ 16

unfoldable pub to_char : ℤ → ℕ
to_char (pos n) = n % 2 ^ 8
to_char (negsuc n) = 2 ^ 8 - 1 - n % 2 ^ 8

-- `enum fn_events`
pub data FnEvents : Type 0 where
  fn_begin fn_end : FnEvents

-- `fnlog`
pub record FnLog : Type 0 where
  pub thread_id : ℕ
  pub fn_event_type : FnEvents
  pub function_id : ℤ
  pub fn_timestamp : ℕ

-- `enum value_type`
pub data ValueType : Type 0 where
  i8 i16 i32 i64 f32 f64 ptr : ValueType

-- `value_store`
pub data ValueStore : Type 0 where
  store_ptr store_i8 store_i16 store_i32 store_i64 store_f32 store_f64 : ℕ → ValueStore

-- `accesslog`
pub record AccessLog : Type 0 where
  pub ptr : ℕ
  pub value_type : ValueType
  pub value : ValueStore
  pub thread_id : ℕ
  pub type : ℕ
  pub file : ℕ
  pub line : ℕ
  pub col : ℕ
  pub type_id : ℕ
  pub var_id : ℕ
  pub ac_timestamp : ℕ

-- `alloclog`
pub record AllocLog : Type 0 where
  pub addr : ℕ
  pub size : ℕ
  pub num : ℕ
  pub type : ℕ
  pub file : ℕ
  pub line : ℕ
  pub col : ℕ
  pub thread_id : ℕ
  pub al_timestamp : ℕ

-- `logentry`: the tag and the member of the union that it says.
pub data LogEntry : Type 0 where
  log_fn : FnLog → LogEntry
  log_alloc : AllocLog → LogEntry
  log_access : AccessLog → LogEntry
