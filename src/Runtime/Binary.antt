-- ===== src/Runtime/Binary.antt =====
-- binaryinstrumentation.c: the functions that instrumented code calls, fillFnLog to logAccessF64. A call
-- is one step; the program's interleaving of its threads is the order of the calls.
use dinamite.Shared.{ℕ, ℤ, Outcome, value, ◌>>=◌}
use dinamite.Runtime.Clock.{dinamite_time_nanoseconds}
use dinamite.Runtime.Records.{
  to_uint16, to_char, FnEvents, fn_begin, fn_end, FnLog, ValueType, i8, i16, i32, i64, f32, f64,
  ptr, ValueStore, store_ptr, store_i8, store_i16, store_i32, store_i64, store_f32, store_f64,
  AccessLog, AllocLog, LogEntry, log_fn, log_alloc, log_access,
}
use dinamite.Runtime.Excluded.{Host, max_threads}
use dinamite.Runtime.Threads.{Answers, Ids, ensure_key, gettid}
use dinamite.Runtime.Buffers.{Trace, insert_entry, exit_from}

-- The static variables of the library and the files.
pub record Runtime : Type 0 where
  pub ids : Ids
  pub trace : Trace

-- The arguments of an access function, but its value.
pub record Access : Type 0 where
  pub address : ℕ
  pub type : ℤ
  pub file : ℤ
  pub line : ℤ
  pub col : ℤ
  pub type_id : ℤ
  pub var_id : ℤ

-- The arguments of `logAlloc`.
pub record Alloc : Type 0 where
  pub addr : ℕ
  pub size : ℕ
  pub num : ℕ
  pub type : ℤ
  pub file : ℤ
  pub line : ℤ
  pub col : ℤ

module _ (host : Host) (a : Answers) (thread : ℕ) where
  -- `fillFnLog`
  unfoldable pub fill_fn_log : FnEvents → ℤ → Ids → Outcome (FnLog × Ids)
  fill_fn_log event function_id ids = do
    (tid, ids') ← gettid host a thread ids
    value (
      record {
        thread_id = tid;
        fn_event_type = event;
        function_id = function_id;
        fn_timestamp = dinamite_time_nanoseconds a.clock;
      },
      ids',
    )

  -- `fillAccessLog`
  unfoldable pub fill_access_log : ValueType → ValueStore → Access → Ids → Outcome (AccessLog × Ids)
  fill_access_log value_type stored x ids = do
    (tid, ids') ← gettid host a thread ids
    value (
      record {
        ptr = x.address;
        value_type = value_type;
        value = stored;
        thread_id = tid;
        type = to_char x.type;
        file = to_uint16 x.file;
        line = to_uint16 x.line;
        col = to_uint16 x.col;
        type_id = to_uint16 x.type_id;
        var_id = to_uint16 x.var_id;
        ac_timestamp = dinamite_time_nanoseconds a.clock;
      },
      ids',
    )

  -- `fillAllocLog`
  unfoldable pub fill_alloc_log : Alloc → Ids → Outcome (AllocLog × Ids)
  fill_alloc_log x ids = do
    (tid, ids') ← gettid host a thread ids
    value (
      record {
        addr = x.addr;
        size = x.size;
        num = x.num;
        type = to_uint16 x.type;
        file = to_uint16 x.file;
        line = to_uint16 x.line;
        col = to_uint16 x.col;
        thread_id = tid;
        al_timestamp = dinamite_time_nanoseconds a.clock;
      },
      ids',
    )

  -- `insertOrWrite`
  unfoldable pub insert_or_write : LogEntry → Runtime → Outcome Runtime
  insert_or_write le r = do
    (tid, ids') ← gettid host a thread r.ids
    trace' ← insert_entry host a tid le r.trace
    value (record { ids = ids'; trace = trace' })

  unfoldable pub log_init : ℤ → Runtime → Outcome Runtime
  log_init function_id r = do ids' ← ensure_key a r.ids; value (record r { ids = ids' })

  unfoldable pub log_exit : ℤ → Runtime → Outcome Runtime
  log_exit function_id r = do
    trace' ← exit_from host a 0 max_threads r.trace
    value (record r { trace = trace' })

  unfoldable pub log_fn_begin : ℤ → Runtime → Outcome Runtime
  log_fn_begin function_id r = do
    (fnl, ids') ← fill_fn_log fn_begin function_id r.ids
    insert_or_write (log_fn fnl) (record r { ids = ids' })

  unfoldable pub log_fn_end : ℤ → Runtime → Outcome Runtime
  log_fn_end function_id r = do
    (fnl, ids') ← fill_fn_log fn_end function_id r.ids
    insert_or_write (log_fn fnl) (record r { ids = ids' })

  unfoldable pub log_alloc_call : Alloc → Runtime → Outcome Runtime
  log_alloc_call x r = do
    (all, ids') ← fill_alloc_log x r.ids
    insert_or_write (log_alloc all) (record r { ids = ids' })

  -- What the functions that log an access have in common.
  unfoldable pub log_value : ValueType → ValueStore → Access → Runtime → Outcome Runtime
  log_value value_type stored x r = do
    (acl, ids') ← fill_access_log value_type stored x r.ids
    insert_or_write (log_access acl) (record r { ids = ids' })

  unfoldable pub log_access_ptr : ℕ → Access → Runtime → Outcome Runtime
  log_access_ptr v = log_value ptr (store_ptr v)

  unfoldable pub log_access_static_string : ℕ → Access → Runtime → Outcome Runtime
  log_access_static_string v = log_value ptr (store_ptr v)

  unfoldable pub log_access_i8 : ℕ → Access → Runtime → Outcome Runtime
  log_access_i8 v = log_value i8 (store_i8 v)

  unfoldable pub log_access_i16 : ℕ → Access → Runtime → Outcome Runtime
  log_access_i16 v = log_value i16 (store_i16 v)

  unfoldable pub log_access_i32 : ℕ → Access → Runtime → Outcome Runtime
  log_access_i32 v = log_value i32 (store_i32 v)

  unfoldable pub log_access_i64 : ℕ → Access → Runtime → Outcome Runtime
  log_access_i64 v = log_value i64 (store_i64 v)

  -- These two log nothing.
  unfoldable pub log_access_f8 : ℕ → Access → Runtime → Outcome Runtime
  log_access_f8 v x r = value r

  unfoldable pub log_access_f16 : ℕ → Access → Runtime → Outcome Runtime
  log_access_f16 v x r = value r

  unfoldable pub log_access_f32 : ℕ → Access → Runtime → Outcome Runtime
  log_access_f32 v = log_value f32 (store_f32 v)

  unfoldable pub log_access_f64 : ℕ → Access → Runtime → Outcome Runtime
  log_access_f64 v = log_value f64 (store_f64 v)
