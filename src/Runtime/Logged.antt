-- ===== src/Runtime/Logged.antt =====
-- binaryinstrumentation.c: the entry that each call of the library makes, apart from the state.
use dinamite.Shared.{ℕ, ℤ, ◌≡◌, refl, Option, none, some, Outcome, value, exited, crashed, ◌>>=◌}
use dinamite.Runtime.Clock.{dinamite_time_nanoseconds}
use dinamite.Runtime.Records.{
  to_uint16, to_char, FnEvents, fn_begin, fn_end, ValueType, i8, i16, i32, i64, f32, f64, ptr,
  ValueStore, store_ptr, store_i8, store_i16, store_i32, store_i64, store_f32, store_f64, LogEntry,
  log_fn, log_alloc, log_access,
}
use dinamite.Runtime.Excluded.{Host}
use dinamite.Runtime.Threads.{Answers, gettid}
use dinamite.Runtime.Binary.{
  Runtime, Access, Alloc, fill_fn_log, fill_access_log, fill_alloc_log, insert_or_write,
  log_fn_begin, log_fn_end, log_alloc_call, log_value, log_access_ptr, log_access_static_string,
  log_access_i8, log_access_i16, log_access_i32, log_access_i64, log_access_f8, log_access_f16,
  log_access_f32, log_access_f64,
}
use dinamite.Runtime.Calls.{
  AccessFunction, to_ptr, to_static_string, to_i8, to_i16, to_i32, to_i64, to_f8, to_f16, to_f32,
  to_f64, Call, init, exit, begin, end, alloc, access, perform, perform_access,
}

-- The value of an access in the entry, where the function logs one.
abbrev pub stored_value : AccessFunction → ℕ → Option (ValueType × ValueStore)
stored_value to_ptr v = some (ptr, store_ptr v)
stored_value to_static_string v = some (ptr, store_ptr v)
stored_value to_i8 v = some (i8, store_i8 v)
stored_value to_i16 v = some (i16, store_i16 v)
stored_value to_i32 v = some (i32, store_i32 v)
stored_value to_i64 v = some (i64, store_i64 v)
stored_value to_f8 v = none
stored_value to_f16 v = none
stored_value to_f32 v = some (f32, store_f32 v)
stored_value to_f64 v = some (f64, store_f64 v)

abbrev pub fn_entry : Answers → FnEvents → ℤ → ℕ → LogEntry
fn_entry a event f tid = log_fn (record {
  thread_id = tid;
  fn_event_type = event;
  function_id = f;
  fn_timestamp = dinamite_time_nanoseconds a.clock;
})

abbrev pub alloc_entry : Answers → Alloc → ℕ → LogEntry
alloc_entry a x tid = log_alloc (record {
  addr = x.addr;
  size = x.size;
  num = x.num;
  type = to_uint16 x.type;
  file = to_uint16 x.file;
  line = to_uint16 x.line;
  col = to_uint16 x.col;
  thread_id = tid;
  al_timestamp = dinamite_time_nanoseconds a.clock;
})

abbrev pub access_entry : Answers → ValueType → ValueStore → Access → ℕ → LogEntry
access_entry a value_type stored x tid = log_access (record {
  ptr = x.address;
  value_type = value_type;
  value = stored;
  thread_id = tid;
  type = to_char x.type;
  file = to_uint16 x.file;
  line = to_uint16 x.line;
  col = to_uint16 x.col;
  type_id = to_uint16 x.type_id;
  var_id = to_uint16 x.var_id;
  ac_timestamp = dinamite_time_nanoseconds a.clock;
})

abbrev pub access_logs : Answers → Access → Option (ValueType × ValueStore) → Option (ℕ → LogEntry)
access_logs a x none = none
access_logs a x (some (value_type, stored)) = some (access_entry a value_type stored x)

-- The entry that a call logs, but for the id of its thread.
abbrev pub logs : Answers → Call → Option (ℕ → LogEntry)
logs a (init f) = none
logs a (exit f) = none
logs a (begin f) = some (fn_entry a fn_begin f)
logs a (end f) = some (fn_entry a fn_end f)
logs a (alloc x) = some (alloc_entry a x)
logs a (access function v x) = access_logs a x (stored_value function v)

bind_value {ℓ κ μ} :
    {A : Type ℓ} {B : Type κ} {C : Type μ} (m : Outcome A) (f : A → B) (g : B → Outcome C)
    → ((m >>= λ x. value (f x)) >>= g) ≡ (m >>= λ x. g (f x))
unfolding ◌>>=◌
bind_value (value x) f g = refl
bind_value exited f g = refl
bind_value crashed f g = refl

module _ (host : Host) (a : Answers) (thread : ℕ) where
  -- The entry is filled with an id of the thread, and then inserted.
  abbrev pub fill_and_insert : (ℕ → LogEntry) → Runtime → Outcome Runtime
  fill_and_insert entry r = gettid host a thread r.ids >>= λ p.
      insert_or_write host a thread (entry p.0) (record r { ids = p.1 })

  pub begin_lem :
      (f : ℤ) (r : Runtime)
      → perform host a thread (begin f) r ≡ fill_and_insert (fn_entry a fn_begin f) r
  unfolding perform log_fn_begin fill_fn_log
  begin_lem f r = bind_value (gettid host a thread r.ids) _ _

  pub end_lem :
      (f : ℤ) (r : Runtime)
      → perform host a thread (end f) r ≡ fill_and_insert (fn_entry a fn_end f) r
  unfolding perform log_fn_end fill_fn_log
  end_lem f r = bind_value (gettid host a thread r.ids) _ _

  pub alloc_lem :
      (x : Alloc) (r : Runtime)
      → perform host a thread (alloc x) r ≡ fill_and_insert (alloc_entry a x) r
  unfolding perform log_alloc_call fill_alloc_log
  alloc_lem x r = bind_value (gettid host a thread r.ids) _ _

  log_value_lem :
      (value_type : ValueType) (stored : ValueStore) (x : Access) (r : Runtime)
      → log_value host a thread value_type stored x r
        ≡ fill_and_insert (access_entry a value_type stored x) r
  unfolding log_value fill_access_log
  log_value_lem value_type stored x r = bind_value (gettid host a thread r.ids) _ _

  -- What an access does, given the value that it stores.
  abbrev pub Accessed :
      Option (ValueType × ValueStore) → Access → Outcome Runtime → Runtime → Type 0
  Accessed none x o r = o ≡ value r
  Accessed (some (value_type, stored)) x o r =
      o ≡ fill_and_insert (access_entry a value_type stored x) r

  pub access_lem :
      (function : AccessFunction) (v : ℕ) (x : Access) (r : Runtime)
      → Accessed (stored_value function v) x (perform host a thread (access function v x) r) r
  unfolding perform perform_access log_access_ptr log_access_static_string log_access_i8
      log_access_i16 log_access_i32 log_access_i64 log_access_f8 log_access_f16 log_access_f32
      log_access_f64
  access_lem to_f8 v x r = refl
  access_lem to_f16 v x r = refl
  access_lem to_ptr v x r = log_value_lem ptr (store_ptr v) x r
  access_lem to_static_string v x r = log_value_lem ptr (store_ptr v) x r
  access_lem to_i8 v x r = log_value_lem i8 (store_i8 v) x r
  access_lem to_i16 v x r = log_value_lem i16 (store_i16 v) x r
  access_lem to_i32 v x r = log_value_lem i32 (store_i32 v) x r
  access_lem to_i64 v x r = log_value_lem i64 (store_i64 v) x r
  access_lem to_f32 v x r = log_value_lem f32 (store_f32 v) x r
  access_lem to_f64 v x r = log_value_lem f64 (store_f64 v) x r
