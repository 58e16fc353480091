-- ===== src/Runtime/Calls.antt =====
-- binaryinstrumentation.c: the calls that an instrumented program makes, in the order of its run.
use dinamite.Shared.{ℕ, ℤ, Bytes, false, List, [], ◌∷◌, Option, none, Outcome, value, ◌>>=◌}
use dinamite.Runtime.Records.{LogEntry}
use dinamite.Runtime.Excluded.{Host}
use dinamite.Runtime.Threads.{Answers}
use dinamite.Runtime.Binary.{
  Runtime, Access, Alloc, log_init, log_exit, log_fn_begin, log_fn_end, log_alloc_call,
  log_access_ptr, log_access_static_string, log_access_i8, log_access_i16, log_access_i32,
  log_access_i64, log_access_f8, log_access_f16, log_access_f32, log_access_f64,
}

-- The functions that log an access, by the end of their name.
pub data AccessFunction : Type 0 where
  to_ptr to_static_string to_i8 to_i16 to_i32 to_i64 to_f8 to_f16 to_f32 to_f64 : AccessFunction

-- A call with its arguments.
pub data Call : Type 0 where
  init exit begin end : ℤ → Call
  alloc : Alloc → Call
  access : AccessFunction → ℕ → Access → Call

module _ (host : Host) (a : Answers) (thread : ℕ) where
  unfoldable pub perform_access : AccessFunction → ℕ → Access → Runtime → Outcome Runtime
  perform_access to_ptr = log_access_ptr host a thread
  perform_access to_static_string = log_access_static_string host a thread
  perform_access to_i8 = log_access_i8 host a thread
  perform_access to_i16 = log_access_i16 host a thread
  perform_access to_i32 = log_access_i32 host a thread
  perform_access to_i64 = log_access_i64 host a thread
  perform_access to_f8 = log_access_f8 host a thread
  perform_access to_f16 = log_access_f16 host a thread
  perform_access to_f32 = log_access_f32 host a thread
  perform_access to_f64 = log_access_f64 host a thread

  unfoldable pub perform : Call → Runtime → Outcome Runtime
  perform (init f) = log_init host a thread f
  perform (exit f) = log_exit host a thread f
  perform (begin f) = log_fn_begin host a thread f
  perform (end f) = log_fn_end host a thread f
  perform (alloc x) = log_alloc_call host a thread x
  perform (access function v x) = perform_access function v x

-- A call, the thread that makes it, and what the system answers meanwhile.
pub record Event : Type 0 where
  pub thread : ℕ
  pub answers : Answers
  pub call : Call

unfoldable pub run : Host → List Event → Runtime → Outcome Runtime
run host [] r = value r
run host (e ∷ events) r = do r' ← perform host e.answers e.thread e.call r; run host events r'

-- The state before the first call, with the files that are there.
abbrev pub initial : (Bytes → Option (List (Option LogEntry))) → Runtime
initial files = record {
  ids = record { key_created = false; tls = λ _. 0; next_id = 0 };
  trace = record { slots = λ _. record { out = none; entries = none; current = 0 }; files = files };
}
