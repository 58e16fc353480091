-- ===== src/Tests/Traced.antt =====
-- Runs of the run-time library.
use dinamite.Shared.{
  ◌≤◌, ◌++◌, ℕ, ◌≡◌, ◌≢◌, ◌<◌, ◌↔◌, refl, ap, subst, Some, decimal, decimal_digits, arith, codes,
  true, false, List, [], ◌∷◌, Option, none, some, pos, Bytes, Outcome, value, exited, crashed,
  Returns, ◌>>=◌, All, length,
}
use mathlib.Core.Option
use mathlib.Core.List.{map}
use dinamite.Runtime.Records.{LogEntry}
use dinamite.Runtime.Excluded.{Host, exclude_tid}
use dinamite.Runtime.Threads.{
  Answers, create_key, ensure_key, get_next_id, issue_tid, known_tid, gettid, ok_tid,
}
use dinamite.Runtime.Buffers.{
  buffer_size, init_buffer, ok_buffer, flush_if_full, put_entry, buffer_entry, insert_entry,
  when_ok, trace_directory, trace_name,
}
use dinamite.Runtime.Binary.{
  Runtime, Access, fill_fn_log, fill_access_log, insert_or_write, log_fn_begin, log_fn_end,
  log_value, log_access_i32, log_exit,
}
use dinamite.Runtime.Calls.{
  Call, begin, end, exit, access, to_i32, perform, perform_access, Event, run, initial,
}
use dinamite.Runtime.FileNames.{Fits}
use dinamite.Runtime.ExcludedList.{joined, exclude_tid-joined}
use dinamite.Runtime.Opened.{Serves}
use dinamite.Runtime.Assigned.{KeyOk}
use dinamite.Runtime.Recorded.{anonymous_cell}
use dinamite.Runtime.Performed.{GoesOn, IsServed}
use dinamite.Runtime.WholeRun.{calls_of, log_exit-calls_of, tls-distinct}
use dinamite.Runtime.Kept.{Entries}
use dinamite.Runtime.Unwritten.{in_stream, run-in_stream}
use dinamite.Runtime.ExitTwice.{LeavesLast, log_exit-twice}
use dinamite.Runtime.Bounds.{IsBounded, run-IsBounded}

abbrev plain_host : Host
plain_host = record { exclude = none; stale = []; prefix = none }

abbrev all_served : Answers
all_served = record {
  once_ok = true;
  key_ok = true;
  list_allocated = true;
  buffer_allocated = true;
  opens = λ _. true;
  clock = some (record { tv_sec = 2; tv_nsec = 5 });
}

-- No memory, and no file.
abbrev none_served : Answers
none_served = record all_served { buffer_allocated = false; opens = λ _. false }

abbrev read_x : Access
read_x = record {
  address = 4096;
  type = pos 114;
  file = pos 3;
  line = pos 70000;
  col = pos 9;
  type_id = pos 4;
  var_id = pos 11;
}

abbrev event : ℕ → Call → Event
event t c = record { thread = t; answers = all_served; call = c }

-- Two threads, 7 and 9, of which 7 makes the first call.
abbrev two_threads : List Event
two_threads =
    event 7 (begin (pos 1))
    ∷ event 9 (begin (pos 2))
    ∷ event 7 (access to_i32 42 read_x)
    ∷ event 9 (end (pos 2))
    ∷ []

abbrev no_files : Bytes → Option (List (Option LogEntry))
no_files = λ _. none

abbrev value_or : Runtime → Outcome Runtime → Runtime
value_or r (value r') = r'
value_or r exited = r
value_or r crashed = r

state_after : Runtime
state_after = value_or (initial no_files) (run plain_host two_threads (initial no_files))

state_after_lem : run plain_host two_threads (initial no_files) ≡ value state_after
unfolding state_after run perform perform_access log_fn_begin log_fn_end log_access_i32 log_value
    fill_fn_log fill_access_log insert_or_write gettid ensure_key create_key known_tid issue_tid
    get_next_id exclude_tid ok_tid insert_entry ok_buffer init_buffer when_ok buffer_entry
    flush_if_full put_entry ◌>>=◌
state_after_lem = refl

-- The thread of the first call has id 1, since its first id, 0, counts as none.
ids_after : (state_after.ids.tls 7 ≡ 1) × (state_after.ids.tls 9 ≡ 2)
unfolding state_after run perform perform_access log_fn_begin log_fn_end log_access_i32 log_value
    fill_fn_log fill_access_log insert_or_write gettid ensure_key create_key known_tid issue_tid
    get_next_id exclude_tid ok_tid insert_entry ok_buffer init_buffer when_ok buffer_entry
    flush_if_full put_entry ◌>>=◌
ids_after = (refl, refl)

-- The entries of thread 7; line 70000 is cut to 16 bits.
calls_of_seven : length (calls_of 7 two_threads []) ≡ 2
unfolding calls_of
calls_of_seven = refl

plain-Fits : Fits plain_host
unfolding trace_directory
plain-Fits = omega arith

key_given : KeyOk all_served
key_given = record { once = refl; key = refl }

serving : Serves all_served
serving = record { buffer = refl; file = λ i. refl }

served : (t : ℕ) (c : Call) → GoesOn c → IsServed (event t c)
served t c g = record { key = key_given; serves = serving; goes_on = g }

two-IsServed : All IsServed two_threads
two-IsServed = (
  served 7 (begin (pos 1)) tt,
  (
    served 9 (begin (pos 2)) tt,
    (served 7 (access to_i32 42 read_x) tt, (served 9 (end (pos 2)) tt, tt)),
  ),
)

log_exit-calls_of_example :
    Returns
      (λ r'.
        Option.map
          (map anonymous_cell)
          (r'.trace.files (trace_name plain_host (state_after.ids.tls 7)))
        ≡ some (map some (calls_of 7 two_threads [])))
      (log_exit plain_host all_served 7 (pos 0) state_after)
log_exit-calls_of_example =
    log_exit-calls_of plain_host no_files two_threads all_served (pos 0) 7 7 state_after plain-Fits
      two-IsServed serving state_after_lem (ground (arith, ids_after.0))
      (omega (arith, ids_after.0))

log_exit-twice_example :
    Returns
      (λ r'.
        Returns
          (LeavesLast plain_host (state_after.ids.tls 9) r')
          (log_exit plain_host all_served 7 (pos 0) r'))
      (log_exit plain_host all_served 7 (pos 0) state_after)
log_exit-twice_example =
    log_exit-twice plain_host no_files two_threads all_served all_served (pos 0) (pos 0) 7 7 9
      state_after plain-Fits two-IsServed serving serving state_after_lem
      (ground (arith, ids_after.1)) (omega (arith, ids_after.1))

tls-distinct_example : state_after.ids.tls 7 ≢ state_after.ids.tls 9
tls-distinct_example =
    tls-distinct plain_host no_files two_threads 7 9 state_after two-IsServed state_after_lem
      (ground (arith, ids_after.0)) (omega (arith, ids_after.0)) (omega arith)

run-IsBounded_example : Returns IsBounded (
    run plain_host
      (record { thread = 3; answers = none_served; call = begin (pos 1) }
        ∷ event 3 (begin (pos 2))
        ∷ event 3 (exit (pos 1))
        ∷ event 3 (exit (pos 1))
        ∷ [])
      (initial no_files))
run-IsBounded_example =
    run-IsBounded plain_host no_files _
      (record { once = refl; key = refl }, (key_given, (key_given, (key_given, tt))))

abbrev three_and_twelve : Host
three_and_twelve = record plain_host { exclude = some (codes "3,12") }

joined_text : codes "3,12" ≡ joined 3 (12 ∷ [])
unfolding decimal decimal_digits
joined_text = refl

exclude_tid-joined_example :
    (exclude_tid three_and_twelve true 12 ≡ true) ↔ Some (λ (j : ℕ). j ≡ 12) (3 ∷ 12 ∷ [])
exclude_tid-joined_example =
    exclude_tid-joined three_and_twelve 3 (12 ∷ []) 12 (ap some joined_text)
      (subst (λ t. length t < 127) joined_text (omega arith)) (omega arith, (omega arith, tt))

run-in_stream_example :
    (rest : Entries) × (map anonymous_cell (in_stream state_after (state_after.ids.tls 7) ++ rest)
      ≡ map some (calls_of 7 two_threads []))
    × (length rest ≤ buffer_size)
run-in_stream_example =
    run-in_stream plain_host no_files two_threads 7 state_after plain-Fits two-IsServed
      state_after_lem (ground (arith, ids_after.0)) (omega (arith, ids_after.0))
