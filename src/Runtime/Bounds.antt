-- ===== src/Runtime/Bounds.antt =====
-- binaryinstrumentation.c: the indices into the buffers, over whole runs.
use dinamite.Shared.{
  ℕ, ℤ, ◌≤◌, ◌<◌, ◌≡◌, sym, subst, Bytes, List, [], ◌∷◌, Option, none, some, ltb, ltb→lt, Outcome,
  value, Returns, Returns-bind, Returns-mono, All, Bool-cases, inl, inr, arith,
}
use dinamite.Runtime.Records.{ValueType, ValueStore, LogEntry, fn_begin, fn_end}
use dinamite.Runtime.Excluded.{Host, max_threads}
use dinamite.Runtime.Threads.{Answers, Ids, ensure_key}
use dinamite.Runtime.Buffers.{buffer_size, Trace, insert_entry, exit_from}
use dinamite.Runtime.Kept.{Entries, Held}
use dinamite.Runtime.Inserted.{Inserted, insert_entry-Inserted, insert_entry-past}
use dinamite.Runtime.Exited.{Exited, exit_from-Exited}
use dinamite.Runtime.Assigned.{KeyOk, Owned, Keyed, ensure_key-Keyed}
use dinamite.Runtime.Binary.{Runtime, Access, log_init, log_exit}
use dinamite.Runtime.Calls.{
  Call, init, exit, begin, end, alloc, access, perform, Event, run, initial,
}
use dinamite.Runtime.Logged.{
  fn_entry, alloc_entry, access_entry, stored_value, Accessed, begin_lem, end_lem, alloc_lem,
  access_lem, fill_and_insert,
}
use dinamite.Runtime.Filled.{fill_and_insert-Returns}
use dinamite.Runtime.WholeRun.{Recorded-initial}

-- No buffer counts more entries than it has cells.
abbrev pub IsBounded : Runtime → Type 0
IsBounded r = (i : ℕ) → i < max_threads → (r.trace.slots i).current ≤ buffer_size

-- Some history is kept.
record IsSound (host : Host) (r : Runtime) : Type 0 where
  owned : Owned r.ids
  hist : ℕ → Entries
  held : Held host max_threads hist r.trace

module _ (host : Host) (a : Answers) (thread : ℕ) (ok : KeyOk a) where
  insert_entry-IsSound :
      (ids : Ids) (hist : ℕ → Entries) (tr : Trace) (tid : ℕ) (le : LogEntry)
      → Owned ids
      → Held host max_threads hist tr
      → Returns
          (λ t. IsSound host (record { ids = ids; trace = t }))
          (insert_entry host a tid le tr)
  insert_entry-IsSound ids hist tr tid le owned held = elim (Bool-cases (ltb tid max_threads)) [
    | inl is ↦
        let low = ltb→lt tid max_threads is in
        Returns-mono (Inserted host a tid hist low le) Goal (insert_entry host a tid le tr)
          (λ t i. record { owned = owned; hist = i.after; held = i.held })
          (insert_entry-Inserted host a tid hist low le tr held)
    | inr off ↦
        let high : max_threads ≤ tid = ground arith in
        subst (Returns Goal) (sym (insert_entry-past host a tid le tr high))
          (record { owned = owned; hist = hist; held = held })
  ]
    where
      Goal : Trace → Type 0
      Goal t = IsSound host (record { ids = ids; trace = t })

  module _ (r : Runtime) (sound : IsSound host r) where
    logging :
        (entry : ℕ → LogEntry) (o : Outcome Runtime)
        → o ≡ fill_and_insert host a thread entry r
        → Returns (IsSound host) o
    logging entry o e = subst (Returns (IsSound host)) (sym e) (
        fill_and_insert-Returns host a thread entry r (IsSound host) ok sound.owned
          (λ filled tid ids p.
            insert_entry-IsSound ids sound.hist r.trace tid (entry filled) p.owned sound.held))

    accessing :
        (stored : Option (ValueType × ValueStore)) (x : Access) (o : Outcome Runtime)
        → Accessed host a thread stored x o r
        → Returns (IsSound host) o
    accessing none x o e = subst (Returns (IsSound host)) (sym e) sound
    accessing (some (value_type, stored)) x o e = logging (access_entry a value_type stored x) o e

    log_init-IsSound : (f : ℤ) → Returns (IsSound host) (log_init host a thread f r)
    unfolding log_init
    log_init-IsSound f =
        Returns-bind (Keyed host a thread r.ids) (IsSound host) (ensure_key a r.ids)
          (λ ids'. value (record r { ids = ids' })) (ensure_key-Keyed host a thread ok r.ids)
          (λ ids' (b, e).
            subst (λ ids. IsSound host (record r { ids = ids })) (sym e)
              (record {
                owned = record {
                  given = sound.owned.given;
                  below = sound.owned.below;
                  distinct = sound.owned.distinct;
                };
                hist = sound.hist;
                held = sound.held;
              }))

    log_exit-IsSound : (f : ℤ) → Returns (IsSound host) (log_exit host a thread f r)
    unfolding log_exit
    log_exit-IsSound f =
        Returns-bind (Exited host a 0 max_threads sound.hist r.trace) (IsSound host)
          (exit_from host a 0 max_threads r.trace) (λ trace. value (record r { trace = trace }))
          (exit_from-Exited host a max_threads 0 sound.hist r.trace (omega arith) sound.held)
          (λ trace x. record { owned = sound.owned; hist = x.after; held = x.held })

    perform-IsSound : (c : Call) → Returns (IsSound host) (perform host a thread c r)
    perform-IsSound (init f) = unfold perform in log_init-IsSound f
    perform-IsSound (exit f) = unfold perform in log_exit-IsSound f
    perform-IsSound (begin f) = logging (fn_entry a fn_begin f) _ (begin_lem host a thread f r)
    perform-IsSound (end f) = logging (fn_entry a fn_end f) _ (end_lem host a thread f r)
    perform-IsSound (alloc x) = logging (alloc_entry a x) _ (alloc_lem host a thread x r)
    perform-IsSound (access function v x) =
        accessing (stored_value function v) x _ (access_lem host a thread function v x r)

run-IsSound :
    (host : Host) (events : List Event) (r : Runtime)
    → All (λ (e : Event). KeyOk e.answers) events
    → IsSound host r
    → Returns (IsSound host) (run host events r)
unfolding run
run-IsSound host [] r ok sound = sound
run-IsSound host (e ∷ events) r (k, ok) sound =
    Returns-bind (IsSound host) (IsSound host) (perform host e.answers e.thread e.call r)
      (run host events) (perform-IsSound host e.answers e.thread k r sound e.call)
      (λ r'. run-IsSound host events r' ok)

-- Where the system gives the library its key, every run of calls, `logExit` among them, returns: whatever memory and files it gives or refuses, no entry is put into a buffer of an id past 127, no buffer is written or read past its 16384 cells, and no file is written that is not open.
pub run-IsBounded :
    (host : Host) (files : Bytes → Option Entries) (events : List Event)
    → All (λ (e : Event). KeyOk e.answers) events
    → Returns IsBounded (run host events (initial files))
run-IsBounded host files events ok =
    Returns-mono (IsSound host) IsBounded (run host events (initial files))
      (λ r s i lt. (s.held.keeps i lt).bounded)
      (run-IsSound host events (initial files) ok (
        let rec = Recorded-initial host files in
        record { owned = rec.owned; hist = rec.hist; held = rec.held }))
