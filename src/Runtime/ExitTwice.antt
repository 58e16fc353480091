-- ===== src/Runtime/ExitTwice.antt =====
-- binaryinstrumentation.c: a second call of logExit, as an exit handler makes it.
use dinamite.Shared.{
  ◌++◌, ◌∙◌, [], ap, ℕ, ℤ, ◌≤◌, ◌<◌, ◌≡◌, ◌≢◌, Bytes, List, Option, some, length, value, Returns,
  Returns-bind, Returns-mono, All, arith,
}
use dinamite.Runtime.Excluded.{Host, max_threads}
use dinamite.Runtime.Threads.{Answers}
use dinamite.Runtime.Buffers.{buffer_size, trace_name, exit_from}
use dinamite.Runtime.FileNames.{Fits}
use dinamite.Runtime.Kept.{Entries, Held}
use dinamite.Runtime.Opened.{Serves}
use dinamite.Runtime.Exited.{Exited, exit_from-Exited}
use dinamite.Runtime.Binary.{Runtime, log_exit}
use dinamite.Runtime.Calls.{Event, run, initial}
use dinamite.Runtime.Performed.{IsServed}
use dinamite.Runtime.WholeRun.{Recorded-run}

module _ (host : Host) (a : Answers) (thread : ℕ) (f : ℤ) where
  log_exit-Exited :
      (hist : ℕ → Entries) (r : Runtime)
      → Held host max_threads hist r.trace
      → Returns
          (λ (r' : Runtime). Exited host a 0 max_threads hist r.trace r'.trace)
          (log_exit host a thread f r)
  unfolding log_exit
  log_exit-Exited hist r held =
      Returns-bind (Exited host a 0 max_threads hist r.trace)
        (λ (r' : Runtime). Exited host a 0 max_threads hist r.trace r'.trace)
        (exit_from host a 0 max_threads r.trace) (λ trace. value (record r { trace = trace }))
        (exit_from-Exited host a max_threads 0 hist r.trace (omega arith) held) (λ trace x. x)

-- The file of the id holds, after the second call, the last entries of those that it held after the first:
-- at least one, and at most those of one buffer.
abbrev pub LeavesLast : Host → ℕ → Runtime → Runtime → Type 0
LeavesLast host tid first second =
    (lost content : Entries) × (first.trace.files (trace_name host tid) ≡ some (lost ++ content))
    × (second.trace.files (trace_name host tid) ≡ some content)
    × (content ≢ [])
    × (length content ≤ buffer_size)

-- After a run without `logExit`, in which the library gets the key, the memory and the files that it asks for, and with file names that fit, two calls of `logExit` both return. Of the entries that the first call left in the file of a thread that has an id below 128, the file holds only the last ones after the second call: at least one and at most 16384, however many there were.
pub log_exit-twice :
    (host : Host) (files : Bytes → Option Entries) (events : List Event) (a b : Answers) (f g : ℤ)
    (last again t : ℕ) (r : Runtime)
    → Fits host
    → All IsServed events
    → Serves a
    → Serves b
    → run host events (initial files) ≡ value r
    → r.ids.tls t ≢ 0
    → r.ids.tls t < max_threads
    → Returns
        (λ r'. Returns (LeavesLast host (r.ids.tls t) r') (log_exit host b again g r'))
        (log_exit host a last f r)
log_exit-twice host files events a b f g last again t r fits served serves serves' e set low =
    let rec = Recorded-run host files events r served e in
    let tid = r.ids.tls t in
    let began = (rec.threads t set low).begun in
    Returns-mono (λ (r' : Runtime). Exited host a 0 max_threads rec.hist r.trace r'.trace)
      (λ r'. Returns (LeavesLast host tid r') (log_exit host b again g r'))
      (log_exit host a last f r)
      (λ r' x.
        let rest = x.rest serves fits tid (omega arith) (omega arith) in
        let (lost, split) = rest.last in
        Returns-mono (λ (r'' : Runtime). Exited host b 0 max_threads x.after r'.trace r''.trace)
          (LeavesLast host tid r') (log_exit host b again g r')
          (λ r'' y. (
            lost,
            x.after tid,
            x.written serves fits tid (omega arith) (omega arith) began ∙ ap some split,
            y.written serves' fits tid (omega arith) (omega arith) (rest.begun began),
            rest.begun began,
            rest.short,
          ))
          (log_exit-Exited host b again g x.after r' x.held))
      (log_exit-Exited host a last f rec.hist r rec.held)
