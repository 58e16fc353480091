-- ===== src/Runtime/Unwritten.antt =====
-- binaryinstrumentation.c: what the streams of the files were given before logExit. The standard library
-- can hold some of it back until `fclose`, so that a crash of the program can lose more.
use mathlib.Core.List.{map}
use dinamite.Shared.{
  ℕ, ◌≤◌, ◌<◌, ◌≡◌, ◌≢◌, ap, ◌∙◌, Bytes, List, [], ◌++◌, Option, some, length, value, All, arith,
}
use dinamite.Runtime.Excluded.{Host, max_threads}
use dinamite.Runtime.Buffers.{buffer_size}
use dinamite.Runtime.FileNames.{Fits}
use dinamite.Runtime.Kept.{Entries, stored_in, pending_in}
use dinamite.Runtime.Closed.{length-pending_in}
use dinamite.Runtime.Binary.{Runtime}
use dinamite.Runtime.Calls.{Event, run, initial}
use dinamite.Runtime.Recorded.{anonymous_cell}
use dinamite.Runtime.Performed.{IsServed}
use dinamite.Runtime.WholeRun.{calls_of, Recorded-run}

-- The entries that the stream of the open file of an id was given; there are none before it is opened.
abbrev pub in_stream : Runtime → ℕ → Entries
in_stream r tid = stored_in r.trace.files (r.trace.slots tid).out

-- After any run of calls without `logExit`, in which the library gets the key, the memory and the files that it asks for, and with file names that fit, `fwrite` was given, for the file of a thread that has an id below 128, the first entries of the thread's calls, in order, and at most the last 16384 are still in the thread's buffer (the thread ids inside the entries apart).
pub run-in_stream :
    (host : Host) (files : Bytes → Option Entries) (events : List Event) (t : ℕ) (r : Runtime)
    → Fits host
    → All IsServed events
    → run host events (initial files) ≡ value r
    → r.ids.tls t ≢ 0
    → r.ids.tls t < max_threads
    → (rest : Entries) × (map anonymous_cell (in_stream r (r.ids.tls t) ++ rest)
        ≡ map some (calls_of t events []))
      × (length rest ≤ buffer_size)
run-in_stream host files events t r fits served e set low =
    let rec = Recorded-run host files events r served e in
    let s = r.trace.slots (r.ids.tls t) in
    let k = rec.held.keeps (r.ids.tls t) low in
    (
      pending_in s.entries s.current,
      ap (map anonymous_cell) (k.kept fits) ∙ (rec.threads t set low).entries,
      omega (arith, length-pending_in s.entries s.current, k.bounded),
    )
