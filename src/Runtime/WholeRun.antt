-- ===== src/Runtime/WholeRun.antt =====
-- binaryinstrumentation.c: a run of the program, and the files that logExit leaves.
use mathlib.Core.List.{map}
use mathlib.Core.Option
use mathlib.Core.Option.{none-ne-some}
use dinamite.Shared.{
  ℕ, ℤ, ◌<◌, ◌≡◌, ◌≢◌, refl, ap, ◌∙◌, subst, Bytes, List, [], ◌∷◌, Option, some, ◌==◌, ==_iff,
  if◌then◌else◌, Bool-cases, value, Returns, Returns-bind, Returns-mono, All, inl, inr, arith,
}
use dinamite.Runtime.Records.{LogEntry}
use dinamite.Runtime.Excluded.{Host, max_threads}
use dinamite.Runtime.Threads.{Answers}
use dinamite.Runtime.Buffers.{trace_name, exit_from}
use dinamite.Runtime.FileNames.{Fits}
use dinamite.Runtime.Kept.{Entries}
use dinamite.Runtime.Opened.{Serves}
use dinamite.Runtime.Exited.{Exited, exit_from-Exited}
use dinamite.Runtime.Binary.{Runtime, log_exit}
use dinamite.Runtime.Calls.{perform, Event, run, initial}
use dinamite.Runtime.Logged.{logs}
use dinamite.Runtime.Recorded.{anonymous_cell, History, Recorded}
use dinamite.Runtime.Performed.{add_entry, IsServed, history_after, Recorded-ext, perform-Recorded}

-- What the calls of a run log for a thread, in their order and without the thread's id, behind `made`.
unfoldable pub calls_of : ℕ → List Event → List LogEntry → List LogEntry
calls_of thread [] made = made
calls_of thread (e ∷ events) made =
    calls_of thread events
      (if e.thread == thread then add_entry (logs e.answers e.call) made else made)

history_after-step :
    (made : History) (thread : ℕ) (o : Option (ℕ → LogEntry)) (t : ℕ)
    → history_after made thread o t ≡ (if thread == t then add_entry o (made t) else made t)
history_after-step made thread o t = elim (Bool-cases (thread == t)) [
  | inl at ↦ rw at (ap (λ i. add_entry o (made i)) ((==_iff thread t).0 at))
  | inr off ↦ rw off refl
]

-- After the calls, what each thread made is what its calls logged.
run-Recorded :
    (host : Host) (events : List Event) (made : History) (r : Runtime)
    → All IsServed events
    → Recorded host made r
    → Returns (Recorded host (λ t. calls_of t events (made t))) (run host events r)
unfolding run calls_of
run-Recorded host [] made r served rec = rec
run-Recorded host (e ∷ events) made r (s, served) rec =
    Returns-bind (Recorded host (history_after made e.thread (logs e.answers e.call))) _
      (perform host e.answers e.thread e.call r) (run host events)
      (perform-Recorded host e.answers e.thread s.key s.serves made r rec e.call s.goes_on)
      (λ r' rec'.
        Returns-mono _ _ (run host events r')
          (λ r''. Recorded-ext host _ _ r'' (λ t.
            ap (calls_of t events) (history_after-step made e.thread (logs e.answers e.call) t)))
          (run-Recorded host events _ r' served rec'))

pub Recorded-initial :
    (host : Host) (files : Bytes → Option Entries) → Recorded host (λ _. []) (initial files)
Recorded-initial host files = record {
  owned = record {
    given = λ t set. absurd (set refl);
    below = λ t set. absurd (set refl);
    distinct = λ t u set. absurd (set refl);
  };
  hist = λ _. [];
  held = record {
    keeps = λ i lt. record {
      bounded = omega arith;
      fresh = λ _. refl;
      named = λ name o. absurd (none-ne-some name o);
      kept = λ fits. refl;
    };
    begun = λ i lt ne z. refl;
  };
  new = λ i h. refl;
  threads = λ t set. absurd (set refl);
  silent = λ t unset. refl;
}

-- What a run keeps that was made from the first call on.
pub Recorded-run :
    (host : Host) (files : Bytes → Option Entries) (events : List Event) (r : Runtime)
    → All IsServed events
    → run host events (initial files) ≡ value r
    → Recorded host (λ t. calls_of t events []) r
Recorded-run host files events r served e =
    subst (Returns (Recorded host (λ t. calls_of t events []))) e
      (run-Recorded host events (λ _. []) (initial files) served (Recorded-initial host files))

-- After a run of calls without `logExit`, in which the library gets the key, the memory and the files that it asks for, and with file names that fit, `logExit` returns and leaves in the file of a thread that has an id below 128 exactly the entries of that thread's calls, in their order and each once, whatever the file held before (the thread ids inside the entries apart).
pub log_exit-calls_of :
    (host : Host) (files : Bytes → Option Entries) (events : List Event) (a : Answers) (f : ℤ)
    (last t : ℕ) (r : Runtime)
    → Fits host
    → All IsServed events
    → Serves a
    → run host events (initial files) ≡ value r
    → r.ids.tls t ≢ 0
    → r.ids.tls t < max_threads
    → Returns
        (λ r'.
          Option.map (map anonymous_cell) (r'.trace.files (trace_name host (r.ids.tls t)))
          ≡ some (map some (calls_of t events [])))
        (log_exit host a last f r)
unfolding log_exit
log_exit-calls_of host files events a f last t r fits served serves e set low =
    let rec = Recorded-run host files events r served e in
    Returns-bind (Exited host a 0 max_threads rec.hist r.trace)
      (λ (r' : Runtime).
        Option.map (map anonymous_cell) (r'.trace.files (trace_name host (r.ids.tls t)))
        ≡ some (map some (calls_of t events [])))
      (exit_from host a 0 max_threads r.trace) (λ trace. value (record r { trace = trace }))
      (exit_from-Exited host a max_threads 0 rec.hist r.trace (omega arith) rec.held)
      (λ trace x.
        ap (Option.map (map anonymous_cell)) (
          x.written serves fits (r.ids.tls t) (omega arith) (omega arith)
            (rec.threads t set low).begun)
        ∙ ap some (rec.threads t set low).entries)

-- Where the library gets its key, memory and files, a run of calls without `logExit` gives no two threads the same id, but for 128 and the ids above, which log nothing.
pub tls-distinct :
    (host : Host) (files : Bytes → Option Entries) (events : List Event) (t u : ℕ) (r : Runtime)
    → All IsServed events
    → run host events (initial files) ≡ value r
    → r.ids.tls t ≢ 0
    → r.ids.tls t < max_threads
    → t ≢ u
    → r.ids.tls t ≢ r.ids.tls u
tls-distinct host files events t u r served e set low ne same_id =
    let rec = Recorded-run host files events r served e in
    ne (rec.owned.distinct t u set low same_id)
