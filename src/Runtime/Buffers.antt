-- ===== src/Runtime/Buffers.antt =====
-- binaryinstrumentation.c: the buffer and the output file of each thread id, up to insertOrWrite and
-- logExit. A cell of a buffer that was not written yet is `none`. `fwrite` is taken to write all it is given.
-- The content of an open file is what its stream was given: stdio can hold part of it back until `fclose`.
-- The arrays of MAX_THREADS are families here; an entry that is put behind their end is a fault.
use dinamite.Shared.{
  ◌&&◌, ℕ, zero, suc, ◌-◌, Bytes, codes, same, pos, Bool, true, false, List, [], ◌∷◌, ◌++◌, Option,
  none, some, ltb, if◌then◌else◌, Outcome, value, crashed, ◌>>=◌, decimal, first_bytes,
}
use dinamite.Runtime.Families.{update}
use dinamite.Runtime.Records.{LogEntry}
use dinamite.Runtime.Excluded.{Host, max_threads}
use dinamite.Runtime.Threads.{Answers, ok_tid}

abbrev pub buffer_size : ℕ
buffer_size = 16384

abbrev pub path_max : ℕ
path_max = 4096

-- The cells of an allocated buffer.
abbrev pub Cells : Type 0
Cells = ℕ → Option LogEntry

-- `out[tid]`, the name of the file that is open for writing; `entries[tid]`; `current[tid]`.
pub record Slot : Type 0 where
  pub out : Option Bytes
  pub entries : Option Cells
  pub current : ℕ

-- The slots of all ids, and the contents of the files of the system by name.
pub record Trace : Type 0 where
  pub slots : ℕ → Slot
  pub files : Bytes → Option (List (Option LogEntry))

abbrev pub set_slot : Trace → ℕ → Slot → Trace
set_slot tr tid s = record tr { slots = update tr.slots tid s }

abbrev pub set_file : Trace → Bytes → List (Option LogEntry) → Trace
set_file tr name content = record tr {
  files = λ other. if same name other then some content else tr.files other;
}

-- `__dinamite_init_buffer`
unfoldable pub init_buffer : Answers → ℕ → Trace → Bool × Trace
init_buffer a tid tr =
    let given = (if a.buffer_allocated then some (λ _. none) else none) in
    (a.buffer_allocated, set_slot tr tid (record (tr.slots tid) { entries = given }))

-- `__dinamite_ok_buffer`
unfoldable pub ok_buffer : Answers → ℕ → Trace → Bool × Trace
ok_buffer a tid tr = elim (tr.slots tid).entries [
  | none ↦ init_buffer a tid tr
  | some _ ↦ (true, tr)
]

-- What stands before the name of the file.
unfoldable pub trace_directory : Option Bytes → Bytes
trace_directory none = []
trace_directory (some prefix) = prefix ++ codes "/"

-- The name that `snprintf` writes into `fname`, cut where it does not fit.
unfoldable pub trace_name : Host → ℕ → Bytes
trace_name host tid =
    first_bytes (path_max - 2)
      (trace_directory host.prefix ++ (codes "trace.bin." ++ decimal (pos tid)))

-- `__dinamite_opened_outfile`; "wb" empties the file.
unfoldable pub opened_outfile : Host → Answers → ℕ → Trace → Bool × Trace
opened_outfile host a tid tr =
    if ok_tid tid
    then (if a.opens tid
        then (
          true,
          set_slot (set_file tr (trace_name host tid) []) tid
              (record (tr.slots tid) { out = some (trace_name host tid) }),
        )
        else (false, set_slot tr tid (record (tr.slots tid) { out = none })))
    else (false, tr)

-- `__dinamite_ok_outfile`
unfoldable pub ok_outfile : Host → Answers → ℕ → Trace → Bool × Trace
ok_outfile host a tid tr =
    if ok_tid tid
    then elim (tr.slots tid).out [ none ↦ opened_outfile host a tid tr | some _ ↦ (true, tr) ]
    else (false, tr)

-- The first cells of a buffer, in order.
abbrev pub cells_upto : Cells → ℕ → List (Option LogEntry)
cells_upto cells zero = []
cells_upto cells (suc n) = cells_upto cells n ++ cells n ∷ []

abbrev pub file_or_empty : Option (List (Option LogEntry)) → List (Option LogEntry)
file_or_empty none = []
file_or_empty (some content) = content

-- `fwrite(entries[tid], sizeof(logentry), count, out[tid])`, which fails without a file.
unfoldable pub fwrite : Cells → ℕ → Option Bytes → Trace → Outcome Trace
fwrite cells count none tr = crashed
fwrite cells count (some name) tr =
    value (set_file tr name (file_or_empty (tr.files name) ++ cells_upto cells count))

-- What is done if a buffer or a file is there.
unfoldable pub when_ok : Bool × Trace → (Trace → Outcome Trace) → Outcome Trace
when_ok (true, tr) next = next tr
when_ok (false, tr) next = value tr

-- The writing of a full buffer; `current[tid] = 0` follows.
unfoldable pub write_full : Host → Answers → ℕ → Cells → Trace → Outcome Trace
write_full host a tid cells tr =
    when_ok (ok_outfile host a tid tr) λ tr'. fwrite cells buffer_size (tr'.slots tid).out tr'

unfoldable pub reset_current : ℕ → Trace → Trace
reset_current tid tr = set_slot tr tid (record (tr.slots tid) { current = 0 })

unfoldable pub flush_if_full : Host → Answers → ℕ → Cells → Trace → Outcome Trace
flush_if_full host a tid cells tr =
    if ltb (tr.slots tid).current buffer_size
    then value tr
    else do tr' ← write_full host a tid cells tr; value (reset_current tid tr')

-- `entries[tid][current[tid]++] = *le`, in the bounds of the arrays and of the buffer.
unfoldable pub put_entry : ℕ → Cells → LogEntry → Trace → Outcome Trace
put_entry tid cells le tr =
    let s = tr.slots tid in
    if ltb tid max_threads && ltb s.current buffer_size
    then value (
        set_slot tr tid
          (record s { entries = some (update cells s.current (some le)); current = suc s.current }))
    else crashed

unfoldable pub buffer_entry : Host → Answers → ℕ → LogEntry → Trace → Outcome Trace
buffer_entry host a tid le tr = elim (tr.slots tid).entries [
  | none ↦ crashed
  | some cells ↦ do tr' ← flush_if_full host a tid cells tr; put_entry tid cells le tr'
]

-- `insertOrWrite`, given the id of the thread.
unfoldable pub insert_entry : Host → Answers → ℕ → LogEntry → Trace → Outcome Trace
insert_entry host a tid le tr =
    if ok_tid tid then when_ok (ok_buffer a tid tr) (buffer_entry host a tid le) else value tr

-- `fwrite`, `fflush` and `fclose`, where the file is open.
unfoldable pub close_slot : ℕ → Cells → ℕ → Trace → Outcome Trace
close_slot tid cells count tr = do
  tr' ← fwrite cells count (tr.slots tid).out tr
  value (set_slot tr' tid (record (tr'.slots tid) { out = none }))

unfoldable pub write_rest : Host → Answers → ℕ → Cells → Trace → Outcome Trace
write_rest host a tid cells tr =
    when_ok (ok_outfile host a tid tr) λ tr'. close_slot tid cells (tr'.slots tid).current tr'

-- One round of the loop of `logExit`.
unfoldable pub exit_slot : Host → Answers → ℕ → Trace → Outcome Trace
exit_slot host a tid tr = elim (tr.slots tid).entries [
  | none ↦ value tr
  | some cells ↦ if ltb 0 (tr.slots tid).current then write_rest host a tid cells tr else value tr
]

-- The rounds from `tid` on.
unfoldable pub exit_from : Host → Answers → ℕ → ℕ → Trace → Outcome Trace
exit_from host a tid zero tr = value tr
exit_from host a tid (suc n) tr = do tr' ← exit_slot host a tid tr; exit_from host a (suc tid) n tr'
