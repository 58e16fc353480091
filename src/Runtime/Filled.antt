-- ===== src/Runtime/Filled.antt =====
-- binaryinstrumentation.c: the parts of a call that logs, together.
use dinamite.Shared.{ℕ, Returns, Returns-bind}
use dinamite.Runtime.Records.{LogEntry}
use dinamite.Runtime.Excluded.{Host}
use dinamite.Runtime.Threads.{Answers, Ids, gettid}
use dinamite.Runtime.Buffers.{insert_entry}
use dinamite.Runtime.Assigned.{KeyOk, Owned, Got, gettid-Got, Placed, Got-Placed}
use dinamite.Runtime.Binary.{Runtime, insert_or_write}
use dinamite.Runtime.Logged.{fill_and_insert}

-- What every insertion at a place of the thread leaves, the call leaves.
pub fill_and_insert-Returns :
    (host : Host) (a : Answers) (thread : ℕ) (entry : ℕ → LogEntry) (r : Runtime)
    (Goal : Runtime → Type 0)
    → KeyOk a
    → Owned r.ids
    → ((filled tid : ℕ) (ids : Ids)
        → Placed thread r.ids tid ids
        → Returns
            (λ t. Goal (record { ids = ids; trace = t }))
            (insert_entry host a tid (entry filled) r.trace))
    → Returns Goal (fill_and_insert host a thread entry r)
unfolding insert_or_write
fill_and_insert-Returns host a thread entry r Goal ok owned inserted =
    Returns-bind (λ p. Got thread r.ids p.0 p.1) Goal (gettid host a thread r.ids) _
      (gettid-Got host a thread ok r.ids owned)
      (λ p g.
        Returns-bind (λ q. Got thread p.1 q.0 q.1) Goal (gettid host a thread p.1) _
          (gettid-Got host a thread ok p.1 g.owned)
          (λ q h.
            Returns-bind (λ t. Goal (record { ids = q.1; trace = t })) Goal
              (insert_entry host a q.0 (entry p.0) r.trace) _
              (inserted p.0 q.0 q.1 (Got-Placed thread r.ids p.1 q.1 p.0 q.0 g h)) (λ t z. z)))
