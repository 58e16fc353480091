-- ===== src/Runtime/Threads.antt =====
-- binaryinstrumentation.c: the ids of threads (__dinamite_create_key, __dinamite_get_next_id,
-- __dinamite_gettid, __dinamite_ok_tid). `next_id` does not reach the bound of an `int`.
use dinamite.Shared.{
  ℕ, suc, ◌-◌, Bool, true, false, Option, ltb, ◌==◌, if◌then◌else◌, Outcome, value, exited, ◌>>=◌,
}
use dinamite.Runtime.Families.{update}
use dinamite.Runtime.Clock.{TimeSpec}
use dinamite.Runtime.Excluded.{Host, max_threads, exclude_tid}

-- What the system answers during one call of the library: whether `pthread_once` and
-- `pthread_key_create` succeed, whether `malloc` gives memory for the list of excluded ids and for the
-- buffer, whether `fopen` opens the file of an id, and the time.
pub record Answers : Type 0 where
  pub once_ok : Bool
  pub key_ok : Bool
  pub list_allocated : Bool
  pub buffer_allocated : Bool
  pub opens : ℕ → Bool
  pub clock : Option TimeSpec

-- `key_created` is the state of `dinamite_once_control`, and `tls` the values of `tls_key` by thread.
pub record Ids : Type 0 where
  pub key_created : Bool
  pub tls : ℕ → ℕ
  pub next_id : ℕ

-- `__dinamite_create_key`
unfoldable pub create_key : Answers → Ids → Outcome Ids
create_key a ids = if a.key_ok then value (record ids { key_created = true }) else exited

-- `pthread_once` with the test of its result.
unfoldable pub ensure_key : Answers → Ids → Outcome Ids
ensure_key a ids =
    if a.once_ok then (if ids.key_created then value ids else create_key a ids) else exited

-- `__dinamite_get_next_id`
unfoldable pub get_next_id : Ids → ℕ × Ids
get_next_id ids = (ids.next_id, record ids { next_id = suc ids.next_id })

-- The branch of `__dinamite_gettid` for a thread whose value is zero.
unfoldable pub issue_tid : Host → Answers → ℕ → Ids → ℕ × Ids
issue_tid host a thread ids =
    let (issued, ids') = get_next_id ids in
    let tid = (if exclude_tid host a.list_allocated issued then max_threads else issued) in
    (tid, record ids' { tls = update ids'.tls thread tid })

unfoldable pub known_tid : Host → Answers → ℕ → Ids → ℕ × Ids
known_tid host a thread ids =
    if ids.tls thread == 0 then issue_tid host a thread ids else (ids.tls thread, ids)

-- `__dinamite_gettid`
unfoldable pub gettid : Host → Answers → ℕ → Ids → Outcome (ℕ × Ids)
gettid host a thread ids = do ids' ← ensure_key a ids; value (known_tid host a thread ids')

-- `__dinamite_ok_tid`
unfoldable pub ok_tid : ℕ → Bool
ok_tid tid = if ltb (max_threads - 1) tid then false else true
