-- ===== src/Runtime/Performed.antt =====
-- binaryinstrumentation.c: each call but logExit, by the history of its thread.
use dinamite.Shared.{
  ℕ, ℤ, ◌≡◌, refl, sym, ◌∙◌, subst, Bool, List, [], ◌∷◌, ◌++◌, Option, none, some, Outcome, value,
  Returns, Returns-bind,
}
use dinamite.Runtime.Families.{update, update-same}
use dinamite.Runtime.Records.{LogEntry, fn_begin, fn_end, ValueType, ValueStore}
use dinamite.Runtime.Excluded.{Host}
use dinamite.Runtime.Threads.{Answers, ensure_key}
use dinamite.Runtime.Opened.{Serves}
use dinamite.Runtime.Assigned.{KeyOk, Keyed, ensure_key-Keyed}
use dinamite.Runtime.Binary.{Runtime, Access, log_init}
use dinamite.Runtime.Calls.{Call, init, exit, begin, end, alloc, access, perform, Event}
use dinamite.Runtime.Logged.{
  fn_entry, alloc_entry, access_entry, stored_value, access_logs, logs, Accessed, begin_lem,
  end_lem, alloc_lem, access_lem, fill_and_insert,
}
use dinamite.Runtime.Recorded.{anonymous, History, Thread, Recorded, fill_and_insert-Recorded}

-- The entry of a call behind others.
abbrev pub add_entry : Option (ℕ → LogEntry) → List LogEntry → List LogEntry
add_entry none made = made
add_entry (some entry) made = made ++ entry 0 ∷ []

-- The call is not `logExit`.
abbrev pub GoesOn : Call → Type 0
GoesOn (exit f) = ⊥
GoesOn (init f) = Unit
GoesOn (begin f) = Unit
GoesOn (end f) = Unit
GoesOn (alloc x) = Unit
GoesOn (access function v x) = Unit

-- During the call the library gets its key, and the memory and the files that it asks for.
pub record IsServed (e : Event) : Type 0 where
  pub key : KeyOk e.answers
  pub serves : Serves e.answers
  pub goes_on : GoesOn e.call

abbrev pub history_after : History → ℕ → Option (ℕ → LogEntry) → History
history_after made thread o = update made thread (add_entry o (made thread))

pub Recorded-ext :
    (host : Host) (made other : History) (r : Runtime)
    → ((t : ℕ) → made t ≡ other t)
    → Recorded host made r
    → Recorded host other r
Recorded-ext host made other r e rec = record {
  owned = rec.owned;
  hist = rec.hist;
  held = rec.held;
  new = rec.new;
  threads = λ t set low. subst (λ m. Thread rec.hist m (r.ids.tls t)) (e t) (rec.threads t set low);
  silent = λ t unset. sym (e t) ∙ rec.silent t unset;
}

module _ (host : Host) (a : Answers) (thread : ℕ) (ok : KeyOk a) (serves : Serves a) where
  module _ (made : History) (r : Runtime) (rec : Recorded host made r) where
    idle-Recorded : Recorded host (update made thread (made thread)) r
    idle-Recorded = Recorded-ext host made _ r (update-same made thread) rec

    log_init-Recorded :
        (f : ℤ)
        → Returns (Recorded host (update made thread (made thread))) (log_init host a thread f r)
    unfolding log_init
    log_init-Recorded f =
        Returns-bind (Keyed host a thread r.ids) (Recorded host (update made thread (made thread)))
          (ensure_key a r.ids) (λ ids'. value (record r { ids = ids' }))
          (ensure_key-Keyed host a thread ok r.ids)
          (λ ids' (b, e).
            subst (λ ids. Recorded host (update made thread (made thread)) (record r { ids = ids }))
              (sym e) (keyed b))
      where
        keyed :
            (b : Bool)
            → Recorded host
                (update made thread (made thread))
                (record r { ids = record (r.ids) { key_created = b } })
        keyed b =
            let i = idle-Recorded in
            record {
              owned = record {
                given = i.owned.given;
                below = i.owned.below;
                distinct = i.owned.distinct;
              };
              hist = i.hist;
              held = i.held;
              new = i.new;
              threads = i.threads;
              silent = i.silent;
            }

    logging :
        (entry : ℕ → LogEntry)
        → ((n : ℕ) → anonymous (entry n) ≡ entry 0)
        → (o : Outcome Runtime) → o ≡ fill_and_insert host a thread entry r
        → Returns (Recorded host (history_after made thread (some entry))) o
    logging entry e o eq =
        subst (Returns (Recorded host (history_after made thread (some entry)))) (sym eq)
          (fill_and_insert-Recorded host a thread serves ok made r rec entry e)

    accessing :
        (stored : Option (ValueType × ValueStore)) (x : Access) (o : Outcome Runtime)
        → Accessed host a thread stored x o r
        → Returns (Recorded host (history_after made thread (access_logs a x stored))) o
    accessing none x o eq =
        subst (Returns (Recorded host (update made thread (made thread)))) (sym eq) idle-Recorded
    accessing (some (value_type, stored)) x o eq =
        logging (access_entry a value_type stored x) (λ n. refl) o eq

    -- A call adds its entry to what its thread made.
    pub perform-Recorded :
        (c : Call)
        → GoesOn c
        → Returns (Recorded host (history_after made thread (logs a c))) (perform host a thread c r)
    perform-Recorded (init f) g = unfold perform in log_init-Recorded f
    perform-Recorded (exit f) g = absurd g
    perform-Recorded (begin f) g =
        logging (fn_entry a fn_begin f) (λ n. refl) _ (begin_lem host a thread f r)
    perform-Recorded (end f) g =
        logging (fn_entry a fn_end f) (λ n. refl) _ (end_lem host a thread f r)
    perform-Recorded (alloc x) g =
        logging (alloc_entry a x) (λ n. refl) _ (alloc_lem host a thread x r)
    perform-Recorded (access function v x) g =
        accessing (stored_value function v) x _ (access_lem host a thread function v x r)
