-- ===== src/Runtime/Recorded.antt =====
-- binaryinstrumentation.c: what the files and buffers hold of the calls that each thread made.
use mathlib.Core.List.{map, map-append}
use dinamite.Shared.{
  ℕ, ◌≤◌, ◌<◌, ◌≡◌, ◌≢◌, refl, sym, ap, ◌∙◌, subst, List, [], ◌∷◌, ◌++◌, Option, none, some, ltb,
  ◌==◌, ltb→lt, Returns, Returns-mono, Bool-cases, inl, inr, arith,
}
use dinamite.Runtime.Families.{update, update_self, update-other, by_index}
use dinamite.Runtime.Records.{LogEntry, log_fn, log_alloc, log_access}
use dinamite.Runtime.Excluded.{Host, max_threads}
use dinamite.Runtime.Threads.{Answers, Ids}
use dinamite.Runtime.Buffers.{Trace, insert_entry}
use dinamite.Runtime.Kept.{Entries, Held, append-ne-nil}
use dinamite.Runtime.Opened.{Serves}
use dinamite.Runtime.Inserted.{Inserted, insert_entry-Inserted, insert_entry-past}
use dinamite.Runtime.Assigned.{KeyOk, Owned, Placed}
use dinamite.Runtime.Binary.{Runtime}
use dinamite.Runtime.Logged.{fill_and_insert}
use dinamite.Runtime.Filled.{fill_and_insert-Returns}

-- An entry without the id of its thread.
abbrev pub anonymous : LogEntry → LogEntry
anonymous (log_fn x) = log_fn (record x { thread_id = 0 })
anonymous (log_alloc x) = log_alloc (record x { thread_id = 0 })
anonymous (log_access x) = log_access (record x { thread_id = 0 })

abbrev pub anonymous_cell : Option LogEntry → Option LogEntry
anonymous_cell none = none
anonymous_cell (some le) = some (anonymous le)

abbrev pub History : Type 0
History = ℕ → List LogEntry

-- The history of the id of a thread is that of its calls, `made`.
pub record Thread (hist : ℕ → Entries) (made : List LogEntry) (tid : ℕ) : Type 0 where
  pub entries : map anonymous_cell (hist tid) ≡ map some made
  pub begun : hist tid ≢ []

pub record Recorded (host : Host) (made : History) (r : Runtime) : Type 0 where
  pub owned : Owned r.ids
  pub hist : ℕ → Entries
  pub held : Held host max_threads hist r.trace
  pub new : (i : ℕ) → r.ids.next_id ≤ i → hist i ≡ []
  pub threads :
      (t : ℕ) → r.ids.tls t ≢ 0 → r.ids.tls t < max_threads → Thread hist (made t) (r.ids.tls t)
  pub silent : (t : ℕ) → r.ids.tls t ≡ 0 → made t ≡ []

module _ (host : Host) (a : Answers) (thread : ℕ) (serves : Serves a) where
  module _ (made : History) (r : Runtime) (rec : Recorded host made r) (x le : LogEntry)
      (e : anonymous le ≡ x) (tid : ℕ) (ids : Ids) (p : Placed thread r.ids tid ids) where
    abbrev made_after : History
    made_after = update made thread (made thread ++ x ∷ [])

    silent_after : (t : ℕ) → ids.tls t ≡ 0 → made_after t ≡ []
    silent_after =
        by_index (λ t. ids.tls t ≡ 0 → made_after t ≡ []) thread
          (λ unset. absurd (p.not_zero (sym p.own ∙ unset)))
          (λ t ne unset.
            update-other made thread t _ ne ∙ rec.silent t (sym (p.others t ne) ∙ unset))

    -- The history of another thread.
    other_thread :
        (hist : ℕ → Entries) (t : ℕ)
        → thread ≢ t
        → (r.ids.tls t ≢ 0
            → r.ids.tls t < max_threads
            → hist (r.ids.tls t) ≡ rec.hist (r.ids.tls t))
        → ids.tls t ≢ 0
        → ids.tls t < max_threads
        → Thread hist (made_after t) (ids.tls t)
    other_thread hist t ne same_hist set low =
        let o : ids.tls t ≡ r.ids.tls t = p.others t ne in
        let set' : r.ids.tls t ≢ 0 = λ z. set (o ∙ z) in
        let low' : r.ids.tls t < max_threads = omega arith in
        let old : Thread rec.hist (made t) (r.ids.tls t) = rec.threads t set' low' in
        let s = same_hist set' low' in
        subst (Thread hist (made_after t)) (sym o) (record {
          entries =
              ap (map anonymous_cell) s
              ∙ old.entries
              ∙ ap (map some) (sym (update-other made thread t _ ne));
          begun = λ z. old.begun (sym s ∙ z);
        })

    -- The history of the id before this call is that of the thread.
    before_call : tid < max_threads → map anonymous_cell (rec.hist tid) ≡ map some (made thread)
    before_call low = elim (Bool-cases (r.ids.tls thread == 0)) [
      | inl z ↦
          let unset : r.ids.tls thread ≡ 0 = ground arith in
          ap (map anonymous_cell) (rec.new tid (p.new unset low))
          ∙ ap (map some) (sym (rec.silent thread unset))
      | inr nz ↦
          let set : r.ids.tls thread ≢ 0 = λ z. ground arith in
          let old : tid ≡ r.ids.tls thread = p.old set in
          ap (λ i. map anonymous_cell (rec.hist i)) old
          ∙ (rec.threads thread set (omega arith)).entries
    ]

    -- The id has an entry more.
    added-Recorded :
        (trace : Trace)
        → (low : tid < max_threads) → Inserted host a tid rec.hist low le trace
        → Recorded host made_after (record { ids = ids; trace = trace })
    added-Recorded trace low i = record {
      owned = p.owned;
      hist = i.after;
      held = i.held;
      new = λ j h.
          let given : tid < ids.next_id =
            subst (λ k. k < ids.next_id) p.own
              (p.owned.below thread own_set (subst (λ k. k < max_threads) (sym p.own) low)) in
          i.whole serves j
          ∙ update-other rec.hist tid j _ (λ same_id. omega arith)
          ∙ rec.new j (omega (arith, p.grows));
      threads =
          by_index
            (λ t.
              ids.tls t ≢ 0 → ids.tls t < max_threads → Thread i.after (made_after t) (ids.tls t))
            thread (λ _ _. subst (Thread i.after (made_after thread)) (sym p.own) this_thread)
            (λ t ne set low'.
              other_thread i.after t ne
                (λ _ _.
                  i.whole serves (r.ids.tls t)
                  ∙ update-other rec.hist tid (r.ids.tls t) _ (λ same_id. ne (
                      p.owned.distinct thread t own_set
                        (subst (λ k. k < max_threads) (sym p.own) low)
                        (p.own ∙ same_id ∙ sym (p.others t ne)))))
                set low');
      silent = silent_after;
    }
      where
        own_set : ids.tls thread ≢ 0
        own_set z = p.not_zero (sym p.own ∙ z)

        after_call : i.after tid ≡ rec.hist tid ++ some le ∷ []
        after_call = i.whole serves tid ∙ update_self rec.hist tid _

        this_thread : Thread i.after (made_after thread) tid
        this_thread = record {
          entries =
              ap (map anonymous_cell) after_call
              ∙ map-append anonymous_cell (rec.hist tid) (some le ∷ [])
              ∙ ap (λ l. l ++ some (anonymous le) ∷ []) (before_call low)
              ∙ ap (λ y. map some (made thread) ++ some y ∷ []) e
              ∙ sym (map-append some (made thread) (x ∷ []))
              ∙ ap (map some) (sym (update_self made thread _));
          begun = λ z. append-ne-nil (rec.hist tid) (some le) (sym after_call ∙ z);
        }

    -- The id is past the buffers.
    dropped-Recorded :
        max_threads ≤ tid → Recorded host made_after (record { ids = ids; trace = r.trace })
    dropped-Recorded high = record {
      owned = p.owned;
      hist = rec.hist;
      held = rec.held;
      new = λ i h. rec.new i (omega (arith, p.grows));
      threads =
          by_index
            (λ t.
              ids.tls t ≢ 0 → ids.tls t < max_threads → Thread rec.hist (made_after t) (ids.tls t))
            thread (λ _ low. absurd (omega (arith, p.own)))
            (λ t ne. other_thread rec.hist t ne (λ _ _. refl));
      silent = silent_after;
    }

    insert_entry-Recorded :
        Returns
          (λ t. Recorded host made_after (record { ids = ids; trace = t }))
          (insert_entry host a tid le r.trace)
    insert_entry-Recorded = elim (Bool-cases (ltb tid max_threads)) [
      | inl is ↦
          let low = ltb→lt tid max_threads is in
          Returns-mono (Inserted host a tid rec.hist low le)
            (λ t. Recorded host made_after (record { ids = ids; trace = t }))
            (insert_entry host a tid le r.trace) (λ t. added-Recorded t low)
            (insert_entry-Inserted host a tid rec.hist low le r.trace rec.held)
      | inr off ↦
          let high : max_threads ≤ tid = ground arith in
          subst (Returns (λ t. Recorded host made_after (record { ids = ids; trace = t })))
            (sym (insert_entry-past host a tid le r.trace high)) (dropped-Recorded high)
    ]

  pub fill_and_insert-Recorded :
      KeyOk a
      → (made : History) (r : Runtime) → Recorded host made r
      → (entry : ℕ → LogEntry) → ((n : ℕ) → anonymous (entry n) ≡ entry 0)
      → Returns
          (Recorded host (update made thread (made thread ++ entry 0 ∷ [])))
          (fill_and_insert host a thread entry r)
  fill_and_insert-Recorded ok made r rec entry e =
      fill_and_insert-Returns host a thread entry r
        (Recorded host (update made thread (made thread ++ entry 0 ∷ []))) ok rec.owned
        (λ filled tid ids.
          insert_entry-Recorded made r rec (entry 0) (entry filled) (e filled) tid ids)
