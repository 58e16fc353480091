-- ===== src/Runtime/Inserted.antt =====
-- binaryinstrumentation.c: insertOrWrite, by what the slot of the thread keeps.
use dinamite.Shared.{
  ltb, ◌&&◌, ℕ, zero, suc, ◌-◌, ◌≤◌, ◌<◌, ◌≡◌, refl, sym, ap, ◌∙◌, subst, Bool, true, false, [],
  ◌∷◌, ◌++◌, append_assoc, Option, none, some, lt→ltb, if◌then◌else◌, Outcome, value, crashed,
  ◌>>=◌, Returns, Returns-bind, arith,
}
use mathlib.Core.Option.{none-ne-some}
use dinamite.Runtime.Families.{update, update_self, update-other, update-twice}
use dinamite.Runtime.Records.{LogEntry}
use dinamite.Runtime.Excluded.{Host, max_threads}
use dinamite.Runtime.Threads.{Answers, ok_tid}
use dinamite.Runtime.Buffers.{
  buffer_size, Cells, Slot, Trace, set_slot, ok_buffer, when_ok, flush_if_full, put_entry,
  buffer_entry, insert_entry, cells_upto,
}
use dinamite.Runtime.Kept.{
  Entries, stored_in, pending_in, Keeps, Held, Held-set_slot, Held-ext, Held-all, Held-one,
}
use dinamite.Runtime.Opened.{Serves, when_ok-Returns, HasEntries, ok_tid_lem}
use dinamite.Runtime.Buffered.{ok_buffer-Held}
use dinamite.Runtime.Flushed.{Flushed, flush_if_full-Flushed}

-- The cells up to a later one do not change.
cells_upto-update :
    (cells : Cells) (n m : ℕ) (o : Option LogEntry)
    → n ≤ m
    → cells_upto (update cells m o) n ≡ cells_upto cells n
cells_upto-update cells zero m o h = refl
cells_upto-update cells (suc n) m o h =
    ap (λ l. l ++ update cells m o n ∷ []) (cells_upto-update cells n m o (omega arith))
    ∙ ap (λ c. cells_upto cells n ++ c ∷ []) (update-other cells m n o (omega arith))

cells_upto-put :
    (cells : Cells) (n : ℕ) (o : Option LogEntry)
    → cells_upto (update cells n o) (suc n) ≡ cells_upto cells n ++ o ∷ []
cells_upto-put cells n o =
    ap (λ l. l ++ update cells n o n ∷ []) (cells_upto-update cells n n o (omega arith))
    ∙ ap (λ c. cells_upto cells n ++ c ∷ []) (update_self cells n o)

module _ (host : Host) (a : Answers) (tid : ℕ) (hist : ℕ → Entries) (lt : tid < max_threads) where
  -- After a call: some history of each id, and that of `tid` with the entry where the system serves.
  pub record Inserted (le : LogEntry) (tr : Trace) : Type 0 where
    pub after : ℕ → Entries
    pub held : Held host max_threads after tr
    pub whole : Serves a → (i : ℕ) → after i ≡ update hist tid (hist tid ++ some le ∷ []) i

  put_entry-Inserted :
      (cells : Cells) (le : LogEntry) (tr : Trace)
      → Flushed host a tid hist lt cells tr
      → Returns (Inserted le) (put_entry tid cells le tr)
  unfolding put_entry
  put_entry-Inserted cells le tr f =
      subst (Returns (Inserted le)) (sym (ap choose inside)) (record {
        after = update hist tid (f.kept ++ some le ∷ []);
        held =
            Held-all host tid (update hist tid (f.kept ++ some le ∷ [])) (set_slot tr tid s')
              (λ z.
                absurd (ground (arith, ap (λ (t : Slot). t.current) (update_self tr.slots tid s'))))
              (Held-ext host tid _ (update hist tid (f.kept ++ some le ∷ [])) (set_slot tr tid s')
                (update-twice hist tid f.kept (f.kept ++ some le ∷ []))
                (Held-set_slot host tid (f.kept ++ some le ∷ []) s' (update hist tid f.kept) tr
                  f.held kept_after));
        whole = λ serves i. ap (λ l. update hist tid (l ++ some le ∷ []) i) (f.whole serves);
      })
    where
      s : Slot
      s = tr.slots tid

      s' : Slot
      s' = record s { entries = some (update cells s.current (some le)); current = suc s.current }

      k : Keeps host tid tr.files f.kept s
      k =
          subst (λ h. Keeps host tid tr.files h s) (update_self hist tid f.kept)
            (f.held.keeps tid lt)

      kept_after : Keeps host tid tr.files (f.kept ++ some le ∷ []) s'
      kept_after = record {
        bounded = omega (arith, f.room);
        fresh = λ e. absurd (none-ne-some (update cells s.current (some le)) (sym e));
        named = k.named;
        kept = λ fits.
            ap (λ l. stored_in tr.files s.out ++ l) (cells_upto-put cells s.current (some le))
            ∙ sym (
                append_assoc (stored_in tr.files s.out) (cells_upto cells s.current) (some le ∷ []))
            ∙ ap (λ q. (stored_in tr.files s.out ++ pending_in q s.current) ++ some le ∷ [])
                (sym f.entries)
            ∙ ap (λ l. l ++ some le ∷ []) (k.kept fits);
      }

      inside : (ltb tid max_threads && ltb s.current buffer_size) ≡ true
      inside =
          ap (λ b. b && ltb s.current buffer_size) (lt→ltb tid max_threads lt)
          ∙ lt→ltb s.current buffer_size f.room

      choose : Bool → Outcome Trace
      choose b = if b then value (set_slot tr tid s') else crashed

  buffer_entry-Inserted :
      (le : LogEntry) (tr : Trace)
      → Held host tid hist tr
      → HasEntries (tr.slots tid)
      → Returns (Inserted le) (buffer_entry host a tid le tr)
  unfolding buffer_entry
  buffer_entry-Inserted le tr held (cells, e) = subst (Returns (Inserted le)) (sym (ap choose e)) (
      Returns-bind (Flushed host a tid hist lt cells) (Inserted le)
        (flush_if_full host a tid cells tr) (put_entry tid cells le)
        (flush_if_full-Flushed host a tid hist lt cells tr held e) (put_entry-Inserted cells le))
    where
      choose : Option Cells → Outcome Trace
      choose o = elim o [
        | none ↦ crashed
        | some cs ↦ do tr' ← flush_if_full host a tid cs tr; put_entry tid cs le tr'
      ]

  pub insert_entry-Inserted :
      (le : LogEntry) (tr : Trace)
      → Held host max_threads hist tr
      → Returns (Inserted le) (insert_entry host a tid le tr)
  unfolding insert_entry
  insert_entry-Inserted le tr held =
      subst (Returns (Inserted le))
        (sym (
          ap
            (λ b. if b then when_ok (ok_buffer a tid tr) (buffer_entry host a tid le) else value tr)
            (ok_tid_lem tid lt)))
        (when_ok-Returns _ _ (Inserted le) (ok_buffer a tid tr) (buffer_entry host a tid le)
          (ok_buffer-Held host a tid hist lt tr (Held-one host tid hist tr held))
          (λ t (h, e). buffer_entry-Inserted le t h e)
          (λ t (h, c, refused). record {
            after = hist;
            held = Held-all host tid hist t (λ z. held.begun tid lt (omega arith) (sym c ∙ z)) h;
            whole = λ serves. absurd (ground (arith, serves.buffer));
          }))

-- An id past the buffers changes nothing.
pub insert_entry-past :
    (host : Host) (a : Answers) (tid : ℕ) (le : LogEntry) (tr : Trace)
    → max_threads ≤ tid
    → insert_entry host a tid le tr ≡ value tr
unfolding insert_entry ok_tid
insert_entry-past host a tid le tr h =
    ap
      (λ b.
        if (if b then false else true)
        then when_ok (ok_buffer a tid tr) (buffer_entry host a tid le)
        else value tr)
      (lt→ltb (max_threads - 1) tid (omega arith))
