-- ===== src/Runtime/Flushed.antt =====
-- binaryinstrumentation.c: the writing of a full buffer, in insertOrWrite.
use dinamite.Shared.{
  ℕ, ◌<◌, ◌≡◌, refl, sym, ap, ◌∙◌, subst, Bytes, Bool, false, ◌++◌, append-nil, some, ltb, ltb→lt,
  if◌then◌else◌, Outcome, value, ◌>>=◌, Returns, Returns-bind, Bool-cases, inl, inr, arith,
}
use mathlib.Core.Path.{ap₂}
use dinamite.Runtime.Families.{update, update_self, update-same}
use dinamite.Runtime.Excluded.{Host, max_threads}
use dinamite.Runtime.Threads.{Answers}
use dinamite.Runtime.Buffers.{
  buffer_size, Cells, Slot, Trace, set_file, ok_outfile, fwrite, write_full, flush_if_full,
  reset_current, cells_upto, file_or_empty, trace_name,
}
use dinamite.Runtime.Kept.{
  Entries, stored_in, Keeps, Held, Held-set_slot, Held-set_file, Held-ext, file_and_buffer,
}
use dinamite.Runtime.Opened.{
  Serves, when_ok-Returns, ok_outfile-Held, Same, pending-empty, file_self,
}

module _ (host : Host) (a : Answers) (tid : ℕ) (hist : ℕ → Entries) (lt : tid < max_threads) where
  -- After `current[tid] = 0`, the slot keeps the entries of its file; none are lost where the file opens.
  pub record Flushed (cells : Cells) (tr : Trace) : Type 0 where
    pub kept : Entries
    pub held : Held host tid (update hist tid kept) tr
    pub whole : Serves a → kept ≡ hist tid
    pub entries : (tr.slots tid).entries ≡ some cells
    pub room : (tr.slots tid).current < buffer_size

  -- The slot with its buffer emptied.
  emptied-Flushed :
      (cells : Cells) (t : Trace) (h : Entries)
      → (t.slots tid).entries ≡ some cells
      → (Serves a → h ≡ hist tid)
      → Held host tid (update hist tid h) (reset_current tid t)
      → Flushed cells (reset_current tid t)
  unfolding reset_current
  emptied-Flushed cells t h e whole after = record {
    kept = h;
    held = after;
    whole = whole;
    entries = ap (λ (s : Slot). s.entries) (update_self t.slots tid _) ∙ e;
    room =
        subst (λ n. n < buffer_size)
          (sym (ap (λ (s : Slot). s.current) (update_self t.slots tid _))) (omega arith);
  }

  -- A full buffer goes to its file.
  write_to :
      (cells : Cells) (t : Trace)
      → Held host tid hist t
      → (t.slots tid).entries ≡ some cells
      → (t.slots tid).current ≡ buffer_size
      → (t.slots tid).out ≡ some (trace_name host tid)
      → Returns
          (λ u. Flushed cells (reset_current tid u))
          (fwrite cells buffer_size (t.slots tid).out t)
  unfolding fwrite reset_current
  write_to cells t held e c o =
      subst (λ q. Returns (λ u. Flushed cells (reset_current tid u)) (fwrite cells buffer_size q t))
        (sym o)
        (emptied-Flushed cells (set_file t name content) (hist tid) e (λ _. refl)
          (Held-set_file host tid (hist tid) (record s { current = 0 }) hist t content lt held
            (record {
              bounded = omega arith;
              fresh = λ _. refl;
              named = k.named;
              kept = λ fits.
                  ap₂ ◌++◌
                    (ap (stored_in (set_file t name content).files) o
                      ∙ ap file_or_empty (file_self t.files name content))
                    (pending-empty s.entries 0 refl)
                  ∙ append-nil content
                  ∙ file_and_buffer host tid t.files (hist tid) s name cells buffer_size k fits o e
                      c;
            })))
    where
      s : Slot
      s = t.slots tid

      k : Keeps host tid t.files (hist tid) s
      k = held.keeps tid lt

      name : Bytes
      name = trace_name host tid

      content : Entries
      content = file_or_empty (t.files name) ++ cells_upto cells buffer_size

  drop_to :
      (cells : Cells) (t : Trace)
      → Held host tid hist t
      → (t.slots tid).entries ≡ some cells
      → a.opens tid ≡ false
      → Flushed cells (reset_current tid t)
  unfolding reset_current
  drop_to cells t held e closed =
      emptied-Flushed cells t (stored_in t.files s.out) e
        (λ serves. absurd (ground (arith, serves.file tid)))
        (Held-set_slot host tid (stored_in t.files s.out) (record s { current = 0 }) hist t held
          (record {
            bounded = omega arith;
            fresh = λ _. refl;
            named = k.named;
            kept = λ fits.
                ap (λ l. stored_in t.files s.out ++ l) (pending-empty s.entries 0 refl)
                ∙ append-nil (stored_in t.files s.out);
          }))
    where
      s : Slot
      s = t.slots tid

      k : Keeps host tid t.files (hist tid) s
      k = held.keeps tid lt

  write_full-Flushed :
      (cells : Cells) (tr : Trace)
      → Held host tid hist tr
      → (tr.slots tid).entries ≡ some cells
      → ltb (tr.slots tid).current buffer_size ≡ false
      → Returns (λ t. Flushed cells (reset_current tid t)) (write_full host a tid cells tr)
  unfolding write_full
  write_full-Flushed cells tr held e full =
      when_ok-Returns _ _ _ (ok_outfile host a tid tr) _
        (ok_outfile-Held host a tid hist lt tr held)
        (λ t (h, same_else, (name, o)). written t h same_else name o)
        (λ t (h, same_else, closed). dropped t h same_else closed)
    where
      written :
          (t : Trace)
          → Held host tid hist t
          → Same host tid tr t
          → (name : Bytes) → (t.slots tid).out ≡ some name
          → Returns
              (λ u. Flushed cells (reset_current tid u))
              (fwrite cells buffer_size (t.slots tid).out t)
      written t h same_else name o =
          write_to cells t h (same_else.entries ∙ e)
            (ground (arith, same_else.current, (held.keeps tid lt).bounded))
            (o ∙ ap some ((h.keeps tid lt).named name o))

      dropped :
          (t : Trace)
          → Held host tid hist t
          → Same host tid tr t
          → a.opens tid ≡ false
          → Flushed cells (reset_current tid t)
      dropped t h same_else closed = drop_to cells t h (same_else.entries ∙ e) closed

  pub flush_if_full-Flushed :
      (cells : Cells) (tr : Trace)
      → Held host tid hist tr
      → (tr.slots tid).entries ≡ some cells
      → Returns (Flushed cells) (flush_if_full host a tid cells tr)
  unfolding flush_if_full
  flush_if_full-Flushed cells tr held e =
      elim (Bool-cases (ltb (tr.slots tid).current buffer_size)) [
        | inl room ↦ subst (Returns (Flushed cells)) (sym (ap choose room)) (record {
          kept = hist tid;
          held = Held-ext host tid hist (update hist tid (hist tid)) tr (update-same hist tid) held;
          whole = λ _. refl;
          entries = e;
          room = ltb→lt _ _ room;
        })
        | inr full ↦ subst (Returns (Flushed cells)) (sym (ap choose full)) (
            Returns-bind (λ t. Flushed cells (reset_current tid t)) (Flushed cells)
              (write_full host a tid cells tr) (λ t. value (reset_current tid t))
              (write_full-Flushed cells tr held e full) (λ t h. h))
      ]
    where
      choose : Bool → Outcome Trace
      choose b =
          if b
          then value tr
          else (do tr' ← write_full host a tid cells tr; value (reset_current tid tr'))
