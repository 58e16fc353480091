-- ===== src/Runtime/Closed.antt =====
-- binaryinstrumentation.c: one round of logExit.
use mathlib.Core.Path.{ap₂}
use mathlib.Core.Option.{none-ne-some}
use dinamite.Shared.{
  ℕ, zero, suc, ◌≤◌, ◌<◌, ◌≡◌, ◌≢◌, refl, sym, ap, ◌∙◌, subst, Bytes, [], ◌∷◌, ◌++◌, Option, none,
  some, length, length-append, ltb, lt→ltb, if◌then◌else◌, Outcome, value, ◌>>=◌, Returns,
  Option-cases, inl, inr, arith,
}
use dinamite.Runtime.Families.{update, update_self, update-other}
use dinamite.Runtime.Excluded.{Host, max_threads}
use dinamite.Runtime.Threads.{Answers}
use dinamite.Runtime.Buffers.{
  buffer_size, Cells, Slot, Trace, set_slot, ok_outfile, fwrite, close_slot, write_rest, exit_slot,
  cells_upto, file_or_empty, trace_name,
}
use dinamite.Runtime.FileNames.{Fits}
use dinamite.Runtime.Kept.{
  Entries, stored_in, pending_in, Keeps, Held, Held-set_file, Held-all, Held-one, file_and_buffer,
  append-ne-nil,
}
use dinamite.Runtime.Opened.{Serves, when_ok-Returns, ok_outfile-Held, Same, file_self, file-other}

-- What a slot keeps after it is closed: its buffer, with the last entries, and one if there was one.
pub record IsRest (before after : Entries) : Type 0 where
  pub short : length after ≤ buffer_size
  pub begun : before ≢ [] → after ≢ []
  pub last : (lost : Entries) × (before ≡ lost ++ after)

pub length-pending_in : (o : Option Cells) (n : ℕ) → length (pending_in o n) ≤ n
length-pending_in none n = omega arith
length-pending_in (some cells) zero = omega arith
length-pending_in (some cells) (suc n) =
    omega
      (arith, length-append (cells_upto cells n) (cells n ∷ []), length-pending_in (some cells) n)

pending_in-ne-nil :
    (o : Option Cells) (cells : Cells) (m n : ℕ) → o ≡ some cells → m ≡ suc n → pending_in o m ≢ []
pending_in-ne-nil o cells m n e c z =
    append-ne-nil (cells_upto cells n) (cells n) (sym (ap₂ pending_in e c) ∙ z)

module _ (host : Host) (a : Answers) where
  -- After the round of `tid`: its file holds what the slot kept, and the other slots are as they were.
  pub record Closed (tid : ℕ) (hist : ℕ → Entries) (tr t : Trace) : Type 0 where
    pub after : ℕ → Entries
    pub held : Held host max_threads after t
    pub others : (i : ℕ) → tid ≢ i → after i ≡ hist i
    pub files : (name : Bytes) → trace_name host tid ≢ name → t.files name ≡ tr.files name
    pub written :
        Serves a → Fits host → hist tid ≢ [] → t.files (trace_name host tid) ≡ some (hist tid)
    pub rest : Serves a → Fits host → IsRest (hist tid) (after tid)

  module _ (tid : ℕ) (hist : ℕ → Entries) (lt : tid < max_threads) where
    close_slot-Closed :
        (cells : Cells) (n : ℕ) (tr t : Trace)
        → Held host tid hist t
        → Same host tid tr t
        → (t.slots tid).entries ≡ some cells
        → (t.slots tid).current ≡ suc n
        → (t.slots tid).out ≡ some (trace_name host tid)
        → Returns (Closed tid hist tr) (close_slot tid cells (t.slots tid).current t)
    unfolding close_slot fwrite ◌>>=◌
    close_slot-Closed cells n tr t held same_else e c o =
        subst
          (λ q. Returns (Closed tid hist tr) (
            fwrite cells (t.slots tid).current q t >>= λ u.
            value (set_slot u tid (record (u.slots tid) { out = none }))))
          (sym o)
          (record {
            after = update hist tid h;
            held =
                Held-all host tid (update hist tid h) _
                  (λ z. absurd (
                    ground (
                      arith,
                      c,
                      ap (λ (u : Slot). u.current)
                          (update_self t.slots tid (record s { out = none })),
                    )))
                  (Held-set_file host tid h (record s { out = none }) hist t content lt held
                    (record {
                      bounded = k.bounded;
                      fresh = k.fresh;
                      named = λ other q. absurd (none-ne-some other q);
                      kept = λ fits. refl;
                    }));
            others = λ i ne. update-other hist tid i h ne;
            files = λ other ne. file-other t.files name other content ne ∙ same_else.files other ne;
            written = λ serves fits began.
                file_self t.files name content
                ∙ ap some (
                    file_and_buffer host tid t.files (hist tid) s name cells s.current k fits o e
                      refl);
            rest = λ serves fits. subst (IsRest (hist tid)) (sym (update_self hist tid h)) (record {
              short = omega (arith, length-pending_in s.entries s.current, k.bounded);
              begun = λ _. pending_in-ne-nil s.entries cells s.current n e c;
              last = (stored_in t.files s.out, sym (k.kept fits));
            });
          })
      where
        s : Slot
        s = t.slots tid

        k : Keeps host tid t.files (hist tid) s
        k = held.keeps tid lt

        h : Entries
        h = pending_in s.entries s.current

        name : Bytes
        name = trace_name host tid

        content : Entries
        content = file_or_empty (t.files name) ++ cells_upto cells s.current

    -- The round of a slot with nothing in its buffer.
    unused-Closed :
        (tr t : Trace)
        → Held host max_threads hist t
        → (Serves a → hist tid ≡ [])
        → ((name : Bytes) → trace_name host tid ≢ name → t.files name ≡ tr.files name)
        → Closed tid hist tr t
    unused-Closed tr t held none_kept files = record {
      after = hist;
      held = held;
      others = λ i ne. refl;
      files = files;
      written = λ serves fits began. absurd (began (none_kept serves));
      rest = λ serves fits. record {
        short = omega (arith, ap length (none_kept serves));
        begun = λ began. began;
        last = ([], refl);
      };
    }

    write_rest-Closed :
        (cells : Cells) (n : ℕ) (tr : Trace)
        → Held host max_threads hist tr
        → (tr.slots tid).entries ≡ some cells
        → (tr.slots tid).current ≡ suc n
        → Returns (Closed tid hist tr) (write_rest host a tid cells tr)
    unfolding write_rest
    write_rest-Closed cells n tr held e c =
        when_ok-Returns _ _ (Closed tid hist tr) (ok_outfile host a tid tr) _
          (ok_outfile-Held host a tid hist lt tr (Held-one host tid hist tr held))
          (λ t (h, same_else, (name, o)).
            close_slot-Closed cells n tr t h same_else (same_else.entries ∙ e)
              (same_else.current ∙ c) (o ∙ ap some ((h.keeps tid lt).named name o)))
          (λ t (h, same_else, closed).
            unused-Closed tr t
              (Held-all host tid hist t (λ z. absurd (ground (arith, c, same_else.current))) h)
              (λ serves. absurd (ground (arith, serves.file tid))) same_else.files)

    pub exit_slot-Closed :
        (tr : Trace)
        → Held host max_threads hist tr
        → Returns (Closed tid hist tr) (exit_slot host a tid tr)
    unfolding exit_slot
    exit_slot-Closed tr held = elim (Option-cases (tr.slots tid).entries) [
      | inl e ↦ subst (Returns (Closed tid hist tr)) (sym (ap choose e)) (unused (k.fresh e))
      | inr (cells, e) ↦
          subst (Returns (Closed tid hist tr)) (sym (ap choose e))
            (counted cells e (tr.slots tid).current refl)
    ]
      where
        k : Keeps host tid tr.files (hist tid) (tr.slots tid)
        k = held.keeps tid lt

        choose : Option Cells → Outcome Trace
        choose o = elim o [
          | none ↦ value tr
          | some cs ↦ if ltb 0 (tr.slots tid).current then write_rest host a tid cs tr else value tr
        ]

        unused : (tr.slots tid).current ≡ 0 → Closed tid hist tr tr
        unused z =
            unused-Closed tr tr held (λ _. held.begun tid lt (omega arith) z) (λ name ne. refl)

        counted :
            (cells : Cells)
            → (tr.slots tid).entries ≡ some cells
            → (n : ℕ) → (tr.slots tid).current ≡ n
            → Returns
                (Closed tid hist tr)
                (if ltb 0 n then write_rest host a tid cells tr else value tr)
        counted cells e zero c = unused c
        counted cells e (suc n) c =
            subst
              (λ b.
                Returns (Closed tid hist tr)
                  (if b then write_rest host a tid cells tr else value tr))
              (sym (lt→ltb 0 (suc n) (omega arith))) (write_rest-Closed cells n tr held e c)
