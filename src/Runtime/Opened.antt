-- ===== src/Runtime/Opened.antt =====
-- binaryinstrumentation.c: the output file of an id, as insertOrWrite and logExit find it.
use dinamite.Shared.{
  different, ℕ, ◌<◌, ◌≡◌, ◌≢◌, refl, sym, ap, ◌∙◌, subst, Bytes, same, same_refl, Bool, true, false,
  [], ◌++◌, Option, none, some, if◌then◌else◌, Outcome, Returns, Option-cases, inl, inr, arith,
}
use mathlib.Core.Option.{some-injective, none-ne-some}
use dinamite.Runtime.Families.{update, update_self, update-same}
use dinamite.Runtime.Excluded.{Host, max_threads}
use dinamite.Runtime.Threads.{Answers, ok_tid}
use dinamite.Runtime.Buffers.{
  Cells, Slot, Trace, set_slot, set_file, opened_outfile, ok_outfile, when_ok, cells_upto,
  file_or_empty, trace_name,
}
use dinamite.Runtime.Kept.{
  Entries, Files, stored_in, pending_in, Keeps, Held, Held-set_slot, Held-set_file, Held-ext,
}

-- The system gives the memory and opens the files that are asked for.
pub record Serves (a : Answers) : Type 0 where
  pub buffer : a.buffer_allocated ≡ true
  pub file : (i : ℕ) → a.opens i ≡ true

-- What a step that can fail leaves, by its result.
abbrev pub OkOr : (Trace → Type 0) → (Trace → Type 0) → Bool × Trace → Type 0
OkOr P R (true, tr) = P tr
OkOr P R (false, tr) = R tr

pub when_ok-Returns :
    (P R Q : Trace → Type 0) (bt : Bool × Trace) (next : Trace → Outcome Trace)
    → OkOr P R bt
    → ((tr : Trace) → P tr → Returns Q (next tr))
    → ((tr : Trace) → R tr → Q tr)
    → Returns Q (when_ok bt next)
unfolding when_ok
when_ok-Returns P R Q (true, tr) next h k l = k tr h
when_ok-Returns P R Q (false, tr) next h k l = l tr h

abbrev pub HasEntries : Slot → Type 0
HasEntries s = (cells : Cells) × (s.entries ≡ some cells)

abbrev pub HasFile : Slot → Type 0
HasFile s = (name : Bytes) × (s.out ≡ some name)

pub ok_tid_lem : (tid : ℕ) → tid < max_threads → ok_tid tid ≡ true
unfolding ok_tid
ok_tid_lem tid h = ground arith

-- The buffer of the slot of `tid` is as it was, and so are the files that are not its own.
pub record Same (host : Host) (tid : ℕ) (tr t : Trace) : Type 0 where
  pub entries : (t.slots tid).entries ≡ (tr.slots tid).entries
  pub current : (t.slots tid).current ≡ (tr.slots tid).current
  pub files : (name : Bytes) → trace_name host tid ≢ name → t.files name ≡ tr.files name

pub pending-empty : (o : Option Cells) (n : ℕ) → n ≡ 0 → pending_in o n ≡ []
pending-empty none n e = refl
pending-empty (some cells) n e = ap (cells_upto cells) e

pub file-other :
    (files : Files) (name other : Bytes) (content : Entries)
    → name ≢ other
    → (if same name other then some content else files other) ≡ files other
file-other files name other content ne =
    ap (λ b. if b then some content else files other) (different name other ne)

pub file_self :
    (files : Files) (name : Bytes) (content : Entries)
    → (if same name name then some content else files name) ≡ some content
file_self files name content = ap (λ b. if b then some content else files name) (same_refl name)

module _ (host : Host) (a : Answers) (tid : ℕ) (hist : ℕ → Entries) where
  -- The slot of `tid` is changed, and what it keeps stays.
  pub Held-set_same :
      (tr : Trace) (s : Slot)
      → Held host tid hist tr
      → Keeps host tid tr.files (hist tid) s
      → Held host tid hist (set_slot tr tid s)
  Held-set_same tr s held k =
      Held-ext host tid (update hist tid (hist tid)) hist (set_slot tr tid s)
        (λ i. sym (update-same hist tid i)) (Held-set_slot host tid (hist tid) s hist tr held k)

  -- A file is open, or it cannot be opened.
  pub ok_outfile-Held :
      tid < max_threads
      → (tr : Trace) → Held host tid hist tr
      → OkOr
          (λ t. Held host tid hist t × Same host tid tr t × HasFile (t.slots tid))
          (λ t. Held host tid hist t × Same host tid tr t × (a.opens tid ≡ false))
          (ok_outfile host a tid tr)
  unfolding ok_outfile opened_outfile
  ok_outfile-Held lt tr held =
      subst (OkOr Good Bad)
        (sym (
          ap
            (λ b.
              if b
              then elim (tr.slots tid).out [
                | none ↦ opened_outfile host a tid tr
                | some _ ↦ (true, tr)
              ]
              else (false, tr))
            (ok_tid_lem tid lt)))
        (elim (Option-cases (tr.slots tid).out) [
          | inr (name, e) ↦
              subst (OkOr Good Bad) (sym (ap choose e)) (
                held,
                record { entries = refl; current = refl; files = λ name ne. refl },
                (name, e),
              )
          | inl e ↦
              subst (OkOr Good Bad) (sym (ap choose e ∙ ap pick (ok_tid_lem tid lt)))
                (opened (a.opens tid) refl e)
        ])
    where
      Good : Trace → Type 0
      Good t = Held host tid hist t × Same host tid tr t × HasFile (t.slots tid)

      Bad : Trace → Type 0
      Bad t = Held host tid hist t × Same host tid tr t × (a.opens tid ≡ false)

      choose : Option Bytes → Bool × Trace
      choose o = elim o [ none ↦ opened_outfile host a tid tr | some _ ↦ (true, tr) ]

      opening : Bool → Bool × Trace
      opening b =
          if b
          then (
            true,
            set_slot (set_file tr (trace_name host tid) []) tid
                (record (tr.slots tid) { out = some (trace_name host tid) }),
          )
          else (false, set_slot tr tid (record (tr.slots tid) { out = none }))

      pick : Bool → Bool × Trace
      pick b = if b then opening (a.opens tid) else (false, tr)

      s : Slot
      s = tr.slots tid

      k : Keeps host tid tr.files (hist tid) s
      k = held.keeps tid lt

      same_else :
          (o : Option Bytes) (files : Files)
          → ((name : Bytes) → trace_name host tid ≢ name → files name ≡ tr.files name)
          → Same host tid tr
              (record { slots = update tr.slots tid (record s { out = o }); files = files })
      same_else o files e = record {
        entries = ap (λ (t : Slot). t.entries) (update_self tr.slots tid _);
        current = ap (λ (t : Slot). t.current) (update_self tr.slots tid _);
        files = e;
      }

      opened : (b : Bool) → a.opens tid ≡ b → (tr.slots tid).out ≡ none → OkOr Good Bad (opening b)
      opened true e none_open = (
        Held-ext host tid (update hist tid (hist tid)) hist _ (λ i. sym (update-same hist tid i))
            (Held-set_file host tid (hist tid) _ hist tr [] lt held (record {
              bounded = k.bounded;
              fresh = k.fresh;
              named = λ name o. sym (some-injective _ _ o);
              kept = λ fits.
                  ap (λ l. l ++ pending_in s.entries s.current)
                    (ap file_or_empty (file_self tr.files (trace_name host tid) [])
                      ∙ sym (ap (stored_in tr.files) none_open))
                  ∙ k.kept fits;
            })),
        same_else (some (trace_name host tid)) _
            (λ name ne. file-other tr.files (trace_name host tid) name [] ne),
        (trace_name host tid, ap (λ (t : Slot). t.out) (update_self tr.slots tid _)),
      )
      opened false e none_open = (
        Held-set_same tr _ held (record {
          bounded = k.bounded;
          fresh = k.fresh;
          named = λ name o. absurd (none-ne-some name o);
          kept = λ fits.
              ap (λ l. l ++ pending_in s.entries s.current)
                (sym (ap (stored_in tr.files) none_open))
              ∙ k.kept fits;
        }),
        same_else none tr.files (λ name ne. refl),
        e,
      )
