-- ===== src/Runtime/Kept.antt =====
-- binaryinstrumentation.c: what the slots and the files of a trace keep of the entries inserted.
use dinamite.Shared.{
  different, ℕ, ◌≤◌, ◌<◌, ◌≡◌, ◌≢◌, refl, sym, ap, subst, ◌∙◌, Bytes, same, List, [], ◌∷◌, ◌++◌,
  Option, none, some, ◌==◌, ==_iff, if◌then◌else◌, Bool-cases, inl, inr, arith,
}
use dinamite.Runtime.Families.{update, update-both}
use dinamite.Runtime.Records.{LogEntry}
use dinamite.Runtime.Excluded.{Host, max_threads}
use dinamite.Runtime.Buffers.{
  buffer_size, Cells, Slot, Trace, set_slot, set_file, cells_upto, file_or_empty, trace_name,
}
use dinamite.Runtime.FileNames.{Fits, trace_name-injective}

abbrev pub Entries : Type 0
Entries = List (Option LogEntry)

abbrev pub Files : Type 0
Files = Bytes → Option Entries

-- The entries of a slot that stand in its open file.
abbrev pub stored_in : Files → Option Bytes → Entries
stored_in files none = []
stored_in files (some name) = file_or_empty (files name)

-- The entries of a slot that stand in its buffer.
abbrev pub pending_in : Option Cells → ℕ → Entries
pending_in none n = []
pending_in (some cells) n = cells_upto cells n

-- The slot of an id: its count is in the bounds of the buffer, and its file and its buffer hold `h`.
pub record Keeps (host : Host) (i : ℕ) (files : Files) (h : Entries) (s : Slot) : Type 0 where
  pub bounded : s.current ≤ buffer_size
  pub fresh : s.entries ≡ none → s.current ≡ 0
  pub named : (name : Bytes) → s.out ≡ some name → name ≡ trace_name host i
  pub kept : Fits host → stored_in files s.out ++ pending_in s.entries s.current ≡ h

-- The slots of all ids, for a history of each; a slot other than `tid` with an empty buffer has none.
pub record Held (host : Host) (tid : ℕ) (hist : ℕ → Entries) (tr : Trace) : Type 0 where
  pub keeps : (i : ℕ) → i < max_threads → Keeps host i tr.files (hist i) (tr.slots i)
  pub begun : (i : ℕ) → i < max_threads → i ≢ tid → (tr.slots i).current ≡ 0 → hist i ≡ []

-- A file that the slot does not write changes nothing for it.
stored_in-other :
    (files : Files) (name : Bytes) (content : Entries) (o : Option Bytes)
    → ((other : Bytes) → o ≡ some other → name ≢ other)
    → stored_in (λ other. if same name other then some content else files other) o
      ≡ stored_in files o
stored_in-other files name content none h = refl
stored_in-other files name content (some other) h =
    ap (λ b. file_or_empty (if b then some content else files other))
      (different name other (h other refl))

Keeps-other :
    (host : Host) (files : Files) (tid i : ℕ) (content h : Entries) (s : Slot)
    → tid < max_threads
    → i < max_threads
    → tid ≢ i
    → Keeps host i files h s
    → Keeps host i
        (λ other. if same (trace_name host tid) other then some content else files other)
        h
        s
Keeps-other host files tid i content h s ht hi ne k = record {
  bounded = k.bounded;
  fresh = k.fresh;
  named = k.named;
  kept = λ fits.
      ap (λ l. l ++ pending_in s.entries s.current)
        (stored_in-other files (trace_name host tid) content s.out
          (λ other o e. ne (trace_name-injective host fits tid i ht hi (e ∙ k.named other o))))
      ∙ k.kept fits;
}

module _ (host : Host) (tid : ℕ) (h : Entries) (s : Slot) (hist : ℕ → Entries) (tr : Trace) where
  -- The slot of `tid` is changed.
  pub Held-set_slot :
      Held host tid hist tr
      → Keeps host tid tr.files h s
      → Held host tid (update hist tid h) (set_slot tr tid s)
  Held-set_slot held k = record {
    keeps = λ i hi.
        update-both (λ j g (t : Slot). Keeps host j tr.files g t) hist tr.slots tid h s k i
          (λ ne. held.keeps i hi);
    begun = λ i hi ne.
        update-both (λ j g (t : Slot). j ≢ tid → t.current ≡ 0 → g ≡ []) hist tr.slots tid h s
          (λ self. absurd (self refl)) i (λ _. held.begun i hi) ne;
  }

  -- The slot of `tid` and its file are changed.
  pub Held-set_file :
      (content : Entries)
      → tid < max_threads
      → Held host tid hist tr
      → Keeps host tid (set_file tr (trace_name host tid) content).files h s
      → Held host tid
          (update hist tid h)
          (set_slot (set_file tr (trace_name host tid) content) tid s)
  Held-set_file content lt held k = record {
    keeps = λ i hi.
        update-both
          (λ j g (t : Slot). Keeps host j (set_file tr (trace_name host tid) content).files g t)
          hist tr.slots tid h s k i
          (λ ne.
            Keeps-other host tr.files tid i content (hist i) (tr.slots i) lt hi ne
              (held.keeps i hi));
    begun = λ i hi ne.
        update-both (λ j g (t : Slot). j ≢ tid → t.current ≡ 0 → g ≡ []) hist tr.slots tid h s
          (λ self. absurd (self refl)) i (λ _. held.begun i hi) ne;
  }

-- A history is given by its values.
pub Held-ext :
    (host : Host) (tid : ℕ) (hist other : ℕ → Entries) (tr : Trace)
    → ((i : ℕ) → hist i ≡ other i)
    → Held host tid hist tr
    → Held host tid other tr
Held-ext host tid hist other tr e held = record {
  keeps = λ i hi. subst (λ g. Keeps host i tr.files g (tr.slots i)) (e i) (held.keeps i hi);
  begun = λ i hi ne z. sym (e i) ∙ held.begun i hi ne z;
}

-- Nothing is left out where the slot of `tid` has begun.
pub Held-all :
    (host : Host) (tid : ℕ) (hist : ℕ → Entries) (tr : Trace)
    → ((tr.slots tid).current ≡ 0 → hist tid ≡ [])
    → Held host tid hist tr
    → Held host max_threads hist tr
Held-all host tid hist tr b held = record {
  keeps = held.keeps;
  begun = λ i hi _ z. elim (Bool-cases (tid == i)) [
    | inl at ↦ begun-at i ((==_iff tid i).0 at) z
    | inr off ↦ held.begun i hi (λ e. ground (arith, ==_iff tid i)) z
  ];
}
  where
    begun-at : (i : ℕ) → tid ≡ i → (tr.slots i).current ≡ 0 → hist i ≡ []
    begun-at i e = subst (λ j. (tr.slots j).current ≡ 0 → hist j ≡ []) e b

pub Held-one :
    (host : Host) (tid : ℕ) (hist : ℕ → Entries) (tr : Trace)
    → Held host max_threads hist tr
    → Held host tid hist tr
Held-one host tid hist tr held = record {
  keeps = held.keeps;
  begun = λ i hi ne. held.begun i hi (omega arith);
}

-- The open file, with the buffer behind it.
pub file_and_buffer :
    (host : Host) (i : ℕ) (files : Files) (h : Entries) (s : Slot) (name : Bytes) (cells : Cells)
    (n : ℕ)
    → Keeps host i files h s
    → Fits host
    → s.out ≡ some name
    → s.entries ≡ some cells
    → s.current ≡ n
    → file_or_empty (files name) ++ cells_upto cells n ≡ h
file_and_buffer host i files h s name cells n k fits o e c =
    ap (λ q. stored_in files q ++ cells_upto cells n) (sym o)
    ∙ ap (λ q. stored_in files s.out ++ pending_in q n) (sym e)
    ∙ ap (λ m. stored_in files s.out ++ pending_in s.entries m) (sym c)
    ∙ k.kept fits

pub append-ne-nil : (l : Entries) (o : Option LogEntry) → l ++ o ∷ [] ≢ []
append-ne-nil [] o e = cc
append-ne-nil (_ ∷ l) o e = cc
