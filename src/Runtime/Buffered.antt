-- ===== src/Runtime/Buffered.antt =====
-- binaryinstrumentation.c: the buffer of an id, as insertOrWrite finds it.
use dinamite.Shared.{
  ℕ, ◌<◌, ◌≡◌, refl, sym, ap, ◌∙◌, subst, Bool, true, false, ◌++◌, Option, none, some,
  if◌then◌else◌, Option-cases, inl, inr,
}
use dinamite.Runtime.Families.{update_self}
use dinamite.Runtime.Excluded.{Host, max_threads}
use dinamite.Runtime.Threads.{Answers}
use dinamite.Runtime.Buffers.{Cells, Slot, Trace, set_slot, init_buffer, ok_buffer}
use dinamite.Runtime.Kept.{Entries, Files, stored_in, Keeps, Held}
use dinamite.Runtime.Opened.{OkOr, HasEntries, pending-empty, Held-set_same}

module _ (host : Host) (a : Answers) (tid : ℕ) (hist : ℕ → Entries) where
  Keeps-entries :
      (i : ℕ) (files : Files) (h : Entries) (s : Slot)
      → Keeps host i files h s
      → s.entries ≡ none
      → (o : Option Cells) → Keeps host i files h (record s { entries = o })
  Keeps-entries i files h s k e o = record {
    bounded = k.bounded;
    fresh = λ _. k.fresh e;
    named = k.named;
    kept = λ fits.
        ap (λ l. stored_in files s.out ++ l)
          (pending-empty o s.current (k.fresh e)
            ∙ sym (pending-empty s.entries s.current (k.fresh e)))
        ∙ k.kept fits;
  }

  -- A buffer is there, or there is no memory for it.
  pub ok_buffer-Held :
      tid < max_threads
      → (tr : Trace) → Held host tid hist tr
      → OkOr
          (λ t. Held host tid hist t × HasEntries (t.slots tid))
          (λ t.
            Held host tid hist t
            × ((t.slots tid).current ≡ (tr.slots tid).current)
            × (a.buffer_allocated ≡ false))
          (ok_buffer a tid tr)
  unfolding ok_buffer init_buffer
  ok_buffer-Held lt tr held = elim (Option-cases (tr.slots tid).entries) [
    | inr (cells, e) ↦
        subst (OkOr Good Bad)
          (sym (ap (λ o. elim o [ none ↦ init_buffer a tid tr | some _ ↦ (true, tr) ]) e))
          (held, (cells, e))
    | inl e ↦
        subst (OkOr Good Bad)
          (sym (ap (λ o. elim o [ none ↦ init_buffer a tid tr | some _ ↦ (true, tr) ]) e))
          (allocated a.buffer_allocated refl e)
  ]
    where
      Good : Trace → Type 0
      Good t = Held host tid hist t × HasEntries (t.slots tid)

      Bad : Trace → Type 0
      Bad t =
          Held host tid hist t
          × ((t.slots tid).current ≡ (tr.slots tid).current)
          × (a.buffer_allocated ≡ false)

      allocated :
          (b : Bool)
          → a.buffer_allocated ≡ b
          → (tr.slots tid).entries ≡ none
          → OkOr Good Bad (
            b,
            set_slot tr tid
                (record (tr.slots tid) { entries = if b then some (λ _. none) else none }),
          )
      allocated true given e = (
        Held-set_same host a tid hist tr _ held (
            Keeps-entries tid tr.files (hist tid) (tr.slots tid) (held.keeps tid lt) e
              (some (λ _. none))),
        ((λ _. none), ap (λ (s : Slot). s.entries) (update_self tr.slots tid _)),
      )
      allocated false refused e = (
        Held-set_same host a tid hist tr _ held
            (Keeps-entries tid tr.files (hist tid) (tr.slots tid) (held.keeps tid lt) e none),
        ap (λ (s : Slot). s.current) (update_self tr.slots tid _),
        refused,
      )
