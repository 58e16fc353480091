-- ===== src/Runtime/Exited.antt =====
-- binaryinstrumentation.c: the loop of logExit.
use dinamite.Shared.{
  ℕ, zero, suc, ◌+◌, ◌≤◌, ◌<◌, ◌≡◌, ◌≢◌, refl, sym, ap, ◌∙◌, subst, Bytes, [], some, ◌==◌, ==_iff,
  Returns, Returns-bind, Returns-mono, Bool-cases, inl, inr, arith,
}
use dinamite.Runtime.Excluded.{Host, max_threads}
use dinamite.Runtime.Threads.{Answers}
use dinamite.Runtime.Buffers.{Trace, exit_slot, exit_from, trace_name}
use dinamite.Runtime.FileNames.{Fits, trace_name-injective}
use dinamite.Runtime.Kept.{Entries, Held}
use dinamite.Runtime.Opened.{Serves}
use dinamite.Runtime.Closed.{IsRest, Closed, exit_slot-Closed}

module _ (host : Host) (a : Answers) where
  -- After `n` rounds from `tid` on: the files of these ids hold what their slots kept.
  pub record Exited (tid n : ℕ) (hist : ℕ → Entries) (tr t : Trace) : Type 0 where
    pub after : ℕ → Entries
    pub held : Held host max_threads after t
    pub files :
        (name : Bytes)
        → ((i : ℕ) → tid ≤ i → i < tid + n → trace_name host i ≢ name)
        → t.files name ≡ tr.files name
    pub written :
        Serves a
        → Fits host
        → (i : ℕ) → tid ≤ i
        → i < tid + n
        → hist i ≢ []
        → t.files (trace_name host i) ≡ some (hist i)
    pub others : (i : ℕ) → i < tid → after i ≡ hist i
    pub rest : Serves a → Fits host → (i : ℕ) → tid ≤ i → i < tid + n → IsRest (hist i) (after i)

  Exited-step :
      (tid n : ℕ) (hist : ℕ → Entries) (tr t u : Trace)
      → tid + suc n ≤ max_threads
      → (c : Closed host a tid hist tr t) → Exited (suc tid) n c.after t u
      → Exited tid (suc n) hist tr u
  Exited-step tid n hist tr t u lt c x = record {
    after = x.after;
    held = x.held;
    files = λ name ne.
        x.files name (λ i low high. ne i (omega arith) (omega arith))
        ∙ c.files name (ne tid (omega arith) (omega arith));
    written = λ serves fits i low high began. elim (Bool-cases (tid == i)) [
      | inl at ↦ subst Written ((==_iff tid i).0 at) (first serves fits) began
      | inr off ↦
          let ne : tid ≢ i = λ e. ground (arith, ==_iff tid i) in
          x.written serves fits i (omega arith) (omega arith) (λ e. began (sym (c.others i ne) ∙ e))
          ∙ ap some (c.others i ne)
    ];
    others = λ i low. x.others i (omega arith) ∙ c.others i (omega arith);
    rest = λ serves fits i low high. elim (Bool-cases (tid == i)) [
      | inl at ↦
          subst (λ j. IsRest (hist j) (x.after j)) ((==_iff tid i).0 at)
            (subst (IsRest (hist tid)) (sym (x.others tid (omega arith))) (c.rest serves fits))
      | inr off ↦
          let ne : tid ≢ i = λ e. ground (arith, ==_iff tid i) in
          subst (λ h. IsRest h (x.after i)) (c.others i ne)
            (x.rest serves fits i (omega arith) (omega arith))
    ];
  }
    where
      Written : ℕ → Type 0
      Written i = hist i ≢ [] → u.files (trace_name host i) ≡ some (hist i)

      first : Serves a → Fits host → Written tid
      first serves fits began =
          x.files (trace_name host tid) (λ i low high e. absurd (
            let same_id : i ≡ tid =
              trace_name-injective host fits i tid (omega arith) (omega arith) e in
            omega arith))
          ∙ c.written serves fits began

  pub exit_from-Exited :
      (n tid : ℕ) (hist : ℕ → Entries) (tr : Trace)
      → tid + n ≤ max_threads
      → Held host max_threads hist tr
      → Returns (Exited tid n hist tr) (exit_from host a tid n tr)
  unfolding exit_from
  exit_from-Exited zero tid hist tr lt held = record {
    after = hist;
    held = held;
    files = λ name ne. refl;
    written = λ serves fits i low high began. absurd (omega arith);
    others = λ i low. refl;
    rest = λ serves fits i low high. absurd (omega arith);
  }
  exit_from-Exited (suc n) tid hist tr lt held =
      Returns-bind (Closed host a tid hist tr) (Exited tid (suc n) hist tr)
        (exit_slot host a tid tr) (exit_from host a (suc tid) n)
        (exit_slot-Closed host a tid hist (omega arith) tr held)
        (λ t c.
          Returns-mono (Exited (suc tid) n c.after t) (Exited tid (suc n) hist tr)
            (exit_from host a (suc tid) n t) (λ u. Exited-step tid n hist tr t u lt c)
            (exit_from-Exited n (suc tid) c.after t (omega arith) c.held))
