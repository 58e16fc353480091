-- ===== src/Runtime/Assigned.antt =====
-- binaryinstrumentation.c: the ids that __dinamite_gettid gives to threads.
use dinamite.Shared.{
  ℕ, suc, ◌≤◌, ◌<◌, ◌≡◌, ◌≢◌, refl, sym, ap, ◌∙◌, subst, Bool, true, false, ◌==◌, if◌then◌else◌,
  Outcome, value, exited, Returns, Returns-bind, Bool-cases, inl, inr, arith,
}
use dinamite.Runtime.Families.{update, update_self, update-other}
use dinamite.Runtime.Excluded.{Host, max_threads, exclude_tid}
use dinamite.Runtime.Threads.{
  Answers, Ids, create_key, ensure_key, get_next_id, issue_tid, known_tid, gettid,
}

-- The system gives the library its key.
pub record KeyOk (a : Answers) : Type 0 where
  pub once : a.once_ok ≡ true
  pub key : a.key_ok ≡ true

-- No id but that of excluded threads belongs to two threads, and none was not given out.
pub record Owned (ids : Ids) : Type 0 where
  pub given : (t : ℕ) → ids.tls t ≢ 0 → 0 < ids.next_id
  pub below : (t : ℕ) → ids.tls t ≢ 0 → ids.tls t < max_threads → ids.tls t < ids.next_id
  pub distinct : (t u : ℕ) → ids.tls t ≢ 0 → ids.tls t < max_threads → ids.tls t ≡ ids.tls u → t ≡ u

-- What a call of `gettid` leaves: the id is that of the thread; it was so before, or it is new.
pub record Got (thread : ℕ) (ids : Ids) (tid : ℕ) (ids' : Ids) : Type 0 where
  pub owned : Owned ids'
  pub own : ids'.tls thread ≡ tid
  pub others : (u : ℕ) → thread ≢ u → ids'.tls u ≡ ids.tls u
  pub some_given : 0 < ids'.next_id
  pub grows : ids.next_id ≤ ids'.next_id
  pub kept : ids.tls thread ≢ 0 → tid ≡ ids.tls thread
  pub new : ids.tls thread ≡ 0 → tid < max_threads → tid ≡ ids.next_id
  pub not_zero : 0 < ids.next_id → tid ≢ 0

module _ (host : Host) (a : Answers) (thread : ℕ) where
  issue_tid-Got :
      (ids : Ids)
      → Owned ids
      → ids.tls thread ≡ 0
      → let (tid, ids') = issue_tid host a thread ids in Got thread ids tid ids'
  unfolding issue_tid get_next_id
  issue_tid-Got ids owned unset = issued (exclude_tid host a.list_allocated ids.next_id)
    where
      id_of : Bool → ℕ
      id_of b = if b then max_threads else ids.next_id

      small : (b : Bool) → id_of b < max_threads → id_of b ≡ ids.next_id
      small true h = absurd (omega arith)
      small false h = refl

      positive : (b : Bool) → 0 < ids.next_id → id_of b ≢ 0
      positive true h e = omega arith
      positive false h e = omega arith

      after : Bool → Ids
      after b = record ids { tls = update ids.tls thread (id_of b); next_id = suc ids.next_id }

      issued : (b : Bool) → Got thread ids (id_of b) (after b)
      issued b = record {
        owned = record {
          given = λ t _. omega arith;
          below = λ t set low. ground (arith, small b, owned.below t);
          distinct = λ t u set low e.
              ground (arith, small b, owned.below t, owned.below u, owned.distinct t u);
        };
        own = update_self ids.tls thread (id_of b);
        others = λ u ne. update-other ids.tls thread u (id_of b) ne;
        some_given = omega arith;
        grows = omega arith;
        kept = λ h. absurd (h unset);
        new = λ _. small b;
        not_zero = positive b;
      }

  known_tid-Got :
      (ids : Ids)
      → Owned ids
      → let (tid, ids') = known_tid host a thread ids in Got thread ids tid ids'
  unfolding known_tid
  known_tid-Got ids owned = elim (Bool-cases (ids.tls thread == 0)) [
    | inl unset ↦
        subst (λ b. let (tid, ids') = choose b in Got thread ids tid ids') (sym unset)
          (issue_tid-Got ids owned (ground arith))
    | inr set ↦
        subst (λ b. let (tid, ids') = choose b in Got thread ids tid ids') (sym set)
          (record {
            owned = owned;
            own = refl;
            others = λ u _. refl;
            some_given = owned.given thread (known set);
            grows = omega arith;
            kept = λ _. refl;
            new = λ unset. absurd (known set unset);
            not_zero = λ _. known set;
          })
  ]
    where
      known : (ids.tls thread == 0) ≡ false → ids.tls thread ≢ 0
      known set e = ground arith

      choose : Bool → ℕ × Ids
      choose b = if b then issue_tid host a thread ids else (ids.tls thread, ids)

  -- With the key there, nothing else changes.
  abbrev pub Keyed : Ids → Ids → Type 0
  Keyed ids ids' = (b : Bool) × (ids' ≡ record ids { key_created = b })

  pub ensure_key-Keyed : KeyOk a → (ids : Ids) → Returns (Keyed ids) (ensure_key a ids)
  unfolding ensure_key create_key
  ensure_key-Keyed ok ids =
      subst (Returns (Keyed ids)) (sym (ap choose ok.once)) (keyed ids.key_created)
    where
      same_ids : Bool → Ids
      same_ids b = record ids { key_created = b }

      choose : Bool → Outcome Ids
      choose b =
          if b
          then (if ids.key_created
              then value ids
              else (if a.key_ok then value (same_ids true) else exited))
          else exited

      keyed :
          (b : Bool)
          → Returns
              (Keyed ids)
              (if b then value ids else (if a.key_ok then value (same_ids true) else exited))
      keyed true = (ids.key_created, refl)
      keyed false =
          subst (λ k. Returns (Keyed ids) (if k then value (same_ids true) else exited))
            (sym ok.key) (true, refl)

  pub gettid-Got :
      KeyOk a
      → (ids : Ids) → Owned ids
      → Returns (λ p. Got thread ids p.0 p.1) (gettid host a thread ids)
  unfolding gettid
  gettid-Got ok ids owned =
      Returns-bind (Keyed ids) (λ p. Got thread ids p.0 p.1) (ensure_key a ids)
        (λ ids'. value (known_tid host a thread ids')) (ensure_key-Keyed ok ids)
        (λ ids' (b, e).
          subst (λ j. let (tid, ids'') = known_tid host a thread j in Got thread ids tid ids'')
            (sym e) (forget b))
    where
      keyed : Bool → Ids
      keyed b = record ids { key_created = b }

      forget :
          (b : Bool)
          → let (tid, ids'') = known_tid host a thread (keyed b) in Got thread ids tid ids''
      forget b =
          let g =
            known_tid-Got (keyed b)
              (record { given = owned.given; below = owned.below; distinct = owned.distinct }) in
          record {
            owned = g.owned;
            own = g.own;
            others = g.others;
            some_given = g.some_given;
            grows = g.grows;
            kept = g.kept;
            new = g.new;
            not_zero = g.not_zero;
          }

-- What two calls of `gettid` leave, the first one for the entry and the second one for its buffer.
pub record Placed (thread : ℕ) (ids : Ids) (tid : ℕ) (ids' : Ids) : Type 0 where
  pub owned : Owned ids'
  pub own : ids'.tls thread ≡ tid
  pub others : (u : ℕ) → thread ≢ u → ids'.tls u ≡ ids.tls u
  pub not_zero : tid ≢ 0
  pub grows : ids.next_id ≤ ids'.next_id
  pub old : ids.tls thread ≢ 0 → tid ≡ ids.tls thread
  pub new : ids.tls thread ≡ 0 → tid < max_threads → ids.next_id ≤ tid

pub Got-Placed :
    (thread : ℕ) (ids ids₁ ids₂ : Ids) (tid₁ tid₂ : ℕ)
    → Got thread ids tid₁ ids₁
    → Got thread ids₁ tid₂ ids₂
    → Placed thread ids tid₂ ids₂
Got-Placed thread ids ids₁ ids₂ tid₁ tid₂ g h = record {
  owned = h.owned;
  own = h.own;
  others = λ u ne. h.others u ne ∙ g.others u ne;
  not_zero = h.not_zero g.some_given;
  grows = omega (arith, g.grows, h.grows);
  old = λ set. ground (arith, g.kept set, g.own, h.kept);
  new = λ unset low. elim (Bool-cases (tid₁ == 0)) [
    | inl zero_first ↦ ground (arith, g.own, g.grows, h.new)
    | inr set ↦ ground (arith, g.own, g.new unset, h.kept)
  ];
}
