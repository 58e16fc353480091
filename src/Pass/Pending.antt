-- ===== src/Pass/Pending.antt =====
-- The stores that `queueAndInjectArgsToLog` adds, and the set of pending arguments.
use dinamite.Shared.{
  ℕ, ◌+◌, ◌≡◌, ◌≢◌, refl, ap, ◌∙◌, arith, Bool, true, false, List, [], ◌∷◌, ◌++◌, append_assoc,
  Bool-cases, inl, inr, All,
}
use dinamite.Pass.{
  has_function, no_function, stops, LogChoice, log_access, stop, alloca, arg_store, Item, added,
  Decisions, check_and_consume_arg, erase, insert_arg, log_call, visit_store, visit_item,
  visit_items, queue_args,
}
use dinamite.Pass.Items.{has, Distinct, arg_call, arg_items}

log_call-arg : (d : Decisions) (a : ℕ) → log_call d b'a' a ≡ arg_call (d.log_choice a) a
unfolding log_call
log_call-arg d a = by_choice (d.log_choice a)
  where
    by_choice :
        (c : LogChoice)
        → (elim c [
          | has_function ↦ added (log_access b'a' a) ∷ []
          | no_function ↦ []
          | stops ↦ added (stop a) ∷ []
        ])
          ≡ arg_call c a
    by_choice has_function = refl
    by_choice no_function = refl
    by_choice stops = refl

-- Two sets that differ in one value only.
pub record Without (a : ℕ) (u s : List ℕ) : Type 0 where
  pub erased : erase a u ≡ s
  pub others : (b : ℕ) → b ≢ a → has b u ≡ has b s
  pub member : has a u ≡ true

Without-insert :
    (a b : ℕ) (u s : List ℕ) → b ≢ a → Without a u s → Without a (insert_arg b u) (insert_arg b s)
unfolding insert_arg erase
Without-insert a b u s d w = record {
  erased = ground (arith, w.others b d, w.erased);
  others = λ c q. ground (arith, w.others b d, w.others c q);
  member = ground (arith, w.member);
}

module _ (filter : ℕ → Bool) where
  pub queue_args-Without :
      (a idx : ℕ) (args u s : List ℕ)
      → has a args ≡ false
      → Without a u s
      → ((queue_args filter idx args u).0 ≡ (queue_args filter idx args s).0)
        × Without a (queue_args filter idx args u).1 (queue_args filter idx args s).1
  unfolding queue_args
  queue_args-Without a idx [] u s h w = (refl, w)
  queue_args-Without a idx (b ∷ args) u s h w = elim (Bool-cases (filter idx)) [
    | inr e ↦ rw e (queue_args-Without a (idx + 1) args u s (ground arith) w)
    | inl e ↦
        let (same_items, left) =
          queue_args-Without a (idx + 1) args (insert_arg b u) (insert_arg b s) (ground arith)
            (Without-insert a b u s (λ q. ground arith) w) in
        rw e (ap (λ l. added alloca ∷ added (arg_store b) ∷ l) same_items, left)
  ]

  pub Without-front : (a : ℕ) (s : List ℕ) → has a s ≡ false → Without a (insert_arg a s) s
  unfolding insert_arg erase
  Without-front a s h = record {
    erased = rw h (ground arith);
    others = λ b q. rw h (ground arith);
    member = rw h (ground arith);
  }

  module _ (d : Decisions) (on : d.function_filter ≡ true) where
    pub visit_store-consumed :
        (a : ℕ) (u s : List ℕ)
        → Without a u s
        → visit_store d a u ≡ (arg_call (d.log_choice a) a, s)
    unfolding visit_store check_and_consume_arg log_call
    visit_store-consumed a u s w =
        rw on (rw w.member (rw w.erased (ap (λ l. (l, s)) (log_call-arg d a))))

    pub visit_items-added :
        (a : ℕ) (u s : List ℕ) (is : List Item)
        → Without a u s
        → visit_items d (added alloca ∷ added (arg_store a) ∷ is) u ≡ (
          added alloca
              ∷ (arg_call (d.log_choice a) a ++ added (arg_store a) ∷ (visit_items d is s).0),
          (visit_items d is s).1,
        )
    unfolding visit_items visit_item
    visit_items-added a u s is w =
        ap
          (λ (r : List Item × List ℕ). (
            added alloca ∷ ((r.0 ++ added (arg_store a) ∷ []) ++ (visit_items d is r.1).0),
            (visit_items d is r.1).1,
          ))
          (visit_store-consumed a u s w)
        ∙ ap (λ l. (added alloca ∷ l, (visit_items d is s).1))
            (append_assoc (arg_call (d.log_choice a) a) (added (arg_store a) ∷ [])
              (visit_items d is s).0)

    pub queue_args-visited :
        (idx : ℕ) (args s : List ℕ)
        → Distinct args
        → All (λ a. has a s ≡ false) args
        → visit_items d (queue_args filter idx args s).0 (queue_args filter idx args s).1
          ≡ (arg_items d filter idx args, s)
    unfolding queue_args visit_items
    queue_args-visited idx [] s h free = refl
    queue_args-visited idx (a ∷ args) s h free = elim (Bool-cases (filter idx)) [
      | inr e ↦ rw e (queue_args-visited (idx + 1) args s h.1 free.1)
      | inl e ↦
          let (same_items, left) =
            queue_args-Without a (idx + 1) args (insert_arg a s) s h.0 (Without-front a s free.0) in
          let rest = queue_args-visited (idx + 1) args s h.1 free.1 in
          let first =
            visit_items-added a _ _ (queue_args filter (idx + 1) args (insert_arg a s)).0 left in
          rw e (
            first
            ∙ ap
                (λ (r : List Item × List ℕ).
                  (added alloca ∷ (arg_call (d.log_choice a) a ++ added (arg_store a) ∷ r.0), r.1))
                (ap (λ l. visit_items d l (queue_args filter (idx + 1) args s).1) same_items
                  ∙ rest))
    ]
