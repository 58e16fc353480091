-- ===== src/Pass/Stops.antt =====
-- The values at which the compiler exits in `getLogFunction`.
use dinamite.Shared.{
  ℕ, ◌+◌, ◌≡◌, ◌⊎◌, inl, inr, refl, sym, ap, ◌∙◌, arith, Bool, true, false, ◌||◌, List, [], ◌∷◌,
  ◌++◌, Option, Some, any, Bool-cases, if◌then◌else◌,
}
use dinamite.Pass.{
  has_function, no_function, stops, LogChoice, load, store, call, ret, plain, alloca, load_again,
  arg_store, log_access, stop, log_alloc, fn_event, Item, original, added, Decisions,
  check_and_consume_arg, log_call, visit_store, visit_load, before_call, behind_call, visit_item,
  visit_items, end_event, visit_blocks, begin_event, queue_args, inject_args, insert_arg,
  has_events, instrument_function,
}
use dinamite.Pass.Whole.{is_stop, stops_in}

-- The item reads or writes a value with the property, or it is a mark of the pass where the compiler exits,
-- which no program brings along.
abbrev pub IsBad : (ℕ → Type 0) → Item → Type 0
IsBad P (original (load v)) = P v
IsBad P (original (store v)) = P v
IsBad P (original (call callee)) = ⊥
IsBad P (original ret) = ⊥
IsBad P (original plain) = ⊥
IsBad P (added (arg_store v)) = P v
IsBad P (added (stop v)) = Unit
IsBad P (added alloca) = ⊥
IsBad P (added load_again) = ⊥
IsBad P (added (log_access kind v)) = ⊥
IsBad P (added (log_alloc def)) = ⊥
IsBad P (added (fn_event g)) = ⊥

-- `getLogFunction` exits for the value.
abbrev pub StopsAt : (ℕ → LogChoice) → ℕ → Type 0
StopsAt choice v = choice v ≡ stops

any-append : (xs ys : List Item) → any is_stop (xs ++ ys) ≡ any is_stop xs || any is_stop ys
any-append [] ys = refl
any-append (x ∷ xs) ys = ground (arith, any-append xs ys)

pub is_stop-IsBad :
    (choice : ℕ → LogChoice) (i : Item) → is_stop i ≡ true → IsBad (StopsAt choice) i
is_stop-IsBad choice (original i) h = cc
is_stop-IsBad choice (added (stop v)) h = tt
is_stop-IsBad choice (added alloca) h = cc
is_stop-IsBad choice (added load_again) h = cc
is_stop-IsBad choice (added (arg_store v)) h = cc
is_stop-IsBad choice (added (log_access kind v)) h = cc
is_stop-IsBad choice (added (log_alloc def)) h = cc
is_stop-IsBad choice (added (fn_event g)) h = cc

module _ (d : Decisions) where
  log_call-stops : (kind v : ℕ) → any is_stop (log_call d kind v) ≡ true → d.log_choice v ≡ stops
  unfolding log_call
  log_call-stops kind v = by_choice (d.log_choice v)
    where
      by_choice :
          (c : LogChoice)
          → any is_stop (elim c [
            | has_function ↦ added (log_access kind v) ∷ []
            | no_function ↦ []
            | stops ↦ added (stop v) ∷ []
          ])
            ≡ true
          → c ≡ stops
      by_choice has_function h = cc
      by_choice no_function h = cc
      by_choice stops h = refl

  visit_store-stops :
      (v : ℕ) (s : List ℕ) → any is_stop (visit_store d v s).0 ≡ true → d.log_choice v ≡ stops
  unfolding visit_store check_and_consume_arg
  visit_store-stops v s h = ground (
    arith,
    log_call-stops b'a' v,
    log_call-stops b'w' v,
    log_call-stops (if d.is_arg then b'a' else b'w') v,
  )

  visit_load-stops : (v : ℕ) → any is_stop (visit_load d v) ≡ true → d.log_choice v ≡ stops
  unfolding visit_load
  visit_load-stops v h = ground (arith, log_call-stops b'r' v)

  call-stops :
      (callee : Option (List ℕ))
      → (any is_stop (before_call d callee) ≡ false) × (any is_stop (behind_call d callee) ≡ false)
  unfolding before_call behind_call
  call-stops callee = ground arith

  visit_item-stops :
      (i : Item) (s : List ℕ)
      → any is_stop (visit_item d i s).0 ≡ true
      → IsBad (StopsAt d.log_choice) i
  unfolding visit_item
  visit_item-stops (original (load v)) s h =
      ground (arith, any-append (visit_load d v) (original (load v) ∷ []), visit_load-stops v)
  visit_item-stops (original (store v)) s h =
      ground
        (arith, any-append (visit_store d v s).0 (original (store v) ∷ []), visit_store-stops v s)
  visit_item-stops (original (call callee)) s h = ground (
    arith,
    any-append (before_call d callee) (original (call callee) ∷ behind_call d callee),
    call-stops callee,
  )
  visit_item-stops (original ret) s h = cc
  visit_item-stops (original plain) s h = cc
  visit_item-stops (added (arg_store v)) s h =
      ground
        (arith, any-append (visit_store d v s).0 (added (arg_store v) ∷ []), visit_store-stops v s)
  visit_item-stops (added (stop v)) s h = tt
  visit_item-stops (added alloca) s h = cc
  visit_item-stops (added load_again) s h = cc
  visit_item-stops (added (log_access kind v)) s h = cc
  visit_item-stops (added (log_alloc def)) s h = cc
  visit_item-stops (added (fn_event g)) s h = cc

  visit_items-stops :
      (is : List Item) (s : List ℕ)
      → any is_stop (visit_items d is s).0 ≡ true
      → Some (IsBad (StopsAt d.log_choice)) is
  unfolding visit_items
  visit_items-stops [] s h = cc
  visit_items-stops (i ∷ is) s h =
      let (out, s1) = visit_item d i s in
      let split = sym (any-append out (visit_items d is s1).0) ∙ h in
      elim (Bool-cases (any is_stop out)) [
        | inl e ↦ inl (visit_item-stops i s e)
        | inr e ↦ inr (
            visit_items-stops is s1
              (ap (λ b. b || any is_stop (visit_items d is s1).0) (sym e) ∙ split))
      ]

  end_event-IsBad :
      (is : List Item)
      → Some (IsBad (StopsAt d.log_choice)) (end_event d is)
      → Some (IsBad (StopsAt d.log_choice)) is
  unfolding end_event
  end_event-IsBad [] h = h
  end_event-IsBad (original ret ∷ []) h = elim h [ inl b ↦ absurd b | inr r ↦ r ]
  end_event-IsBad (original (load v) ∷ []) h = h
  end_event-IsBad (original (store v) ∷ []) h = h
  end_event-IsBad (original (call c) ∷ []) h = h
  end_event-IsBad (original plain ∷ []) h = h
  end_event-IsBad (added a ∷ []) h = h
  end_event-IsBad (original i ∷ j ∷ is) h = elim h [
    | inl b ↦ inl b
    | inr r ↦ inr (end_event-IsBad (j ∷ is) r)
  ]
  end_event-IsBad (added a ∷ j ∷ is) h = elim h [
    | inl b ↦ inl b
    | inr r ↦ inr (end_event-IsBad (j ∷ is) r)
  ]

  visit_blocks-stops :
      (bs : List (List Item)) (s : List ℕ)
      → stops_in (visit_blocks d bs s).0 ≡ true
      → Some (Some (IsBad (StopsAt d.log_choice))) bs
  unfolding visit_blocks
  visit_blocks-stops [] s h = cc
  visit_blocks-stops (b ∷ bs) s h =
      let chosen = (if has_events d then end_event d b else b) in
      let (out, s1) = visit_items d chosen s in
      elim (Bool-cases (any is_stop out)) [
        | inl e ↦ inl (from_chosen (has_events d) (visit_items-stops chosen s e))
        | inr e ↦ inr (
            visit_blocks-stops bs s1 (ap (λ q. q || stops_in (visit_blocks d bs s1).0) (sym e) ∙ h))
      ]
    where
      from_chosen :
          (e : Bool)
          → Some (IsBad (StopsAt d.log_choice)) (if e then end_event d b else b)
          → Some (IsBad (StopsAt d.log_choice)) b
      from_chosen true h = end_event-IsBad b h
      from_chosen false h = h

  begin_event-IsBad :
      (bs : List (List Item))
      → Some (Some (IsBad (StopsAt d.log_choice))) (begin_event d bs)
      → Some (Some (IsBad (StopsAt d.log_choice))) bs
  unfolding begin_event
  begin_event-IsBad [] h = h
  begin_event-IsBad (b ∷ bs) h = ground arith

module _ (choice : ℕ → LogChoice) (filter : ℕ → Bool) where
  queue_args-IsBad :
      (idx : ℕ) (args s : List ℕ) (is : List Item)
      → Some (IsBad (StopsAt choice)) ((queue_args filter idx args s).0 ++ is)
      → Some (StopsAt choice) args ⊎ Some (IsBad (StopsAt choice)) is
  unfolding queue_args
  queue_args-IsBad idx [] s is h = inr h
  queue_args-IsBad idx (a ∷ args) s is h =
      let next = queue_args-IsBad (idx + 1) args (if filter idx then insert_arg a s else s) is in
      ground (arith, next)

  inject_args-IsBad :
      (args : List ℕ) (bs : List (List Item)) (s : List ℕ)
      → Some (Some (IsBad (StopsAt choice))) (inject_args filter args bs s).0
      → Some (Some (IsBad (StopsAt choice))) bs ⊎ Some (StopsAt choice) args
  unfolding inject_args
  inject_args-IsBad args [] s h = inl h
  inject_args-IsBad args (b ∷ bs) s h = elim h [
    | inl x ↦ elim (queue_args-IsBad 0 args s b x) [ inl a ↦ inr a | inr y ↦ inl (inl y) ]
    | inr x ↦ inl (inr x)
  ]

-- Where the compiler exits in a function, `getLogFunction` does so for a value that it reads or writes, or for an argument.
pub instrument_function-stops :
    (d : Decisions) (filter : ℕ → Bool) (args : List ℕ) (bs : List (List Item)) (s : List ℕ)
    → stops_in (instrument_function d filter args bs s).0 ≡ true
    → Some (Some (IsBad (StopsAt d.log_choice))) bs ⊎ Some (StopsAt d.log_choice) args
unfolding instrument_function
instrument_function-stops d filter args bs s h = by_filter d.function_filter h
  where
    by_filter :
        (on : Bool)
        → stops_in
            (let (blocks1, s1) = (if on then inject_args filter args bs s else (bs, s)) in
              visit_blocks d (begin_event d blocks1) s1).0
          ≡ true
        → Some (Some (IsBad (StopsAt d.log_choice))) bs ⊎ Some (StopsAt d.log_choice) args
    by_filter true h =
        inject_args-IsBad d.log_choice filter args bs s
          (begin_event-IsBad d _ (visit_blocks-stops d _ (inject_args filter args bs s).1 h))
    by_filter false h = inl (begin_event-IsBad d bs (visit_blocks-stops d _ s h))

module _ {ℓ} {A : Type ℓ} (P Q : A → Type 0) (k : (a : A) → P a → Q a) where
  pub Some-mono : (xs : List A) → Some P xs → Some Q xs
  Some-mono [] h = h
  Some-mono (x ∷ xs) (inl h) = inl (k x h)
  Some-mono (x ∷ xs) (inr h) = inr (Some-mono xs h)
