-- ===== src/Pass/Cleared.antt =====
-- The loop over the items of a block where no argument is pending.
use dinamite.Shared.{
  ℕ, ◌≡◌, refl, sym, subst, ap, ◌∙◌, arith, Bool, true, List, [], ◌∷◌, ◌++◌, append_assoc, Option,
  if◌then◌else◌, same, ◌||◌, All, Bytes, codes,
}
use dinamite.Pass.{
  stop, load, store, call, ret, plain, alloca, load_again, arg_store, log_access, log_alloc,
  fn_event, Item, original, added, Decisions, check_and_consume_arg, log_call, visit_store,
  visit_load, before_call, behind_call, visit_item, visit_items, end_event, visit_blocks,
  begin_event, queue_args, inject_args, instrument_function, has_events, event_function,
}
use dinamite.Pass.Items.{AllOriginal, NoArgument, NoArgument-append, IsPlain, AllAdded}

module _ (d : Decisions) where
  pub AllOriginal-IsPlain : (is : List Item) → AllOriginal is → IsPlain is
  AllOriginal-IsPlain [] h = tt
  AllOriginal-IsPlain (original i ∷ is) h = AllOriginal-IsPlain is h
  AllOriginal-IsPlain (added a ∷ is) h = absurd h

  pub end_event-IsPlain : (is : List Item) → AllOriginal is → IsPlain (end_event d is)
  unfolding end_event
  end_event-IsPlain [] h = tt
  end_event-IsPlain (original ret ∷ []) h = tt
  end_event-IsPlain (original (load v) ∷ []) h = tt
  end_event-IsPlain (original (store v) ∷ []) h = tt
  end_event-IsPlain (original (call c) ∷ []) h = tt
  end_event-IsPlain (original plain ∷ []) h = tt
  end_event-IsPlain (added a ∷ is) h = absurd h
  end_event-IsPlain (original i ∷ j ∷ is) h = end_event-IsPlain (j ∷ is) h

  pub end_event-append :
      (xs ys : List Item) → AllAdded xs → end_event d (xs ++ ys) ≡ xs ++ end_event d ys
  unfolding end_event
  end_event-append [] ys h = refl
  end_event-append (original i ∷ xs) ys h = absurd h
  end_event-append (added a ∷ []) [] h = refl
  end_event-append (added a ∷ []) (y ∷ ys) h = refl
  end_event-append (added a ∷ x ∷ xs) ys h = ap (λ l. added a ∷ l) (end_event-append (x ∷ xs) ys h)

  pub visit_items-append :
      (xs ys : List Item) (s : List ℕ)
      → visit_items d (xs ++ ys) s ≡ (
        (visit_items d xs s).0 ++ (visit_items d ys (visit_items d xs s).1).0,
        (visit_items d ys (visit_items d xs s).1).1,
      )
  unfolding visit_items
  visit_items-append [] ys s = refl
  visit_items-append (x ∷ xs) ys s =
      let (out, s1) = visit_item d x s in
      ap (λ (r : List Item × List ℕ). (out ++ r.0, r.1)) (visit_items-append xs ys s1)
      ∙ ap (λ l. (l, (visit_items d ys (visit_items d xs s1).1).1))
          (sym
            (append_assoc out (visit_items d xs s1).0 (visit_items d ys (visit_items d xs s1).1).0))

  module _ (on : d.function_filter ≡ true) where
    -- With no argument left, an item brings none.
    pub visit_store-empty :
        (v : ℕ) → ((visit_store d v []).1 ≡ []) × NoArgument (visit_store d v []).0
    unfolding visit_store check_and_consume_arg log_call
    visit_store-empty v = rw on (ground arith)

    pub visit_load-NoArgument : (v : ℕ) → NoArgument (visit_load d v)
    unfolding visit_load log_call
    visit_load-NoArgument v = ground arith

    pub call-NoArgument :
        (callee : Option Bytes)
        → NoArgument (before_call d callee) × NoArgument (behind_call d callee)
    unfolding before_call behind_call
    call-NoArgument callee = ground arith

    pub visit_item-empty :
        (i : Item)
        → IsPlain (i ∷ [])
        → ((visit_item d i []).1 ≡ []) × NoArgument (visit_item d i []).0
    unfolding visit_item
    visit_item-empty (original (load v)) h = (
      refl,
      NoArgument-append (visit_load d v) (original (load v) ∷ []) (visit_load-NoArgument v) tt,
    )
    visit_item-empty (original (store v)) h = (
      (visit_store-empty v).0,
      NoArgument-append (visit_store d v []).0 (original (store v) ∷ []) (visit_store-empty v).1 tt,
    )
    visit_item-empty (original (call callee)) h = (
      refl,
      NoArgument-append (before_call d callee) (original (call callee) ∷ behind_call d callee)
          (call-NoArgument callee).0 (call-NoArgument callee).1,
    )
    visit_item-empty (original ret) h = (refl, tt)
    visit_item-empty (original plain) h = (refl, tt)
    visit_item-empty (added (fn_event g)) h = (refl, tt)
    visit_item-empty (added (stop v)) h = absurd h
    visit_item-empty (added alloca) h = absurd h
    visit_item-empty (added load_again) h = absurd h
    visit_item-empty (added (arg_store v)) h = absurd h
    visit_item-empty (added (log_access kind v)) h = absurd h
    visit_item-empty (added (log_alloc def)) h = absurd h

    pub IsPlain-split :
        (i : Item) (is : List Item) → IsPlain (i ∷ is) → IsPlain (i ∷ []) × IsPlain is
    IsPlain-split (original i) is h = (tt, h)
    IsPlain-split (added (fn_event g)) is h = (tt, h)
    IsPlain-split (added (stop v)) is h = absurd h
    IsPlain-split (added alloca) is h = absurd h
    IsPlain-split (added load_again) is h = absurd h
    IsPlain-split (added (arg_store v)) is h = absurd h
    IsPlain-split (added (log_access kind v)) is h = absurd h
    IsPlain-split (added (log_alloc def)) is h = absurd h

    pub visit_items-empty :
        (is : List Item)
        → IsPlain is
        → ((visit_items d is []).1 ≡ []) × NoArgument (visit_items d is []).0
    unfolding visit_items
    visit_items-empty [] h = (refl, tt)
    visit_items-empty (i ∷ is) h =
        let (first, none_first) = visit_item-empty i (IsPlain-split i is h).0 in
        let (rest, none_rest) = visit_items-empty is (IsPlain-split i is h).1 in
        (
          ap (λ s. (visit_items d is s).1) first ∙ rest,
          NoArgument-append (visit_item d i []).0 _ none_first
              (subst (λ s. NoArgument (visit_items d is s).0) (sym first) none_rest),
        )

    pub has_events-on : has_events d ≡ true
    has_events-on = ap (λ b. b || same d.name (codes "main")) on

    pub visit_blocks-on :
        (b : List Item) (bs : List (List Item)) (s : List ℕ)
        → visit_blocks d (b ∷ bs) s ≡ (
          (visit_items d (end_event d b) s).0
              ∷ (visit_blocks d bs (visit_items d (end_event d b) s).1).0,
          (visit_blocks d bs (visit_items d (end_event d b) s).1).1,
        )
    unfolding visit_blocks
    visit_blocks-on b bs s =
        ap
          (λ e.
            let (out, s1) = visit_items d (if e then end_event d b else b) s in
            (out ∷ (visit_blocks d bs s1).0, (visit_blocks d bs s1).1))
          has_events-on

    pub instrument_function-on :
        (filter : ℕ → Bool) (args : List ℕ) (entry : List Item) (bs : List (List Item)) (s : List ℕ)
        → instrument_function d filter args (entry ∷ bs) s
          ≡ visit_blocks d
              ((added (fn_event (event_function d.name true)) ∷ (queue_args filter 0 args s).0
                  ++ entry)
                ∷ bs)
              (queue_args filter 0 args s).1
    unfolding instrument_function inject_args begin_event
    instrument_function-on filter args entry bs s =
        ap
          (λ e.
            let (blocks1, s1) =
              (if e then inject_args filter args (entry ∷ bs) s else (entry ∷ bs, s)) in
            visit_blocks d (begin_event d blocks1) s1)
          on
        ∙ ap
            (λ e.
              visit_blocks d
                ((if e
                    then added (fn_event (event_function d.name true))
                        ∷ (queue_args filter 0 args s).0
                      ++ entry
                    else (queue_args filter 0 args s).0 ++ entry)
                  ∷ bs)
                (queue_args filter 0 args s).1)
            has_events-on

    pub visit_blocks-empty :
        (bs : List (List Item))
        → All AllOriginal bs
        → ((visit_blocks d bs []).1 ≡ []) × All NoArgument (visit_blocks d bs []).0
    unfolding visit_blocks
    visit_blocks-empty [] h = (refl, tt)
    visit_blocks-empty (b ∷ bs) h =
        let (first, none_first) = visit_items-empty (end_event d b) (end_event-IsPlain b h.0) in
        let (rest, none_rest) = visit_blocks-empty bs h.1 in
        (
          ap (λ (r : List (List Item) × List ℕ). r.1) (visit_blocks-on b bs [])
              ∙ ap (λ s. (visit_blocks d bs s).1) first
              ∙ rest,
          subst (λ (r : List (List Item) × List ℕ). All NoArgument r.0)
              (sym (visit_blocks-on b bs []))
              (
                none_first,
                subst (λ s. All NoArgument (visit_blocks d bs s).0) (sym first) none_rest,
              ),
        )
