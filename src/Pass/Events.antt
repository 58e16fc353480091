-- ===== src/Pass/Events.antt =====
-- The calls for the begin and the end of a function.
use dinamite.Shared.{
  sym, subst, append_assoc, Bool, ℕ, ◌≡◌, ◌⊎◌, refl, ap, ◌∙◌, arith, true, false, List, [], ◌∷◌,
  ◌++◌, same_iff, if◌then◌else◌, codes,
}
use dinamite.Pass.{
  EventFunction, inject_args, queue_args, instrument_function, ret, fn_event, Item, original, added,
  Decisions, has_events, event_function, visit_item, visit_items, end_event, visit_blocks,
  begin_event,
}
use dinamite.Pass.Cleared.{visit_items-append, end_event-append}
use dinamite.Pass.Items.{IsEvent, event_function-IsEvent}

-- Where `before` ends in a return, `after` ends in a call of the function and the return.
abbrev pub EndsIn : EventFunction → List Item → List Item → Type 0
EndsIn h before after =
    (is : List Item)
    → before ≡ is ++ original ret ∷ []
    → (out : List Item) × (after ≡ out ++ added (fn_event h) ∷ original ret ∷ [])

abbrev pub AllEndIn : EventFunction → List (List Item) → List (List Item) → Type 0
AllEndIn h [] [] = Unit
AllEndIn h [] (b ∷ bs) = ⊥
AllEndIn h (b ∷ bs) [] = ⊥
AllEndIn h (b ∷ bs) (c ∷ cs) = EndsIn h b c × AllEndIn h bs cs

module _ (d : Decisions) where
  has_events-true : (d.function_filter ≡ true) ⊎ (d.name ≡ codes "main") → has_events d ≡ true
  has_events-true h = ground (arith, same_iff d.name (codes "main"))

  end_event-ret :
      (is : List Item)
      → end_event d (is ++ original ret ∷ [])
        ≡ is ++ added (fn_event (event_function d.name false)) ∷ original ret ∷ []
  unfolding end_event
  end_event-ret [] = refl
  end_event-ret (i ∷ []) = refl
  end_event-ret (i ∷ j ∷ is) = ap (λ l. i ∷ l) (end_event-ret (j ∷ is))

  visit_items-end :
      (s : List ℕ)
      → visit_items d (added (fn_event (event_function d.name false)) ∷ original ret ∷ []) s
        ≡ (added (fn_event (event_function d.name false)) ∷ original ret ∷ [], s)
  unfolding visit_items visit_item
  visit_items-end s = refl

  visit_items-return :
      (is : List Item) (s : List ℕ)
      → visit_items d (end_event d (is ++ original ret ∷ [])) s ≡ (
        (visit_items d is s).0
            ++ added (fn_event (event_function d.name false)) ∷ original ret ∷ [],
        (visit_items d is s).1,
      )
  visit_items-return is s =
      ap (λ l. visit_items d l s) (end_event-ret is)
      ∙ visit_items-append d is (added (fn_event (event_function d.name false)) ∷ original ret ∷ [])
          s
      ∙ ap (λ (r : List Item × List ℕ). ((visit_items d is s).0 ++ r.0, r.1))
          (visit_items-end (visit_items d is s).1)

  with_events :
      (filter : ℕ → Bool) (args : List ℕ) (entry : List Item) (bs : List (List Item)) (s : List ℕ)
      → has_events d ≡ true
      → (front : List Item) × (s1 : List ℕ) × (instrument_function d filter args (entry ∷ bs) s
          ≡ visit_blocks d
              ((added (fn_event (event_function d.name true)) ∷ front ++ entry) ∷ bs)
              s1)
  unfolding instrument_function inject_args begin_event
  with_events filter args entry bs s on = by_filter d.function_filter
    where
      by_filter :
          (f : Bool)
          → (front : List Item) × (s1 : List ℕ) × ((let (blocks1, s2) =
                  (if f then inject_args filter args (entry ∷ bs) s else (entry ∷ bs, s)) in
                visit_blocks d (begin_event d blocks1) s2)
              ≡ visit_blocks d
                  ((added (fn_event (event_function d.name true)) ∷ front ++ entry) ∷ bs)
                  s1)
      by_filter true =
          let (stores, s1) = queue_args filter 0 args s in
          (
            stores,
            s1,
            ap
                (λ e.
                  visit_blocks d
                    ((if e
                        then added (fn_event (event_function d.name true)) ∷ stores ++ entry
                        else stores ++ entry)
                      ∷ bs)
                    s1)
                on,
          )
      by_filter false = (
        [],
        s,
        ap
            (λ e.
              visit_blocks d
                ((if e then added (fn_event (event_function d.name true)) ∷ entry else entry) ∷ bs)
                s)
            on,
      )

  visit_blocks-first :
      (is : List Item) (bs : List (List Item)) (s : List ℕ)
      → has_events d ≡ true
      → (visit_blocks d (is ∷ bs) s).0
        ≡ (visit_items d (end_event d is) s).0
          ∷ (visit_blocks d bs (visit_items d (end_event d is) s).1).0
  unfolding visit_blocks
  visit_blocks-first is bs s on =
      ap
        (λ e.
          let (out, s1) = visit_items d (if e then end_event d is else is) s in
          out ∷ (visit_blocks d bs s1).0)
        on

  -- The block ends in the event of the end and the return, if it ended in a return.
  visited-EndsIn :
      (front b : List Item) (s : List ℕ)
      → EndsIn (event_function d.name false) b (visit_items d (end_event d (front ++ b)) s).0
  visited-EndsIn front b s is e = (
    (visit_items d (front ++ is) s).0,
    ap (λ l. (visit_items d (end_event d l) s).0)
          (ap (λ l. front ++ l) e ∙ sym (append_assoc front is (original ret ∷ [])))
        ∙ ap (λ (r : List Item × List ℕ). r.0) (visit_items-return (front ++ is) s),
  )

  visit_blocks-AllEndIn :
      (bs : List (List Item)) (s : List ℕ)
      → has_events d ≡ true
      → AllEndIn (event_function d.name false) bs (visit_blocks d bs s).0
  unfolding visit_blocks
  visit_blocks-AllEndIn [] s on = tt
  visit_blocks-AllEndIn (b ∷ bs) s on =
      subst (AllEndIn (event_function d.name false) (b ∷ bs)) (sym (visit_blocks-first b bs s on))
        (visited-EndsIn [] b s, visit_blocks-AllEndIn bs (visit_items d (end_event d b) s).1 on)

  visit_items-first :
      (g : EventFunction) (is : List Item) (s : List ℕ)
      → visit_items d (end_event d (added (fn_event g) ∷ is)) s ≡ (
        added (fn_event g) ∷ (visit_items d (end_event d is) s).0,
        (visit_items d (end_event d is) s).1,
      )
  unfolding visit_items visit_item
  visit_items-first g is s =
      ap (λ l. visit_items d l s) (end_event-append d (added (fn_event g) ∷ []) is tt)

  -- After the pass, in a function whose events the filter has on, and in "main", where its size is accepted: the entry block begins with one call, and every block that ended in a return ends in one call and the return. The calls are those of logInit and logExit in "main" and in functions whose names begin with "_GLOBAL_", and those of the begin and the end of a function in all others.
  pub instrument_function-events :
      (filter : ℕ → Bool) (args : List ℕ) (entry : List Item) (bs : List (List Item)) (s : List ℕ)
      → (d.function_filter ≡ true) ⊎ (d.name ≡ codes "main")
      → (g h : EventFunction) × (rest : List Item) × (others : List (List Item)) × IsEvent d.name
          true g
        × IsEvent d.name false h
        × ((instrument_function d filter args (entry ∷ bs) s).0
            ≡ (added (fn_event g) ∷ rest) ∷ others)
        × AllEndIn h (entry ∷ bs) ((added (fn_event g) ∷ rest) ∷ others)
  instrument_function-events filter args entry bs s shown =
      let on = has_events-true shown in
      let (front, s1, e) = with_events filter args entry bs s on in
      let g = event_function d.name true in
      let first = visit_items-first g (front ++ entry) s1 in
      let s2 = (visit_items d (end_event d (front ++ entry)) s1).1 in
      (
        g,
        event_function d.name false,
        (visit_items d (end_event d (front ++ entry)) s1).0,
        (visit_blocks d bs s2).0,
        event_function-IsEvent d.name true,
        event_function-IsEvent d.name false,
        ap (λ (r : List (List Item) × List ℕ). r.0) e
            ∙ visit_blocks-first (added (fn_event g) ∷ front ++ entry) bs s1 on
            ∙ ap (λ (r : List Item × List ℕ). r.0 ∷ (visit_blocks d bs r.1).0) first,
        (
          subst (λ (r : List Item × List ℕ). EndsIn (event_function d.name false) entry r.0) first
              (visited-EndsIn (added (fn_event g) ∷ front) entry s1),
          visit_blocks-AllEndIn bs s2 on,
        ),
      )
