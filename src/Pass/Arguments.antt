-- ===== src/Pass/Arguments.antt =====
-- The stores and the log calls for the arguments of a function.
use dinamite.Shared.{
  ℕ, ◌+◌, ◌≡◌, refl, ap, ◌∙◌, arith, Bool, true, false, List, [], ◌∷◌, ◌++◌, if◌then◌else◌, All,
}
use dinamite.Pass.{
  EventFunction, fn_event, Item, added, Decisions, insert_arg, visit_item, visit_items, end_event,
  visit_blocks, queue_args, instrument_function, event_function,
}
use dinamite.Pass.Items.{
  IsEvent, event_function-IsEvent, has, Distinct, arg_items, AllOriginal, NoArgument, AllAdded,
}
use dinamite.Pass.Cleared.{
  end_event-IsPlain, end_event-append, visit_items-empty, visit_blocks-on, instrument_function-on,
  visit_blocks-empty, visit_items-append,
}
use dinamite.Pass.Pending.{queue_args-visited}

AllAdded-queue_args :
    (filter : ℕ → Bool) (idx : ℕ) (args s : List ℕ) → AllAdded (queue_args filter idx args s).0
unfolding queue_args
AllAdded-queue_args filter idx [] s = tt
AllAdded-queue_args filter idx (a ∷ args) s =
    ground
      (arith, AllAdded-queue_args filter (idx + 1) args (if filter idx then insert_arg a s else s))

free_args : (args : List ℕ) → All (λ a. has a [] ≡ false) args
free_args [] = tt
free_args (a ∷ args) = (refl, free_args args)

visited_front :
    (d : Decisions) (filter : ℕ → Bool) (args : List ℕ) (entry stores : List Item) (s1 : List ℕ)
    → visit_items d stores s1 ≡ (arg_items d filter 0 args, [])
    → (visit_items d (end_event d entry) []).1 ≡ []
    → visit_items d (added (fn_event (event_function d.name true)) ∷ stores ++ end_event d entry) s1
      ≡ (
        added (fn_event (event_function d.name true))
            ∷ (arg_items d filter 0 args ++ (visit_items d (end_event d entry) []).0),
        [],
      )
unfolding visit_items visit_item
visited_front d filter args entry stores s1 queued cleared =
    let begin = added (fn_event (event_function d.name true)) in
    ap (λ (r : List Item × List ℕ). (begin ∷ r.0, r.1))
      (visit_items-append d stores (end_event d entry) s1)
    ∙ ap
        (λ (r : List Item × List ℕ). (
          begin ∷ (r.0 ++ (visit_items d (end_event d entry) r.1).0),
          (visit_items d (end_event d entry) r.1).1,
        ))
        queued
    ∙ ap (λ u. (begin ∷ (arg_items d filter 0 args ++ (visit_items d (end_event d entry) []).0), u))
        cleared

-- In a function whose events are on, with distinct arguments and no argument pending: the entry block begins with the event of the begin and then, for each argument that the filter selects and in order, the place, the call that logs it as an argument, if `getLogFunction` has a function for it, and the store (the compiler exits in place of the call where `getLogFunction` does); no call behind them, in any block, logs an argument, and none is left pending.
pub instrument_function-arguments :
    (d : Decisions) (filter : ℕ → Bool) (args : List ℕ) (entry : List Item)
    (blocks : List (List Item))
    → d.function_filter ≡ true
    → Distinct args
    → All AllOriginal (entry ∷ blocks)
    → (g : EventFunction) × (rest : List Item) × (others : List (List Item)) × IsEvent d.name true g
      × (instrument_function d filter args (entry ∷ blocks) []
          ≡ ((added (fn_event g) ∷ (arg_items d filter 0 args ++ rest)) ∷ others, []))
      × NoArgument rest
      × All NoArgument others
instrument_function-arguments d filter args entry blocks on distinct plain_blocks =
    let (stores, s1) = queue_args filter 0 args [] in
    let front = added (fn_event (event_function d.name true)) ∷ stores in
    let ended : end_event d (front ++ entry) ≡ front ++ end_event d entry =
      end_event-append d front entry (AllAdded-queue_args filter 0 args []) in
    let queued : visit_items d stores s1 ≡ (arg_items d filter 0 args, []) =
      queue_args-visited filter d on 0 args [] distinct (free_args args) in
    let (cleared, none_entry) =
      visit_items-empty d on (end_event d entry) (end_event-IsPlain d entry plain_blocks.0) in
    let after : List Item → List (List Item) × List ℕ = λ l. (
      (visit_items d l s1).0 ∷ (visit_blocks d blocks (visit_items d l s1).1).0,
      (visit_blocks d blocks (visit_items d l s1).1).1,
    ) in
    let entry_visited = visited_front d filter args entry stores s1 queued cleared in
    let (left, none_blocks) = visit_blocks-empty d on blocks plain_blocks.1 in
    (
      event_function d.name true,
      (visit_items d (end_event d entry) []).0,
      (visit_blocks d blocks []).0,
      event_function-IsEvent d.name true,
      instrument_function-on d on filter args entry blocks []
          ∙ visit_blocks-on d on (front ++ entry) blocks s1
          ∙ ap after ended
          ∙ (ap
                (λ (r : List Item × List ℕ).
                  (r.0 ∷ (visit_blocks d blocks r.1).0, (visit_blocks d blocks r.1).1))
                entry_visited
              ∙ ap
                  (λ u. (
                    (added (fn_event (event_function d.name true))
                          ∷ (arg_items d filter 0 args ++ (visit_items d (end_event d entry) []).0))
                        ∷ (visit_blocks d blocks []).0,
                    u,
                  ))
                  left),
      none_entry,
      none_blocks,
    )
