-- ===== src/Pass/Erase.antt =====
-- The instructions of a function, in its blocks, before and after the pass.
use dinamite.Shared.{
  ℕ, ◌+◌, ◌≡◌, refl, sym, ap, ◌∙◌, arith, Bool, List, [], ◌∷◌, ◌++◌, Option, Bool-cases, inl, inr,
  if◌then◌else◌, Bytes,
}
use dinamite.Pass.{
  stop, Instruction, load, store, call, ret, plain, alloca, load_again, arg_store, log_access,
  log_alloc, fn_event, Item, original, added, Decisions, check_and_consume_arg, log_call,
  visit_store, visit_load, before_call, behind_call, visit_item, visit_items, end_event,
  visit_blocks, begin_event, queue_args, inject_args, insert_arg, has_events, instrument_function,
}

-- The instructions of the program among the items.
abbrev pub program : List Item → List Instruction
program [] = []
program (original i ∷ is) = i ∷ program is
program (added _ ∷ is) = program is

abbrev pub programs : List (List Item) → List (List Instruction)
programs [] = []
programs (b ∷ bs) = program b ∷ programs bs

pub program-append : (xs ys : List Item) → program (xs ++ ys) ≡ program xs ++ program ys
program-append [] ys = refl
program-append (original i ∷ xs) ys = ap (λ l. i ∷ l) (program-append xs ys)
program-append (added a ∷ xs) ys = program-append xs ys

module _ (d : Decisions) where
  program-log_call : (kind v : ℕ) → program (log_call d kind v) ≡ []
  unfolding log_call
  program-log_call kind v = ground arith

  program-visit_store : (v : ℕ) (s : List ℕ) → program (visit_store d v s).0 ≡ []
  unfolding visit_store check_and_consume_arg
  program-visit_store v s = ground (
    arith,
    program-log_call b'a' v,
    program-log_call b'w' v,
    program-log_call (if d.is_arg then b'a' else b'w') v,
  )

  program-visit_load : (v : ℕ) → program (visit_load d v) ≡ []
  unfolding visit_load
  program-visit_load v = ground (arith, program-log_call b'r' v)

  program-before_call : (callee : Option Bytes) → program (before_call d callee) ≡ []
  unfolding before_call
  program-before_call callee = ground arith

  program-behind_call : (callee : Option Bytes) → program (behind_call d callee) ≡ []
  unfolding behind_call
  program-behind_call callee = ground arith

  program-visit_item : (i : Item) (s : List ℕ) → program (visit_item d i s).0 ≡ program (i ∷ [])
  unfolding visit_item
  program-visit_item (original (load v)) s =
      program-append (visit_load d v) _ ∙ rw (program-visit_load v) refl
  program-visit_item (original (store v)) s =
      program-append (visit_store d v s).0 _ ∙ rw (program-visit_store v s) refl
  program-visit_item (original (call callee)) s =
      program-append (before_call d callee) _
      ∙ rw (program-before_call callee, program-behind_call callee) refl
  program-visit_item (original ret) s = refl
  program-visit_item (original plain) s = refl
  program-visit_item (added alloca) s = refl
  program-visit_item (added load_again) s = refl
  program-visit_item (added (arg_store v)) s =
      program-append (visit_store d v s).0 _ ∙ rw (program-visit_store v s) refl
  program-visit_item (added (log_access kind v)) s = refl
  program-visit_item (added (stop v)) s = refl
  program-visit_item (added (log_alloc def)) s = refl
  program-visit_item (added (fn_event g)) s = refl

  program-visit_items : (is : List Item) (s : List ℕ) → program (visit_items d is s).0 ≡ program is
  unfolding visit_items
  program-visit_items [] s = refl
  program-visit_items (i ∷ is) s =
      program-append (visit_item d i s).0 (visit_items d is (visit_item d i s).1).0
      ∙ ap (λ l. l ++ program (visit_items d is (visit_item d i s).1).0) (program-visit_item i s)
      ∙ ap (λ l. program (i ∷ []) ++ l) (program-visit_items is (visit_item d i s).1)
      ∙ sym (program-append (i ∷ []) is)

  program-end_event : (is : List Item) → program (end_event d is) ≡ program is
  unfolding end_event
  program-end_event [] = refl
  program-end_event (original ret ∷ []) = refl
  program-end_event (original (load v) ∷ []) = refl
  program-end_event (original (store v) ∷ []) = refl
  program-end_event (original (call c) ∷ []) = refl
  program-end_event (original plain ∷ []) = refl
  program-end_event (added a ∷ []) = refl
  program-end_event (original i ∷ j ∷ is) = ap (λ l. i ∷ l) (program-end_event (j ∷ is))
  program-end_event (added a ∷ j ∷ is) = program-end_event (j ∷ is)

  programs-visit_blocks :
      (bs : List (List Item)) (s : List ℕ) → programs (visit_blocks d bs s).0 ≡ programs bs
  unfolding visit_blocks
  programs-visit_blocks [] s = refl
  programs-visit_blocks (b ∷ bs) s =
      let chosen : program (if has_events d then end_event d b else b) ≡ program b =
        elim (Bool-cases (has_events d)) [
          | inl e ↦ rw e (program-end_event b)
          | inr e ↦ rw e refl
        ] in
      let (out, s1) = visit_items d (if has_events d then end_event d b else b) s in
      ap (λ p. p ∷ programs (visit_blocks d bs s1).0)
        (program-visit_items (if has_events d then end_event d b else b) s ∙ chosen)
      ∙ ap (λ ps. program b ∷ ps) (programs-visit_blocks bs s1)

  programs-begin_event : (bs : List (List Item)) → programs (begin_event d bs) ≡ programs bs
  unfolding begin_event
  programs-begin_event [] = refl
  programs-begin_event (b ∷ bs) = ground arith

program-queue_args :
    (filter : ℕ → Bool) (idx : ℕ) (args s : List ℕ) → program (queue_args filter idx args s).0 ≡ []
unfolding queue_args
program-queue_args filter idx [] s = refl
program-queue_args filter idx (arg ∷ args) s =
    let rest =
      program-queue_args filter (idx + 1) args (if filter idx then insert_arg arg s else s) in
    elim (Bool-cases (filter idx)) [ inl e ↦ ground (arith, rest) | inr e ↦ ground (arith, rest) ]

programs-inject_args :
    (filter : ℕ → Bool) (args : List ℕ) (bs : List (List Item)) (s : List ℕ)
    → programs (inject_args filter args bs s).0 ≡ programs bs
unfolding inject_args
programs-inject_args filter args [] s = refl
programs-inject_args filter args (b ∷ bs) s =
    ap (λ p. p ∷ programs bs)
      (program-append (queue_args filter 0 args s).0 b
        ∙ rw (program-queue_args filter 0 args s) refl)

-- Whatever the filter decides, the instructions of a function after the pass are, block by block and in order, those that it had, once the calls and stores that the pass adds are left out.
pub programs-instrument_function :
    (d : Decisions) (filter : ℕ → Bool) (args : List ℕ) (blocks : List (List Item)) (s : List ℕ)
    → programs (instrument_function d filter args blocks s).0 ≡ programs blocks
unfolding instrument_function
programs-instrument_function d filter args blocks s =
    let injected : programs
          (if d.function_filter then inject_args filter args blocks s else (blocks, s)).0
        ≡ programs blocks =
      elim (Bool-cases d.function_filter) [
        | inl e ↦ rw e (programs-inject_args filter args blocks s)
        | inr e ↦ rw e refl
      ] in
    let (blocks1, s1) =
      (if d.function_filter then inject_args filter args blocks s else (blocks, s)) in
    programs-visit_blocks d (begin_event d blocks1) s1 ∙ programs-begin_event d blocks1 ∙ injected
