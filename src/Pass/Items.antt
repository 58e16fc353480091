-- ===== src/Pass/Items.antt =====
-- Kinds of items in the blocks of a function.
use mathlib.Core.Option.{none-ne-some}
use dinamite.Shared.{
  arith, ◌⊎◌, inl, inr, refl, sym, ap, ◌∙◌, Bytes, codes, same, same_iff, true, none, strip_prefix,
  strip_prefix-eq-some, strip_prefix-append, Bool-cases, Option-cases, ℕ, ◌+◌, ◌≡◌, ◌≢◌, Bool,
  false, List, [], ◌∷◌, ◌++◌, if◌then◌else◌, ◌==◌, any,
}
use dinamite.Pass.{
  EventFunction, init_log_func, exit_log_func, fn_begin_log_func, fn_end_log_func, event_function,
  has_function, no_function, stops, LogChoice, stop, alloca, load_again, arg_store, log_access,
  log_alloc, fn_event, Item, original, added, Decisions,
}

abbrev pub has : ℕ → List ℕ → Bool
has v s = any (λ x. x == v) s

-- No argument occurs twice.
abbrev pub Distinct : List ℕ → Type 0
Distinct [] = Unit
Distinct (a ∷ args) = (has a args ≡ false) × Distinct args

-- "main", and the functions whose names begin with "_GLOBAL_".
abbrev pub IsStart : Bytes → Type 0
IsStart name = (name ≡ codes "main") ⊎ ((rest : Bytes) × (name ≡ codes "_GLOBAL_" ++ rest))

-- The function that is called for the begin or the end of a function.
abbrev pub IsEvent : Bytes → Bool → EventFunction → Type 0
IsEvent name true g = IsStart name × (g ≡ init_log_func) ⊎ ¬ IsStart name × (g ≡ fn_begin_log_func)
IsEvent name false g = IsStart name × (g ≡ exit_log_func) ⊎ ¬ IsStart name × (g ≡ fn_end_log_func)

pub event_function-IsEvent :
    (name : Bytes) (begin : Bool) → IsEvent name begin (event_function name begin)
unfolding event_function strip_prefix
event_function-IsEvent name begin = elim (Option-cases (strip_prefix (codes "_GLOBAL_") name)) [
  | inr (rest, e) ↦
      rw e (start begin (inr (rest, strip_prefix-eq-some (codes "_GLOBAL_") name rest e)))
  | inl e ↦ elim (Bool-cases (same name (codes "main"))) [
    | inl m ↦ rw (e, m) (start begin (inl ((same_iff name (codes "main")).0 m)))
    | inr m ↦ rw (e, m) (other begin (λ s. no_start e m s))
  ]
]
  where
    start : (b : Bool) → IsStart name → IsEvent name b (if b then init_log_func else exit_log_func)
    start true s = inl (s, refl)
    start false s = inl (s, refl)

    other :
        (b : Bool)
        → ¬ IsStart name
        → IsEvent name b (if b then fn_begin_log_func else fn_end_log_func)
    other true s = inr (s, refl)
    other false s = inr (s, refl)

    no_start :
        strip_prefix (codes "_GLOBAL_") name ≡ none
        → same name (codes "main") ≡ false
        → ¬ IsStart name
    no_start e m (inl q) = ground (arith, same_iff name (codes "main"))
    no_start e m (inr (rest, q)) = none-ne-some rest (
        sym e
        ∙ ap (strip_prefix (codes "_GLOBAL_")) q
        ∙ strip_prefix-append (codes "_GLOBAL_") rest)

-- The log call for an argument: there is one where there is a function for its type.
abbrev pub arg_call : LogChoice → ℕ → List Item
arg_call has_function a = added (log_access b'a' a) ∷ []
arg_call no_function a = []
arg_call stops a = added (stop a) ∷ []

-- What stands at the entry for the selected arguments: the place, the log call, the store.
abbrev pub arg_items : Decisions → (ℕ → Bool) → ℕ → List ℕ → List Item
arg_items d filter idx [] = []
arg_items d filter idx (a ∷ args) =
    if filter idx
    then added alloca
      ∷ (arg_call (d.log_choice a) a ++ added (arg_store a) ∷ arg_items d filter (idx + 1) args)
    else arg_items d filter (idx + 1) args

-- The items are the program's.
abbrev pub AllOriginal : List Item → Type 0
AllOriginal [] = Unit
AllOriginal (original _ ∷ is) = AllOriginal is
AllOriginal (added _ ∷ is) = ⊥

-- No call logs an argument.
abbrev pub NoArgument : List Item → Type 0
NoArgument [] = Unit
NoArgument (original _ ∷ is) = NoArgument is
NoArgument (added (log_access kind v) ∷ is) = (kind ≢ b'a') × NoArgument is
NoArgument (added (stop v) ∷ is) = NoArgument is
NoArgument (added alloca ∷ is) = NoArgument is
NoArgument (added load_again ∷ is) = NoArgument is
NoArgument (added (arg_store v) ∷ is) = NoArgument is
NoArgument (added (log_alloc def) ∷ is) = NoArgument is
NoArgument (added (fn_event g) ∷ is) = NoArgument is

pub NoArgument-append : (xs ys : List Item) → NoArgument xs → NoArgument ys → NoArgument (xs ++ ys)
NoArgument-append [] ys hx hy = hy
NoArgument-append (original _ ∷ xs) ys hx hy = NoArgument-append xs ys hx hy
NoArgument-append (added (log_access kind v) ∷ xs) ys hx hy =
    (hx.0, NoArgument-append xs ys hx.1 hy)
NoArgument-append (added (stop v) ∷ xs) ys hx hy = NoArgument-append xs ys hx hy
NoArgument-append (added alloca ∷ xs) ys hx hy = NoArgument-append xs ys hx hy
NoArgument-append (added load_again ∷ xs) ys hx hy = NoArgument-append xs ys hx hy
NoArgument-append (added (arg_store v) ∷ xs) ys hx hy = NoArgument-append xs ys hx hy
NoArgument-append (added (log_alloc def) ∷ xs) ys hx hy = NoArgument-append xs ys hx hy
NoArgument-append (added (fn_event g) ∷ xs) ys hx hy = NoArgument-append xs ys hx hy

-- The items are the program's, and calls for events.
abbrev pub IsPlain : List Item → Type 0
IsPlain [] = Unit
IsPlain (original _ ∷ is) = IsPlain is
IsPlain (added (fn_event g) ∷ is) = IsPlain is
IsPlain (added (log_access kind v) ∷ is) = ⊥
IsPlain (added (stop v) ∷ is) = ⊥
IsPlain (added alloca ∷ is) = ⊥
IsPlain (added load_again ∷ is) = ⊥
IsPlain (added (arg_store v) ∷ is) = ⊥
IsPlain (added (log_alloc def) ∷ is) = ⊥

abbrev pub AllAdded : List Item → Type 0
AllAdded [] = Unit
AllAdded (original _ ∷ is) = ⊥
AllAdded (added _ ∷ is) = AllAdded is
