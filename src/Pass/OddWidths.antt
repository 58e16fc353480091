-- ===== src/Pass/OddWidths.antt =====
-- The values at whose width `getLogFunction` exits.
use dinamite.Shared.{ℕ, ◌≡◌, ◌≢◌, ◌⊎◌, inl, inr, arith, Bytes, false, true, Some}
use dinamite.LogFunctions.{
  Functions, LogFunctionManager, ValueType, get_log_function, integer_function,
}
use dinamite.Pass.{
  stops, load, store, call, ret, plain, alloca, load_again, arg_store, log_access, stop, log_alloc,
  fn_event, Item, original, added, Function,
}
use dinamite.Pass.Whole.{chosen}
use dinamite.Pass.Stops.{IsBad, StopsAt, Some-mono}

module _ (P Q : ℕ → Type 0) (k : (v : ℕ) → P v → Q v) where
  pub IsBad-mono : (i : Item) → IsBad P i → IsBad Q i
  IsBad-mono (original (load v)) h = k v h
  IsBad-mono (original (store v)) h = k v h
  IsBad-mono (original (call callee)) h = h
  IsBad-mono (original ret) h = h
  IsBad-mono (original plain) h = h
  IsBad-mono (added (arg_store v)) h = k v h
  IsBad-mono (added (stop v)) h = h
  IsBad-mono (added alloca) h = h
  IsBad-mono (added load_again) h = h
  IsBad-mono (added (log_access kind v)) h = h
  IsBad-mono (added (log_alloc def)) h = h
  IsBad-mono (added (fn_event g)) h = h

-- An integer whose width is none of those that `getLogFunction` knows.
abbrev pub HasOddWidth : ValueType → Type 0
HasOddWidth t =
    (t.is_floating_point ≡ false)
    × (t.is_pointer ≡ false)
    × (t.is_integer ≡ true)
    × (t.scalar_size_in_bits ≢ 1)
    × (t.scalar_size_in_bits ≢ 8)
    × (t.scalar_size_in_bits ≢ 16)
    × (t.scalar_size_in_bits ≢ 32)
    × (t.scalar_size_in_bits ≢ 64)

chosen-HasOddWidth :
    (L : Functions) (lfm : LogFunctionManager L) (t : ValueType) (parent : Bytes)
    → chosen L lfm t parent ≡ stops
    → HasOddWidth t
unfolding chosen get_log_function integer_function
chosen-HasOddWidth L lfm t parent h = ground arith

-- The function reads or writes a value of such a type, or has such an argument.
abbrev pub HasOddValue : (ℕ → ValueType) → Function → Type 0
HasOddValue value_type fn =
    Some (Some (IsBad (λ v. HasOddWidth (value_type v)))) fn.blocks
    ⊎ Some (λ a. HasOddWidth (value_type a)) fn.args

pub bad-HasOddValue :
    (L : Functions) (lfm : LogFunctionManager L) (value_type : ℕ → ValueType) (fn : Function)
    → Some (Some (IsBad (StopsAt (λ v. chosen L lfm (value_type v) fn.name)))) fn.blocks
      ⊎ Some (StopsAt (λ v. chosen L lfm (value_type v) fn.name)) fn.args
    → HasOddValue value_type fn
bad-HasOddValue L lfm value_type fn h =
    let odd : (v : ℕ) → chosen L lfm (value_type v) fn.name ≡ stops → HasOddWidth (value_type v) =
      λ v. chosen-HasOddWidth L lfm (value_type v) fn.name in
    elim h [
      | inl b ↦ inl (Some-mono _ _ (Some-mono _ _ (IsBad-mono _ _ odd)) fn.blocks b)
      | inr a ↦ inr (Some-mono _ _ odd fn.args a)
    ]
