-- ===== src/Pass/WholeModule.antt =====
-- The loop of `runOnModule`: the functions of the module before and after it.
use dinamite.Shared.{
  ℕ, ◌≡◌, ◌⊎◌, Bytes, Bool, List, [], ◌∷◌, none, some, Some, value, exited, crashed,
}
use dinamite.Json.{Json11}
use dinamite.AllocDefs.{AllocDefinition}
use dinamite.Pass.{LogChoice, Instruction, Function}
use dinamite.Pass.Whole.{Runs}
use dinamite.Pass.Stops.{IsBad, StopsAt}
use dinamite.Pass.Erase.{programs}

-- The names of the functions, with their instructions by blocks.
abbrev pub code_of : List Function → List (Bytes × List (List Instruction))
code_of [] = []
code_of (fn ∷ fns) = (fn.name, programs fn.blocks) ∷ code_of fns

module _ (J : Json11) (log_choice : Bytes → ℕ → LogChoice) (is_arg : Bool)
    (is_log_function : Bytes → Bool) (allocs : List AllocDefinition) where
  -- `getLogFunction` exits for a value that the function reads or writes, or for an argument of it.
  abbrev pub Stops : Function → Type 0
  Stops fn =
      Some (Some (IsBad (StopsAt (log_choice fn.name)))) fn.blocks
      ⊎ Some (StopsAt (log_choice fn.name)) fn.args

  abbrev Result : Type 0
  Result = Runs J log_choice is_arg is_log_function allocs

  -- The loop left the code as it was, or the compiler exited with a reason.
  abbrev KeepsCode : List Function → Result → Type 0
  KeepsCode fns (value none) = ⊥
  KeepsCode fns (value (some (f, out))) = code_of out ≡ code_of fns
  KeepsCode fns exited = Some Stops fns
  KeepsCode fns crashed = ⊥
