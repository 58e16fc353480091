-- ===== src/Json.antt =====
-- The calls that the program makes of json11 (json11.hpp), which is another project's library: a
-- record of operations, and the behaviour that the callers rely on as separate, named hypotheses.

use dinamite.Shared.{Bytes, StdMap, ℤ, Bool, List, [], ◌∷◌, ◌≡◌}

-- `json` is the type of values, `null` the value of `Json()`.
pub record Json11 : Type 1 where
  pub json : Type 0
  pub null : json
  -- `Json::parse(in, err)`, which returns null on an error.
  pub parse : Bytes → json
  -- `Json::dump()`
  pub dump : json → Bytes
  -- `Json(map<string, int>)`
  pub of_map : StdMap ℤ → json
  pub is_null : json → Bool
  pub is_array : json → Bool
  pub is_string : json → Bool
  pub bool_value : json → Bool
  pub int_value : json → ℤ
  pub string_value : json → Bytes
  pub array_items : json → List json
  -- The entries in the order of the keys.
  pub object_items : json → StdMap json
  -- `value[key]`
  pub at : json → Bytes → json

-- The entries of an object as integers, in the order in which a loop over them reads them.
abbrev pub int_entries : (J : Json11) → StdMap (Json11.json J) → StdMap ℤ
int_entries J [] = []
int_entries J ((k, v) ∷ entries) = (k, J.int_value v) ∷ int_entries J entries

-- Dumping a map of integers and parsing the text gives an object with the same entries.
abbrev pub ReadsBack : Json11 → Type 0
ReadsBack J = (m : StdMap ℤ) → int_entries J (J.object_items (J.parse (J.dump (J.of_map m)))) ≡ m
