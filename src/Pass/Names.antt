-- ===== src/Pass/Names.antt =====
-- access_instrument.cpp: the names of variables that the pass logs (getValueType, getGEPVarName,
-- getVarName). The texts that LLVM gives for names and types are fields.
pub mod Slots
use dinamite.Shared.{
  ℕ, zero, suc, ◌+◌, ◌-◌, Bytes, codes, same, strip_prefix, ℤ, pos, negsuc, wrap32, Bool, true,
  false, ◌&&◌, List, [], ◌∷◌, ◌++◌, Option, none, some, ltb, ◌==◌, length, if◌then◌else◌,
  first_bytes,
}
use dinamite.Metadata.{MetadataCrawler, get_field_name, drop}

-- The type that the first operand of a GEP points to: no structure, a literal one, or a named one.
pub data Pointee : Type 0 where
  no_struct literal_struct : Pointee
  named_struct : Bytes → Pointee

-- What is read of a GEP instruction: `field_index` is its third operand where it is a constant.
pub record Gep : Type 0 where
  pub num_operands : ℕ
  pub field_index : Option ℤ
  pub pointee : Pointee

pub record Variable : Type 0 where
  pub name : Bytes
  pub type_text : Bytes
  pub gep : Option Gep
  pub is_global : Bool

-- `if (s.find(prefix) == 0) s.erase(0, length of prefix)`
unfoldable pub erase_prefix : Bytes → Bytes → Bytes
erase_prefix prefix s = elim (strip_prefix prefix s) [ none ↦ s | some rest ↦ rest ]

-- The text behind the first place of `part`, and the text before it.
unfoldable pub behind_first : Bytes → Bytes → Option Bytes
behind_first part [] = strip_prefix part []
behind_first part (c ∷ s) = elim (strip_prefix part (c ∷ s)) [
  | none ↦ behind_first part s
  | some rest ↦ some rest
]

-- The position of a byte.
unfoldable pub find_byte : ℕ → Bytes → Option ℕ
find_byte b [] = none
find_byte b (c ∷ s) =
    let rest = find_byte b s in
    if c == b then some 0 else elim rest [ none ↦ none | some n ↦ some (suc n) ]

-- `s.erase(at, count)`
abbrev pub erase_bytes : ℕ → ℕ → Bytes → Bytes
erase_bytes at count s = first_bytes at s ++ drop (at + count) s

-- The test for ".addr" at the end of a text of more than five bytes, and its removal.
unfoldable pub without_addr : Bytes → Bytes
without_addr s =
    if ltb 5 (length s) && same (drop (length s - 5) s) (codes ".addr")
    then first_bytes (length s - 5) s
    else s

-- The loop that erases each '*'.
unfoldable pub without_stars : Bytes → Bytes
without_stars [] = []
without_stars (c ∷ s) = let rest = without_stars s in if c == b'*' then rest else c ∷ rest

-- `getValueType`; `none` is the exception of `substr(8)` on a shorter text.
unfoldable pub get_value_type : Bytes → Option Bytes
get_value_type text =
    if same (first_bytes 7 text) (codes "%struct")
    then (if ltb (length text) 8 then none else some (drop 8 text))
    else some text

abbrev pub pointee_name : Pointee → Bytes
pointee_name no_struct = []
pointee_name literal_struct = codes "literal"
pointee_name (named_struct name) = name

-- The name of the structure without "class." and "struct.".
unfoldable pub end_type : Pointee → Bytes
end_type p = erase_prefix (codes "struct.") (erase_prefix (codes "class.") (pointee_name p))

-- The name of the structure without "class.", "struct." and what stands before "::".
unfoldable pub parent_name : Pointee → Bytes
parent_name p =
    let parent = end_type p in
    elim (behind_first (codes "::") parent) [ none ↦ parent | some rest ↦ rest ]

-- `fieldIndex` as the `int` that `getFieldName` takes; `unset` is its value before it is assigned.
unfoldable pub gep_field_index : ℤ → Gep → ℤ
gep_field_index unset g =
    if ltb g.num_operands 3
    then negsuc 0
    else elim g.field_index [ none ↦ unset | some i ↦ wrap32 i ]

-- `getGEPVarName`
unfoldable pub get_gep_var_name : MetadataCrawler → ℤ → Gep → Bytes
get_gep_var_name mdc unset g =
    let parent = parent_name g.pointee in
    without_addr (parent ++ codes "." ++ get_field_name mdc parent (gep_field_index unset g))

-- The name of the current function, its parameters taken away, with "()" and a dot.
unfoldable pub function_base : Bytes → Bytes
function_base demangled = elim (find_byte b'(' demangled) [
  | none ↦ demangled ++ (codes "()" ++ codes ".")
  | some at ↦ erase_bytes at (length demangled - 1) demangled ++ (codes "()" ++ codes ".")
]

-- The last part of `getVarName`.
unfoldable pub plain_name : Bytes → Variable → Bytes
plain_name demangled v =
    let base = (if v.is_global then codes "<global>." else function_base demangled) in
    without_addr ((if length v.name == 0 then base ++ codes "<NA>" else base) ++ v.name)

-- The branch for the slot of `this`.
unfoldable pub this_name : Bytes → Option Bytes
this_name type_text = elim (get_value_type type_text) [
  | none ↦ none
  | some thisclass ↦ some (
      without_stars (erase_prefix (codes "%struct.") (erase_prefix (codes "%class.") thisclass))
      ++ codes ".this")
]

-- `getVarName`, given the demangled name of the current function.
unfoldable pub get_var_name : MetadataCrawler → ℤ → Bytes → Variable → Option Bytes
get_var_name mdc unset demangled v =
    if same v.name (codes "this.addr") then this_name v.type_text else elim v.gep [
      | some g ↦ some (get_gep_var_name mdc unset g)
      | none ↦ some (plain_name demangled v)
    ]

-- `getGEPType` of a GEP whose first operand points to `p`, where that operand is itself a GEP for each
-- further member of the list.
unfoldable pub get_gep_type : Pointee → List Pointee → Bytes
get_gep_type p [] = end_type p
get_gep_type p (q ∷ more) =
    let prefix = get_gep_type q more in
    if length prefix == 0 then end_type p else prefix ++ codes "." ++ end_type p
