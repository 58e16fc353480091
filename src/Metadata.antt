-- ===== src/Metadata.antt =====
-- MetadataCrawler.hpp and MetadataCrawler.cpp: the walk through a module's debug metadata, and the names
-- of typedefs and of fields that it collects. The pointer of a node is its index among the nodes of
-- the module, a list that LLVM gives; `set<MDNode *>` is the list of its elements.
pub mod Crawl
pub mod Graph
pub mod Walk
pub mod Reached
pub mod Fields
use Prim.Native.Nat.{bit_and}
use dinamite.Shared.{
  ℕ, zero, suc, ◌+◌, ◌^◌, ◌%◌, ◌-◌, Bytes, codes, same, strip_prefix, StdMap, lookup, assign,
  contains, ℤ, pos, negsuc, to_size, Bool, true, false, not, ◌&&◌, ◌||◌, List, [], ◌∷◌, ◌++◌,
  Option, none, some, ltb, leb, ◌==◌, length, get_elem?, any, if◌then◌else◌,
}

-- What a value is that stands as an operand: a node, a string, an integer, or another value.
pub data OperandKind : Type 0 where
  node : ℕ → OperandKind
  text : Bytes → OperandKind
  number : ℤ → OperandKind
  other : OperandKind

-- `name` is what `getName` answers of the value.
pub record Operand : Type 0 where
  pub kind : OperandKind
  pub name : Bytes

-- The operands of each node; a null pointer is `none`.
abbrev pub Nodes : Type 0
Nodes = List (List (Option Operand))

abbrev pub operands_at : Option (List (Option Operand)) → List (Option Operand)
operands_at none = []
operands_at (some ops) = ops

abbrev pub operands : Nodes → ℕ → List (Option Operand)
operands nodes mdn = operands_at (get_elem? nodes mdn)

-- `dyn_cast<MDNode>`, `dyn_cast<MDString>` and `dyn_cast<ConstantInt>`, each behind a test for null.
abbrev pub as_node : Option Operand → Option ℕ
as_node none = none
as_node (some op) = elim op.kind [
  | node n ↦ some n
  | text _ ↦ none
  | number _ ↦ none
  | other ↦ none
]

abbrev pub as_text : Option Operand → Option Bytes
as_text none = none
as_text (some op) = elim op.kind [
  | node _ ↦ none
  | text s ↦ some s
  | number _ ↦ none
  | other ↦ none
]

abbrev pub as_number : Option Operand → Option ℤ
as_number none = none
as_number (some op) = elim op.kind [
  | node _ ↦ none
  | text _ ↦ none
  | number n ↦ some n
  | other ↦ none
]

abbrev pub name_of : Option Operand → Option Bytes
name_of none = none
name_of (some op) = some op.name

-- The operand at an index, where the node has so many.
abbrev pub operand : List (Option Operand) → ℕ → Option Operand
operand ops i = elim (get_elem? ops i) [ none ↦ none | some op ↦ op ]

-- The two subclasses of `MDTraversal`.
pub data Traversal : Type 0 where
  typedef_traversal field_name_traversal : Traversal

pub record MetadataCrawler : Type 0 where
  pub visited : List ℕ
  pub typedef_map : ℕ → Option Bytes
  pub field_map : StdMap (List Bytes)

-- The numbers that LLVM gives to three tags of DWARF.
pub record Tags : Type 0 where
  pub dw_tag_typedef : ℕ
  pub dw_tag_class_type : ℕ
  pub dw_tag_structure_type : ℕ

-- `CHECK_TAG(x, tag)`: every bit of the tag is set.
unfoldable pub check_tag : ℕ → ℕ → Bool
check_tag x tag = bit_and x tag == tag

-- `unsigned int tag = civ->getSExtValue()`
unfoldable pub tag_of : ℤ → ℕ
tag_of n = to_size n % 2 ^ 32

-- The first place of a text in another, from its front: the rest behind it, and whether it is there.
unfoldable pub holds_text : Bytes → Bytes → Bool
holds_text part [] = elim (strip_prefix part []) [ none ↦ false | some _ ↦ true ]
holds_text part (c ∷ s) = elim (strip_prefix part (c ∷ s)) [
  | none ↦ holds_text part s
  | some _ ↦ true
]

abbrev pub drop : ℕ → Bytes → Bytes
drop zero s = s
drop (suc n) [] = []
drop (suc n) (c ∷ s) = drop n s

-- `typedefMap[structptr] = name` where the node has no name yet.
unfoldable pub name_struct : ℕ → Bytes → MetadataCrawler → MetadataCrawler
name_struct n tdefname c = elim (c.typedef_map n) [
  | some _ ↦ c
  | none ↦ record c { typedef_map = λ m. if n == m then some tdefname else c.typedef_map m }
]

-- `TypedefTraversal::traverse`; a typedef without a name gives the empty name.
unfoldable pub traverse_typedef : Tags → List (Option Operand) → MetadataCrawler → MetadataCrawler
traverse_typedef tags ops c = elim (as_number (operand ops 0)) [
  | none ↦ c
  | some n ↦
      if check_tag (tag_of n) tags.dw_tag_typedef && ltb 9 (length ops)
      then (elim (as_node (operand ops 9)) [
        | none ↦ c
        | some structptr ↦
            name_struct structptr (elim (as_text (operand ops 3)) [ none ↦ [] | some s ↦ s ]) c
      ])
      else c
]

-- The name that `getFields` gives to one entry of the list of fields.
unfoldable pub field_name : List (Option Operand) → Bytes
field_name f = elim (name_of (operand f 3)) [ none ↦ codes "unknown" | some s ↦ s ]

-- `fieldMap[className].push_back(fieldName)`
unfoldable pub push_field : Bytes → Bytes → StdMap (List Bytes) → StdMap (List Bytes)
push_field class_name field m =
    assign class_name ((elim (lookup class_name m) [ none ↦ [] | some fs ↦ fs ]) ++ field ∷ []) m

-- `getFields`, over the operands of the list of fields.
unfoldable pub get_fields :
    Nodes → Bytes → List (Option Operand) → StdMap (List Bytes) → StdMap (List Bytes)
get_fields nodes class_name [] m = m
get_fields nodes class_name (op ∷ ops) m = elim (as_node op) [
  | none ↦ get_fields nodes class_name ops m
  | some f ↦
      get_fields nodes class_name ops (push_field class_name (field_name (operands nodes f)) m)
]

-- `getFieldName`. The index is compared as a `size_t`, so a negative one is past the end.
unfoldable pub get_field_name : MetadataCrawler → Bytes → ℤ → Bytes
get_field_name c struct_name field_idx = elim (lookup struct_name c.field_map) [
  | none ↦ codes "NA"
  | some fields ↦
      if leb (length fields) (to_size field_idx)
      then codes "unknown"
      else elim (get_elem? fields (to_size field_idx)) [ none ↦ codes "unknown" | some s ↦ s ]
]
