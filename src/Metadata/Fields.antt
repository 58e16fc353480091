-- ===== src/Metadata/Fields.antt =====
-- `getFields` and `getFieldName`, and the names of typedefs during a crawl.
use dinamite.Shared.{
  ℕ, ◌<◌, ◌^◌, ◌≡◌, inl, inr, refl, sym, ap, ◌∙◌, arith, Bytes, same, same_iff, StdMap, lookup,
  lookup-assign, ℤ, pos, negsuc, Bool, true, false, List, [], ◌∷◌, ◌++◌, append_assoc, append-nil,
  Option, none, some, Option-cases, Bool-cases, if◌then◌else◌,
}
use dinamite.Metadata.{
  Operand, Nodes, operands, as_node, Traversal, typedef_traversal, field_name_traversal,
  MetadataCrawler, Tags, field_name, push_field, get_fields, name_struct, traverse_typedef,
}
use dinamite.Metadata.Crawl.{traverse_field_names, traverse, enter}
use dinamite.Metadata.Walk.{Entered, unchanged, entered}

-- The names of the entries that are nodes, in order.
abbrev pub field_names : Nodes → List (Option Operand) → List Bytes
field_names nodes [] = []
field_names nodes (op ∷ ops) = elim (as_node op) [
  | none ↦ field_names nodes ops
  | some f ↦ field_name (operands nodes f) ∷ field_names nodes ops
]

abbrev pub fields_in : Option (List Bytes) → List Bytes
fields_in none = []
fields_in (some fs) = fs

-- The fields of a class, none if the class has no entry.
abbrev pub fields_of : Bytes → StdMap (List Bytes) → List Bytes
fields_of class_name m = fields_in (lookup class_name m)

fields_of-push_field :
    (class_name field name : Bytes) (m : StdMap (List Bytes))
    → fields_of name (push_field class_name field m)
      ≡ (if same class_name name then fields_of name m ++ field ∷ [] else fields_of name m)
unfolding push_field
fields_of-push_field class_name field name m =
    ap fields_in (lookup-assign class_name name (fields_of class_name m ++ field ∷ []) m)
    ∙ elim (Bool-cases (same class_name name)) [
      | inl s ↦
          let q : class_name ≡ name = (same_iff class_name name).0 s in
          rw s (ap (λ c. fields_of c m ++ field ∷ []) q)
      | inr s ↦ rw s refl
    ]

if-append :
    (b : Bool) (xs : List Bytes) (x : Bytes) (ys : List Bytes)
    → (if b then (if b then xs ++ x ∷ [] else xs) ++ ys else (if b then xs ++ x ∷ [] else xs))
      ≡ (if b then xs ++ x ∷ ys else xs)
if-append true xs x ys = append_assoc xs (x ∷ []) ys
if-append false xs x ys = refl

-- Reading the fields of a class appends their names, in order, to those the class had, and leaves the fields of every other class.
pub get_fields_lem :
    (nodes : Nodes) (class_name name : Bytes) (ops : List (Option Operand))
    (m : StdMap (List Bytes))
    → fields_of name (get_fields nodes class_name ops m) ≡ (
        if same class_name name
        then fields_of name m ++ field_names nodes ops
        else fields_of name m)
unfolding get_fields
get_fields_lem nodes class_name name [] m = elim (Bool-cases (same class_name name)) [
  | inl s ↦ rw s (sym (append-nil (fields_of name m)))
  | inr s ↦ rw s refl
]
get_fields_lem nodes class_name name (op ∷ ops) m = elim (Option-cases (as_node op)) [
  | inl e ↦ rw (e, get_fields) (rw (e, field_names) (get_fields_lem nodes class_name name ops m))
  | inr (f, e) ↦
      let m1 = push_field class_name (field_name (operands nodes f)) m in
      let pushed = fields_of-push_field class_name (field_name (operands nodes f)) name m in
      rw (e, get_fields)
        (rw (e, field_names)
          (get_fields_lem nodes class_name name ops m1
            ∙ ap (λ l. if same class_name name then l ++ field_names nodes ops else l) pushed
            ∙ if-append (same class_name name) (fields_of name m) (field_name (operands nodes f))
                (field_names nodes ops)))
]

-- The field that an index asks for: none below 0.
abbrev pub wanted : ℤ → Option ℕ
wanted (pos i) = some i
wanted (negsuc _) = none

-- An integer that a 32-bit `int` holds.
abbrev pub IsInt : ℤ → Type 0
IsInt (pos n) = n < 2 ^ 31
IsInt (negsuc n) = n < 2 ^ 31

enter-typedef_map :
    (demangle : Bytes → Bytes) (tags : Tags) (nodes : Nodes) (u : Traversal) (m n : ℕ)
    (name : Bytes) (d : MetadataCrawler)
    → d.typedef_map n ≡ some name
    → (enter demangle tags nodes u m d).typedef_map n ≡ some name
unfolding enter traverse traverse_typedef traverse_field_names name_struct
enter-typedef_map demangle tags nodes typedef_traversal m n name d k = ground arith
enter-typedef_map demangle tags nodes field_name_traversal m n name d k = ground arith

-- A node that has a typedef's name keeps it, whatever nodes a crawl enters.
pub Entered-typedef_map :
    (demangle : Bytes → Bytes) (tags : Tags) (nodes : Nodes) (t : Traversal)
    (roots : List (Option Operand)) {c c' : MetadataCrawler} (n : ℕ) (name : Bytes)
    → Entered demangle tags nodes t roots c c'
    → c.typedef_map n ≡ some name
    → c'.typedef_map n ≡ some name
Entered-typedef_map demangle tags nodes t roots n name unchanged h = h
Entered-typedef_map demangle tags nodes t roots n name (entered {c1} m e new r) h =
    enter-typedef_map demangle tags nodes t m n name c1
      (Entered-typedef_map demangle tags nodes t roots n name e h)
