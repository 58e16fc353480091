-- ===== src/IdMap/SavedMap.antt =====
-- What `saveMap` leaves in the file of a map.
use dinamite.Shared.{
  ◌≡◌, refl, subst, sym, ap, ◌∙◌, arith, Bytes, same, same_iff, StdMap, ℤ, [], ◌∷◌, Option, none,
  some, if◌then◌else◌, lookup, lookup-assign, lookup-insert_all_old, lookup-insert_all_new, assign,
  insert_all, IsOrdered, assign-IsOrdered, Option-cases, Bool-cases, inl, inr, AllBehind,
  before-asymm, contains,
}
use dinamite.Json.{Json11, ReadsBack, int_entries}
use dinamite.Environment.{Files, write_file-eq, assign_entries}
use dinamite.Environment.Reload.{assign_entries-IsOrdered}
use dinamite.IdMap.{IdMap, read_map_from_json, write_map_to_json, save_map}
use dinamite.IdMap.Stable.{known_id}

-- The first of two values that is there.
abbrev first_of : Option ℤ → Option ℤ → Option ℤ
first_of o p = elim o [ some v ↦ some v | none ↦ p ]

first_of-none : (o : Option ℤ) → first_of o none ≡ o
first_of-none o = ground arith

first_of_assoc : (o p q : Option ℤ) → first_of (first_of o p) q ≡ first_of o (first_of p q)
first_of_assoc o p q = ground arith

lookup-insert_all :
    (name : Bytes) (m new : StdMap ℤ)
    → lookup name (insert_all m new) ≡ first_of (lookup name m) (lookup name new)
lookup-insert_all name m new = elim (Option-cases (lookup name m)) [
  | inl e ↦ lookup-insert_all_new name m new e ∙ rw e refl
  | inr (v, e) ↦ lookup-insert_all_old name v m new e ∙ rw e refl
]

lookup-nil {ℓ} : {V : Type ℓ} → (name : Bytes) → lookup {V = V} name [] ≡ none
unfolding lookup
lookup-nil name = refl

lookup-cons {ℓ} :
    {V : Type ℓ}
    → (k name : Bytes) (v : V) (m : StdMap V)
    → lookup name ((k, v) ∷ m) ≡ (if same k name then some v else lookup name m)
unfolding lookup
lookup-cons k name v m = refl

lookup-AllBehind {ℓ} : {V : Type ℓ} → (k : Bytes) (m : StdMap V) → AllBehind k m → lookup k m ≡ none
unfolding lookup
lookup-AllBehind k [] h = refl
lookup-AllBehind k ((j, v) ∷ m) h = ground (
  arith,
  same_iff j k,
  same_iff k k,
  before-asymm k j,
  before-asymm k k,
  lookup-AllBehind k m h.1,
)

insert_all-IsOrdered {ℓ} :
    {V : Type ℓ} → (m new : StdMap V) → IsOrdered m → IsOrdered (insert_all m new)
unfolding insert_all
insert_all-IsOrdered m [] o = o
insert_all-IsOrdered m ((k, v) ∷ new) o =
    insert_all-IsOrdered (if contains k m then m else assign k v m) new
      (elim (Bool-cases (contains k m)) [
        | inl e ↦ rw e o
        | inr e ↦ rw e (assign-IsOrdered k v m o)
      ])

module _ (J : Json11) where
  lookup-assign_entries :
      (name : Bytes) (mp : StdMap ℤ) (es : StdMap (Json11.json J))
      → IsOrdered (int_entries J es)
      → lookup name (assign_entries J mp es)
        ≡ (elim (lookup name (int_entries J es)) [ some id ↦ some id | none ↦ lookup name mp ])
  unfolding assign_entries
  lookup-assign_entries name mp [] o = rw (lookup-nil {V = ℤ} name) refl
  lookup-assign_entries name mp ((k, v) ∷ es) o =
      let rest = lookup-assign_entries name (assign k (J.int_value v) mp) es o.1 in
      ground (
        arith,
        rest,
        lookup-assign k name (J.int_value v) mp,
        lookup-cons k name (J.int_value v) (int_entries J es),
        same_iff k name,
        lookup-AllBehind k (int_entries J es) o.0,
      )

  lookup-read_map_from_json :
      (mp saved : StdMap ℤ) (text : Option Bytes) (name : Bytes)
      → ReadsBack J
      → IsOrdered saved
      → text ≡ some (J.dump (J.of_map saved))
      → lookup name (read_map_from_json J mp text)
        ≡ (elim (lookup name saved) [ some id ↦ some id | none ↦ lookup name mp ])
  unfolding read_map_from_json
  lookup-read_map_from_json mp saved text name back os e =
      let es = J.object_items (J.parse (J.dump (J.of_map saved))) in
      ap (λ t. lookup name (read_map_from_json J mp t)) e
      ∙ lookup-assign_entries name mp es (subst IsOrdered (sym (back saved)) os)
      ∙ ap (λ l. first_of (lookup name l) (lookup name mp)) (back saved)

  read_map_from_json-IsOrdered :
      (mp : StdMap ℤ) (text : Option Bytes)
      → IsOrdered mp
      → IsOrdered (read_map_from_json J mp text)
  unfolding read_map_from_json
  read_map_from_json-IsOrdered mp none o = o
  read_map_from_json-IsOrdered mp (some text) o =
      assign_entries-IsOrdered J mp (J.object_items (J.parse text)) o

  -- The entry that `saveMap` leaves for a name in the file of a map that was written before: that of the file; for a name that it had not, that of the entries read before, and last the process's own new id.
  pub lookup-save_map :
      (files : Files) (m : IdMap J) (saved : StdMap ℤ) (name : Bytes)
      → ReadsBack J
      → IsOrdered saved
      → IsOrdered m.id_map
      → files m.fname ≡ some (J.dump (J.of_map saved))
      → lookup name (read_map_from_json J [] ((save_map J files m).0 m.fname))
        ≡ (elim (lookup name saved) [ some id ↦ some id | none ↦ known_id J m name ])
  unfolding save_map write_map_to_json known_id lookup
  lookup-save_map files m saved name back os om here =
      let mp = read_map_from_json J m.id_map (files m.fname) in
      let merged = insert_all mp m.new_id_map in
      let ordered =
        insert_all-IsOrdered mp m.new_id_map
          (read_map_from_json-IsOrdered m.id_map (files m.fname) om) in
      lookup-read_map_from_json [] merged _ name back ordered
        (write_file-eq files (J.dump (J.of_map merged)) refl)
      ∙ first_of-none (lookup name merged)
      ∙ lookup-insert_all name mp m.new_id_map
      ∙ ap (λ o. first_of o (lookup name m.new_id_map))
          (lookup-read_map_from_json m.id_map saved (files m.fname) name back os here)
      ∙ first_of_assoc (lookup name saved) (lookup name m.id_map) (lookup name m.new_id_map)
