-- ===== src/Pass/Names/Slots.antt =====
-- The names that the slots of parameters have.
use dinamite.Shared.{
  ℕ, zero, suc, ◌+◌, ◌-◌, ◌<◌, ◌≡◌, ◌≢◌, refl, sym, ap, ◌∙◌, arith, Bytes, codes, same, same_iff, ℤ,
  true, false, ◌&&◌, [], ◌∷◌, ◌++◌, append_assoc, append-nil, ◌≤◌, All, ==_refl, Bool-cases, inl,
  inr, none, some, ltb, ◌==◌, length, length-append, if◌then◌else◌, first_bytes,
}
use dinamite.Metadata.{MetadataCrawler, drop}
use dinamite.Pass.Names.{
  Variable, find_byte, erase_bytes, without_addr, function_base, plain_name, this_name,
  get_gep_var_name, get_var_name,
}

first_bytes-append : (s t : Bytes) → first_bytes (length s) (s ++ t) ≡ s
first_bytes-append [] t = refl
first_bytes-append (c ∷ s) t = ap (λ l. c ∷ l) (first_bytes-append s t)

drop-append : (s t : Bytes) → drop (length s) (s ++ t) ≡ t
drop-append [] t = refl
drop-append (c ∷ s) t = drop-append s t

without_addr-append : (s : Bytes) → 0 < length s → without_addr (s ++ codes ".addr") ≡ s
unfolding without_addr same
without_addr-append s h =
    let n : length (s ++ codes ".addr") - 5 ≡ length s =
      omega (arith, length-append s (codes ".addr")) in
    let t : ltb 5 (length (s ++ codes ".addr")) ≡ true =
      ground (arith, length-append s (codes ".addr")) in
    ap
      (λ b.
        if b && same (drop (length (s ++ codes ".addr") - 5) (s ++ codes ".addr")) (codes ".addr")
        then first_bytes (length (s ++ codes ".addr") - 5) (s ++ codes ".addr")
        else s ++ codes ".addr")
      t
    ∙ ap
        (λ k.
          if same (drop k (s ++ codes ".addr")) (codes ".addr")
          then first_bytes k (s ++ codes ".addr")
          else s ++ codes ".addr")
        n
    ∙ ap
        (λ d.
          if same d (codes ".addr")
          then first_bytes (length s) (s ++ codes ".addr")
          else s ++ codes ".addr")
        (drop-append s (codes ".addr"))
    ∙ first_bytes-append s (codes ".addr")

drop_all : (n : ℕ) (s : Bytes) → length s ≤ n → drop n s ≡ []
drop_all zero [] h = refl
drop_all zero (c ∷ s) h = absurd (omega arith)
drop_all (suc n) [] h = refl
drop_all (suc n) (c ∷ s) h = drop_all n s (omega arith)

find_byte-append :
    (b : ℕ) (f ps : Bytes) → All (λ c. c ≢ b) f → find_byte b (f ++ b ∷ ps) ≡ some (length f)
unfolding find_byte
find_byte-append b [] ps h = rw (==_refl b) refl
find_byte-append b (c ∷ f) ps h = ground (arith, find_byte-append b f ps h.1)

erase_bytes-append :
    (f rest : Bytes)
    → 0 < length f
    → erase_bytes (length f) (length (f ++ rest) - 1) (f ++ rest) ≡ f
erase_bytes-append f rest h =
    ap (λ l. l ++ drop (length f + (length (f ++ rest) - 1)) (f ++ rest))
      (first_bytes-append f rest)
    ∙ ap (λ l. f ++ l)
        (drop_all (length f + (length (f ++ rest) - 1)) (f ++ rest)
          (omega (arith, length-append f rest)))
    ∙ append-nil f

function_base-append :
    (f ps : Bytes)
    → 0 < length f
    → All (λ c. c ≢ b'(') f
    → function_base (f ++ b'(' ∷ ps) ≡ f ++ codes "()."
unfolding function_base
function_base-append f ps h none_open =
    ap
      (λ o. elim o [
        | none ↦ (f ++ b'(' ∷ ps) ++ codes "()."
        | some at ↦ erase_bytes at (length (f ++ b'(' ∷ ps) - 1) (f ++ b'(' ∷ ps) ++ codes "()."
      ])
      (find_byte-append b'(' f ps none_open)
    ∙ ap (λ l. l ++ codes "().") (erase_bytes-append f (b'(' ∷ ps) h)

addr-injective : (a b : Bytes) → a ++ codes ".addr" ≡ b ++ codes ".addr" → a ≡ b
addr-injective a b e =
    let n : length a ≡ length b =
      omega
        (arith, ap length e, length-append a (codes ".addr"), length-append b (codes ".addr")) in
    sym (first_bytes-append a (codes ".addr"))
    ∙ ap (first_bytes (length a)) e
    ∙ ap (λ k. first_bytes k (b ++ codes ".addr")) n
    ∙ first_bytes-append b (codes ".addr")

plain_name-slot :
    (demangled base n : Bytes) (v : Variable)
    → v.is_global ≡ false
    → v.name ≡ n ++ codes ".addr"
    → function_base demangled ≡ base
    → 0 < length base
    → plain_name demangled v ≡ base ++ n
unfolding plain_name
plain_name-slot demangled base n v local e b h =
    let long : (length v.name == 0) ≡ false =
      ap (λ s. length s == 0) e ∙ ground (arith, length-append n (codes ".addr")) in
    ap
      (λ g.
        let base' = (if g then codes "<global>." else function_base demangled) in
        without_addr ((if length v.name == 0 then base' ++ codes "<NA>" else base') ++ v.name))
      local
    ∙ ap
        (λ l. without_addr (
          (if l then function_base demangled ++ codes "<NA>" else function_base demangled)
          ++ v.name))
        long
    ∙ ap (λ c. without_addr (c ++ v.name)) b
    ∙ ap (λ s. without_addr (base ++ s)) e
    ∙ ap without_addr (sym (append_assoc base n (codes ".addr")))
    ∙ without_addr-append (base ++ n) (omega (arith, length-append base n))

-- The slot `n.addr` of a parameter `n` of a function whose demangled name is `f` with a list of parameters, `f` not empty and without "(", is named "f().n"; the name "this" is apart, and so are globals and GEPs.
pub get_var_name-slot :
    (mdc : MetadataCrawler) (unset : ℤ) (f ps n : Bytes) (v : Variable)
    → v.name ≡ n ++ codes ".addr"
    → n ≢ codes "this"
    → v.gep ≡ none
    → v.is_global ≡ false
    → 0 < length f
    → All (λ c. c ≢ b'(') f
    → get_var_name mdc unset (f ++ b'(' ∷ ps) v ≡ some ((f ++ codes "().") ++ n)
unfolding get_var_name
get_var_name-slot mdc unset f ps n v e other no_gep local h none_open =
    let not_this : same v.name (codes "this.addr") ≡ false =
      elim (Bool-cases (same v.name (codes "this.addr"))) [
        | inl s ↦ absurd (
            other
              (addr-injective n (codes "this") (sym e ∙ (same_iff v.name (codes "this.addr")).0 s)))
        | inr s ↦ s
      ] in
    let base = function_base-append f ps h none_open in
    ap
      (λ b. if b then this_name v.type_text else elim v.gep [
        | some g ↦ some (get_gep_var_name mdc unset g)
        | none ↦ some (plain_name (f ++ b'(' ∷ ps) v)
      ])
      not_this
    ∙ ap
        (λ o. elim o [
          | some g ↦ some (get_gep_var_name mdc unset g)
          | none ↦ some (plain_name (f ++ b'(' ∷ ps) v)
        ])
        no_gep
    ∙ ap some (
        plain_name-slot (f ++ b'(' ∷ ps) (f ++ codes "().") n v local e base
          (omega (arith, length-append f (codes "()."))))
