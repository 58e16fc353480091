-- ===== src/Tests/SampleJson.antt =====
-- A small library in the place of json11, to run the program's functions on. Its texts are not JSON: the
-- text of a map is its entries, each key with its bytes raised by one and ended by a zero.
use dinamite.Shared.{
  zero, suc, ◌≡◌, refl, ap, ◌∙◌, sym, Bytes, StdMap, ℤ, pos, negsuc, Bool, true, false, List, [],
  ◌∷◌, ◌++◌, append_assoc, none, some, lookup, append-nil,
}
use dinamite.Json.{Json11, ReadsBack, int_entries}

mutual
  pub data Value : Type 0 where
    nothing : Value
    flag : Bool → Value
    number : ℤ → Value
    text : Bytes → Value
    items : Values → Value
    entries : Entries → Value

  pub data Values : Type 0 where
    nil : Values
    cons : Value → Values → Values

  pub data Entries : Type 0 where
    stop : Entries
    entry : Bytes → Value → Entries → Entries

abbrev values : Values → List Value
values nil = []
values (cons v vs) = v ∷ values vs

abbrev pairs : Entries → StdMap Value
pairs stop = []
pairs (entry k v es) = (k, v) ∷ pairs es

abbrev object_of : StdMap ℤ → Entries
object_of [] = stop
object_of ((k, v) ∷ m) = entry k (number v) (object_of m)

abbrev items_of : Value → StdMap Value
items_of nothing = []
items_of (flag b) = []
items_of (number n) = []
items_of (text s) = []
items_of (items vs) = []
items_of (entries es) = pairs es

abbrev int_of : Value → ℤ
int_of nothing = pos 0
int_of (flag b) = pos 0
int_of (number n) = n
int_of (text s) = pos 0
int_of (items vs) = pos 0
int_of (entries es) = pos 0

abbrev ended : ℤ → Bytes → Bytes
ended (pos n) s = zero ∷ zero ∷ n ∷ s
ended (negsuc n) s = zero ∷ suc zero ∷ n ∷ s

abbrev raised : Bytes → Bytes → Bytes
raised [] s = s
raised (c ∷ k) s = suc c ∷ raised k s

abbrev encode : StdMap Value → Bytes
encode [] = []
encode ((k, v) ∷ m) = raised k (ended (int_of v) (encode m))

abbrev decode : Bytes → Bytes → StdMap ℤ
decode key [] = []
decode key (suc c ∷ s) = decode (key ++ c ∷ []) s
decode key (zero ∷ []) = []
decode key (zero ∷ _ ∷ []) = []
decode key (zero ∷ zero ∷ n ∷ s) = (key, pos n) ∷ decode [] s
decode key (zero ∷ suc _ ∷ n ∷ s) = (key, negsuc n) ∷ decode [] s

abbrev pub sample : Json11
sample = record {
  json = Value;
  null = nothing;
  parse = λ s. entries (object_of (decode [] s));
  dump = λ v. encode (items_of v);
  of_map = λ m. entries (object_of m);
  is_null = λ v. elim v [
    | nothing ↦ true
    | flag _ ↦ false
    | number _ ↦ false
    | text _ ↦ false
    | items _ ↦ false
    | entries _ ↦ false
  ];
  is_array = λ v. elim v [
    | nothing ↦ false
    | flag _ ↦ false
    | number _ ↦ false
    | text _ ↦ false
    | items _ ↦ true
    | entries _ ↦ false
  ];
  is_string = λ v. elim v [
    | nothing ↦ false
    | flag _ ↦ false
    | number _ ↦ false
    | text _ ↦ true
    | items _ ↦ false
    | entries _ ↦ false
  ];
  bool_value = λ v. elim v [
    | nothing ↦ false
    | flag b ↦ b
    | number _ ↦ false
    | text _ ↦ false
    | items _ ↦ false
    | entries _ ↦ false
  ];
  int_value = int_of;
  string_value = λ v. elim v [
    | nothing ↦ []
    | flag b ↦ []
    | number _ ↦ []
    | text s ↦ s
    | items _ ↦ []
    | entries _ ↦ []
  ];
  array_items = λ v. elim v [
    | nothing ↦ []
    | flag b ↦ []
    | number _ ↦ []
    | text s ↦ []
    | items vs ↦ values vs
    | entries _ ↦ []
  ];
  object_items = items_of;
  at = λ v k. elim (lookup k (items_of v)) [ none ↦ nothing | some w ↦ w ];
}

decode-ended : (key : Bytes) (v : ℤ) (s : Bytes) → decode key (ended v s) ≡ (key, v) ∷ decode [] s
decode-ended key (pos n) s = refl
decode-ended key (negsuc n) s = refl

decode-raised : (key k s : Bytes) → decode key (raised k s) ≡ decode (key ++ k) s
decode-raised key [] s = ap (λ t. decode t s) (sym (append-nil key))
decode-raised key (c ∷ k) s =
    decode-raised (key ++ c ∷ []) k s ∙ ap (λ t. decode t s) (append_assoc key (c ∷ []) k)

decode-encode : (m : StdMap ℤ) → decode [] (encode (pairs (object_of m))) ≡ m
decode-encode [] = refl
decode-encode ((k, v) ∷ m) =
    decode-raised [] k (ended v (encode (pairs (object_of m))))
    ∙ (decode-ended k v (encode (pairs (object_of m))) ∙ ap (λ r. (k, v) ∷ r) (decode-encode m))

int_entries-object_of : (m : StdMap ℤ) → int_entries sample (pairs (object_of m)) ≡ m
int_entries-object_of [] = refl
int_entries-object_of ((k, v) ∷ m) = ap (λ r. (k, v) ∷ r) (int_entries-object_of m)

pub sample-ReadsBack : ReadsBack sample
sample-ReadsBack m =
    ap (λ n. int_entries sample (pairs (object_of n))) (decode-encode m) ∙ int_entries-object_of m

-- A list of texts, and an object of one entry.
abbrev pub texts : List Bytes → Value
texts ss = items (list ss)
  where
    list : List Bytes → Values
    list [] = nil
    list (s ∷ rest) = cons (text s) (list rest)

abbrev pub one : Bytes → Value → Value
one k v = entries (entry k v stop)

abbrev pub two : Bytes → Value → Bytes → Value → Value
two k v k' v' = entries (entry k v (entry k' v' stop))
