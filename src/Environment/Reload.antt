-- ===== src/Environment/Reload.antt =====
-- A map written by `Json(mp).dump()` and read back entry by entry.
use dinamite.Shared.{
  StdMap, ℤ, [], ◌∷◌, ◌++◌, ◌≡◌, sym, subst, ◌∙◌, assign, assign_last, IsOrdered,
  IsOrdered-AllBefore, append_assoc, append-nil, assign-IsOrdered,
}
use dinamite.Json.{Json11, int_entries, ReadsBack}
use dinamite.Environment.{assign_entries}

module _ (J : Json11) where
  assign_entries-append :
      (mp : StdMap ℤ) (es : StdMap (Json11.json J))
      → IsOrdered (mp ++ int_entries J es)
      → assign_entries J mp es ≡ mp ++ int_entries J es
  unfolding assign_entries
  assign_entries-append mp [] o = sym (append-nil mp)
  assign_entries-append mp ((k, v) ∷ es) o =
      let last =
        assign_last k (J.int_value v) mp
          (IsOrdered-AllBefore k (J.int_value v) mp (int_entries J es) o) in
      let regroup = append_assoc mp ((k, J.int_value v) ∷ []) (int_entries J es) in
      rw last (
        assign_entries-append (mp ++ (k, J.int_value v) ∷ []) es (subst IsOrdered (sym regroup) o)
        ∙ regroup)

  -- What is read from the text of an ordered map is the map.
  pub assign_entries-reload :
      ReadsBack J
      → (m : StdMap ℤ) → IsOrdered m
      → assign_entries J [] (J.object_items (J.parse (J.dump (J.of_map m)))) ≡ m
  assign_entries-reload back m o =
      assign_entries-append [] _ (subst IsOrdered (sym (back m)) o) ∙ back m

  -- Reading entries into an ordered map leaves it ordered.
  pub assign_entries-IsOrdered :
      (mp : StdMap ℤ) (es : StdMap (Json11.json J))
      → IsOrdered mp
      → IsOrdered (assign_entries J mp es)
  unfolding assign_entries
  assign_entries-IsOrdered mp [] o = o
  assign_entries-IsOrdered mp ((k, v) ∷ es) o =
      assign_entries-IsOrdered (assign k (J.int_value v) mp) es
        (assign-IsOrdered k (J.int_value v) mp o)
