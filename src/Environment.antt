-- ===== src/Environment.antt =====
-- What the program takes from the process around it: files by path, environment variables, and the
-- directory of the map files (the constructors of IdMap.hpp and InstrumentationFilter.hpp).
pub mod Reload
use dinamite.Shared.{
  Bytes, codes, same, same_iff, arith, ◌≡◌, true, StdMap, ℤ, [], ◌∷◌, ◌++◌, Option, none, some,
  if◌then◌else◌, assign,
}
use dinamite.Json.{Json11}

-- The contents of the files that can be opened.
abbrev pub Files : Type 0
Files = Bytes → Option Bytes

-- `ofstream(path, trunc) << text`
abbrev pub write_file : Files → Bytes → Bytes → Files
write_file files path text other = if same path other then some text else files other

pub write_file-eq :
    {path other : Bytes} (files : Files) (text : Bytes)
    → path ≡ other
    → write_file files path text other ≡ some text
write_file-eq {path} {other} files text e = ground (arith, same_iff path other)

-- The value of an environment variable, which counts as unset if it is empty.
unfoldable pub env_value : Option Bytes → Option Bytes
env_value none = none
env_value (some []) = none
env_value (some (c ∷ s)) = some (c ∷ s)

-- `prefix + filename`, the prefix from `DIN_MAPS`.
unfoldable pub maps_path : Option Bytes → Bytes → Bytes
unfolding env_value
maps_path val filename = elim (env_value val) [
  | none ↦ codes "./" ++ filename
  | some dir ↦ dir ++ codes "/" ++ filename
]

module _ (J : Json11) where
  -- `for (auto entry : jsmap.object_items()) mp[entry.first] = entry.second.int_value();`
  unfoldable pub assign_entries : StdMap ℤ → StdMap (Json11.json J) → StdMap ℤ
  assign_entries mp [] = mp
  assign_entries mp ((k, v) ∷ entries) = assign_entries (assign k (J.int_value v) mp) entries
