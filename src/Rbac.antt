-- ===== src/Rbac.antt =====
-- rbac/rbac.go: claims, row filters and presets.
pub mod Claims
pub mod Filter
pub mod Resolve
mod Tests
use titanium_graph_api.Base.{
  ℕ, zero, suc, ◌-◌, List, [], ◌∷◌, Text, Bool, true, false, Option, none, some, ◌==◌,
  if◌then◌else◌, get_elem?, take, drop, length, lookup,
}
use titanium_graph_api.Value.{Value, obj, Fields, entries}

-- The authenticated caller.
pub record Identity : Type 0 where
  pub role : Text
  pub claims : Fields

abbrev pub dot : ℕ
dot = b'.'

abbrev pub is_dot : Option ℕ → Bool
is_dot none = false
is_dot (some c) = c == dot

abbrev pub or_else : Option Value → Option Value → Option Value
or_else none next = next
or_else (some v) next = some v

-- The claim under the prefix must be an object, in which the rest is looked up.
abbrev pub descend : (Fields → Text → Option Value) → Option Value → Text → Option Value
descend look (some (obj m)) rest = look m rest
descend look _ rest = none

-- One round of the loop over the dots of the path.
unfoldable pub attempt : (Fields → Text → Option Value) → Fields → Text → ℕ → Option Value
attempt look claims path i =
    if is_dot (get_elem? path i)
    then descend look (lookup (take i path) (entries claims)) (drop (suc i) path)
    else none

-- `for i := len(path) - 1; i > 0; i--`
unfoldable pub try_splits : (Fields → Text → Option Value) → Fields → Text → ℕ → Option Value
try_splits look claims path zero = none
try_splits look claims path (suc i) =
    or_else (attempt look claims path (suc i)) (try_splits look claims path i)

-- The nested calls are on ever shorter paths, so `length path` calls are enough.
unfoldable pub lookup_nested : ℕ → Fields → Text → Option Value
unfolding attempt try_splits
lookup_nested zero claims path = none
lookup_nested (suc f) claims path =
    or_else (lookup path (entries claims))
      (try_splits (lookup_nested f) claims path (length path - 1))

unfoldable pub lookup_claim : Fields → Text → Option Value
unfolding lookup_nested
lookup_claim claims path = lookup_nested (suc (length path)) claims path
