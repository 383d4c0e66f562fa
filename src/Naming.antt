-- ===== src/Naming.antt =====
-- schema/naming.go: SQL identifiers as GraphQL names.
pub mod Valid
mod Tests
use titanium_graph_api.Base.{
  ℕ, Bool, ◌&&◌, ◌||◌, List, [], ◌∷◌, Text, leb, ◌==◌, if◌then◌else◌, map,
}

abbrev pub underscore : ℕ
underscore = b'_'

unfoldable pub is_digit : ℕ → Bool
is_digit c = leb b'0' c && leb c b'9'

unfoldable pub is_letter : ℕ → Bool
is_letter c = leb b'a' c && leb c b'z' || leb b'A' c && leb c b'Z'

-- The bytes that the pattern [^_a-zA-Z0-9] leaves alone.
unfoldable pub is_name_byte : ℕ → Bool
unfolding is_digit is_letter
is_name_byte c = c == underscore || (is_letter c || is_digit c)

unfoldable pub sanitize_byte : ℕ → ℕ
unfolding is_name_byte
sanitize_byte c = if is_name_byte c then c else underscore

-- `if n == "" { n = "_" }` and the test of the first byte.
unfoldable pub lead : Text → Text
unfolding is_digit
lead [] = underscore ∷ []
lead (c ∷ s) = if is_digit c then underscore ∷ c ∷ s else c ∷ s

-- `for strings.HasPrefix(n, "__") { n = n[1:] }`
unfoldable pub strip : Text → Text
strip [] = []
strip (c ∷ []) = c ∷ []
strip (c ∷ d ∷ s) =
    let rest = strip (d ∷ s) in if c == underscore && d == underscore then rest else c ∷ d ∷ s

unfoldable pub graphql_name : Text → Text
graphql_name raw = strip (lead (map sanitize_byte raw))
