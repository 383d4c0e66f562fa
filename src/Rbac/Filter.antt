-- ===== src/Rbac/Filter.antt =====
-- Row filters: a filter expression is cut at its ":jwt.<path>" references, and rendered with the
-- claim values as bound arguments.
pub mod Compile
pub mod Render
use titanium_graph_api.Base.{
  ℕ, zero, suc, ◌+◌, List, [], ◌∷◌, ◌++◌, Text, Bool, true, false, ◌&&◌, ◌||◌, Option, none, some,
  ◌==◌, leb, if◌then◌else◌, length, cut_prefix, codes, not,
}
use titanium_graph_api.Value.{Value, null, bool, float, str, arr, Values, nil, cons, Fields}
use titanium_graph_api.Results.{
  Result, ok, err, ◌>>=◌, missing_claim, non_scalar_elements, not_bindable_claim, filter_empty,
}
use titanium_graph_api.Sql.{Condition, placeholders}
use titanium_graph_api.Rbac.{dot, lookup_claim}

-- [A-Za-z0-9_]
unfoldable pub is_word : ℕ → Bool
is_word c =
    leb b'A' c && leb c b'Z' || leb b'a' c && leb c b'z' || leb b'0' c && leb c b'9' || c == b'_'

abbrev pub starts_word : Text → Bool
starts_word [] = false
starts_word (c ∷ s) = is_word c

-- The rest of the longest path behind a word byte: word bytes, and dots that a word byte follows.
unfoldable pub more_path : Text → Text
unfolding is_word
more_path [] = []
more_path (c ∷ s) =
    let rest = c ∷ more_path s in
    if is_word c then rest else if c == dot && starts_word s then rest else []

-- The longest match of [A-Za-z0-9_]+(?:\.[A-Za-z0-9_]+)* at the start of the text.
unfoldable pub claim_path : Text → Text
unfolding more_path
claim_path s = if starts_word s then more_path s else []

abbrev pub jwt_prefix : Text
jwt_prefix = codes ":jwt."

abbrev pub non_empty : Text → Option Text
non_empty [] = none
non_empty (c ∷ s) = some (c ∷ s)

-- The path of the claim reference at the start of the text, if one stands there.
unfoldable pub ref_at : Text → Option Text
unfolding claim_path cut_prefix
ref_at s = elim (cut_prefix jwt_prefix s) [ none ↦ none | some t ↦ non_empty (claim_path t) ]

-- The whole of the text is a claim path.
unfoldable pub is_claim_path : Text → Bool
unfolding claim_path
is_claim_path s = starts_word s && length (claim_path s) == length s

-- `len(segments) == len(paths) + 1`: the text before each reference with its path, and the text
-- behind the last.
pub record RowFilter : Type 0 where
  pub segments : List Text
  pub paths : List Text

abbrev pub push_byte : ℕ → List Text → List Text
push_byte c [] = (c ∷ []) ∷ []
push_byte c (seg ∷ segs) = (c ∷ seg) ∷ segs

abbrev pub keep_byte : ℕ → RowFilter → RowFilter
keep_byte c f = record f { segments = push_byte c f.segments }

abbrev pub cut_ref : Text → RowFilter → RowFilter
cut_ref path f = record { segments = [] ∷ f.segments; paths = path ∷ f.paths }

-- The loop over the leftmost matches; the number counts the bytes of a match that are still to be
-- passed over.
unfoldable pub cut_refs : ℕ → Text → RowFilter
cut_refs skip [] = record { segments = [] ∷ []; paths = [] }
cut_refs (suc skip) (c ∷ s) = cut_refs skip s
cut_refs zero (c ∷ s) = elim (ref_at (c ∷ s)) [
  | none ↦ keep_byte c (cut_refs zero s)
  | some path ↦ cut_ref path (cut_refs (length path + 4) s)
]

-- The bytes that `strings.TrimSpace` removes, the ASCII ones of `unicode.IsSpace`.
unfoldable pub is_space : ℕ → Bool
is_space c = leb 9 c && leb c 13 || c == b' '

unfoldable pub is_blank : Text → Bool
unfolding is_space
is_blank [] = true
is_blank (c ∷ s) = is_space c && is_blank s

unfoldable pub compile_filter : Text → Result RowFilter
unfolding is_blank cut_refs ref_at
compile_filter expr = if is_blank expr then err filter_empty else ok (cut_refs zero expr)

-- `case string, float64, bool, nil`
abbrev pub is_scalar : Value → Bool
is_scalar null = true
is_scalar (bool b) = true
is_scalar (float f) = true
is_scalar (str s) = true
is_scalar _ = false

-- The items of an array claim, each of which must be a scalar.
unfoldable pub bind_items : Text → Values → Result (List Value)
bind_items path nil = ok []
bind_items path (cons v vs) =
    let rest = bind_items path vs in
    if is_scalar v then (do items ← rest; ok (v ∷ items)) else err (non_scalar_elements path)

-- What one claim contributes: its placeholders and their arguments.
unfoldable pub bind_claim : Text → Value → Result Condition
unfolding bind_items
bind_claim path (arr nil) = ok (record { sql = codes "NULL"; args = [] })
bind_claim path (arr (cons v vs)) = do
  items ← bind_items path (cons v vs)
  ok (record { sql = placeholders (length items); args = items })
bind_claim path v =
    if is_scalar v
    then ok (record { sql = codes "?"; args = v ∷ [] })
    else err (not_bindable_claim path)

abbrev pub found_claim : Text → Option Value → Result Condition
found_claim path none = err (missing_claim path)
found_claim path (some v) = bind_claim path v

abbrev pub between : Text → Condition → Condition → Condition
between seg c rest = record { sql = seg ++ (c.sql ++ rest.sql); args = c.args ++ rest.args }

-- The loop over the segments; it stops behind the segment that no path follows.
unfoldable pub render : List Text → List Text → Fields → Result Condition
unfolding bind_claim
render [] paths claims = ok (record { sql = []; args = [] })
render (seg ∷ segs) [] claims = ok (record { sql = seg; args = [] })
render (seg ∷ segs) (path ∷ paths) claims = do
  c ← found_claim path (lookup_claim claims path)
  rest ← render segs paths claims
  ok (between seg c rest)

unfoldable pub filter_sql : RowFilter → Fields → Result Condition
unfolding render
filter_sql f claims = render f.segments f.paths claims
