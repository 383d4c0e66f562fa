-- ===== src/Naming/Valid.antt =====
-- graphqlName yields names of the GraphQL grammar and leaves such names alone.
use titanium_graph_api.Base.{
  ℕ, ◌≡◌, refl, ap, ◌∙◌, true, false, ◌&&◌, [], ◌∷◌, Text, ◌==◌, map, arith, All,
}
use titanium_graph_api.Naming.{
  underscore, is_digit, is_name_byte, sanitize_byte, lead, strip, graphql_name,
}

abbrev pub IsNameByte : ℕ → Type 0
IsNameByte c = is_name_byte c ≡ true

-- /[_A-Za-z][_0-9A-Za-z]*/
abbrev pub IsName : Text → Type 0
IsName [] = ⊥
IsName (c ∷ s) = (is_digit c ≡ false) × IsNameByte c × All IsNameByte s

-- Names that begin with two underscores are reserved by GraphQL.
abbrev pub IsUnreserved : Text → Type 0
IsUnreserved [] = Unit
IsUnreserved (c ∷ []) = Unit
IsUnreserved (c ∷ d ∷ s) = (c == underscore && d == underscore) ≡ false

sanitize_byte-IsNameByte : (c : ℕ) → IsNameByte (sanitize_byte c)
unfolding sanitize_byte is_name_byte
sanitize_byte-IsNameByte c = ground arith

map-sanitize_byte-All : (s : Text) → All IsNameByte (map sanitize_byte s)
map-sanitize_byte-All [] = tt
map-sanitize_byte-All (c ∷ s) = (sanitize_byte-IsNameByte c, map-sanitize_byte-All s)

lead-IsName : (s : Text) → All IsNameByte s → IsName (lead s)
unfolding lead is_name_byte
lead-IsName [] h = (refl, refl, tt)
lead-IsName (c ∷ s) (p, h) = ground arith

strip-IsName : (s : Text) → IsName s → IsName (strip s)
unfolding strip is_digit
strip-IsName [] h = elim h [ ]
strip-IsName (c ∷ []) h = h
strip-IsName (c ∷ d ∷ s) (p, q, (r, h)) = ground (arith, strip-IsName (d ∷ s))

strip-IsUnreserved : (s : Text) → IsUnreserved (strip s)
unfolding strip
strip-IsUnreserved [] = tt
strip-IsUnreserved (c ∷ []) = tt
strip-IsUnreserved (c ∷ d ∷ s) = ground (arith, strip-IsUnreserved (d ∷ s))

-- Whatever the SQL identifier, its GraphQL name is a name of the grammar and does not begin with
-- two underscores.
graphql_name-IsName : (raw : Text) → IsName (graphql_name raw) × IsUnreserved (graphql_name raw)
unfolding graphql_name
graphql_name-IsName raw =
    let clean = lead (map sanitize_byte raw) in
    (strip-IsName clean (lead-IsName _ (map-sanitize_byte-All raw)), strip-IsUnreserved clean)

map-sanitize_byte : (s : Text) → All IsNameByte s → map sanitize_byte s ≡ s
unfolding sanitize_byte
map-sanitize_byte [] h = refl
map-sanitize_byte (c ∷ s) (p, h) = ground (arith, map-sanitize_byte s h)

strip_of_IsUnreserved : (s : Text) → IsUnreserved s → strip s ≡ s
unfolding strip
strip_of_IsUnreserved [] h = refl
strip_of_IsUnreserved (c ∷ []) h = refl
strip_of_IsUnreserved (c ∷ d ∷ s) h = ground arith

lead_of_letter : (c : ℕ) (s : Text) → is_digit c ≡ false → lead (c ∷ s) ≡ c ∷ s
unfolding lead
lead_of_letter c s h = ground arith

-- An identifier that is already such a name is its own GraphQL name.
graphql_name_of_IsName : (n : Text) → IsName n → IsUnreserved n → graphql_name n ≡ n
unfolding graphql_name
graphql_name_of_IsName [] h u = elim h [ ]
graphql_name_of_IsName (c ∷ s) (p, q, h) u =
    ap (λ t. strip (lead t)) (map-sanitize_byte (c ∷ s) (q, h))
    ∙ ap strip (lead_of_letter c s p)
    ∙ strip_of_IsUnreserved (c ∷ s) u
