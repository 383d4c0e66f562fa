-- ===== src/Auth/RoleLookup.antt =====
-- auth/rolelookup.go: the role of a caller from the identity table, with a cache.
pub mod Cached
use titanium_graph_api.Base.{
  ℕ, ◌+◌, List, [], ◌∷◌, ◌++◌, Text, Bool, true, false, Option, none, some, codes, lookup, insert,
  ltb, if◌then◌else◌,
}
use titanium_graph_api.Base.Int.{ℤ, pos, ltb_ℤ, pos_part}
use titanium_graph_api.Base.Numbers.{seconds, show_int, float_to_int}
use titanium_graph_api.Value.{Value, str, float, int64, Fields}
use titanium_graph_api.Results.{
  Result, ok, err, Error, missing_claim, empty_claim, bad_claim_type, no_identity, no_role,
}
use titanium_graph_api.Config.{is_empty}
use titanium_graph_api.Config as Config
use titanium_graph_api.Rbac.{lookup_claim}
use titanium_graph_api.Sql.{quote_ident}

-- `expires` is in nanoseconds.
pub record CacheEntry : Type 0 where
  pub role : Text
  pub expires : ℕ

abbrev pub Cache : Type 0
Cache = List (Text × CacheEntry)

-- What the database answers: an error, no row, or the cell of the role column.
pub data Reply : Type 0 where
  failed : Error → Reply
  no_row : Reply
  cell : Option Text → Reply

unfoldable pub identity_query : Config.RoleLookup → Text
identity_query cfg =
    codes "SELECT "
    ++ (quote_ident cfg.role_column
        ++ (codes " FROM "
            ++ (quote_ident cfg.schema
                ++ (codes "."
                    ++ (quote_ident cfg.table
                        ++ (codes " WHERE "
                            ++ (quote_ident cfg.id_column ++ codes " = ? LIMIT 1")))))))

unfoldable pub ttl : Config.RoleLookup → ℤ
ttl cfg = seconds cfg.cache_seconds

abbrev pub caches : Config.RoleLookup → Bool
caches cfg = ltb_ℤ (pos 0) (ttl cfg)

-- The text of an id by `%v`, and the value that is bound for it. `show_float` writes a float64 that
-- is no integer.
abbrev pub id_of_float : (ℕ → Text) → ℕ → Option ℤ → Text × Value
id_of_float show_float v none = (show_float v, float v)
id_of_float show_float v (some n) = (show_int n, int64 n)

unfoldable pub id_value : (ℕ → Text) → Text → Option Value → Result (Text × Value)
id_value show_float claim none = err (missing_claim claim)
id_value show_float claim (some (str s)) =
    if is_empty s then err (empty_claim claim) else ok (s, str s)
id_value show_float claim (some (float v)) = ok (id_of_float show_float v (float_to_int v))
id_value show_float claim (some v) = err (bad_claim_type claim)

-- The first half of a call, up to the query: an error, a role from the cache, or a query for the id
-- with the key to cache its role under.
pub data Consulted : Type 0 where
  refused : Error → Consulted
  cached : Text → Consulted
  asks : Text → Value → Consulted

abbrev pub fresh_entry : ℕ → Text → Value → Option CacheEntry → Consulted
fresh_entry now key id none = asks key id
fresh_entry now key id (some e) = if ltb now e.expires then cached e.role else asks key id

abbrev pub consult_id : Config.RoleLookup → Cache → ℕ → Result (Text × Value) → Consulted
consult_id cfg cache now (err e) = refused e
consult_id cfg cache now (ok (key, id)) =
    if caches cfg then fresh_entry now key id (lookup key cache) else asks key id

unfoldable pub consult : (ℕ → Text) → Config.RoleLookup → Cache → ℕ → Fields → Consulted
unfolding id_value
consult show_float cfg cache now claims =
    consult_id cfg cache now (id_value show_float cfg.id_claim (lookup_claim claims cfg.id_claim))

-- The second half, at a later time: what the answer of the database means, and what is cached.
unfoldable pub role_of : Text → Reply → Result Text
role_of key (failed e) = err e
role_of key no_row = err (no_identity key)
role_of key (cell none) = err (no_role key)
role_of key (cell (some role)) = if is_empty role then err (no_role key) else ok role

abbrev pub store : Config.RoleLookup → Cache → ℕ → Text → Result Text → Cache
store cfg cache now key (err e) = cache
store cfg cache now key (ok role) =
    if caches cfg
    then insert key (record { role = role; expires = now + pos_part (ttl cfg) }) cache
    else cache

unfoldable pub settle : Config.RoleLookup → Cache → ℕ → Text → Reply → Cache × Result Text
unfolding role_of ttl
settle cfg cache now key reply = (store cfg cache now key (role_of key reply), role_of key reply)

-- What a call meets: the time when it reads the cache, the database, and the time when it stores.
pub record Moment : Type 0 where
  pub now : ℕ
  pub later : ℕ
  pub query : Text → Value → Reply

abbrev pub answered : Config.RoleLookup → Moment → Cache → Consulted → Cache × Result Text
answered cfg m cache (refused e) = (cache, err e)
answered cfg m cache (cached role) = (cache, ok role)
answered cfg m cache (asks key id) = settle cfg cache m.later key (m.query (identity_query cfg) id)

-- One call of the resolver, with no other call in between.
unfoldable pub resolve_role :
    (ℕ → Text) → Config.RoleLookup → Moment → Cache → Fields → Cache × Result Text
unfolding consult settle identity_query
resolve_role show_float cfg m cache claims =
    answered cfg m cache (consult show_float cfg cache m.now claims)
