-- ===== src/Schema/Connections/Tests.antt =====
-- Pages of a small table, and the theorems at them.
use titanium_graph_api.Base.{
  ℕ, zero, suc, ◌≡◌, ◌≢◌, refl, arith, List, [], ◌∷◌, ◌++◌, Text, codes, some, none, true, All,
  lookup, insert, text_eq, join, member, has_prefix, cut_prefix, length, take, drop, Option,
  if◌then◌else◌, ap,
}
use titanium_graph_api.Base.Int.{pos}
use titanium_graph_api.Base.Numbers.{digits_before, show_int}
use titanium_graph_api.Value.{int, int64, field, end}
use titanium_graph_api.Results.{Result, ok, err, invalid_cursor, foreign_cursor}
use titanium_graph_api.Naming.{graphql_name, sanitize_byte, lead, strip}
use titanium_graph_api.Rbac.{lookup_claim, lookup_nested, try_splits, attempt}
use titanium_graph_api.Rbac.Filter.{filter_sql, bind_claim}
use titanium_graph_api.Sql.{Condition, quote_ident, quote_list, combine_conds, placeholders}
use titanium_graph_api.Schema.{table_info}
use titanium_graph_api.Schema.Scalars.Formats.{Formats}
use titanium_graph_api.Schema.Scalars.Convert.{Row}
use titanium_graph_api.Schema.Queries.{
  qualified_table, rbac_cond, user_cond, select_list, run_keyset_page,
}
use titanium_graph_api.Schema.Queries.Keys.{keyset_condition, pk_order_clause}
use titanium_graph_api.Schema.Queries.Samples.{info, no_json, claims, db, gen}
use titanium_graph_api.Schema.Nearest.{first_of}
use titanium_graph_api.Schema.Cursors.{
  Codec, encode_cursor, decode_cursor, cursor_shape, stringify_key,
}
use titanium_graph_api.Schema.Connections.{
  Page, keys_of, end_cursor_of, page_of, after_keys, connection,
}
use titanium_graph_api.Schema.Connections.Pages.{
  Reads, IsConnection, decode_cursor-encode_cursor, connection-IsConnection,
}
use titanium_graph_api.Schema.Connections.Walk.{walk, Seeks, walk_complete}

run : Unit {0}
unfolding lookup insert text_eq join member has_prefix cut_prefix digits_before show_int
    graphql_name sanitize_byte lead strip lookup_claim lookup_nested try_splits attempt filter_sql
    bind_claim quote_ident quote_list combine_conds placeholders table_info qualified_table
    rbac_cond user_cond select_list run_keyset_page keyset_condition pk_order_clause first_of
    encode_cursor decode_cursor cursor_shape stringify_key keys_of end_cursor_of page_of after_keys
    connection walk
run = tt

-- The number of keys, each key behind its length, and then the shape.
abbrev write_keys : List Text → Text → Text
write_keys [] shape = shape
write_keys (k ∷ ks) shape = length k ∷ (k ++ write_keys ks shape)

abbrev with_key : Text → Option (List Text × Text) → Option (List Text × Text)
with_key k none = none
with_key k (some (ks, shape)) = some (k ∷ ks, shape)

abbrev read_keys : ℕ → Text → Option (List Text × Text)
read_keys zero s = some ([], s)
read_keys (suc n) [] = none
read_keys (suc n) (l ∷ s) = with_key (take l s) (read_keys n (drop l s))

abbrev read_all : Text → Option (List Text × Text)
read_all [] = none
read_all (n ∷ s) = read_keys n s

abbrev codec : Codec
codec = record {
  marshal_cursor = λ keys shape. length keys ∷ write_keys keys shape;
  unmarshal_cursor = read_all;
  encode_raw = λ s. s;
  decode_raw = λ s. some s;
  shape_hash = λ table w. codes "x";
  print_other = λ v. [];
}

take-append : (s t : Text) → take (length s) (s ++ t) ≡ s
take-append [] t = refl
take-append (c ∷ s) t = ap (λ x. c ∷ x) (take-append s t)

drop-append : (s t : Text) → drop (length s) (s ++ t) ≡ t
drop-append [] t = refl
drop-append (c ∷ s) t = drop-append s t

read_keys-write_keys :
    (keys : List Text) (shape : Text)
    → read_keys (length keys) (write_keys keys shape) ≡ some (keys, shape)
read_keys-write_keys [] shape = refl
read_keys-write_keys (k ∷ ks) shape =
    rw
      (
        take-append k (write_keys ks shape),
        drop-append k (write_keys ks shape),
        read_keys-write_keys ks shape,
      )
      refl

abbrev AnyText : Text → Type 0
AnyText s = Unit

reads : Reads codec AnyText
unfolding encode_cursor
reads = record {
  raw = λ s. refl;
  json = λ keys shape u v. read_keys-write_keys keys shape;
  present = λ keys shape e. cc;
}

abbrev formats : Formats
formats = record {
  parse_float = λ s. none;
  format_float = λ v. [];
  print_float = λ v. [];
  widen = λ v. v;
  float_of_int = λ n. 0;
  int_of_float = λ v. pos 1;
  parse_json = λ s. none;
  parse_time = λ layout s. none;
  format_time = λ layout t. layout;
  print_time = λ t. [];
  encode_base64 = λ b. b;
  decode_base64 = λ s. some s;
}

abbrev row : ℕ → Row
row n = (codes "id", int64 (pos n)) ∷ []

abbrev rows : List Row
rows = row 1 ∷ row 2 ∷ row 3 ∷ []

abbrev fetch : Condition → Result (List Row)
fetch q = ok rows

abbrev page : Page
page = record {
  nodes = row 1 ∷ row 2 ∷ [];
  has_next_page = true;
  end_cursor = some (1 ∷ 1 ∷ codes "2x");
}

pages :
    connection codec formats no_json db info claims gen fetch
      (field (codes "first") (int (pos 2)) end)
    ≡ ok page
unfolding run
pages = refl

connection-IsConnection_example :
    IsConnection codec formats no_json db info claims gen fetch
      (field (codes "first") (int (pos 2)) end)
      page
connection-IsConnection_example =
    connection-IsConnection codec formats no_json db info claims gen fetch
      (field (codes "first") (int (pos 2)) end) (omega arith) pages

tail_eq : {a b : Row} {s t : List Row} → a ∷ s ≡ b ∷ t → s ≡ t
tail_eq e = cc

tail_of : {a b : Row} {s t : List Row} → a ∷ s ≡ b ∷ t → t ≡ s
tail_of e = cc

head_of : {a b : Row} {s t : List Row} → a ∷ s ≡ b ∷ t → b ≡ a
head_of e = cc

abbrev key : List Text
key = codes "id" ∷ []

decode_cursor-encode_cursor_example :
    (decode_cursor codec (encode_cursor codec (codes "7" ∷ []) (codes "x")) (codes "x") 1
      ≡ ok (codes "7" ∷ []))
    × ((other : Text) (n : ℕ)
        → codes "x" ≢ other
        → decode_cursor codec (encode_cursor codec (codes "7" ∷ []) (codes "x")) other n
          ≡ err foreign_cursor)
    × ((n : ℕ)
        → 1 ≢ n
        → decode_cursor codec (encode_cursor codec (codes "7" ∷ []) (codes "x")) (codes "x") n
          ≡ err invalid_cursor)
decode_cursor-encode_cursor_example =
    decode_cursor-encode_cursor codec AnyText reads (codes "7" ∷ []) (codes "x") (tt, tt) tt

-- A table of two rows, and what follows a key in it.
abbrev two_rows : List Row
two_rows = row 1 ∷ row 2 ∷ []

abbrev behind_text : Text → List Row
behind_text s = if text_eq s (codes "1") then row 2 ∷ [] else []

abbrev behind_keys : Option (List Text) → List Row
behind_keys none = two_rows
behind_keys (some []) = two_rows
behind_keys (some (k ∷ ks)) = behind_text k

abbrev seek : Option (List Text) → ℕ → List Row
seek keys limit = take limit (behind_keys keys)

behind_first :
    (limit : ℕ) → seek (some (keys_of codec formats key (row 1))) limit ≡ take limit (row 2 ∷ [])
unfolding run
behind_first limit = refl

behind_second : (limit : ℕ) → seek (some (keys_of codec formats key (row 2))) limit ≡ take limit []
unfolding run
behind_second limit = refl

any_keys : (pks : List Text) (r : Row) → All AnyText (keys_of codec formats pks r)
unfolding keys_of
any_keys [] r = tt
any_keys (pk ∷ pks) r = (tt, any_keys pks r)

not_append : (front : List Row) (r : Row) (rest : List Row) → [] ≢ front ++ r ∷ rest
not_append [] r rest e = cc
not_append (x ∷ front) r rest e = cc

behind_row :
    (front : List Row) (r : Row) (rest : List Row) (limit : ℕ)
    → two_rows ≡ front ++ r ∷ rest
    → seek (some (keys_of codec formats key r)) limit ≡ take limit rest
behind_row [] r rest limit e = rw (head_of e, tail_of e) (behind_first limit)
behind_row (x ∷ []) r rest limit e =
    rw (head_of (tail_eq e), tail_of (tail_eq e)) (behind_second limit)
behind_row (x ∷ y ∷ front) r rest limit e = absurd (not_append front r rest (tail_eq (tail_eq e)))

seeks : Seeks codec formats key (codes "x") AnyText reads seek two_rows
seeks = record {
  from_start = λ limit. refl;
  behind = behind_row;
  texts = λ front r rest e. any_keys key r;
}

walk_complete_example : walk codec formats key (codes "x") seek 1 3 none ≡ ok two_rows
walk_complete_example =
    walk_complete codec formats key (codes "x") AnyText reads seek two_rows seeks tt 1 (omega arith)
      3 (omega arith)
