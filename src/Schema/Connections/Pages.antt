-- ===== src/Schema/Connections/Pages.antt =====
-- A page of a connection: its nodes, whether more follow, and the cursor behind it.
use titanium_graph_api.Base.{
  ℕ, zero, suc, All, ◌≤◌, ◌<◌, ◌≡◌, ◌≢◌, refl, ap, ◌∙◌, inl, inr, List, [], ◌∷◌, Text, Bool, true,
  false, ◌&&◌, Option, some, length, take, lookup, text_eq, text_eq_iff, text_eq_refl, ltb, ◌==◌,
  ==_iff, Bool-cases, arith, if◌then◌else◌, codes,
}
use titanium_graph_api.Base.Int.{ℤ, pos, negsuc, ltb_ℤ, ◌≤ℤ◌}
use titanium_graph_api.Value.{Fields, entries, as_obj, as_int, as_str}
use titanium_graph_api.Results.{
  Result, ok, err, ◌>>◌, guard, Ensures, Ensures-eq-ok, Ensures-if, >>=-eq-ok, negative_first,
  invalid_cursor, foreign_cursor,
}
use titanium_graph_api.Config.{SchemaGen}
use titanium_graph_api.Sql.{Condition}
use titanium_graph_api.Schema.{TableInfo}
use titanium_graph_api.Schema.Scalars.{Marshal}
use titanium_graph_api.Schema.Scalars.Formats.{Formats}
use titanium_graph_api.Schema.Scalars.Convert.{Row}
use titanium_graph_api.Schema.Paging.{arg, or_else, clamp}
use titanium_graph_api.Schema.Queries.{run_keyset_page}
use titanium_graph_api.Schema.Nearest.{first_of}
use titanium_graph_api.Schema.Nearest.Query.{IsFirst, first_of-IsFirst}
use titanium_graph_api.Schema.Cursors.{Codec, encode_cursor, decode_cursor, cursor_shape}
use titanium_graph_api.Schema.Connections.{
  Page, end_cursor_of, page_from, page_of, after_keys, condition_behind, plus_one, connection,
}

-- base64 and JSON read back what they wrote. JSON does so for texts of valid UTF-8 only.
pub record Reads (codec : Codec) (IsUtf8 : Text → Type 0) : Type 0 where
  pub raw : (s : Text) → codec.decode_raw (codec.encode_raw s) ≡ some s
  pub json :
      (keys : List Text) (shape : Text)
      → All IsUtf8 keys
      → IsUtf8 shape
      → codec.unmarshal_cursor (codec.marshal_cursor keys shape) ≡ some (keys, shape)
  pub present : (keys : List Text) (shape : Text) → encode_cursor codec keys shape ≢ []

module _ (codec : Codec) (IsUtf8 : Text → Type 0) (reads : Reads codec IsUtf8) where
  decoded :
      (keys : List Text) (shape other : Text) (n : ℕ)
      → All IsUtf8 keys
      → IsUtf8 shape
      → decode_cursor codec (encode_cursor codec keys shape) other n ≡ (
          if text_eq shape other
          then (if length keys == n then ok keys else err invalid_cursor)
          else err foreign_cursor)
  unfolding decode_cursor encode_cursor
  decoded keys shape other n u v =
      rw (reads.raw (codec.marshal_cursor keys shape), reads.json keys shape u v)
        (guarded (text_eq shape other) (length keys == n))
    where
      guarded :
          (a b : Bool)
          → (guard a foreign_cursor >> (guard b invalid_cursor >> ok keys))
            ≡ (if a then (if b then ok keys else err invalid_cursor) else err foreign_cursor)
      guarded true true = refl
      guarded true false = refl
      guarded false b = refl

  -- Suppose that JSON reads back cursors of valid UTF-8 that it wrote, and base64 any text. A cursor
  -- of valid UTF-8 then leads back to the keys it was made of, in the query it was made for: a query
  -- of another shape, or with another number of key columns, refuses it.
  pub decode_cursor-encode_cursor :
      (keys : List Text) (shape : Text)
      → All IsUtf8 keys
      → IsUtf8 shape
      → (decode_cursor codec (encode_cursor codec keys shape) shape (length keys) ≡ ok keys)
        × ((other : Text) (n : ℕ)
            → shape ≢ other
            → decode_cursor codec (encode_cursor codec keys shape) other n ≡ err foreign_cursor)
        × ((n : ℕ)
            → length keys ≢ n
            → decode_cursor codec (encode_cursor codec keys shape) shape n ≡ err invalid_cursor)
  decode_cursor-encode_cursor keys shape u v = (
    decoded keys shape shape (length keys) u v
        ∙ rw (text_eq_refl shape, (==_iff (length keys) (length keys)).1 refl) refl,
    λ other n ne. decoded keys shape other n u v ∙ rw (text_ne shape other ne) refl,
    λ n ne.
        decoded keys shape shape n u v ∙ rw (text_eq_refl shape, number_ne (length keys) n ne) refl,
  )
    where
      text_ne : (s t : Text) → s ≢ t → text_eq s t ≡ false
      text_ne s t ne = elim (Bool-cases (text_eq s t)) [
        | inl e ↦ absurd (ne ((text_eq_iff s t).0 e))
        | inr e ↦ e
      ]

      number_ne : (m n : ℕ) → m ≢ n → (m == n) ≡ false
      number_ne m n ne = ground arith

-- The page of at most `m` rows of those that were fetched.
abbrev pub IsPageOf : Codec → Formats → List Text → Text → ℕ → List Row → Page → Type 0
IsPageOf codec fmt primary_key shape m rows p =
    (p.nodes ≡ take m rows)
    × (p.has_next_page ≡ (ltb 0 m && ltb m (length rows)))
    × (p.end_cursor ≡ end_cursor_of codec fmt primary_key shape (take m rows))

pub take_all : (m : ℕ) (rows : List Row) → length rows ≤ m → rows ≡ take m rows
take_all zero [] h = refl
take_all zero (r ∷ rs) h = absurd (omega arith)
take_all (suc m) [] h = refl
take_all (suc m) (r ∷ rs) h = ap (λ x. r ∷ x) (take_all m rs (omega arith))

module _ (codec : Codec) (fmt : Formats) (primary_key : List Text) (shape : Text) where
  more_follow :
      (m : ℕ) (rows : List Row)
      → m < length rows
      → IsPageOf codec fmt primary_key shape m rows
          (page_from codec fmt primary_key shape true (take m rows))
  unfolding end_cursor_of
  more_follow zero rows h = (refl, refl, refl)
  more_follow (suc m) [] h = absurd (omega arith)
  more_follow (suc m) (r ∷ rs) h = (refl, ground arith, refl)

  none_follow :
      (m : ℕ) (rows : List Row)
      → length rows ≤ m
      → IsPageOf codec fmt primary_key shape m rows
          (page_from codec fmt primary_key shape false rows)
  unfolding end_cursor_of
  none_follow m [] h =
      let e = take_all m [] h in
      (e, ground arith, ap (λ x. end_cursor_of codec fmt primary_key shape x) e)
  none_follow m (r ∷ rs) h =
      let e = take_all m (r ∷ rs) h in
      (e, ground arith, ap (λ x. end_cursor_of codec fmt primary_key shape x) e)

  pub page_of-IsPageOf :
      (m : ℕ) (rows : List Row)
      → Ensures
          (IsPageOf codec fmt primary_key shape m rows)
          (page_of codec fmt primary_key shape (pos m) rows)
  unfolding page_of
  page_of-IsPageOf m rows = elim (Bool-cases (ltb_ℤ (pos m) (pos (length rows)))) [
    | inl e ↦ rw e (more_follow m rows (ground arith))
    | inr e ↦ rw e (none_follow m rows (ground arith))
  ]

module _ (codec : Codec) (fmt : Formats) (marshal : Marshal) (schema_name : Text) (ti : TableInfo)
    (claims : Fields) where
  abbrev where_of : Fields → Option Fields
  where_of args = arg as_obj (lookup (codes "where") (entries args))

  abbrev shape_of : Fields → Text
  shape_of args = cursor_shape codec ti.table.name (where_of args)

  abbrev first_asked : Fields → Option ℤ
  first_asked args = arg as_int (lookup (codes "first") (entries args))

  abbrev after_asked : Fields → Option Text
  after_asked args = arg as_str (lookup (codes "after") (entries args))

  -- How a page came about: the page size `m`, the keys of the cursor, the query and its rows.
  pub record IsConnection (gen : SchemaGen) (fetch : Condition → Result (List Row)) (args : Fields)
      (p : Page) : Type 0 where
    pub m : ℕ
    pub size : IsFirst gen (first_asked args) (pos m)
    pub keys : Option (List Text)
    pub start :
        after_keys codec fmt ti.table.primary_key (shape_of args) (after_asked args) ≡ ok keys
    pub query : Condition
    pub asked :
        run_keyset_page marshal schema_name ti claims
          (where_of args)
          (condition_behind ti.table.primary_key keys)
          (pos (suc m))
        ≡ ok query
    pub rows : List Row
    pub fetched : fetch query ≡ ok rows
    pub page : IsPageOf codec fmt ti.table.primary_key (shape_of args) m rows p

  first_of-nonneg :
      (gen : SchemaGen) (asked : Option ℤ)
      → pos 0 ≤ℤ gen.max_page_size
      → Ensures (λ n. pos 0 ≤ℤ n) (first_of gen asked)
  unfolding first_of
  first_of-nonneg gen asked h =
      Ensures-if (λ n. pos 0 ≤ℤ n) (ltb_ℤ (or_else asked gen.default_page_size) (pos 0))
        (err negative_first) (ok (clamp (or_else asked gen.default_page_size) gen.max_page_size))
        (λ e. tt) (λ e. clamp_nonneg (or_else asked gen.default_page_size) gen.max_page_size e h)
    where
      clamp_nonneg : (n m : ℤ) → ltb_ℤ n (pos 0) ≡ false → pos 0 ≤ℤ m → pos 0 ≤ℤ clamp n m
      clamp_nonneg n m e h = ground arith

  IsConnection-page_of :
      (gen : SchemaGen) (fetch : Condition → Result (List Row)) (args : Fields) (first : ℤ)
      (keys : Option (List Text)) (query : Condition) (rows : List Row) {p : Page}
      → pos 0 ≤ℤ first
      → IsFirst gen (first_asked args) first
      → after_keys codec fmt ti.table.primary_key (shape_of args) (after_asked args) ≡ ok keys
      → run_keyset_page marshal schema_name ti claims
          (where_of args)
          (condition_behind ti.table.primary_key keys)
          (plus_one first)
        ≡ ok query
      → fetch query ≡ ok rows
      → page_of codec fmt ti.table.primary_key (shape_of args) first rows ≡ ok p
      → IsConnection gen fetch args p
  IsConnection-page_of gen fetch args (negsuc n) keys query rows z b s q f h = absurd (omega arith)
  IsConnection-page_of gen fetch args (pos m) keys query rows z b s q f h = record {
    m = m;
    size = b;
    keys = keys;
    start = s;
    query = query;
    asked = q;
    rows = rows;
    fetched = f;
    page =
        Ensures-eq-ok (IsPageOf codec fmt ti.table.primary_key (shape_of args) m rows) _
          (page_of-IsPageOf codec fmt ti.table.primary_key (shape_of args) m rows) h;
  }

  -- If the configured maximum is not negative, a connection's page has a size `m` of at most the
  -- maximum and what was asked for; it asks the database for one row more, behind the keys of the
  -- request's cursor, and shows the first `m` of the rows it gets: there is a next page exactly if
  -- `m` is not zero and more than `m` rows came, and the cursor is that of the last row shown.
  pub connection-IsConnection :
      (gen : SchemaGen) (fetch : Condition → Result (List Row)) (args : Fields) {p : Page}
      → pos 0 ≤ℤ gen.max_page_size
      → connection codec fmt marshal schema_name ti claims gen fetch args ≡ ok p
      → IsConnection gen fetch args p
  unfolding connection
  connection-IsConnection gen fetch args z h =
      let (first, e1, h1) = >>=-eq-ok (first_of gen (first_asked args)) _ h in
      let (keys, e2, h2) =
        >>=-eq-ok (after_keys codec fmt ti.table.primary_key (shape_of args) (after_asked args)) _
          h1 in
      let (query, e3, h3) =
        >>=-eq-ok
          (run_keyset_page marshal schema_name ti claims (where_of args)
            (condition_behind ti.table.primary_key keys) (plus_one first))
          _ h2 in
      let (rows, e4, h4) = >>=-eq-ok (fetch query) _ h3 in
      IsConnection-page_of gen fetch args first keys query rows
        (Ensures-eq-ok (λ n. pos 0 ≤ℤ n) _ (first_of-nonneg gen (first_asked args) z) e1)
        (Ensures-eq-ok (IsFirst gen (first_asked args)) _ (first_of-IsFirst gen (first_asked args))
          e1)
        e2 e3 e4 h4
