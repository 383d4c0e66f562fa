-- ===== src/Schema/Scalars/Coerce.antt =====
-- schema/scalars.go: what the custom scalars accept from clients and write for them. `null` is
-- Go's nil, which graphql-go takes as a failure to coerce.
use titanium_graph_api.Base.{
  ℕ, [], ◌∷◌, List, Text, Bool, Option, none, some, codes, lookup, if◌then◌else◌,
}
use titanium_graph_api.Base.Int.{ℤ}
use titanium_graph_api.Base.Numbers.{show_int, float_to_int}
use titanium_graph_api.Base.Spaces.{trim_space}
use titanium_graph_api.Value.{
  Value, null, bool, int, int64, uint64, float, str, bytes, time, arr, obj, Values, nil, cons,
  Fields, end, field, entries,
}
use titanium_graph_api.Catalog.{is_some}
use titanium_graph_api.Schema.Scalars.{
  Scalar, boolean, int_32, big_int, float_64, decimal, date, date_time, json, binary, vector, text,
}
use titanium_graph_api.Schema.Scalars.Formats.{Formats, parse_int}

abbrev pub as_int64 : Option ℤ → Value
as_int64 none = null
as_int64 (some n) = int64 n

unfoldable pub coerce_big_int : Value → Value
coerce_big_int (int n) = int64 n
coerce_big_int (int64 n) = int64 n
coerce_big_int (float v) = as_int64 (float_to_int v)
coerce_big_int (str s) = as_int64 (parse_int (trim_space s))
coerce_big_int _ = null

-- The literals of a query document. A variable or a null is another kind of literal.
mutual
  pub data Literal : Type 0 where
    string_value enum_value int_value float_value : Text → Literal
    boolean_value : Bool → Literal
    list_value : Literals → Literal
    object_value : Members → Literal
    other_value : Literal

  pub data Literals : Type 0 where
    no_literals : Literals
    literal : Literal → Literals → Literals

  pub data Members : Type 0 where
    no_members : Members
    member_of : Text → Literal → Members → Members

module _ (fmt : Formats) where
  abbrev pub if_number : Text → Option ℕ → Value
  if_number s none = null
  if_number s (some v) = str s

  unfoldable pub coerce_decimal : Value → Value
  coerce_decimal (str s) = if_number (trim_space s) (fmt.parse_float (trim_space s))
  coerce_decimal (float v) = str (fmt.format_float v)
  coerce_decimal (int n) = str (show_int n)
  coerce_decimal (int64 n) = str (show_int n)
  coerce_decimal _ = null

  abbrev pub date_layout : Text
  date_layout = codes "2006-01-02"

  abbrev pub rfc3339 : Text
  rfc3339 = codes "2006-01-02T15:04:05Z07:00"

  abbrev pub date_time_formats : List Text
  date_time_formats =
      codes "2006-01-02T15:04:05.999999999Z07:00"
      ∷ codes "2006-01-02T15:04:05"
      ∷ codes "2006-01-02 15:04:05.999999"
      ∷ codes "2006-01-02 15:04:05"
      ∷ codes "2006-01-02"
      ∷ []

  abbrev pub time_or : Value → Option ℕ → Value
  time_or next none = next
  time_or next (some t) = time t

  -- The first layout that fits.
  unfoldable pub first_time : List Text → Text → Value
  first_time [] s = null
  first_time (f ∷ fs) s = time_or (first_time fs s) (fmt.parse_time f s)

  unfoldable pub coerce_date_time : Value → Value
  unfolding first_time
  coerce_date_time (str s) = first_time date_time_formats s
  coerce_date_time (time t) = time t
  coerce_date_time _ = null

  abbrev pub if_date : Text → Option ℕ → Value
  if_date s none = null
  if_date s (some t) = str s

  unfoldable pub coerce_date : Value → Value
  coerce_date (str s) = if_date s (fmt.parse_time date_layout s)
  coerce_date _ = null

  abbrev pub as_bytes : Option (List ℕ) → Value
  as_bytes none = null
  as_bytes (some b) = bytes b

  unfoldable pub coerce_bytes : Value → Value
  coerce_bytes (str s) = as_bytes (fmt.decode_base64 s)
  coerce_bytes _ = null

  unfoldable pub coerce_vector : Value → Value
  coerce_vector (str s) = str s
  coerce_vector (bytes b) = str b
  coerce_vector _ = null

  -- What each scalar of the package makes of a variable's value; the scalars of graphql-go are its
  -- own, `builtin`.
  unfoldable pub parse_value : (Scalar → Value → Value) → Scalar → Value → Value
  unfolding coerce_big_int coerce_decimal coerce_date_time coerce_date coerce_bytes coerce_vector
  parse_value builtin boolean v = builtin boolean v
  parse_value builtin int_32 v = builtin int_32 v
  parse_value builtin float_64 v = builtin float_64 v
  parse_value builtin text v = builtin text v
  parse_value builtin big_int v = coerce_big_int v
  parse_value builtin decimal v = coerce_decimal v
  parse_value builtin date v = coerce_date v
  parse_value builtin date_time v = coerce_date_time v
  parse_value builtin json v = v
  parse_value builtin binary v = coerce_bytes v
  parse_value builtin vector v = coerce_vector v

  abbrev pub as_text : Value → Value
  as_text (bytes b) = str b
  as_text (str s) = str s
  as_text _ = null

  abbrev pub serialize_big_int : Value → Value
  serialize_big_int (int64 n) = int64 n
  serialize_big_int (uint64 n) = uint64 n
  serialize_big_int (int n) = int n
  serialize_big_int v = as_text v

  abbrev pub serialize_decimal : Value → Value
  serialize_decimal (float v) = str (fmt.print_float v)
  serialize_decimal (int64 n) = str (show_int n)
  serialize_decimal (int n) = str (show_int n)
  serialize_decimal v = as_text v

  abbrev pub serialize_time : Text → Value → Value
  serialize_time layout (time t) = str (fmt.format_time layout t)
  serialize_time layout v = as_text v

  abbrev pub serialize_bytes : Value → Value
  serialize_bytes (bytes b) = str (fmt.encode_base64 b)
  serialize_bytes (str s) = str (fmt.encode_base64 s)
  serialize_bytes _ = null

  unfoldable pub serialize : (Scalar → Value → Value) → Scalar → Value → Value
  serialize builtin boolean v = builtin boolean v
  serialize builtin int_32 v = builtin int_32 v
  serialize builtin float_64 v = builtin float_64 v
  serialize builtin text v = builtin text v
  serialize builtin big_int v = serialize_big_int v
  serialize builtin decimal v = serialize_decimal v
  serialize builtin date v = serialize_time date_layout v
  serialize builtin date_time v = serialize_time rfc3339 v
  serialize builtin json v = v
  serialize builtin binary v = serialize_bytes v
  serialize builtin vector v = as_text v

  abbrev pub int_or_text : Text → Option ℤ → Value
  int_or_text s none = str s
  int_or_text s (some n) = int64 n

  abbrev pub float_or_text : Text → Option ℕ → Value
  float_or_text s none = str s
  float_or_text s (some v) = float v

  -- `out[name] = value`: the last member of a name counts.
  abbrev pub put : Text → Value → Fields → Fields
  put k v fs = if is_some (lookup k (entries fs)) then fs else field k v fs

  unfoldable mutual
    pub literal_to_go : Literal → Value
    literal_to_go (string_value s) = str s
    literal_to_go (enum_value s) = str s
    literal_to_go (int_value s) = int_or_text s (parse_int s)
    literal_to_go (float_value s) = float_or_text s (fmt.parse_float s)
    literal_to_go (boolean_value b) = bool b
    literal_to_go (list_value ls) = arr (literals_to_go ls)
    literal_to_go (object_value ms) = obj (members_to_go ms)
    literal_to_go other_value = null

    pub literals_to_go : Literals → Values
    literals_to_go no_literals = nil
    literals_to_go (literal l ls) = cons (literal_to_go l) (literals_to_go ls)

    pub members_to_go : Members → Fields
    members_to_go no_members = end
    members_to_go (member_of k l ms) = put k (literal_to_go l) (members_to_go ms)
