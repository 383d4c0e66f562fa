-- ===== src/Schema/Scalars/Tests.antt =====
-- Values on their way between the driver, the client and the SQL arguments, and the theorems at
-- them.
use titanium_graph_api.Base.{
  ◌≡◌, refl, [], ◌∷◌, Text, codes, some, none, false, text_eq, member, has_prefix, insert, lookup,
  Option, if◌then◌else◌,
}
use titanium_graph_api.Base.Int.{pos, negsuc}
use titanium_graph_api.Base.Numbers.{digits_before, show_int, float_to_int}
use titanium_graph_api.Base.Spaces.{space_width, trim_left, trim_right, trim_space}
use titanium_graph_api.Value.{
  Value, null, int, int64, str, bytes, time, obj, field, end, arr, cons, nil,
}
use titanium_graph_api.Results.{ok, err, bad_number, database_error}
use titanium_graph_api.Catalog.{Column}
use titanium_graph_api.Schema.Scalars.{Scalar, decimal, date_time, scalar_for, contains}
use titanium_graph_api.Schema.Scalars.Formats.{Formats, parse_int}
use titanium_graph_api.Schema.Scalars.Coerce.{
  coerce_big_int, coerce_decimal, first_time, coerce_date_time, coerce_date, coerce_bytes,
  coerce_vector, parse_value, serialize, literal_to_go, string_value, int_value, object_value,
  member_of, no_members, list_value, literal, no_literals,
}
use titanium_graph_api.Schema.Scalars.Convert.{convert_value, scan_row, scan_all}

run : Unit {0}
unfolding text_eq member has_prefix insert lookup digits_before show_int float_to_int space_width
    trim_left trim_right trim_space scalar_for contains parse_int coerce_big_int coerce_decimal
    first_time coerce_date_time coerce_date coerce_bytes coerce_vector parse_value serialize
    literal_to_go convert_value scan_row scan_all
run = tt

abbrev if_same : {A : Type 0} → Text → Text → A → Option A
if_same s t a = if text_eq s t then some a else none

abbrev formats : Formats
formats = record {
  parse_float = λ s. if_same s (codes "1.5") 7;
  format_float = λ v. codes "1.5";
  print_float = λ v. codes "1.5";
  widen = λ v. v;
  float_of_int = λ n. 0;
  int_of_float = λ v. pos 1;
  parse_json = λ s. if_same s (codes "{}") (obj end);
  parse_time = λ layout s. if_same layout s 5;
  format_time = λ layout t. layout;
  print_time = λ t. codes "2006-01-02 00:00:00 +0000 UTC";
  encode_base64 = λ b. b;
  decode_base64 = λ s. some s;
}

abbrev builtin : Scalar → Value → Value
builtin s v = v

abbrev column : Text → Text → Column
column name kind = record {
  name = name;
  ordinal = 0;
  data_type = kind;
  column_type = kind;
  nullable = false;
  is_primary = false;
  auto_increment = false;
  has_default = false;
  generated = false;
}

big_int_test : coerce_big_int (str (codes " -42 ")) ≡ int64 (negsuc 41)
unfolding run
big_int_test = refl

overflow_test : coerce_big_int (str (codes "9223372036854775808")) ≡ null
unfolding run
overflow_test = refl

decimal_test : parse_value formats builtin decimal (str (codes "1.5")) ≡ str (codes "1.5")
unfolding run
decimal_test = refl

time_test : parse_value formats builtin date_time (str (codes "2006-01-02 15:04:05")) ≡ time 5
unfolding run
time_test = refl

literal_test :
    literal_to_go formats (
      object_value (
        member_of (codes "a") (int_value (codes "7")) (
          member_of
            (codes "b")
            (list_value (literal (string_value (codes "x")) no_literals))
            no_members)))
    ≡ obj (
        field
          (codes "a")
          (int64 (pos 7))
          (field (codes "b") (arr (cons (str (codes "x")) nil)) end))
unfolding run
literal_test = refl

bad_number_test :
    convert_value formats (column (codes "n") (codes "smallint")) (bytes (codes "x"))
    ≡ err (bad_number (codes "n"))
unfolding run
bad_number_test = refl

rows_test :
    scan_all formats database_error
      (column (codes "id") (codes "bigint") ∷ column (codes "ok") (codes "smallint") ∷ [])
      ((bytes (codes "12") ∷ int64 (pos 1) ∷ []) ∷ [])
    ≡ ok (((codes "id", int64 (pos 12)) ∷ (codes "ok", int (pos 1)) ∷ []) ∷ [])
unfolding run
rows_test = refl
