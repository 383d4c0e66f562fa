-- ===== src/Schema/Scalars/Convert.antt =====
-- schema/scalars.go: convertValue, and the rows that scanRows of schema/sqlgen.go reads with it.
use titanium_graph_api.Base.{
  ℕ, [], ◌∷◌, List, Text, Bool, false, not, ◌&&◌, Option, none, some, ◌==◌, codes, insert, text_eq,
}
use titanium_graph_api.Base.Int.{ℤ, pos, negsuc}
use titanium_graph_api.Value.{Value, null, bool, int, int64, float, float32, str, bytes}
use titanium_graph_api.Results.{Result, ok, err, Error, ◌>>=◌, bad_number, bad_json}
use titanium_graph_api.Catalog.{Column}
use titanium_graph_api.Config.{is_empty}
use titanium_graph_api.Schema.Scalars.{
  Scalar, boolean, int_32, big_int, float_64, decimal, date, date_time, json, binary, vector, text,
  scalar_for,
}
use titanium_graph_api.Schema.Scalars.Formats.{Formats, parse_int}

abbrev pub is_zero : ℤ → Bool
is_zero (pos n) = n == 0
is_zero (negsuc n) = false

abbrev pub int_or_error : Column → Option ℤ → Result Value
int_or_error col none = err (bad_number col.name)
int_or_error col (some n) = ok (int n)

abbrev pub to_int : Column → Value → Result Value
to_int col (int64 n) = ok (int n)
to_int col (bytes b) = int_or_error col (parse_int b)
to_int col v = ok v

abbrev pub int64_or_text : Text → Option ℤ → Value
int64_or_text s none = str s
int64_or_text s (some n) = int64 n

abbrev pub to_big_int : Value → Value
to_big_int (bytes b) = int64_or_text b (parse_int b)
to_big_int v = v

abbrev pub to_boolean : Value → Value
to_boolean (int64 n) = bool (not (is_zero n))
to_boolean (bytes b) = bool (not (text_eq b (codes "0")) && not (is_empty b))
to_boolean v = v

abbrev pub bytes_to_text : Value → Value
bytes_to_text (bytes b) = str b
bytes_to_text v = v

-- A `map[string]any` of a row, by the names of the columns.
abbrev pub Row : Type 0
Row = List (Text × Value)

module _ (fmt : Formats) where
  abbrev pub float_or_error : Column → Option ℕ → Result Value
  float_or_error col none = err (bad_number col.name)
  float_or_error col (some v) = ok (float v)

  abbrev pub to_float_value : Column → Value → Result Value
  to_float_value col (float32 v) = ok (float (fmt.widen v))
  to_float_value col (bytes b) = float_or_error col (fmt.parse_float b)
  to_float_value col v = ok v

  abbrev pub json_or_error : Column → Option Value → Result Value
  json_or_error col none = err (bad_json col.name)
  json_or_error col (some v) = ok v

  abbrev pub to_json : Column → Value → Result Value
  to_json col (bytes b) = json_or_error col (fmt.parse_json b)
  to_json col v = ok v

  abbrev pub convert_as : Column → Scalar → Value → Result Value
  convert_as col int_32 v = to_int col v
  convert_as col big_int v = ok (to_big_int v)
  convert_as col float_64 v = to_float_value col v
  convert_as col boolean v = ok (to_boolean v)
  convert_as col text v = ok (bytes_to_text v)
  convert_as col decimal v = ok (bytes_to_text v)
  convert_as col vector v = ok (bytes_to_text v)
  convert_as col json v = to_json col v
  convert_as col date v = ok v
  convert_as col date_time v = ok v
  convert_as col binary v = ok v

  unfoldable pub convert_value : Column → Value → Result Value
  convert_value col null = ok null
  convert_value col v = convert_as col (scalar_for col) v

  -- The cells of one row, by the names of the columns. A row with another number of cells than
  -- columns is refused by Scan, as the parameter's error.
  unfoldable pub scan_row : Error → List Column → List Value → Row → Result Row
  unfolding convert_value
  scan_row mismatch [] [] row = ok row
  scan_row mismatch [] (_ ∷ _) row = err mismatch
  scan_row mismatch (_ ∷ _) [] row = err mismatch
  scan_row mismatch (c ∷ cs) (v ∷ vs) row = do
    w ← convert_value c v
    scan_row mismatch cs vs (insert c.name w row)

  unfoldable pub scan_all : Error → List Column → List (List Value) → Result (List Row)
  unfolding scan_row
  scan_all mismatch cols [] = ok []
  scan_all mismatch cols (vs ∷ rest) = do
    row ← scan_row mismatch cols vs []
    rows ← scan_all mismatch cols rest
    ok (row ∷ rows)
