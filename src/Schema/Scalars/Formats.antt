-- ===== src/Schema/Scalars/Formats.antt =====
-- The numbers and formats that schema/scalars.go reads and writes: integers in decimal, and what it
-- leaves to other packages of the standard library.
use titanium_graph_api.Base.{
  ℕ, zero, suc, ◌-◌, ◌^◌, [], ◌∷◌, List, Text, Option, none, some, ◌==◌, leb, if◌then◌else◌, min,
}
use titanium_graph_api.Base.Int.{ℤ, pos, negsuc}
use titanium_graph_api.Value.{Value}
use titanium_graph_api.Config.{unsigned}

abbrev pub non_negative : Option ℕ → Option ℤ
non_negative none = none
non_negative (some n) = if leb n (2 ^ 63 - 1) then some (pos n) else none

abbrev pub minus : ℕ → Option ℤ
minus zero = some (pos 0)
minus (suc n) = if leb n (2 ^ 63 - 1) then some (negsuc n) else none

abbrev pub negative : Option ℕ → Option ℤ
negative none = none
negative (some n) = minus n

-- `strconv.ParseInt(s, 10, 64)`: a sign and digits, within the range of int64. `strconv.Atoi` reads
-- the same numbers.
unfoldable pub parse_int : Text → Option ℤ
parse_int [] = none
parse_int (c ∷ s) =
    if c == b'-'
    then negative (unsigned s)
    else if c == b'+'
    then non_negative (unsigned s)
    else non_negative (unsigned (c ∷ s))

abbrev pub at_most : ℕ → Option ℕ → ℕ
at_most limit none = 0
at_most limit (some n) = min n limit

abbrev pub minus_at_most : ℕ → ℤ
minus_at_most zero = pos 0
minus_at_most (suc n) = negsuc n

-- The number that `strconv.ParseInt` returns beside an error: the nearest one in range, and 0 for
-- text that is no number.
unfoldable pub parse_int_anyway : Text → ℤ
parse_int_anyway [] = pos 0
parse_int_anyway (c ∷ s) =
    if c == b'-'
    then minus_at_most (at_most (2 ^ 63) (unsigned s))
    else if c == b'+'
    then pos (at_most (2 ^ 63 - 1) (unsigned s))
    else pos (at_most (2 ^ 63 - 1) (unsigned (c ∷ s)))

-- strconv on floating-point numbers, encoding/json, encoding/base64 and time.
pub record Formats : Type 0 where
  -- `strconv.ParseFloat(s, 64)`
  pub parse_float : Text → Option ℕ
  -- `strconv.FormatFloat(v, 'f', -1, 64)`
  pub format_float : ℕ → Text
  -- `%v` of a float64
  pub print_float : ℕ → Text
  -- `float64(v)` of a float32 and of an int64, and `int64(v)` of a float64
  pub widen : ℕ → ℕ
  pub float_of_int : ℤ → ℕ
  pub int_of_float : ℕ → ℤ
  -- `json.Unmarshal` into an `any`
  pub parse_json : Text → Option Value
  -- `time.Parse` and `Time.Format` with a layout
  pub parse_time : Text → Text → Option ℕ
  pub format_time : Text → ℕ → Text
  -- `%v` of a time
  pub print_time : ℕ → Text
  pub encode_base64 : List ℕ → Text
  pub decode_base64 : Text → Option (List ℕ)
