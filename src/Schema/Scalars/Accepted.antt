-- ===== src/Schema/Scalars/Accepted.antt =====
-- convertValue prepares a driver's value for Serialize: whatever the column, Serialize understands
-- what it is given.
use titanium_graph_api.Base.{◌≡◌, Bool, true, false}
use titanium_graph_api.Value.{
  Value, bool, int, int64, uint64, float, float32, str, bytes, time, is_null,
}
use titanium_graph_api.Schema.Scalars.{
  Scalar, boolean, int_32, big_int, float_64, decimal, date, date_time, json, binary, vector, text,
}
use titanium_graph_api.Schema.Scalars.Formats.{Formats}
use titanium_graph_api.Schema.Scalars.Coerce.{serialize}

-- The types that the driver, with parseTime, gives the values of a column of the scalar.
abbrev pub from_driver : Scalar → Value → Bool
from_driver int_32 (int64 n) = true
from_driver int_32 (bytes b) = true
from_driver int_32 _ = false
from_driver big_int (int64 n) = true
from_driver big_int (uint64 n) = true
from_driver big_int (bytes b) = true
from_driver big_int _ = false
from_driver float_64 (float v) = true
from_driver float_64 (float32 v) = true
from_driver float_64 (bytes b) = true
from_driver float_64 _ = false
from_driver boolean (int64 n) = true
from_driver boolean (bytes b) = true
from_driver boolean _ = false
from_driver date (time t) = true
from_driver date (bytes b) = true
from_driver date _ = false
from_driver date_time (time t) = true
from_driver date_time (bytes b) = true
from_driver date_time _ = false
from_driver decimal (bytes b) = true
from_driver decimal _ = false
from_driver json (bytes b) = true
from_driver json _ = false
from_driver binary (bytes b) = true
from_driver binary _ = false
from_driver vector (bytes b) = true
from_driver vector _ = false
from_driver text (bytes b) = true
from_driver text _ = false

abbrev is_int : Value → Bool
is_int (int n) = true
is_int _ = false

abbrev is_float : Value → Bool
is_float (float v) = true
is_float _ = false

abbrev is_bool : Value → Bool
is_bool (bool b) = true
is_bool _ = false

abbrev is_text : Value → Bool
is_text (str s) = true
is_text _ = false

module _ (fmt : Formats) (builtin : Scalar → Value → Value) where
  -- graphql-go's own scalars take the Go type of their name; a scalar of the package serializes to a
  -- value. JSON takes anything, the JSON null too.
  abbrev pub Understands : Scalar → Value → Type 0
  Understands int_32 w = is_int w ≡ true
  Understands float_64 w = is_float w ≡ true
  Understands boolean w = is_bool w ≡ true
  Understands text w = is_text w ≡ true
  Understands json w = Unit
  Understands big_int w = is_null (serialize fmt builtin big_int w) ≡ false
  Understands decimal w = is_null (serialize fmt builtin decimal w) ≡ false
  Understands date w = is_null (serialize fmt builtin date w) ≡ false
  Understands date_time w = is_null (serialize fmt builtin date_time w) ≡ false
  Understands binary w = is_null (serialize fmt builtin binary w) ≡ false
  Understands vector w = is_null (serialize fmt builtin vector w) ≡ false
