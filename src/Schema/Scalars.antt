-- ===== src/Schema/Scalars.antt =====
-- schema/scalars.go: the GraphQL scalar of a column, and the value bound for it.
pub mod Formats
pub mod Coerce
pub mod Convert
pub mod Decimal
pub mod Accepted
mod Tests
use titanium_graph_api.Base.{
  List, [], ◌∷◌, Text, Bool, Option, none, some, ◌||◌, if◌then◌else◌, codes, member, has_prefix,
}
use titanium_graph_api.Value.{Value, null, str}
use titanium_graph_api.Results.{Result, ok, err, encode_failed}
use titanium_graph_api.Catalog.{Column}

pub data Scalar : Type 0 where
  boolean int_32 big_int float_64 decimal date date_time json binary vector text : Scalar

-- `strings.Contains`
unfoldable pub contains : Text → Text → Bool
contains sub [] = has_prefix sub []
contains sub (c ∷ s) = has_prefix sub (c ∷ s) || contains sub s

abbrev pub small_ints : List Text
small_ints = codes "smallint" ∷ codes "mediumint" ∷ codes "year" ∷ []

abbrev pub integers : List Text
integers = codes "int" ∷ codes "integer" ∷ []

abbrev pub floats : List Text
floats = codes "float" ∷ codes "double" ∷ codes "real" ∷ []

abbrev pub decimals : List Text
decimals = codes "decimal" ∷ codes "numeric" ∷ []

abbrev pub times : List Text
times = codes "datetime" ∷ codes "timestamp" ∷ []

abbrev pub binaries : List Text
binaries =
    codes "binary"
    ∷ codes "varbinary"
    ∷ codes "blob"
    ∷ codes "tinyblob"
    ∷ codes "mediumblob"
    ∷ codes "longblob"
    ∷ codes "bit"
    ∷ []

abbrev pub is_one_of : Column → List Text → Bool
is_one_of col names = member col.data_type names

abbrev pub is_type : Column → Text → Bool
is_type col name = member col.data_type (name ∷ [])

unfoldable pub scalar_for : Column → Scalar
unfolding contains
scalar_for col =
    if is_type col (codes "tinyint")
    then (if has_prefix (codes "tinyint(1)") col.column_type then boolean else int_32)
    else if is_one_of col small_ints
    then int_32
    else if is_one_of col integers
    then (if contains (codes "unsigned") col.column_type then big_int else int_32)
    else if is_type col (codes "bigint")
    then big_int
    else if is_one_of col floats
    then float_64
    else if is_one_of col decimals
    then decimal
    else if is_type col (codes "date")
    then date
    else if is_one_of col times
    then date_time
    else if is_type col (codes "json")
    then json
    else if is_one_of col binaries
    then binary
    else if is_type col (codes "vector")
    then vector
    else text

-- `json.Marshal`: the encoding, or nothing where it fails.
abbrev pub Marshal : Type 0
Marshal = Value → Option Text

abbrev pub encoded : Column → Option Text → Result Value
encoded col none = err (encode_failed col.name)
encoded col (some raw) = ok (str raw)

abbrev pub bind_as : Marshal → Column → Scalar → Value → Result Value
bind_as marshal col json v = encoded col (marshal v)
bind_as marshal col _ v = ok v

-- The value that the SQL driver is given for a coerced input value.
unfoldable pub bind_value : Marshal → Column → Value → Result Value
bind_value marshal col null = ok null
bind_value marshal col v = bind_as marshal col (scalar_for col) v
