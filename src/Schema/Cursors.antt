-- ===== src/Schema/Cursors.antt =====
-- schema/cursor.go: the opaque cursors of keyset pagination.
use titanium_graph_api.Base.{
  ℕ, List, [], Text, Bool, true, false, Option, none, some, codes, length, text_eq, ◌==◌,
}
use titanium_graph_api.Base.Int.{pos}
use titanium_graph_api.Base.Numbers.{show_int}
use titanium_graph_api.Value.{
  Value, null, bool, int, int64, uint64, float, float32, str, bytes, time, arr, obj, Fields,
}
use titanium_graph_api.Results.{Result, ok, err, ◌>>=◌, ◌>>◌, guard, invalid_cursor, foreign_cursor}
use titanium_graph_api.Schema.Scalars.Formats.{Formats}

-- encoding/json on a cursor, base64.RawURLEncoding, and the hash of a query's table and filter:
-- JSON, FNV-1a and base 36.
pub record Codec : Type 0 where
  pub marshal_cursor : List Text → Text → Text
  pub unmarshal_cursor : Text → Option (List Text × Text)
  pub encode_raw : Text → Text
  pub decode_raw : Text → Option Text
  pub shape_hash : Text → Option Fields → Text
  -- `%v` of a float32, a list and a map, which are no keys
  pub print_other : Value → Text

module _ (codec : Codec) where
  unfoldable pub encode_cursor : List Text → Text → Text
  encode_cursor keys shape = codec.encode_raw (codec.marshal_cursor keys shape)

  abbrev pub or_invalid {ℓ} : {A : Type ℓ} → Option A → Result A
  or_invalid none = err invalid_cursor
  or_invalid (some a) = ok a

  -- A cursor of another query, or of another number of keys, is refused.
  unfoldable pub decode_cursor : Text → Text → ℕ → Result (List Text)
  decode_cursor cursor shape key_len = do
    raw ← or_invalid (codec.decode_raw cursor)
    c ← or_invalid (codec.unmarshal_cursor raw)
    guard (text_eq c.1 shape) foreign_cursor
    guard (length c.0 == key_len) invalid_cursor
    ok c.0

  unfoldable pub cursor_shape : Text → Option Fields → Text
  cursor_shape table user_where = codec.shape_hash table user_where

  abbrev pub bool_text : Bool → Text
  bool_text true = codes "true"
  bool_text false = codes "false"

  -- `%v`, but for nil, bytes and text.
  unfoldable pub stringify_key : Formats → Value → Text
  stringify_key fmt null = []
  stringify_key fmt (bytes b) = b
  stringify_key fmt (str s) = s
  stringify_key fmt (bool b) = bool_text b
  stringify_key fmt (int n) = show_int n
  stringify_key fmt (int64 n) = show_int n
  stringify_key fmt (uint64 n) = show_int (pos n)
  stringify_key fmt (float v) = fmt.print_float v
  stringify_key fmt (time t) = fmt.print_time t
  stringify_key fmt (float32 v) = codec.print_other (float32 v)
  stringify_key fmt (arr vs) = codec.print_other (arr vs)
  stringify_key fmt (obj fs) = codec.print_other (obj fs)
