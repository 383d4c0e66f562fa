-- ===== src/Schema/Loader.antt =====
-- schema/dataloader.go: relLoader, which batches the keys of one relationship field. The lock is
-- held for the whole of each call, so a request is a sequence of calls.
pub mod Distinct
pub mod Wellformed
pub mod Once
pub mod Grouping
pub mod Unbatched
mod Tests
use titanium_graph_api.Base.{
  ℕ, List, [], ◌∷◌, ◌++◌, Text, Bool, true, false, not, ◌&&◌, Option, none, some, if◌then◌else◌,
  lookup, insert, member, map, codes, join,
}
use titanium_graph_api.Value.{Value}
use titanium_graph_api.Results.{Error, Result, ok, err}
use titanium_graph_api.Rbac.Resolve.{OpAccess}
use titanium_graph_api.Schema.{TableInfo}

-- A scanned row: the value of each column.
abbrev pub Row : Type 0
Row = List (Text × Value)

abbrev pub Key : Type 0
Key = List Value

-- Rows grouped by the signature of a key.
abbrev pub Groups : Type 0
Groups = List (Text × List Row)

-- `seen`, `loaded`: the signatures of the keys ever enqueued, and of those fetched.
pub record RelLoader : Type 0 where
  pub seen : List Text
  pub pending : List Key
  pub loaded : List Text
  pub by_key : Groups
  pub error : Option Error

abbrev pub new_rel_loader : RelLoader
new_rel_loader = record { seen = []; pending = []; loaded = []; by_key = []; error = none }

abbrev pub or_empty : Option (List Row) → List Row
or_empty none = []
or_empty (some rows) = rows

-- A missing key reads as no rows.
abbrev pub rows_at : Text → Groups → List Row
rows_at s m = or_empty (lookup s m)

unfoldable pub merge : Groups → Groups → Groups
merge [] m = m
merge ((s, rows) ∷ rest) m = insert s rows (merge rest m)

-- The value of a column in a row; a missing one is nil.
abbrev pub or_null : Option Value → Value
or_null none = Value.null
or_null (some v) = v

module _ (key_sig : Key → Text) where
  unfoldable pub sigs : List Key → List Text
  sigs ks = map key_sig ks

  unfoldable pub enqueue : RelLoader → Key → RelLoader
  enqueue l key =
      if member (key_sig key) l.seen
      then l
      else record l { seen = key_sig key ∷ l.seen; pending = l.pending ++ key ∷ [] }

  abbrev pub finish_batch : RelLoader → List Key → Groups → RelLoader
  finish_batch l batch res = record l {
    pending = [];
    loaded = sigs batch ++ l.loaded;
    by_key = merge res l.by_key;
  }

  abbrev pub after_load : RelLoader → Key → List Key → Result Groups → RelLoader × Result (List Row)
  after_load l key batch (err e) = (record l { pending = []; error = some e }, err e)
  after_load l key batch (ok res) =
      let l' = finish_batch l batch res in (l', ok (rows_at (key_sig key) l'.by_key))

  abbrev pub is_empty : List Key → Bool
  is_empty [] = true
  is_empty (k ∷ ks) = false

  -- The keys that a fetch loads: all that are pending, if its own key is not loaded yet.
  unfoldable pub next_batch : RelLoader → Key → List Key
  next_batch l key = if member (key_sig key) l.loaded then [] else l.pending

  abbrev pub flush :
      (List Key → Result Groups) → RelLoader → Key → List Key → RelLoader × Result (List Row)
  flush load_fn l key [] = (l, ok (rows_at (key_sig key) l.by_key))
  flush load_fn l key (k ∷ ks) = after_load l key (k ∷ ks) (load_fn (k ∷ ks))

  abbrev pub fetch_if :
      (List Key → Result Groups) → RelLoader → Key → Option Error → RelLoader × Result (List Row)
  fetch_if load_fn l key (some e) = (l, err e)
  fetch_if load_fn l key none = flush load_fn l key (next_batch l key)

  unfoldable pub fetch :
      (List Key → Result Groups) → RelLoader → Key → RelLoader × Result (List Row)
  unfolding next_batch sigs merge
  fetch load_fn l key = fetch_if load_fn l key l.error

  unfoldable pub row_key : List Text → Row → Key
  row_key cols row = map (λ c. or_null (lookup c row)) cols

  abbrev pub add_row : Text → Row → Groups → Groups
  add_row s row m = insert s (rows_at s m ++ row ∷ []) m

  unfoldable pub group_onto : List Text → List Row → Groups → Groups
  unfolding row_key
  group_onto cols [] m = m
  group_onto cols (row ∷ rows) m = group_onto cols rows (add_row (key_sig (row_key cols row)) row m)

  unfoldable pub group_by_columns : List Row → List Text → Groups
  group_by_columns rows cols = group_onto cols rows []

-- A call on the loader.
pub data Call : Type 0 where
  enqueued fetched : Key → Call

module _ (key_sig : Key → Text) (load_fn : List Key → Result Groups) where
  abbrev pub step : RelLoader → Call → RelLoader
  step l (enqueued key) = enqueue key_sig l key
  step l (fetched key) = (fetch key_sig load_fn l key).0

  unfoldable pub run_calls : List Call → RelLoader → RelLoader
  run_calls [] l = l
  run_calls (c ∷ cs) l = run_calls cs (step l c)

abbrev pub all_in : List Text → List Text → Bool
all_in [] set = true
all_in (c ∷ cs) set = member c set && all_in cs set

abbrev pub readable_in : Option OpAccess → List Text → Bool
readable_in none cols = false
readable_in (some sel) cols = all_in cols sel.column_set

-- Every join column is readable, so the loader may group by them.
unfoldable pub columns_readable : TableInfo → List Text → Bool
columns_readable ti cols = readable_in ti.access.select cols

unfoldable pub loader_key : Text → Text → Text → Text
loader_key direction constraint arg_sig = join (0 ∷ []) (direction ∷ constraint ∷ arg_sig ∷ [])
