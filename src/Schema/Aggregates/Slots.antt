-- ===== src/Schema/Aggregates/Slots.antt =====
-- What the slots of an aggregate query store: each an entry for its part and column.
use titanium_graph_api.Base.{
  ◌≡◌, refl, ap, ◌∙◌, List, [], ◌∷◌, Text, Bool, true, false, ◌||◌, ◌&&◌, lookup, insert,
  lookup-insert, text_eq, arith,
}
use titanium_graph_api.Base.Int.{ℤ}
use titanium_graph_api.Value.{Value}
use titanium_graph_api.Results.{Error, ok, ◌>>=◌, Ensures, Ensures-bind, Ensures-map}
use titanium_graph_api.Catalog.{Column, is_some}
use titanium_graph_api.Schema.Scalars.Formats.{Formats}
use titanium_graph_api.Schema.Scalars.Convert.{convert_value, Row}
use titanium_graph_api.Schema.Queries.Clauses.{any_Ensures}
use titanium_graph_api.Schema.Aggregates.{
  Bucket, counts, sums, avgs, mins, maxs, Slot, count_slot, slot, AggResult, to_int64, to_float,
  agg_scalar, store_slot, store_slots,
}

abbrev pub row_of : Bucket → AggResult → Row
row_of counts out = []
row_of sums out = out.sum
row_of avgs out = out.avg
row_of mins out = out.min
row_of maxs out = out.max

abbrev pub has : Bucket → Text → AggResult → Bool
has b name out = is_some (lookup name (row_of b out))

abbrev pub same_part : Bucket → Bucket → Bool
same_part sums sums = true
same_part avgs avgs = true
same_part mins mins = true
same_part maxs maxs = true
same_part _ _ = false

abbrev slot_is : Bucket → Text → Slot → Bool
slot_is b name count_slot = false
slot_is b name (slot d c) = same_part b d && text_eq c.name name

unfoldable pub any_slot : Bucket → Text → List Slot → Bool
any_slot b name [] = false
any_slot b name (s ∷ ss) = slot_is b name s || any_slot b name ss

insert-has :
    (k name : Text) (v : Value) (row : Row)
    → is_some (lookup name (insert k v row)) ≡ (text_eq k name || is_some (lookup name row))
insert-has k name v row = ground (arith, lookup-insert k name v row)

-- The part that a slot belongs to gains its column; the others stay as they are.
abbrev Gains : Bucket → Text → Slot → AggResult → AggResult → Type 0
Gains b name s out next = has b name next ≡ (slot_is b name s || has b name out)

abbrev with_entry : Bucket → Text → Value → AggResult → AggResult
with_entry counts k v out = out
with_entry sums k v out = record out { sum = insert k v out.sum }
with_entry avgs k v out = record out { avg = insert k v out.avg }
with_entry mins k v out = record out { min = insert k v out.min }
with_entry maxs k v out = record out { max = insert k v out.max }

entry-Gains :
    (b d : Bucket) (name : Text) (c : Column) (v : Value) (out : AggResult)
    → Gains b name (slot d c) out (with_entry d c.name v out)
entry-Gains counts counts name c v out = refl
entry-Gains sums counts name c v out = refl
entry-Gains avgs counts name c v out = refl
entry-Gains mins counts name c v out = refl
entry-Gains maxs counts name c v out = refl
entry-Gains counts sums name c v out = refl
entry-Gains sums sums name c v out = insert-has c.name name v out.sum
entry-Gains avgs sums name c v out = refl
entry-Gains mins sums name c v out = refl
entry-Gains maxs sums name c v out = refl
entry-Gains counts avgs name c v out = refl
entry-Gains sums avgs name c v out = refl
entry-Gains avgs avgs name c v out = insert-has c.name name v out.avg
entry-Gains mins avgs name c v out = refl
entry-Gains maxs avgs name c v out = refl
entry-Gains counts mins name c v out = refl
entry-Gains sums mins name c v out = refl
entry-Gains avgs mins name c v out = refl
entry-Gains mins mins name c v out = insert-has c.name name v out.min
entry-Gains maxs mins name c v out = refl
entry-Gains counts maxs name c v out = refl
entry-Gains sums maxs name c v out = refl
entry-Gains avgs maxs name c v out = refl
entry-Gains mins maxs name c v out = refl
entry-Gains maxs maxs name c v out = insert-has c.name name v out.max

count-Gains :
    (b : Bucket) (name : Text) (n : ℤ) (out : AggResult)
    → has b name (record out { count = n }) ≡ has b name out
count-Gains counts name n out = refl
count-Gains sums name n out = refl
count-Gains avgs name n out = refl
count-Gains mins name n out = refl
count-Gains maxs name n out = refl

module _ (fmt : Formats) where
  converted-Gains :
      (b d : Bucket) (name : Text) (c : Column) (v : Value) (out : AggResult)
      → Ensures
          (Gains b name (slot d c) out)
          (convert_value fmt c v >>= λ w. ok (with_entry d c.name w out))
  converted-Gains b d name c v out =
      Ensures-bind (λ w. Unit {0}) (Gains b name (slot d c) out) (convert_value fmt c v) _
        (any_Ensures (convert_value fmt c v)) (λ w u. entry-Gains b d name c w out)

  store_slot-Gains :
      (b : Bucket) (name : Text) (s : Slot) (v : Value) (out : AggResult)
      → Ensures (Gains b name s out) (store_slot fmt s v out)
  unfolding store_slot
  store_slot-Gains b name count_slot v out = count-Gains b name (to_int64 fmt v) out
  store_slot-Gains b name (slot counts c) v out =
      count-Gains b name (to_int64 fmt v) out ∙ no_counts b
    where
      no_counts :
          (b : Bucket)
          → has b name out ≡ (same_part b counts && text_eq c.name name || has b name out)
      no_counts counts = refl
      no_counts sums = refl
      no_counts avgs = refl
      no_counts mins = refl
      no_counts maxs = refl
  store_slot-Gains b name (slot sums c) v out = entry-Gains b sums name c (agg_scalar fmt v) out
  store_slot-Gains b name (slot avgs c) v out = entry-Gains b avgs name c (to_float fmt v) out
  store_slot-Gains b name (slot mins c) v out = converted-Gains b mins name c v out
  store_slot-Gains b name (slot maxs c) v out = converted-Gains b maxs name c v out

  or_reorder : (x y z : Bool) → (y || (x || z)) ≡ ((x || y) || z)
  or_reorder true true z = refl
  or_reorder true false z = refl
  or_reorder false true z = refl
  or_reorder false false z = refl

  pub store_slots-has :
      (b : Bucket) (name : Text) (mismatch : Error) (plan : List Slot) (vals : List Value)
      (out : AggResult)
      → Ensures
          (λ next. has b name next ≡ (any_slot b name plan || has b name out))
          (store_slots fmt mismatch plan vals out)
  unfolding store_slots any_slot
  store_slots-has b name mismatch [] [] out = refl
  store_slots-has b name mismatch [] (v ∷ vs) out = tt
  store_slots-has b name mismatch (s ∷ ss) [] out = tt
  store_slots-has b name mismatch (s ∷ ss) (v ∷ vs) out =
      Ensures-bind (Gains b name s out)
        (λ last. has b name last ≡ (any_slot b name (s ∷ ss) || has b name out))
        (store_slot fmt s v out) _ (store_slot-Gains b name s v out)
        (λ next g.
          Ensures-map (λ last. has b name last ≡ (any_slot b name ss || has b name next)) _
            (store_slots fmt mismatch ss vs next) (store_slots-has b name mismatch ss vs next)
            (λ last h.
              h
              ∙ ap (λ x. any_slot b name ss || x) g
              ∙ or_reorder (slot_is b name s) (any_slot b name ss) (has b name out)))
