-- ===== src/Schema/Aggregates/Answered.antt =====
-- runAggregate answers exactly the columns that were requested of each part.
use titanium_graph_api.Base.{
  ◌≡◌, refl, ap, ap₂, ◌∙◌, List, [], ◌∷◌, ◌++◌, Text, Bool, true, false, ◌||◌, ◌&&◌, Option, lookup,
  member, if◌then◌else◌, arith, Bool-cases, inl, inr,
}
use titanium_graph_api.Value.{Value, Fields}
use titanium_graph_api.Results.{Error, Result, ok, err, ◌>>=◌, Ensures, Ensures-map, Ensures-eq-ok}
use titanium_graph_api.Catalog.{Column}
use titanium_graph_api.Rbac.Resolve.{OpAccess, names_of}
use titanium_graph_api.Sql.{Condition}
use titanium_graph_api.Schema.{TableInfo}
use titanium_graph_api.Schema.Scalars.{Marshal}
use titanium_graph_api.Schema.Scalars.Formats.{Formats}
use titanium_graph_api.Schema.Transactions.{hide}
use titanium_graph_api.Schema.Aggregates.{
  Bucket, counts, sums, avgs, mins, maxs, AggRequest, Slot, count_slot, slots_for, plan_of,
  completed, is_empty_request, AggResult, no_result, store_slots, answered, run_aggregate,
}
use titanium_graph_api.Schema.Aggregates.Collected.{columns_in}
use titanium_graph_api.Schema.Aggregates.Slots.{has, same_part, any_slot, store_slots-has}

any_slot-append :
    (b : Bucket) (name : Text) (ss ts : List Slot)
    → any_slot b name (ss ++ ts) ≡ (any_slot b name ss || any_slot b name ts)
unfolding any_slot
any_slot-append b name [] ts = refl
any_slot-append b name (s ∷ ss) ts = ground (arith, any_slot-append b name ss ts)

any_slot-slots_for :
    (b d : Bucket) (name : Text) (cs : List Column)
    → any_slot b name (slots_for d cs) ≡ (same_part b d && member name (names_of cs))
unfolding any_slot slots_for member
any_slot-slots_for b d name [] = ground arith
any_slot-slots_for b d name (c ∷ cs) = ground (arith, any_slot-slots_for b d name cs)

counting :
    (b : Bucket) (name : Text) (c : Bool)
    → any_slot b name (if c then count_slot ∷ [] else []) ≡ false
unfolding any_slot
counting b name true = refl
counting b name false = refl

one_part :
    (b : Bucket) (name : Text) (r : AggRequest)
    → (false
        || (same_part b sums && member name (names_of r.sum)
            || (same_part b avgs && member name (names_of r.avg)
                || (same_part b mins && member name (names_of r.min)
                    || same_part b maxs && member name (names_of r.max)))))
      ≡ member name (names_of (columns_in b r))
unfolding member
one_part counts name r = ground arith
one_part sums name r = ground arith
one_part avgs name r = ground arith
one_part mins name r = ground arith
one_part maxs name r = ground arith

-- Only the part that is meant remains.
plan_of-any_slot :
    (b : Bucket) (name : Text) (r : AggRequest)
    → any_slot b name (plan_of r) ≡ member name (names_of (columns_in b r))
unfolding plan_of
plan_of-any_slot b name r =
    any_slot-append b name (if r.count then count_slot ∷ [] else []) _
    ∙ ap₂ (λ x y. x || y) (counting b name r.count)
        (any_slot-append b name (slots_for sums r.sum) _
          ∙ ap₂ (λ x y. x || y) (any_slot-slots_for b sums name r.sum)
              (any_slot-append b name (slots_for avgs r.avg) _
                ∙ ap₂ (λ x y. x || y) (any_slot-slots_for b avgs name r.avg)
                    (any_slot-append b name (slots_for mins r.min) (slots_for maxs r.max)
                      ∙ ap₂ (λ x y. x || y) (any_slot-slots_for b mins name r.min)
                          (any_slot-slots_for b maxs name r.max))))
    ∙ one_part b name r

completed-columns_in : (b : Bucket) (r : AggRequest) → columns_in b (completed r) ≡ columns_in b r
completed-columns_in b r = elim (Bool-cases (is_empty_request r)) [
  | inl e ↦ rw e (same b)
  | inr e ↦ rw e refl
]
  where
    same : (b : Bucket) → columns_in b (record r { count = true }) ≡ columns_in b r
    same counts = refl
    same sums = refl
    same avgs = refl
    same mins = refl
    same maxs = refl

hide-Ensures :
    {A : Type 0} (P : A → Type 0) (debug : Bool) (r : Result A)
    → Ensures P r
    → Ensures P (hide debug r)
hide-Ensures P debug (ok a) h = h
hide-Ensures P debug (err e) h = tt

nothing_before : (b : Bucket) (name : Text) → has b name no_result ≡ false
unfolding lookup
nothing_before counts name = refl
nothing_before sums name = refl
nothing_before avgs name = refl
nothing_before mins name = refl
nothing_before maxs name = refl

or_nothing : (x y : Bool) → y ≡ false → (x || y) ≡ x
or_nothing true y e = refl
or_nothing false y e = e

module _ (marshal : Marshal) (schema_name : Text) (ti : TableInfo) (claims : Fields) (fmt : Formats)
    (debug : Bool) (query_row : Condition → Result (List Value)) (mismatch : Error) where
  answered-has :
      (sel : OpAccess) (user_where : Option Fields) (b : Bucket) (name : Text) (plan : List Slot)
      → Ensures
          (λ out. has b name out ≡ any_slot b name plan)
          (answered marshal schema_name ti claims fmt debug query_row mismatch sel user_where plan)
  unfolding any_slot
  answered-has sel user_where b name [] = nothing_before b name
  answered-has sel user_where b name (s ∷ plan) =
      skip_to (λ out. has b name out ≡ any_slot b name (s ∷ plan)) _ _
        (λ q.
          skip_to (λ out. has b name out ≡ any_slot b name (s ∷ plan)) (hide debug (query_row q)) _
            (λ vals.
              hide-Ensures (λ out. has b name out ≡ any_slot b name (s ∷ plan)) debug _
                (Ensures-map
                  (λ out. has b name out ≡ (any_slot b name (s ∷ plan) || has b name no_result)) _
                  (store_slots fmt mismatch (s ∷ plan) vals no_result)
                  (store_slots-has fmt b name mismatch (s ∷ plan) vals no_result)
                  (λ out h.
                    h ∙ or_nothing (any_slot b name (s ∷ plan)) _ (nothing_before b name)))))
    where
      skip_to :
          {A : Type 0} (P : AggResult → Type 0) (r : Result A) (k : A → Result AggResult)
          → ((a : A) → Ensures P (k a))
          → Ensures P (r >>= k)
      skip_to P (ok a) k h = h a
      skip_to P (err e) k h = tt

  -- An answered aggregate has, in each of sum, avg, min and max, an entry for exactly the columns
  -- that the request names for that part: none is left out and none is added.
  pub run_aggregate-has :
      (sel : OpAccess) (user_where : Option Fields) (req : AggRequest) (b : Bucket) (name : Text)
      {out : AggResult}
      → run_aggregate marshal schema_name ti claims fmt debug query_row mismatch sel user_where req
        ≡ ok out
      → has b name out ≡ member name (names_of (columns_in b req))
  unfolding run_aggregate
  run_aggregate-has sel user_where req b name h =
      Ensures-eq-ok (λ out. has b name out ≡ any_slot b name (plan_of (completed req))) _
        (answered-has sel user_where b name (plan_of (completed req))) h
      ∙ plan_of-any_slot b name (completed req)
      ∙ ap (λ cs. member name (names_of cs)) (completed-columns_in b req)
