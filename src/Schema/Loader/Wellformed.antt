-- ===== src/Schema/Loader/Wellformed.antt =====
-- relLoader: what holds of a loader between calls.
use titanium_graph_api.Base.{
  ◌≡◌, refl, List, [], ◌∷◌, ◌++◌, Text, Option, none, some, member, All, All-append, Bool-cases,
  inl, inr,
}
use titanium_graph_api.Results.{Error, Result, ok, err}
use titanium_graph_api.Schema.Loader.{
  Key, Groups, RelLoader, new_rel_loader, sigs, enqueue, next_batch, fetch, flush, fetch_if,
  after_load, finish_batch, Call, enqueued, fetched, step,
}
use titanium_graph_api.Schema.Loader.Distinct.{
  AllDistinct, IsOutside, IsInside, snoc-AllDistinct, wider, inside_head, IsOutside-of_inside,
}

-- The state between calls.
pub record IsWell (key_sig : Key → Text) (l : RelLoader) : Type 0 where
  pub apart : AllDistinct (sigs key_sig l.pending)
  pub waiting : All (IsInside l.seen) (sigs key_sig l.pending)
  pub unloaded : All (IsOutside l.loaded) (sigs key_sig l.pending)
  pub loaded_seen : All (IsInside l.seen) l.loaded

pub new-IsWell : (key_sig : Key → Text) → IsWell key_sig new_rel_loader
unfolding sigs
new-IsWell key_sig = record { apart = tt; waiting = tt; unloaded = tt; loaded_seen = tt }

module _ (key_sig : Key → Text) (load_fn : List Key → Result Groups) where
  sigs-append : (a b : List Key) → sigs key_sig (a ++ b) ≡ sigs key_sig a ++ sigs key_sig b
  unfolding sigs
  sigs-append [] b = refl
  sigs-append (k ∷ a) b = cc (sigs-append a b)

  fresh_key-IsWell :
      (l : RelLoader) (key : Key)
      → IsWell key_sig l
      → IsOutside l.seen (key_sig key)
      → IsWell key_sig (record l { seen = key_sig key ∷ l.seen; pending = l.pending ++ key ∷ [] })
  unfolding sigs
  fresh_key-IsWell l key w e = record {
    apart = rw (sigs-append l.pending (key ∷ [])) (snoc-AllDistinct _ l.seen _ w.apart w.waiting e);
    waiting = rw (sigs-append l.pending (key ∷ [])) (
        All-append _ (sigs key_sig l.pending) _ (wider (key_sig key) l.seen _ w.waiting)
          (inside_head (key_sig key) l.seen, tt));
    unloaded = rw (sigs-append l.pending (key ∷ [])) (
        All-append _ (sigs key_sig l.pending) _ w.unloaded
          (IsOutside-of_inside l.seen l.loaded _ w.loaded_seen e, tt));
    loaded_seen = wider (key_sig key) l.seen l.loaded w.loaded_seen;
  }

  enqueue-IsWell :
      (l : RelLoader) (key : Key) → IsWell key_sig l → IsWell key_sig (enqueue key_sig l key)
  unfolding enqueue
  enqueue-IsWell l key w = elim (Bool-cases (member (key_sig key) l.seen)) [
    | inl e ↦ rw e w
    | inr e ↦ rw e (fresh_key-IsWell l key w e)
  ]

  finish_batch-IsWell :
      (l : RelLoader) (res : Groups)
      → IsWell key_sig l
      → IsWell key_sig (finish_batch key_sig l l.pending res)
  unfolding sigs
  finish_batch-IsWell l res w = record {
    apart = tt;
    waiting = tt;
    unloaded = tt;
    loaded_seen = All-append _ (sigs key_sig l.pending) l.loaded w.waiting w.loaded_seen;
  }

  after_load-IsWell :
      (l : RelLoader) (key : Key) (r : Result Groups)
      → IsWell key_sig l
      → IsWell key_sig (after_load key_sig l key l.pending r).0
  unfolding sigs
  after_load-IsWell l key (ok res) w = finish_batch-IsWell l res w
  after_load-IsWell l key (err e) w = record {
    apart = tt;
    waiting = tt;
    unloaded = tt;
    loaded_seen = w.loaded_seen;
  }

  flush-IsWell :
      (l : RelLoader) (key : Key) (batch : List Key)
      → batch ≡ l.pending
      → IsWell key_sig l
      → IsWell key_sig (flush key_sig load_fn l key batch).0
  flush-IsWell l key [] e w = w
  flush-IsWell l key (k ∷ ks) e w = rw e (after_load-IsWell l key (load_fn l.pending) w)

  batch-IsWell :
      (l : RelLoader) (key : Key)
      → IsWell key_sig l
      → IsWell key_sig (flush key_sig load_fn l key (next_batch key_sig l key)).0
  unfolding next_batch
  batch-IsWell l key w = elim (Bool-cases (member (key_sig key) l.loaded)) [
    | inl e ↦ rw e w
    | inr e ↦ rw e (flush-IsWell l key l.pending refl w)
  ]

  fetch_if-IsWell :
      (l : RelLoader) (key : Key) (o : Option Error)
      → IsWell key_sig l
      → IsWell key_sig (fetch_if key_sig load_fn l key o).0
  fetch_if-IsWell l key (some e) w = w
  fetch_if-IsWell l key none w = batch-IsWell l key w

  -- Every call keeps the loader well-formed: what is pending was seen, is not loaded, and
  -- is pending once.
  pub step-IsWell :
      (l : RelLoader) (c : Call) → IsWell key_sig l → IsWell key_sig (step key_sig load_fn l c)
  unfolding fetch
  step-IsWell l (enqueued key) w = enqueue-IsWell l key w
  step-IsWell l (fetched key) w = fetch_if-IsWell l key l.error w
