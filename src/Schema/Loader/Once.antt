-- ===== src/Schema/Loader/Once.antt =====
-- relLoader: a key is loaded at most once, whatever the order of the calls.
use titanium_graph_api.Base.{
  ◌≡◌, refl, List, [], ◌∷◌, ◌++◌, Text, Option, none, some, member, All, All-append, Bool-cases,
  inl, inr,
}
use titanium_graph_api.Results.{Error, Result, ok, err}
use titanium_graph_api.Schema.Loader.{
  Key, Groups, RelLoader, new_rel_loader, sigs, enqueue, next_batch, fetch, flush, fetch_if,
  after_load, Call, enqueued, fetched, step,
}
use titanium_graph_api.Schema.Loader.Distinct.{
  AllDistinct, IsOutside, IsInside, append-AllDistinct, IsInside-right, IsInside-self,
  IsOutside-smaller, IsOutside-rest,
}
use titanium_graph_api.Schema.Loader.Wellformed.{IsWell, new-IsWell, step-IsWell}

-- The keys that a call passes to the load function.
abbrev pub batch_if : (Key → Text) → RelLoader → Key → Option Error → List Key
batch_if key_sig l key (some e) = []
batch_if key_sig l key none = next_batch key_sig l key

abbrev pub loads : (Key → Text) → RelLoader → Call → List Key
loads key_sig l (enqueued key) = []
loads key_sig l (fetched key) = batch_if key_sig l key l.error

module _ (key_sig : Key → Text) (load_fn : List Key → Result Groups) where
  -- The signatures of all keys that a run of calls loads.
  unfoldable pub issued : List Call → RelLoader → List Text
  issued [] l = []
  issued (c ∷ cs) l = sigs key_sig (loads key_sig l c) ++ issued cs (step key_sig load_fn l c)

  -- What one call loads was not loaded before, and counts as loaded afterwards, unless the load
  -- failed and stopped the loader.
  pub record IsStep (l : RelLoader) (batch : List Text) (l' : RelLoader) : Type 0 where
    pub distinct : AllDistinct batch
    pub new_keys : All (IsOutside l.loaded) batch
    pub kept : (s : Text) → IsInside l.loaded s → IsInside l'.loaded s
    pub recorded : (l'.error ≡ none) → All (IsInside l'.loaded) batch
    pub stopped : (e : Error) → l.error ≡ some e → l'.error ≡ some e

  no_load-IsStep : (l l' : RelLoader) → l'.loaded ≡ l.loaded → l'.error ≡ l.error → IsStep l [] l'
  no_load-IsStep l l' e f = record {
    distinct = tt;
    new_keys = tt;
    kept = λ s h. rw e h;
    recorded = λ h. tt;
    stopped = λ x h. rw f h;
  }

  enqueue-IsStep : (l : RelLoader) (key : Key) → IsStep l [] (enqueue key_sig l key)
  unfolding enqueue
  enqueue-IsStep l key = elim (Bool-cases (member (key_sig key) l.seen)) [
    | inl e ↦ rw e (no_load-IsStep l l refl refl)
    | inr e ↦ rw e (no_load-IsStep l _ refl refl)
  ]

  after_load-IsStep :
      (l : RelLoader) (key : Key) (r : Result Groups)
      → IsWell key_sig l
      → l.error ≡ none
      → IsStep l (sigs key_sig l.pending) (after_load key_sig l key l.pending r).0
  after_load-IsStep l key (ok res) w o = record {
    distinct = w.apart;
    new_keys = w.unloaded;
    kept = IsInside-right (sigs key_sig l.pending) l.loaded;
    recorded = λ h. IsInside-self (sigs key_sig l.pending) l.loaded;
    stopped = λ x h. h;
  }
  after_load-IsStep l key (err e) w o = record {
    distinct = w.apart;
    new_keys = w.unloaded;
    kept = λ s h. h;
    recorded = λ h. absurd (cc h);
    stopped = λ x h. absurd (cc (o, h));
  }

  load_cons-IsStep :
      (l : RelLoader) (key k : Key) (ks : List Key)
      → k ∷ ks ≡ l.pending
      → IsWell key_sig l
      → l.error ≡ none
      → IsStep l (sigs key_sig (k ∷ ks)) (flush key_sig load_fn l key (k ∷ ks)).0
  load_cons-IsStep l key k ks e w o = rw e (after_load-IsStep l key (load_fn l.pending) w o)

  load-IsStep :
      (l : RelLoader) (key : Key) (batch : List Key)
      → batch ≡ l.pending
      → IsWell key_sig l
      → l.error ≡ none
      → IsStep l (sigs key_sig batch) (flush key_sig load_fn l key batch).0
  unfolding sigs
  load-IsStep l key [] e w o = no_load-IsStep l l refl refl
  load-IsStep l key (k ∷ ks) e w o = load_cons-IsStep l key k ks e w o

  batch-IsStep :
      (l : RelLoader) (key : Key)
      → IsWell key_sig l
      → l.error ≡ none
      → IsStep l
          (sigs key_sig (next_batch key_sig l key))
          (flush key_sig load_fn l key (next_batch key_sig l key)).0
  unfolding next_batch sigs
  batch-IsStep l key w o = elim (Bool-cases (member (key_sig key) l.loaded)) [
    | inl e ↦ rw e (no_load-IsStep l l refl refl)
    | inr e ↦ rw e (load-IsStep l key l.pending refl w o)
  ]

  fetch_if-IsStep :
      (l : RelLoader) (key : Key) (o : Option Error)
      → IsWell key_sig l
      → l.error ≡ o
      → IsStep l (sigs key_sig (batch_if key_sig l key o)) (fetch_if key_sig load_fn l key o).0
  unfolding sigs
  fetch_if-IsStep l key (some e) w h = no_load-IsStep l l refl refl
  fetch_if-IsStep l key none w h = batch-IsStep l key w h

  step-IsStep :
      (l : RelLoader) (c : Call)
      → IsWell key_sig l
      → IsStep l (sigs key_sig (loads key_sig l c)) (step key_sig load_fn l c)
  unfolding fetch sigs
  step-IsStep l (enqueued key) w = enqueue-IsStep l key
  step-IsStep l (fetched key) w = fetch_if-IsStep l key l.error w refl

  no_batch :
      (l : RelLoader) (key : Key) (e : Error) (o : Option Error)
      → o ≡ some e
      → sigs key_sig (batch_if key_sig l key o) ≡ []
  unfolding sigs
  no_batch l key e none h = cc
  no_batch l key e (some x) h = refl

  loads_stopped :
      (l : RelLoader) (c : Call) (e : Error)
      → l.error ≡ some e
      → sigs key_sig (loads key_sig l c) ≡ []
  unfolding sigs
  loads_stopped l (enqueued key) e h = refl
  loads_stopped l (fetched key) e h = no_batch l key e l.error h

  -- A stopped loader loads nothing more.
  issued_stopped :
      (cs : List Call) (l : RelLoader) (e : Error)
      → IsWell key_sig l
      → l.error ≡ some e
      → issued cs l ≡ []
  unfolding issued
  issued_stopped [] l e w h = refl
  issued_stopped (c ∷ cs) l e w h = rw (loads_stopped l c e h) (
      issued_stopped cs (step key_sig load_fn l c) e (step-IsWell key_sig load_fn l c w)
        ((step-IsStep l c w).stopped e h))

  -- What later calls load is apart from what this call loaded.
  apart_from_rest :
      (l l' : RelLoader) (b r : List Text) (o : Option Error)
      → l'.error ≡ o
      → IsStep l b l'
      → ((e : Error) → l'.error ≡ some e → r ≡ [])
      → All (IsOutside l'.loaded) r
      → All (IsOutside r) b
  unfolding member
  apart_from_rest l l' b r none h s stop new = IsOutside-rest l'.loaded r b (s.recorded h) new
  apart_from_rest l l' b r (some e) h s stop new = rw (stop e h) (nothing b)
    where
      nothing : (b : List Text) → All (IsOutside []) b
      nothing [] = tt
      nothing (t ∷ b) = (refl, nothing b)

  -- From any well-formed loader on, the keys that a run loads are distinct and were not loaded.
  issued-AllDistinct :
      (cs : List Call) (l : RelLoader)
      → IsWell key_sig l
      → AllDistinct (issued cs l) × All (IsOutside l.loaded) (issued cs l)
  unfolding issued
  issued-AllDistinct [] l w = (tt, tt)
  issued-AllDistinct (c ∷ cs) l w =
      let l' = step key_sig load_fn l c in
      let s = step-IsStep l c w in
      let w' = step-IsWell key_sig load_fn l c w in
      let (d, o) = issued-AllDistinct cs l' w' in
      let b = sigs key_sig (loads key_sig l c) in
      let apart =
        apart_from_rest l l' b (issued cs l') l'.error refl s (λ e h. issued_stopped cs l' e w' h)
          o in
      (
        append-AllDistinct b (issued cs l') s.distinct d apart,
        All-append _ b (issued cs l') s.new_keys (IsOutside-smaller l.loaded l'.loaded _ s.kept o),
      )

  -- Whatever the order in which keys are enqueued and fetched, no key signature is passed to the
  -- load function twice in the life of a loader.
  pub new_rel_loader-AllDistinct : (cs : List Call) → AllDistinct (issued cs new_rel_loader)
  new_rel_loader-AllDistinct cs = (issued-AllDistinct cs new_rel_loader (new-IsWell key_sig)).0
