-- ===== src/Schema/Loader/Unbatched.antt =====
-- relLoader: a fetch answers as if its own key alone had been asked for.
use titanium_graph_api.Base.{
  ◌≡◌, refl, List, [], ◌∷◌, ◌++◌, Text, Bool, true, false, Option, none, some, if◌then◌else◌,
  member, text_eq, Bool-cases, Option-cases, inl, inr, lookup,
}
use titanium_graph_api.Results.{Error, Result, ok}
use titanium_graph_api.Schema.Loader.{
  Key, Row, Groups, RelLoader, new_rel_loader, sigs, enqueue, next_batch, fetch, flush, fetch_if,
  after_load, finish_batch, Call, enqueued, fetched, step, run_calls, merge, rows_at,
}
use titanium_graph_api.Schema.Loader.Grouping.{lookup-merge}
use titanium_graph_api.Schema.Loader.Distinct.{member-append, IsInside-right}

-- The load function answers a batch: a group for each of its keys that has rows, and no other.
pub record Answers (key_sig : Key → Text) (rows : Text → List Row) (batch : List Key) (res : Groups)
    : Type 0 where
  pub given :
      (s : Text) (r : List Row)
      → lookup s res ≡ some r
      → (member s (sigs key_sig batch) ≡ true) × (r ≡ rows s)
  pub missing :
      (s : Text) → lookup s res ≡ none → member s (sigs key_sig batch) ≡ true → rows s ≡ []

module _ (key_sig : Key → Text) (load_fn : List Key → Result Groups) (rows : Text → List Row) where
  -- The load function does not fail, and answers every batch from `rows`.
  abbrev pub Serves : Type 0
  Serves =
      (batch : List Key)
      → (res : Groups) × (load_fn batch ≡ ok res) × Answers key_sig rows batch res

  pub record IsServed (l : RelLoader) : Type 0 where
    pub no_error : l.error ≡ none
    pub answered : (s : Text) → rows_at s l.by_key ≡ (if member s l.loaded then rows s else [])
    pub covered :
        (s : Text)
        → member s l.seen ≡ true
        → member s l.loaded ≡ false
        → member s (sigs key_sig l.pending) ≡ true

  new-IsServed : IsServed new_rel_loader
  unfolding lookup member
  new-IsServed = record { no_error = refl; answered = λ s. refl; covered = λ s h k. absurd (cc h) }

  sigs_snoc :
      (a : List Key) (k : Key) → sigs key_sig (a ++ k ∷ []) ≡ sigs key_sig a ++ key_sig k ∷ []
  unfolding sigs
  sigs_snoc [] k = refl
  sigs_snoc (x ∷ a) k = cc (sigs_snoc a k)

  fresh_key-IsServed :
      (l : RelLoader) (key : Key)
      → IsServed l
      → IsServed (record l { seen = key_sig key ∷ l.seen; pending = l.pending ++ key ∷ [] })
  unfolding member
  fresh_key-IsServed l key w = record {
    no_error = w.no_error;
    answered = w.answered;
    covered = λ s h k.
        rw (sigs_snoc l.pending key, member-append s (sigs key_sig l.pending) (key_sig key ∷ []))
          (last s h k);
  }
    where
      last :
          (s : Text)
          → member s (key_sig key ∷ l.seen) ≡ true
          → member s l.loaded ≡ false
          → (if member s (sigs key_sig l.pending) then true else member s (key_sig key ∷ [])) ≡ true
      last s h k = elim (Bool-cases (text_eq (key_sig key) s)) [
        | inl e ↦ elim (Bool-cases (member s (sigs key_sig l.pending))) [
          | inl f ↦ rw f refl
          | inr f ↦ rw (f, e) refl
        ]
        | inr e ↦ rw (w.covered s (rw e at h) k) refl
      ]

  enqueue-IsServed : (l : RelLoader) (key : Key) → IsServed l → IsServed (enqueue key_sig l key)
  unfolding enqueue
  enqueue-IsServed l key w = elim (Bool-cases (member (key_sig key) l.seen)) [
    | inl e ↦ rw e w
    | inr e ↦ rw e (fresh_key-IsServed l key w)
  ]

  -- What the merged groups hold under one signature.
  merged_rows :
      (l : RelLoader) (res : Groups) (s : Text)
      → IsServed l
      → Answers key_sig rows l.pending res
      → rows_at s (merge res l.by_key)
        ≡ (if member s (sigs key_sig l.pending ++ l.loaded) then rows s else [])
  merged_rows l res s w a =
      rw (lookup-merge s res l.by_key, member-append s (sigs key_sig l.pending) l.loaded)
        (elim (Option-cases (lookup s res)) [
          | inr (r, e) ↦ let (i, same) = a.given s r e in rw (e, i) same
          | inl e ↦ rw e (elim (Bool-cases (member s (sigs key_sig l.pending))) [
            | inl i ↦ cc (
              w.answered s,
              a.missing s e i,
              i,
              empty_either (member s l.loaded) (rows s) (a.missing s e i),
            )
            | inr i ↦ rw i (w.answered s)
          ])
        ])
    where
      empty_either : (b : Bool) (r : List Row) → r ≡ [] → (if b then r else []) ≡ []
      empty_either true r h = h
      empty_either false r h = refl

  finish_batch-IsServed :
      (l : RelLoader) (res : Groups)
      → IsServed l
      → Answers key_sig rows l.pending res
      → IsServed (finish_batch key_sig l l.pending res)
  finish_batch-IsServed l res w a = record {
    no_error = w.no_error;
    answered = λ s. merged_rows l res s w a;
    covered = λ s h k. absurd (no_key s h k);
  }
    where
      no_key :
          (s : Text)
          → member s l.seen ≡ true
          → member s (sigs key_sig l.pending ++ l.loaded) ≡ false
          → ⊥
      no_key s h k = elim (Bool-cases (member s l.loaded)) [
        | inl i ↦ cc (IsInside-right (sigs key_sig l.pending) l.loaded s i, k)
        | inr o ↦ cc (w.covered s h o, member-append s (sigs key_sig l.pending) l.loaded, k)
      ]

  -- What a fetch leaves, and what it returns for a key that was enqueued.
  abbrev pub IsServedFetch : RelLoader → Key → RelLoader × Result (List Row) → Type 0
  IsServedFetch before key (l, r) =
      IsServed l × (member (key_sig key) before.seen ≡ true → r ≡ ok (rows (key_sig key)))

  after_load-IsServed :
      (l : RelLoader) (key : Key) (r : Result Groups) (res : Groups)
      → member (key_sig key) l.loaded ≡ false
      → IsServed l
      → r ≡ ok res
      → Answers key_sig rows l.pending res
      → IsServedFetch l key (after_load key_sig l key l.pending r)
  after_load-IsServed l key r res o w e a = rw e (
    finish_batch-IsServed l res w a,
    λ h. cc (
      merged_rows l res (key_sig key) w a,
      member-append (key_sig key) (sigs key_sig l.pending) l.loaded,
      w.covered (key_sig key) h o,
    ),
  )

  none_pending : (ks : List Key) (s : Text) → [] ≡ ks → member s (sigs key_sig ks) ≡ true → ⊥
  unfolding sigs member
  none_pending [] s e h = cc
  none_pending (k ∷ ks) s e h = cc

  flush-IsServed :
      (l : RelLoader) (key : Key) (batch : List Key)
      → Serves
      → batch ≡ l.pending
      → member (key_sig key) l.loaded ≡ false
      → IsServed l
      → IsServedFetch l key (flush key_sig load_fn l key batch)
  flush-IsServed l key [] serves e o w =
      (w, λ h. absurd (none_pending l.pending (key_sig key) e (w.covered (key_sig key) h o)))
  flush-IsServed l key (k ∷ ks) serves e o w =
      let (res, same, a) = serves l.pending in
      rw e (after_load-IsServed l key (load_fn l.pending) res o w same a)

  batch-IsServed :
      (l : RelLoader) (key : Key)
      → Serves
      → IsServed l
      → IsServedFetch l key (flush key_sig load_fn l key (next_batch key_sig l key))
  unfolding next_batch
  batch-IsServed l key serves w = elim (Bool-cases (member (key_sig key) l.loaded)) [
    | inl i ↦ rw i (w, λ h. cc (w.answered (key_sig key), i))
    | inr o ↦ rw o (flush-IsServed l key l.pending serves refl o w)
  ]

  fetch_if-IsServed :
      (l : RelLoader) (key : Key) (o : Option Error)
      → Serves
      → IsServed l
      → o ≡ none
      → IsServedFetch l key (fetch_if key_sig load_fn l key o)
  fetch_if-IsServed l key none serves w e = batch-IsServed l key serves w
  fetch_if-IsServed l key (some x) serves w e = absurd (cc e)

  fetch-IsServed :
      (l : RelLoader) (key : Key)
      → Serves
      → IsServed l
      → IsServedFetch l key (fetch key_sig load_fn l key)
  unfolding fetch
  fetch-IsServed l key serves w = fetch_if-IsServed l key l.error serves w w.no_error

  step-IsServed :
      (l : RelLoader) (c : Call) → Serves → IsServed l → IsServed (step key_sig load_fn l c)
  step-IsServed l (enqueued key) serves w = enqueue-IsServed l key w
  step-IsServed l (fetched key) serves w = (fetch-IsServed l key serves w).0

  run_calls-IsServed :
      (cs : List Call) (l : RelLoader)
      → Serves
      → IsServed l
      → IsServed (run_calls key_sig load_fn cs l)
  unfolding run_calls
  run_calls-IsServed [] l serves w = w
  run_calls-IsServed (c ∷ cs) l serves w =
      run_calls-IsServed cs _ serves (step-IsServed l c serves w)

  -- Suppose that the load function does not fail and answers each batch from `rows`: a group for
  -- each of its keys that has rows, and no other group. Then after any sequence of calls, fetching
  -- a key that was enqueued succeeds with exactly the rows of that key, as an unbatched query would.
  pub fetch-run_calls :
      (cs : List Call) (key : Key)
      → Serves
      → member (key_sig key) (run_calls key_sig load_fn cs new_rel_loader).seen ≡ true
      → (fetch key_sig load_fn (run_calls key_sig load_fn cs new_rel_loader) key).1
        ≡ ok (rows (key_sig key))
  fetch-run_calls cs key serves h =
      (fetch-IsServed _ key serves (run_calls-IsServed cs new_rel_loader serves new-IsServed)).1 h
