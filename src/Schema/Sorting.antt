-- ===== src/Schema/Sorting.antt =====
-- `sortedKeys`: the entries of a map in the order of their keys.
use titanium_graph_api.Base.{List, [], ◌∷◌, Text, text_lt, if◌then◌else◌, All, Bool-cases, inl, inr}

module _ {ℓ} {V : Type ℓ} where
  unfoldable pub insert_entry : Text × V → List (Text × V) → List (Text × V)
  insert_entry e [] = e ∷ []
  insert_entry (k, v) ((j, w) ∷ m) =
      if text_lt j k then (j, w) ∷ insert_entry (k, v) m else (k, v) ∷ (j, w) ∷ m

  unfoldable pub sort_entries : List (Text × V) → List (Text × V)
  unfolding insert_entry
  sort_entries [] = []
  sort_entries (e ∷ m) = insert_entry e (sort_entries m)

  module _ {κ} (P : Text × V → Type κ) where
    insert_entry-All :
        (e : Text × V) (m : List (Text × V)) → P e → All P m → All P (insert_entry e m)
    unfolding insert_entry
    insert_entry-All e [] p h = (p, tt)
    insert_entry-All (k, v) ((j, w) ∷ m) p (q, h) = elim (Bool-cases (text_lt j k)) [
      | inl e ↦ rw e (q, insert_entry-All (k, v) m p h)
      | inr e ↦ rw e (p, (q, h))
    ]

    insert_entry-All_inv :
        (e : Text × V) (m : List (Text × V)) → All P (insert_entry e m) → P e × All P m
    unfolding insert_entry
    insert_entry-All_inv e [] h = h
    insert_entry-All_inv (k, v) ((j, w) ∷ m) h = elim (Bool-cases (text_lt j k)) [
      | inl e ↦
          let (q, rest) = rw e at h in
          let (p, below) = insert_entry-All_inv (k, v) m rest in (p, (q, below))
      | inr e ↦ let (p, rest) = rw e at h in (p, rest)
    ]

    -- Sorting keeps what holds of every entry.
    pub sort_entries-All : (m : List (Text × V)) → All P m → All P (sort_entries m)
    unfolding sort_entries
    sort_entries-All [] h = tt
    sort_entries-All (e ∷ m) (p, h) = insert_entry-All e (sort_entries m) p (sort_entries-All m h)

    pub sort_entries-All_inv : (m : List (Text × V)) → All P (sort_entries m) → All P m
    unfolding sort_entries
    sort_entries-All_inv [] h = tt
    sort_entries-All_inv (e ∷ m) h =
        let (p, rest) = insert_entry-All_inv e (sort_entries m) h in
        (p, sort_entries-All_inv m rest)
