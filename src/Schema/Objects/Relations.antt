-- ===== src/Schema/Objects/Relations.antt =====
-- A loop that adds relations to the fields of an object type: nothing is lost, and nothing is added twice.
use mathlib.Core.List.{Memᴰ}
use mathlib.Core.List.Memᴰ
use titanium_graph_api.Base.{
  suc, ◌+◌, ◌^◌, ◌≤◌, ◌≡◌, ◌⊎◌, inl, inr, refl, ap, ◌∙◌, List, [], ◌∷◌, Text, Bool, true, false,
  Option, none, some, length, lookup, insert, lookup-insert, text_eq, text_eq_iff, text_eq_refl,
  if◌then◌else◌, Bool-cases, arith,
}
use titanium_graph_api.Catalog.{ForeignKey, is_some}
use titanium_graph_api.Schema.Objects.{ObjectField, ObjectFields, is_taken, rel_field_name}
use titanium_graph_api.Schema.Objects.FreeNames.{rel_field_name-IsFreeName}

pub length-insert :
    (k : Text) (v : ObjectField) (m : ObjectFields) → length (insert k v m) ≤ suc (length m)
unfolding insert
length-insert k v [] = omega arith
length-insert k v ((j, w) ∷ m) = elim (Bool-cases (text_eq j k)) [
  | inl e ↦ rw e (omega arith)
  | inr e ↦ rw e (omega (arith, length-insert k v m))
]

-- A field that the first map has, the second one has too.
abbrev pub Keeps : ObjectFields → ObjectFields → Type 0
Keeps a b = (n : Text) (f : ObjectField) → lookup n a ≡ some f → lookup n b ≡ some f

free_none : (o : Option ObjectField) → is_some o ≡ false → o ≡ none
free_none none h = refl
free_none (some f) h = cc

some_eq : {a b : ObjectField} → some a ≡ some b → b ≡ a
some_eq e = cc

insert-Keeps :
    (fields : ObjectFields) (k : Text) (v : ObjectField)
    → is_taken fields k ≡ false
    → Keeps fields (insert k v fields)
insert-Keeps fields k v free n f h = elim (Bool-cases (text_eq k n)) [
  | inl e ↦
      cc (free_none (lookup k fields) free, ap (λ m. lookup m fields) ((text_eq_iff k n).0 e), h)
  | inr e ↦ lookup-insert k n v fields ∙ rw e h
]

pub none_before :
    (a b : ObjectFields) (n : Text) → Keeps a b → lookup n b ≡ none → lookup n a ≡ none
none_before a b n k h = missing (lookup n a) (k n)
  where
    missing :
        (o : Option ObjectField) → ((f : ObjectField) → o ≡ some f → lookup n b ≡ some f) → o ≡ none
    missing none g = refl
    missing (some f) g = cc (g f refl)

module _ (field : ForeignKey → ObjectField) (allowed : ForeignKey → Bool) where
  -- Nothing is lost, every allowed key has a field of its own, and nothing else is added.
  pub record IsExtended (fks : List ForeignKey) (start result : ObjectFields) : Type 0 where
    pub keeps : Keeps start result
    pub added :
        (fk : ForeignKey)
        → Memᴰ fk fks
        → allowed fk ≡ true
        → (n : Text) × (lookup n start ≡ none) × (lookup n result ≡ some (field fk))
    pub only :
        (n : Text) (f : ObjectField)
        → lookup n result ≡ some f
        → (lookup n start ≡ some f)
          ⊎ ((fk : ForeignKey) × Memᴰ fk fks × (allowed fk ≡ true) × (f ≡ field fk))

  not_allowed :
      (fk : ForeignKey) (fks : List ForeignKey) (start result : ObjectFields)
      → allowed fk ≡ false
      → IsExtended fks start result
      → IsExtended (fk ∷ fks) start result
  not_allowed fk fks start result f e = record {
    keeps = e.keeps;
    added = λ fk' m a. elim (Memᴰ.cases_cons m) [
      | inl same ↦ cc (ap allowed same, f, a)
      | inr later ↦ e.added fk' later a
    ];
    only = λ n g h. elim (e.only n g h) [
      | inl old ↦ inl old
      | inr (fk', m, a, r) ↦ inr (fk', Memᴰ.tail m, a, r)
    ];
  }

  is_allowed :
      (fk : ForeignKey) (fks : List ForeignKey) (start result : ObjectFields) (k : Text)
      → allowed fk ≡ true
      → is_taken start k ≡ false
      → IsExtended fks (insert k (field fk) start) result
      → IsExtended (fk ∷ fks) start result
  is_allowed fk fks start result k a free e = record {
    keeps = λ n f h. e.keeps n f (kept n f h);
    added = λ fk' m a'. elim (Memᴰ.cases_cons m) [
      | inl same ↦ (k, free_none (lookup k start) free, rw same here)
      | inr later ↦
          let (n, unused, h) = e.added fk' later a' in
          (n, none_before start (insert k (field fk) start) n kept unused, h)
    ];
    only = λ n g h. elim (e.only n g h) [
      | inl old ↦ one_more n g old
      | inr (fk', m, a', r) ↦ inr (fk', Memᴰ.tail m, a', r)
    ];
  }
    where
      kept : Keeps start (insert k (field fk) start)
      kept = insert-Keeps start k (field fk) free

      here : lookup k result ≡ some (field fk)
      here = e.keeps k (field fk) (lookup-insert k k (field fk) start ∙ rw (text_eq_refl k) refl)

      one_more :
          (n : Text) (g : ObjectField)
          → lookup n (insert k (field fk) start) ≡ some g
          → (lookup n start ≡ some g)
            ⊎ ((fk' : ForeignKey) × Memᴰ fk' (fk ∷ fks) × (allowed fk' ≡ true) × (g ≡ field fk'))
      one_more n g h = elim (Bool-cases (text_eq k n)) [
        | inl same ↦
            inr
              (fk, Memᴰ.head refl, a, some_eq (rw (lookup-insert k n (field fk) start, same) at h))
        | inr other ↦ inl (rw (lookup-insert k n (field fk) start, other) at h)
      ]

-- The two loops that add relations differ in the name, in the field and in the condition.
module _ (candidate : ForeignKey → Text) (field : ForeignKey → ObjectField)
    (allowed : ForeignKey → Bool) where
  unfoldable pub add_relations : List ForeignKey → ObjectFields → ObjectFields
  add_relations [] fields = fields
  add_relations (fk ∷ fks) fields = add_relations fks (
      if allowed fk
      then insert (rel_field_name fields (candidate fk) fk) (field fk) fields
      else fields)

  pub add_relations-IsExtended :
      (fks : List ForeignKey) (fields : ObjectFields)
      → length fields + length fks ≤ 2 ^ 63
      → IsExtended field allowed fks fields (add_relations fks fields)
  unfolding add_relations
  add_relations-IsExtended [] fields b = record {
    keeps = λ n f h. h;
    added = λ fk m a. absurd (Memᴰ.not-nil m);
    only = λ n f h. inl h;
  }
  add_relations-IsExtended (fk ∷ fks) fields b = elim (Bool-cases (allowed fk)) [
    | inl a ↦
        let k = rel_field_name fields (candidate fk) fk in
        rw a (
          is_allowed field allowed fk fks fields (add_relations fks (insert k (field fk) fields)) k
            a (rel_field_name-IsFreeName fields (candidate fk) fk (omega arith)).0
            (add_relations-IsExtended fks (insert k (field fk) fields)
              (omega (arith, length-insert k (field fk) fields))))
    | inr f ↦ rw f (
        not_allowed field allowed fk fks fields (add_relations fks fields) f
          (add_relations-IsExtended fks fields (omega arith)))
  ]

  pub add_relations-length :
      (fks : List ForeignKey) (fields : ObjectFields)
      → length (add_relations fks fields) ≤ length fields + length fks
  unfolding add_relations
  add_relations-length [] fields = omega arith
  add_relations-length (fk ∷ fks) fields = elim (Bool-cases (allowed fk)) [
    | inl a ↦
        let k = rel_field_name fields (candidate fk) fk in
        rw a (
          omega (
            arith,
            add_relations-length fks (insert k (field fk) fields),
            length-insert k (field fk) fields,
          ))
    | inr f ↦ rw f (omega (arith, add_relations-length fks fields))
  ]
