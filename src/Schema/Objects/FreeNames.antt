-- ===== src/Schema/Objects/FreeNames.antt =====
-- relFieldName comes to an end, with a free name.
use native.Mathlib.Decide.{ℕ_discrete}
use titanium_graph_api.Base.{
  ℕ, zero, suc, ◌+◌, ◌^◌, ◌≤◌, ◌<◌, ◌≡◌, ◌≢◌, ◌⊎◌, inl, inr, refl, sym, ap, ◌∙◌, List, [], ◌∷◌,
  ◌++◌, Text, Bool, true, false, Option, some, map, length-map, length, length-append, lookup,
  member, text_eq, text_eq_iff, Bool-cases, arith,
}
use titanium_graph_api.Base.Int.{pos}
use titanium_graph_api.Base.Numbers.{show_int}
use titanium_graph_api.Catalog.{ForeignKey}
use titanium_graph_api.Config.{digits_from}
use titanium_graph_api.Depth.{remove}
use titanium_graph_api.Schema.Scalars.Decimal.{read_back}
use titanium_graph_api.Schema.Objects.{
  ObjectFields, numbered, first_free, is_taken, by_columns, rel_field_name,
}

append-cancel : (p s t : Text) → p ++ s ≡ p ++ t → s ≡ t
append-cancel [] s t e = e
append-cancel (c ∷ p) s t e = append-cancel p s t (tail_eq e)
  where
    tail_eq : {a b : ℕ} {x y : Text} → a ∷ x ≡ b ∷ y → x ≡ y
    tail_eq e = cc

some_eq : {a b : ℕ} → ◌≡◌ {A = Option ℕ} (some a) (some b) → a ≡ b
some_eq e = cc

show_int-injective :
    (m n : ℕ) → m ≤ 2 ^ 63 → n ≤ 2 ^ 63 → show_int (pos m) ≡ show_int (pos n) → m ≡ n
unfolding show_int
show_int-injective m n h k e = some_eq (sym (read_back m h) ∙ ap (digits_from 0) e ∙ read_back n k)

longer : (s t : Text) (c : ℕ) → s ≢ s ++ c ∷ t
longer s t c e = absurd (omega (arith, ap length e, length-append s (c ∷ t)))

numbered-injective :
    (s : Text) (i j : ℕ) → i ≤ 2 ^ 63 → j ≤ 2 ^ 63 → numbered s i ≡ numbered s j → i ≡ j
unfolding numbered
numbered-injective s zero zero h k e = refl
numbered-injective s zero (suc j) h k e = absurd (longer s (show_int (pos (suc j))) b'_' e)
numbered-injective s (suc i) zero h k e = absurd (longer s (show_int (pos (suc i))) b'_' (sym e))
numbered-injective s (suc i) (suc j) h k e =
    show_int-injective (suc i) (suc j) h k (tail_eq (append-cancel s _ _ e))
  where
    tail_eq : {a b : ℕ} {x y : Text} → a ∷ x ≡ b ∷ y → x ≡ y
    tail_eq e = cc

-- Removing a name that is there makes a list shorter, and removes no other name.
remove-length-le : (k : Text) (ks : List Text) → length (remove k ks) ≤ length ks
unfolding remove
remove-length-le k [] = omega arith
remove-length-le k (j ∷ js) = elim (Bool-cases (text_eq k j)) [
  | inl e ↦ rw e (omega (arith, remove-length-le k js))
  | inr e ↦ rw e (omega (arith, remove-length-le k js))
]

remove-length : (k : Text) (ks : List Text) → member k ks ≡ true → length (remove k ks) < length ks
unfolding remove member
remove-length k [] h = cc
remove-length k (j ∷ js) h = elim (Bool-cases (text_eq k j)) [
  | inl e ↦ rw e (omega (arith, remove-length-le k js))
  | inr e ↦ rw e (omega (arith, remove-length k js (rw (not_same e) at h)))
]
  where
    not_same : text_eq k j ≡ false → text_eq j k ≡ false
    not_same e = ground (arith, text_eq_iff k j, text_eq_iff j k)

member-remove :
    (k n : Text) (ks : List Text) → k ≢ n → member n ks ≡ true → member n (remove k ks) ≡ true
unfolding remove member
member-remove k n [] ne h = cc
member-remove k n (j ∷ js) ne h =
    ground (arith, text_eq_iff k j, text_eq_iff j n, member-remove k n js ne)

no_member : (n : Text) → member n [] ≡ false
unfolding member
no_member n = refl

-- Which name the loop ends with: the first free one.
pub record Ends (taken : Text → Bool) (s : Text) (i fuel : ℕ) (name : Text) : Type 0 where
  pub round : ℕ
  pub after : i ≤ round
  pub before : round ≤ i + fuel
  pub named : name ≡ numbered s round
  pub free : taken (numbered s round) ≡ false
  pub earlier : (j : ℕ) → i ≤ j → j < round → taken (numbered s j) ≡ true

module _ (taken : Text → Bool) (s : Text) where
  -- The names that are taken from the round `i` on are in the list.
  abbrev Within : ℕ → ℕ → List Text → Type 0
  Within i fuel names =
      (j : ℕ)
      → i ≤ j
      → j ≤ i + fuel
      → taken (numbered s j) ≡ true
      → member (numbered s j) names ≡ true

  at_once :
      (fuel i : ℕ) (name : Text)
      → name ≡ numbered s i
      → taken (numbered s i) ≡ false
      → Ends taken s i fuel name
  at_once fuel i name e f = record {
    round = i;
    after = omega arith;
    before = omega arith;
    named = e;
    free = f;
    earlier = λ j h k. absurd (omega arith);
  }

  from_next :
      (fuel i : ℕ) (name : Text)
      → taken (numbered s i) ≡ true
      → Ends taken s (suc i) fuel name
      → Ends taken s i (suc fuel) name
  from_next fuel i name t e = record {
    round = e.round;
    after = omega (arith, e.after);
    before = omega (arith, e.before);
    named = e.named;
    free = e.free;
    earlier = λ j h k. elim (ℕ_discrete i j) [
      | yes same ↦ rw same at t
      | no other ↦ e.earlier j (omega arith) k
    ];
  }

  without :
      (fuel i : ℕ) (names : List Text)
      → i + suc fuel ≤ 2 ^ 63
      → Within i (suc fuel) names
      → Within (suc i) fuel (remove (numbered s i) names)
  without fuel i names b w j h k t =
      member-remove (numbered s i) (numbered s j) names
        (λ e. absurd (differ (numbered-injective s i j (omega arith) (omega arith) e)))
        (w j (omega arith) (omega arith) t)
    where
      differ : i ≡ j → ⊥
      differ e = omega arith

  first_free-Ends :
      (fuel i : ℕ) (names : List Text)
      → i + fuel ≤ 2 ^ 63
      → Within i fuel names
      → length names ≤ fuel
      → Ends taken s i fuel (first_free fuel taken s i)
  unfolding first_free
  first_free-Ends zero i [] b w l = elim (Bool-cases (taken (numbered s i))) [
    | inl t ↦ cc (no_member (numbered s i), w i (omega arith) (omega arith) t)
    | inr f ↦ at_once zero i (numbered s i) refl f
  ]
  first_free-Ends zero i (n ∷ names) b w l = absurd (omega arith)
  first_free-Ends (suc fuel) i names b w l = elim (Bool-cases (taken (numbered s i))) [
    | inr f ↦ rw f (at_once (suc fuel) i (numbered s i) refl f)
    | inl t ↦ rw t (
        from_next fuel i (first_free fuel taken s (suc i)) t (
          first_free-Ends fuel (suc i) (remove (numbered s i) names) (omega arith)
            (without fuel i names b w)
            (omega
              (arith, remove-length (numbered s i) names (w i (omega arith) (omega arith) t)))))
  ]

is_taken-member :
    (fields : ObjectFields) (n : Text)
    → is_taken fields n ≡ true
    → member n (map (λ e. e.0) fields) ≡ true
unfolding lookup member
is_taken-member [] n h = cc
is_taken-member ((k, v) ∷ fields) n h = elim (Bool-cases (text_eq k n)) [
  | inl e ↦ rw e refl
  | inr e ↦ rw e (is_taken-member fields n (rw e at h))
]

-- The candidate itself where it is free, and otherwise the first free numbered name.
abbrev pub IsFreeName : ObjectFields → Text → ForeignKey → Text → Type 0
IsFreeName fields candidate fk name =
    (is_taken fields name ≡ false)
    × (((is_taken fields candidate ≡ false) × (name ≡ candidate))
        ⊎ ((is_taken fields candidate ≡ true)
            × Ends (is_taken fields) (by_columns candidate fk) 0 (length fields) name))

-- The search for the name of a relation ends, after at most one round more than there are fields,
-- if these are fewer than 2 to the power of 63. The name is not taken; it is the candidate, if that
-- is free, and otherwise the first free one of the names that are made of it with the columns of the
-- key and a number.
pub rel_field_name-IsFreeName :
    (fields : ObjectFields) (candidate : Text) (fk : ForeignKey)
    → length fields < 2 ^ 63
    → IsFreeName fields candidate fk (rel_field_name fields candidate fk)
unfolding rel_field_name
rel_field_name-IsFreeName fields candidate fk b = elim (Bool-cases (is_taken fields candidate)) [
  | inr f ↦ rw f (f, inl (refl, refl))
  | inl t ↦
      let s = by_columns candidate fk in
      let e =
        first_free-Ends (is_taken fields) s (length fields) 0 (map (λ e. e.0) fields) (omega arith)
          (λ j h k t. is_taken-member fields (numbered s j) t)
          (omega (arith, length-map fields (λ e. e.0))) in
      rw t (ap (is_taken fields) e.named ∙ e.free, inr (refl, e))
]
