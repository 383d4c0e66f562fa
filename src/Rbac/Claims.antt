-- ===== src/Rbac/Claims.antt =====
-- LookupClaim finds a claim exactly when some reading of the dot path leads to one, and then takes
-- the reading that is greedy at every level.
use native.Mathlib.Decide.{ℕ_discrete}
use titanium_graph_api.Base.{
  ℕ, zero, suc, ◌-◌, ◌≤◌, ◌<◌, ◌≡◌, refl, [], ◌∷◌, Text, true, Option, none, some, get_elem?, take,
  drop, length, length-drop, lookup, arith, inl, inr, Option-cases, Bool-cases,
}
use titanium_graph_api.Value.{Value, obj, Fields, entries}
use titanium_graph_api.Rbac.{
  dot, is_dot, or_else, descend, attempt, try_splits, lookup_nested, lookup_claim,
}

abbrev pub HasDot : Text → ℕ → Type 0
HasDot path i = (0 < i) × (get_elem? path i ≡ some dot)

-- A claim name may contain dots: a path is read as one name, or is split at any of its dots.
pub data Resolves : Fields → Text → Value → Type 0 where
  whole :
      {claims : Fields} {path : Text} {v : Value}
      → lookup path (entries claims) ≡ some v
      → Resolves claims path v
  split :
      {claims : Fields} {path : Text} {v : Value} (i : ℕ) (m : Fields)
      → HasDot path i
      → lookup (take i path) (entries claims) ≡ some (obj m)
      → Resolves m (drop (suc i) path) v
      → Resolves claims path v

-- The greedy reading: the whole path if it is a claim, and otherwise the last dot behind whose
-- name the rest resolves.
pub data Greedy : Fields → Text → Value → Type 0 where
  whole :
      {claims : Fields} {path : Text} {v : Value}
      → lookup path (entries claims) ≡ some v
      → Greedy claims path v
  split :
      {claims : Fields} {path : Text} {v : Value} (i : ℕ) (m : Fields)
      → lookup path (entries claims) ≡ none
      → HasDot path i
      → lookup (take i path) (entries claims) ≡ some (obj m)
      → Greedy m (drop (suc i) path) v
      → ((j : ℕ) (m' : Fields) (w : Value)
          → i < j
          → HasDot path j
          → lookup (take j path) (entries claims) ≡ some (obj m')
          → ¬ Resolves m' (drop (suc j) path) w)
      → Greedy claims path v

get_elem?-lt : (s : Text) (i : ℕ) {c : ℕ} → get_elem? s i ≡ some c → i < length s
get_elem?-lt [] i h = cc
get_elem?-lt (d ∷ s) zero h = omega arith
get_elem?-lt (d ∷ s) (suc i) h = omega (arith, get_elem?-lt s i h)

drop-lt : (s : Text) (i : ℕ) {c : ℕ} → get_elem? s i ≡ some c → length (drop (suc i) s) < length s
drop-lt s i h = omega (arith, length-drop (suc i) s, get_elem?-lt s i h)

is_dot-eq-true : (o : Option ℕ) → is_dot o ≡ true → o ≡ some dot
is_dot-eq-true none h = cc
is_dot-eq-true (some c) h = ground arith

descend-eq-some :
    (look : Fields → Text → Option Value) (o : Option Value) (rest : Text) {v : Value}
    → descend look o rest ≡ some v
    → (m : Fields) × (o ≡ some (obj m)) × (look m rest ≡ some v)
descend-eq-some look (some (obj m)) rest h = (m, refl, h)
descend-eq-some look o rest h = cc

or_else-eq-none : (a b : Option Value) → or_else a b ≡ none → (a ≡ none) × (b ≡ none)
or_else-eq-none none b h = (refl, h)
or_else-eq-none (some v) b h = cc

-- One level of the search, over any way to look the rest up.
module _ (look : Fields → Text → Option Value) (claims : Fields) (path : Text) where
  attempt-eq-some :
      (i : ℕ) {v : Value}
      → attempt look claims path i ≡ some v
      → (get_elem? path i ≡ some dot)
        × ((m : Fields) × (lookup (take i path) (entries claims) ≡ some (obj m))
            × (look m (drop (suc i) path) ≡ some v))
  unfolding attempt
  attempt-eq-some i h = elim (Bool-cases (is_dot (get_elem? path i))) [
    | inl here ↦ (is_dot-eq-true _ here, descend-eq-some look _ _ (rw here at h))
    | inr other ↦ cc (rw other at h)
  ]

  attempt-eq-none :
      (i : ℕ) (m : Fields)
      → attempt look claims path i ≡ none
      → get_elem? path i ≡ some dot
      → lookup (take i path) (entries claims) ≡ some (obj m)
      → look m (drop (suc i) path) ≡ none
  unfolding attempt
  attempt-eq-none i m h d l = ground arith

  -- The round at which the search succeeds, and the failure of every round before it.
  record Found (n : ℕ) (v : Value) : Type 0 where
    at : ℕ
    bound : at ≤ n
    positive : 0 < at
    dotted : get_elem? path at ≡ some dot
    inner : Fields
    stands : lookup (take at path) (entries claims) ≡ some (obj inner)
    result : look inner (drop (suc at) path) ≡ some v
    earlier : (j : ℕ) → at < j → j ≤ n → attempt look claims path j ≡ none

  at_or_below :
      (n j : ℕ)
      → j ≤ suc n
      → attempt look claims path (suc n) ≡ none
      → (j ≤ n → attempt look claims path j ≡ none)
      → attempt look claims path j ≡ none
  at_or_below n j le e below = elim (ℕ_discrete j (suc n)) [
    | yes same ↦ rw same e
    | no other ↦ below (omega arith)
  ]

  try_splits-eq-some : (n : ℕ) {v : Value} → try_splits look claims path n ≡ some v → Found n v
  unfolding try_splits
  try_splits-eq-some zero h = cc
  try_splits-eq-some (suc n) h = elim (Option-cases (attempt look claims path (suc n))) [
    | inr (w, e) ↦
        let (d, (m, l, r)) = attempt-eq-some (suc n) e in
        record {
          at = suc n;
          bound = omega arith;
          positive = omega arith;
          dotted = d;
          inner = m;
          stands = l;
          result = ground arith;
          earlier = λ j lt le. absurd (omega arith);
        }
    | inl e ↦
        let f = try_splits-eq-some n (rw e at h) in
        record {
          at = f.at;
          bound = omega (arith, f.bound);
          positive = f.positive;
          dotted = f.dotted;
          inner = f.inner;
          stands = f.stands;
          result = f.result;
          earlier = λ j lt le. at_or_below n j le e (λ le'. f.earlier j lt le');
        }
  ]

  try_splits-eq-none :
      (n : ℕ)
      → try_splits look claims path n ≡ none
      → (j : ℕ) → 0 < j
      → j ≤ n
      → attempt look claims path j ≡ none
  unfolding try_splits
  try_splits-eq-none zero h j pos le = absurd (omega arith)
  try_splits-eq-none (suc n) h j pos le =
      let (first, rest) = or_else-eq-none _ _ h in
      at_or_below n j le first (try_splits-eq-none n rest j pos)

-- With enough fuel, a failure means that no reading of the path resolves.
lookup_nested_complete :
    (f : ℕ) (claims : Fields) (path : Text)
    → length path < f
    → lookup_nested f claims path ≡ none
    → (v : Value) → ¬ Resolves claims path v
unfolding lookup_nested
lookup_nested_complete zero claims path lt h v r = absurd (omega arith)
lookup_nested_complete (suc f) claims path lt h v (whole e) =
    let (no_whole, rest) =
      or_else-eq-none (lookup path (entries claims))
        (try_splits (lookup_nested f) claims path (length path - 1)) h in
    cc
lookup_nested_complete (suc f) claims path lt h v (split i m (pos, d) l r) =
    let (no_whole, rest) =
      or_else-eq-none (lookup path (entries claims))
        (try_splits (lookup_nested f) claims path (length path - 1)) h in
    let none_here =
      try_splits-eq-none (lookup_nested f) claims path (length path - 1) rest i pos
        (omega (arith, get_elem?-lt path i d)) in
    lookup_nested_complete f m (drop (suc i) path) (omega (arith, drop-lt path i d))
      (attempt-eq-none (lookup_nested f) claims path i m none_here d l) v r

lookup_nested_sound :
    (f : ℕ) (claims : Fields) (path : Text) {v : Value}
    → length path < f
    → lookup_nested f claims path ≡ some v
    → Greedy claims path v
unfolding lookup_nested
lookup_nested_sound zero claims path lt h = absurd (omega arith)
lookup_nested_sound (suc f) claims path lt h = elim (Option-cases (lookup path (entries claims))) [
  | inr (w, e) ↦ whole (ground arith)
  | inl e ↦
      let g = try_splits-eq-some (lookup_nested f) claims path _ (rw e at h) in
      split g.at g.inner e (g.positive, g.dotted) g.stands
        (lookup_nested_sound f g.inner _ (omega (arith, drop-lt path g.at g.dotted)) g.result)
        (λ j m' w lt_j (pos, d) l.
          lookup_nested_complete f m' _ (omega (arith, drop-lt path j d))
            (attempt-eq-none (lookup_nested f) claims path j m'
              (g.earlier j lt_j (omega (arith, get_elem?-lt path j d))) d l)
            w)
]

-- A claim that is found is the one that the greedy reading of the path leads to.
pub lookup_claim-Greedy :
    (claims : Fields) (path : Text) {v : Value}
    → lookup_claim claims path ≡ some v
    → Greedy claims path v
unfolding lookup_claim
lookup_claim-Greedy claims path h =
    lookup_nested_sound (suc (length path)) claims path (omega arith) h

-- A claim is reported missing only if no reading of the path, at any depth, leads to a value.
pub lookup_claim_complete :
    (claims : Fields) (path : Text)
    → lookup_claim claims path ≡ none
    → (v : Value) → ¬ Resolves claims path v
unfolding lookup_claim
lookup_claim_complete claims path h =
    lookup_nested_complete (suc (length path)) claims path (omega arith) h
