-- ===== src/Depth/Reference.antt =====
-- The depth of a selection set, with every fragment spelled out anew, and the memoised scan.
use titanium_graph_api.Base.{
  ℕ, zero, suc, ◌+◌, ◌<◌, max, ◌≡◌, refl, ap, ap₂, Text, Option, none, some, lookup, arith,
  Option-cases, inl, inr,
}
use titanium_graph_api.Depth.{
  Selection, plain_field, inline_fragment, fragment_spread, Selections, no_selections, select,
  Fragments,
}

unfoldable mutual
  -- The nesting of fields, given the depth of each fragment.
  pub nesting : (Text → ℕ) → Selections → ℕ
  nesting depth no_selections = 0
  nesting depth (select s ss) = max (nesting_of depth s) (nesting depth ss)

  pub nesting_of : (Text → ℕ) → Selection → ℕ
  nesting_of depth (plain_field ss) = 1 + nesting depth ss
  nesting_of depth (inline_fragment ss) = nesting depth ss
  nesting_of depth (fragment_spread none) = 0
  nesting_of depth (fragment_spread (some name)) = depth name

abbrev pub nesting_in : (Text → ℕ) → Option Selections → ℕ
nesting_in depth none = 0
nesting_in depth (some body) = nesting depth body

-- Fragments spelled out `n` levels deep.
unfoldable pub spelled_out : ℕ → Fragments → Text → ℕ
unfolding nesting
spelled_out zero frags name = 0
spelled_out (suc n) frags name = nesting_in (spelled_out n frags) (lookup name frags)

unfoldable mutual
  -- The rank of every fragment that the set spreads is below the bound.
  pub IsBelow : (Text → ℕ) → ℕ → Selections → Type 0
  IsBelow rank r no_selections = Unit
  IsBelow rank r (select s ss) = IsBelowOne rank r s × IsBelow rank r ss

  pub IsBelowOne : (Text → ℕ) → ℕ → Selection → Type 0
  IsBelowOne rank r (plain_field ss) = IsBelow rank r ss
  IsBelowOne rank r (inline_fragment ss) = IsBelow rank r ss
  IsBelowOne rank r (fragment_spread none) = Unit
  IsBelowOne rank r (fragment_spread (some name)) = rank name < r

module _ (frags : Fragments) (rank : Text → ℕ) where
  -- Each fragment spreads fragments of smaller rank only: there is no cycle.
  abbrev pub IsAcyclic : Type 0
  IsAcyclic =
      (name : Text) (body : Selections)
      → lookup name frags ≡ some body
      → IsBelow rank (rank name) body

  mutual
    unfolding nesting IsBelow

    pub nesting-agree :
        (f g : Text → ℕ) (r : ℕ)
        → ((name : Text) → rank name < r → f name ≡ g name)
        → (ss : Selections) → IsBelow rank r ss
        → nesting f ss ≡ nesting g ss
    nesting-agree f g r h no_selections b = refl
    nesting-agree f g r h (select s ss) (b, bs) =
        ap₂ max (one_agree f g r h s b) (nesting-agree f g r h ss bs)

    one_agree :
        (f g : Text → ℕ) (r : ℕ)
        → ((name : Text) → rank name < r → f name ≡ g name)
        → (s : Selection) → IsBelowOne rank r s
        → nesting_of f s ≡ nesting_of g s
    one_agree f g r h (plain_field ss) b = ap (λ n. 1 + n) (nesting-agree f g r h ss b)
    one_agree f g r h (inline_fragment ss) b = nesting-agree f g r h ss b
    one_agree f g r h (fragment_spread none) b = refl
    one_agree f g r h (fragment_spread (some name)) b = h name b

  -- Beyond its rank, spelling a fragment out deeper changes nothing.
  pub spelled_out-enough :
      IsAcyclic
      → (m n : ℕ) (name : Text) → rank name < m
      → rank name < n
      → spelled_out m frags name ≡ spelled_out n frags name
  unfolding spelled_out
  spelled_out-enough acyclic zero n name h k = absurd (omega arith)
  spelled_out-enough acyclic (suc m) zero name h k = absurd (omega arith)
  spelled_out-enough acyclic (suc m) (suc n) name h k = elim (Option-cases (lookup name frags)) [
    | inl e ↦ rw e refl
    | inr (body, e) ↦ rw e (
        nesting-agree (spelled_out m frags) (spelled_out n frags) (rank name)
          (λ other less. spelled_out-enough acyclic m n other (omega arith) (omega arith)) body
          (acyclic name body e))
  ]
