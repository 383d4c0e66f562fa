-- ===== src/Schema/Selections/Flattened.antt =====
-- flattenFields comes to an end on acyclic fragments, and the fuel of its model is enough.
use titanium_graph_api.Base.{
  ℕ, zero, suc, ◌≤◌, ◌<◌, ◌≡◌, refl, ap₂, ◌++◌, Text, none, some, length, lookup, arith,
  Option-cases, inl, inr,
}
use titanium_graph_api.Schema.Selections.{
  Node, field_node, inline_node, spread_node, Nodes, no_nodes, node, Fragments, Spread, flatten_set,
  flatten_one, flatten_body, flatten_spread,
}

unfoldable mutual
  -- The rank of every fragment that is spread at this level is below the bound.
  pub Spreads : (Text → ℕ) → ℕ → Nodes → Type 0
  Spreads rank r no_nodes = Unit
  Spreads rank r (node n ns) = SpreadsOne rank r n × Spreads rank r ns

  pub SpreadsOne : (Text → ℕ) → ℕ → Node → Type 0
  SpreadsOne rank r (field_node name ss) = Unit
  SpreadsOne rank r (inline_node ss) = Spreads rank r ss
  SpreadsOne rank r (spread_node none) = Unit
  SpreadsOne rank r (spread_node (some name)) = rank name < r

module _ (fragments : Fragments) (rank : Text → ℕ) where
  -- Each fragment spreads fragments of smaller rank only.
  abbrev pub IsAcyclic : Type 0
  IsAcyclic =
      (name : Text) (body : Nodes)
      → lookup name fragments ≡ some body
      → Spreads rank (rank name) body

  mutual
    unfolding flatten_set Spreads

    set_agree :
        (f g : Spread) (r : ℕ)
        → ((name : Text) → rank name < r → f name ≡ g name)
        → (ns : Nodes) → Spreads rank r ns
        → flatten_set f ns ≡ flatten_set g ns
    set_agree f g r h no_nodes b = refl
    set_agree f g r h (node n ns) (b, bs) =
        ap₂ (λ x y. x ++ y) (one_agree f g r h n b) (set_agree f g r h ns bs)

    one_agree :
        (f g : Spread) (r : ℕ)
        → ((name : Text) → rank name < r → f name ≡ g name)
        → (n : Node) → SpreadsOne rank r n
        → flatten_one f n ≡ flatten_one g n
    one_agree f g r h (field_node name ss) b = refl
    one_agree f g r h (inline_node ss) b = set_agree f g r h ss b
    one_agree f g r h (spread_node none) b = refl
    one_agree f g r h (spread_node (some name)) b = h name b

  spread_enough :
      IsAcyclic
      → (m n : ℕ) (name : Text) → rank name < m
      → rank name < n
      → flatten_spread m fragments name ≡ flatten_spread n fragments name
  unfolding flatten_spread
  spread_enough acyclic zero n name h k = absurd (omega arith)
  spread_enough acyclic (suc m) zero name h k = absurd (omega arith)
  spread_enough acyclic (suc m) (suc n) name h k = elim (Option-cases (lookup name fragments)) [
    | inl e ↦ rw e refl
    | inr (body, e) ↦ rw e (
        set_agree (flatten_spread m fragments) (flatten_spread n fragments) (rank name)
          (λ other less. spread_enough acyclic m n other (omega arith) (omega arith)) body
          (acyclic name body e))
  ]

  -- If the fragments are acyclic, with ranks of at most their number, then the recursion through
  -- them ends: the fields of a spread fragment are those of its body, spelled out in the same way,
  -- and more fuel gives no other fields for any fragment.
  flatten_spread_total :
      IsAcyclic
      → ((name : Text) → rank name ≤ length fragments)
      → (name : Text)
      → (flatten_spread (suc (length fragments)) fragments name
          ≡ flatten_body
              (flatten_spread (suc (length fragments)) fragments)
              (lookup name fragments))
        × ((more : ℕ)
            → length fragments ≤ more
            → flatten_spread (suc more) fragments name
              ≡ flatten_spread (suc (length fragments)) fragments name)
  unfolding flatten_spread
  flatten_spread_total acyclic bounded name = (
    spread_enough acyclic (suc (length fragments)) (suc (suc (length fragments))) name
        (below name (suc (length fragments)) (omega arith))
        (below name (suc (suc (length fragments))) (omega arith)),
    λ more h.
        spread_enough acyclic (suc more) (suc (length fragments)) name
          (below name (suc more) (omega arith)) (below name (suc (length fragments)) (omega arith)),
  )
    where
      below : (name : Text) (n : ℕ) → length fragments < n → rank name < n
      below name n h = let q : rank name ≤ length fragments = bounded name in omega arith
