-- ===== src/Depth/Tests.antt =====
-- A document with two fragments, one of which spreads the other twice.
use mathlib.Core.Path.{subst}
use titanium_graph_api.Base.{
  ℕ, ◌≤◌, ◌≡◌, refl, [], ◌∷◌, Text, codes, some, if◌then◌else◌, text_eq, lookup, insert, member,
  length, map, arith, Bool-cases, inl, inr,
}
use titanium_graph_api.Base.Int.{pos}
use titanium_graph_api.Results.{ok, err, too_deep}
use titanium_graph_api.Depth.{
  plain_field, fragment_spread, Selections, no_selections, select, Document, Fragments,
  fragment_map, depth_of_set, fragment_depth, remove, check_operations, check_depth,
}
use titanium_graph_api.Depth.Reference.{nesting, spelled_out, IsBelow, IsAcyclic}
use titanium_graph_api.Depth.Check.{check_nestings, check_depth_lem}

run : Unit {0}
unfolding text_eq lookup insert member fragment_map depth_of_set fragment_depth remove
    check_operations check_depth IsBelow
run = tt

abbrev spread : Text → Selections → Selections
spread name ss = select (fragment_spread (some name)) ss

abbrev leaf : Selections
leaf = select (plain_field no_selections) no_selections

-- fragment A { author { ...B ...B } }
abbrev body_a : Selections
body_a = select (plain_field (spread (codes "B") (spread (codes "B") no_selections))) no_selections

-- { posts { ...A ...B } } fragment B { id }
abbrev doc : Document
doc = record {
  operations =
      select (plain_field (spread (codes "A") (spread (codes "B") no_selections))) no_selections
      ∷ [];
  fragments = (codes "A", body_a) ∷ (codes "B", leaf) ∷ [];
}

too_deep_by_one : check_depth doc (pos 2) ≡ err (too_deep 3)
unfolding run
too_deep_by_one = refl

deep_enough : check_depth doc (pos 3) ≡ ok tt
unfolding run
deep_enough = refl

abbrev frags : Fragments
frags = (codes "A", body_a) ∷ (codes "B", leaf) ∷ []

mapped : fragment_map doc.fragments [] ≡ frags
unfolding run
mapped = refl

abbrev rank : Text → ℕ
rank name = if text_eq (codes "A") name then 1 else 0

same_body : {a b : Selections} → some a ≡ some b → a ≡ b
same_body e = cc

IsBelow-a : IsBelow rank 1 body_a
unfolding run
IsBelow-a = ((omega arith, (omega arith, tt)), tt)

IsBelow-b : IsBelow rank 0 leaf
unfolding run
IsBelow-b = (tt, tt)

acyclic : IsAcyclic frags rank
unfolding lookup
acyclic name body e = elim (Bool-cases (text_eq (codes "A") name)) [
  | inl a ↦ rw a (subst (λ b. IsBelow rank 1 b) (same_body (rw a at e)) IsBelow-a)
  | inr a ↦ elim (Bool-cases (text_eq (codes "B") name)) [
    | inl b ↦ rw a (subst (λ s. IsBelow rank 0 s) (same_body (rw (a, b) at e)) IsBelow-b)
    | inr b ↦ absurd (cc (rw (a, b) at e))
  ]
]

bounded : (name : Text) → rank name ≤ length frags
bounded name = elim (Bool-cases (text_eq (codes "A") name)) [
  | inl a ↦ rw a (omega arith)
  | inr a ↦ rw a (omega arith)
]

check_depth_lem_example :
    check_depth doc (pos 2) ≡ check_nestings 2 (map (nesting (spelled_out 3 frags)) doc.operations)
unfolding fragment_map insert text_eq
check_depth_lem_example = check_depth_lem doc 2 rank acyclic bounded
