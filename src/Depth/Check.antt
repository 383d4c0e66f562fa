-- ===== src/Depth/Check.antt =====
-- checkDepth: the memoised check against the nesting of the document with its fragments spelled out.
use titanium_graph_api.Base.{
  ℕ, suc, ◌≤◌, ◌<◌, ◌≡◌, refl, ap₂, ◌∙◌, List, [], ◌∷◌, Text, none, some, if◌then◌else◌, lookup,
  member, map, length, arith, ltb,
}
use titanium_graph_api.Base.Int.{pos}
use titanium_graph_api.Results.{Result, ok, err, too_deep}
use titanium_graph_api.Depth.{
  Selection, plain_field, inline_fragment, fragment_spread, Selections, no_selections, select,
  Document, Fragments, Memo, fragment_map, depth_of_set, fragment_depth, check_operations,
  check_depth,
}
use titanium_graph_api.Depth.Reference.{
  nesting, spelled_out, IsBelow, IsBelowOne, IsAcyclic, nesting-agree, spelled_out-enough,
}
use titanium_graph_api.Depth.Memoised.{
  IsKnown, IsFree, IsDepth, set-IsCount, fragment_depth-IsCount,
}

-- The first operation that nests too deep is reported.
unfoldable pub check_nestings : ℕ → List ℕ → Result (Unit {0})
check_nestings limit [] = ok tt
check_nestings limit (d ∷ ds) = if ltb limit d then err (too_deep d) else check_nestings limit ds

module _ (frags : Fragments) (rank : Text → ℕ)
    (bounded : (name : Text) → rank name ≤ length frags) where
  abbrev D : Text → ℕ
  D name = spelled_out (suc (length frags)) frags name

  mutual
    unfolding IsBelow

    bounded-IsBelow : (ss : Selections) → IsBelow rank (suc (length frags)) ss
    bounded-IsBelow no_selections = tt
    bounded-IsBelow (select s ss) = (bounded_one s, bounded-IsBelow ss)

    bounded_one : (s : Selection) → IsBelowOne rank (suc (length frags)) s
    bounded_one (plain_field ss) = bounded-IsBelow ss
    bounded_one (inline_fragment ss) = bounded-IsBelow ss
    bounded_one (fragment_spread none) = tt
    bounded_one (fragment_spread (some name)) =
        let q : rank name ≤ length frags = bounded name in omega arith

  spelled_out-IsDepth : IsAcyclic frags rank → IsDepth frags rank D
  unfolding spelled_out
  spelled_out-IsDepth acyclic = record {
    unknown = λ name e. rw e refl;
    spelled = λ name body e. rw e (
        nesting-agree frags rank (spelled_out (length frags) frags) D (rank name)
          (λ other less.
            spelled_out-enough frags rank acyclic (length frags) (suc (length frags)) other
              (below name other less) (below_suc name other less))
          body (acyclic name body e));
  }
    where
      below : (name other : Text) → rank other < rank name → rank other < length frags
      below name other less = let q : rank name ≤ length frags = bounded name in omega arith

      below_suc : (name other : Text) → rank other < rank name → rank other < suc (length frags)
      below_suc name other less = let q : rank name ≤ length frags = bounded name in omega arith

  nothing_computed : (m : Memo) → m.computing ≡ [] → IsFree frags rank D (suc (length frags)) m
  unfolding member
  nothing_computed m e name h = absurd (cc (rw e at h))

  check_operations_lem :
      IsAcyclic frags rank
      → (limit : ℕ) (ops : List Selections) (m : Memo) → IsKnown frags rank D m
      → m.computing ≡ []
      → check_operations (fragment_depth (suc (length frags)) frags) limit ops m
        ≡ check_nestings limit (map (nesting D) ops)
  unfolding check_operations check_nestings
  check_operations_lem acyclic limit [] m k e = refl
  check_operations_lem acyclic limit (op ∷ ops) m k e =
      let count = fragment_depth (suc (length frags)) frags in
      let scanned =
        set-IsCount frags rank D (suc (length frags)) count
          (fragment_depth-IsCount frags rank D acyclic (spelled_out-IsDepth acyclic)
            (suc (length frags)) (suc (length frags)) (omega arith))
          op m (bounded-IsBelow op) k (nothing_computed m e) in
      ap₂ (λ d rest. if ltb limit d then err (too_deep d) else rest) scanned.right
        (check_operations_lem acyclic limit ops (depth_of_set count op m).1 scanned.known
          (scanned.same ∙ e))

-- Suppose that the fragments of a document are acyclic: each has a rank, at most their number, that
-- is larger than the ranks of those it spreads. Then the memoised check, with its fuel, gives
-- exactly the verdict of measuring every operation with all fragments spelled out: the first
-- operation that nests deeper than the limit is reported with its depth, and otherwise the
-- document passes.
pub check_depth_lem :
    (doc : Document) (limit : ℕ) (rank : Text → ℕ)
    → IsAcyclic (fragment_map doc.fragments []) rank
    → ((name : Text) → rank name ≤ length (fragment_map doc.fragments []))
    → check_depth doc (pos limit)
      ≡ check_nestings limit (
          map
            (nesting (
              spelled_out
                (suc (length (fragment_map doc.fragments [])))
                (fragment_map doc.fragments [])))
            doc.operations)
unfolding check_depth lookup
check_depth_lem doc limit rank acyclic bounded =
    check_operations_lem (fragment_map doc.fragments []) rank bounded acyclic limit doc.operations
      (record { frag_depth = []; computing = [] }) (λ name d e. absurd (cc e)) refl
