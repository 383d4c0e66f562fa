-- ===== src/Depth.antt =====
-- server/depth.go: checkDepth on a parsed document. The parser is a library's; a document that it
-- refuses passes, for the executor to report.
pub mod Reference
pub mod Memoised
pub mod Check
mod Tests
use titanium_graph_api.Base.{
  ℕ, zero, suc, ◌+◌, max, List, [], ◌∷◌, Text, Bool, true, false, Option, none, some, if◌then◌else◌,
  lookup, insert, member, text_eq, length, ltb,
}
use titanium_graph_api.Base.Int.{ℤ, pos, negsuc}
use titanium_graph_api.Results.{Result, ok, err, ◌>>=◌, too_deep}

-- A missing selection set is the empty one.
mutual
  pub data Selection : Type 0 where
    plain_field : Selections → Selection
    inline_fragment : Selections → Selection
    fragment_spread : Option Text → Selection

  pub data Selections : Type 0 where
    no_selections : Selections
    select : Selection → Selections → Selections

pub record Document : Type 0 where
  pub operations : List Selections
  pub fragments : List (Text × Selections)

abbrev pub Fragments : Type 0
Fragments = List (Text × Selections)

-- `fragments[f.Name.Value] = f`: the last definition of a name counts.
unfoldable pub fragment_map : List (Text × Selections) → Fragments → Fragments
fragment_map [] m = m
fragment_map ((name, body) ∷ rest) m = fragment_map rest (insert name body m)

-- The depths computed so far, and the fragments that are being computed.
pub record Memo : Type 0 where
  pub frag_depth : List (Text × ℕ)
  pub computing : List Text

abbrev pub Counter : Type 0
Counter = Text → Memo → ℕ × Memo

-- `delete(computing, name)`
unfoldable pub remove : Text → List Text → List Text
remove name [] = []
remove name (n ∷ ns) = if text_eq name n then remove name ns else n ∷ remove name ns

unfoldable mutual
  pub depth_of_set : Counter → Selections → Memo → ℕ × Memo
  depth_of_set count no_selections m = (0, m)
  depth_of_set count (select s ss) m =
      let (d, m1) = depth_of_selection count s m in
      let (n, m2) = depth_of_set count ss m1 in (max d n, m2)

  pub depth_of_selection : Counter → Selection → Memo → ℕ × Memo
  depth_of_selection count (plain_field ss) m = let (d, m1) = depth_of_set count ss m in (1 + d, m1)
  depth_of_selection count (inline_fragment ss) m = depth_of_set count ss m
  depth_of_selection count (fragment_spread none) m = (0, m)
  depth_of_selection count (fragment_spread (some name)) m = count name m

abbrev pub noted : Text → ℕ × Memo → ℕ × Memo
noted name (d, m) =
    (d, record { frag_depth = insert name d m.frag_depth; computing = remove name m.computing })

abbrev pub expand : Counter → Text → Memo → Option Selections → ℕ × Memo
expand count name m none = (0, m)
expand count name m (some body) =
    noted name (depth_of_set count body (record m { computing = name ∷ m.computing }))

abbrev pub unknown_depth : Counter → Fragments → Text → Memo → Option ℕ → ℕ × Memo
unknown_depth count frags name m (some d) = (d, m)
unknown_depth count frags name m none =
    if member name m.computing then (0, m) else expand count name m (lookup name frags)

-- The recursion through fragments, on fuel: every level adds a fragment to `computing`, so the
-- number of fragments bounds it.
unfoldable pub fragment_depth : ℕ → Fragments → Text → Memo → ℕ × Memo
unfolding depth_of_set remove
fragment_depth zero frags name m = (0, m)
fragment_depth (suc fuel) frags name m =
    unknown_depth (fragment_depth fuel frags) frags name m (lookup name m.frag_depth)

-- The loop over the operations, which share the memo.
unfoldable pub check_operations : Counter → ℕ → List Selections → Memo → Result (Unit {0})
unfolding depth_of_set
check_operations count max_depth [] m = ok tt
check_operations count max_depth (op ∷ ops) m =
    let (d, m1) = depth_of_set count op m in
    let rest = check_operations count max_depth ops m1 in
    if ltb max_depth d then err (too_deep d) else rest

-- A negative limit switches the check off.
unfoldable pub check_depth : Document → ℤ → Result (Unit {0})
unfolding fragment_map fragment_depth check_operations
check_depth doc (negsuc n) = ok tt
check_depth doc (pos max_depth) =
    let frags = fragment_map doc.fragments [] in
    check_operations (fragment_depth (suc (length frags)) frags) max_depth doc.operations
      (record { frag_depth = []; computing = [] })
