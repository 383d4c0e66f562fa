-- ===== src/Depth/Memoised.antt =====
-- The memoised scan counts what the fragments spelled out would give.
use titanium_graph_api.Base.{
  ℕ, zero, suc, ◌+◌, ◌≤◌, ◌<◌, max, ◌≡◌, refl, sym, ap, ap₂, ◌∙◌, List, [], ◌∷◌, Text, true, false,
  Option, none, some, if◌then◌else◌, lookup, lookup-insert, member, text_eq, text_eq_iff,
  text_eq_refl, arith, Bool-cases, inl, inr,
}
use titanium_graph_api.Depth.{
  Selection, plain_field, inline_fragment, fragment_spread, Selections, no_selections, select,
  Fragments, Memo, Counter, remove, depth_of_set, depth_of_selection, noted, expand, unknown_depth,
  fragment_depth,
}
use titanium_graph_api.Depth.Reference.{nesting, nesting_of, IsBelow, IsBelowOne, IsAcyclic}

module _ (frags : Fragments) (rank : Text → ℕ) where
  module _ (D : Text → ℕ) where
    abbrev pub IsKnown : Memo → Type 0
    IsKnown m = (name : Text) (d : ℕ) → lookup name m.frag_depth ≡ some d → d ≡ D name

    -- What is being computed has a rank of at least the bound.
    abbrev pub IsFree : ℕ → Memo → Type 0
    IsFree r m = (name : Text) → member name m.computing ≡ true → r ≤ rank name

    -- The right number, and a memo that holds right numbers only.
    pub record IsCount (m : Memo) (value : ℕ) (out : ℕ × Memo) : Type 0 where
      pub right : out.0 ≡ value
      pub known : IsKnown out.1
      pub same : out.1.computing ≡ m.computing

    abbrev pub CountsBelow : ℕ → Counter → Type 0
    CountsBelow r count =
        (name : Text) (m : Memo)
        → rank name < r
        → IsKnown m
        → IsFree r m
        → IsCount m (D name) (count name m)

    still-IsFree : (r : ℕ) (m m' : Memo) → m'.computing ≡ m.computing → IsFree r m → IsFree r m'
    still-IsFree r m m' e h name k = h name (rw e at k)

    module _ (r : ℕ) (count : Counter) (h : CountsBelow r count) where
      mutual
        unfolding depth_of_set nesting IsBelow

        pub set-IsCount :
            (ss : Selections) (m : Memo)
            → IsBelow rank r ss
            → IsKnown m
            → IsFree r m
            → IsCount m (nesting D ss) (depth_of_set count ss m)
        set-IsCount no_selections m b k f = record { right = refl; known = k; same = refl }
        set-IsCount (select s ss) m (b, bs) k f =
            let first = selection-IsCount s m b k f in
            let m1 = (depth_of_selection count s m).1 in
            let then_rest = set-IsCount ss m1 bs first.known (still-IsFree r m m1 first.same f) in
            record {
              right = ap₂ max first.right then_rest.right;
              known = then_rest.known;
              same = then_rest.same ∙ first.same;
            }

        selection-IsCount :
            (s : Selection) (m : Memo)
            → IsBelowOne rank r s
            → IsKnown m
            → IsFree r m
            → IsCount m (nesting_of D s) (depth_of_selection count s m)
        selection-IsCount (plain_field ss) m b k f =
            let inner = set-IsCount ss m b k f in
            record { right = ap (λ n. 1 + n) inner.right; known = inner.known; same = inner.same }
        selection-IsCount (inline_fragment ss) m b k f = set-IsCount ss m b k f
        selection-IsCount (fragment_spread none) m b k f = record {
          right = refl;
          known = k;
          same = refl;
        }
        selection-IsCount (fragment_spread (some name)) m b k f = h name m b k f

    -- `D` is the depth of a fragment in terms of those that it spreads.
    pub record IsDepth : Type 0 where
      pub unknown : (name : Text) → lookup name frags ≡ none → D name ≡ 0
      pub spelled :
          (name : Text) (body : Selections)
          → lookup name frags ≡ some body
          → D name ≡ nesting D body

    remove_absent : (name : Text) (ns : List Text) → member name ns ≡ false → remove name ns ≡ ns
    unfolding remove member
    remove_absent name [] h = refl
    remove_absent name (n ∷ ns) h = elim (Bool-cases (text_eq n name)) [
      | inl e ↦ absurd (cc (rw e at h))
      | inr e ↦ rw (apart name n e) (ap (λ l. n ∷ l) (remove_absent name ns (rw e at h)))
    ]
      where
        apart : (name n : Text) → text_eq n name ≡ false → text_eq name n ≡ false
        apart name n e = ground (arith, text_eq_iff n name, text_eq_iff name n)

    remove_head :
        (name : Text) (ns : List Text) → member name ns ≡ false → remove name (name ∷ ns) ≡ ns
    unfolding remove
    remove_head name ns h = rw (text_eq_refl name) (remove_absent name ns h)

    noted-IsCount :
        (name : Text) (m : Memo) (out : ℕ × Memo)
        → member name m.computing ≡ false
        → IsCount (record m { computing = name ∷ m.computing }) (D name) out
        → IsCount m (D name) (noted name out)
    noted-IsCount name m (d, m1) o c = record {
      right = c.right;
      known = λ other e h. elim (Bool-cases (text_eq name other)) [
        | inl same ↦ now_known other e same (rw (lookup-insert name other d m1.frag_depth) at h)
        | inr apart ↦ c.known other e (rw (lookup-insert name other d m1.frag_depth, apart) at h)
      ];
      same = ap (remove name) c.same ∙ remove_head name m.computing o;
    }
      where
        now_known :
            (other : Text) (e : ℕ)
            → text_eq name other ≡ true
            → (if text_eq name other then some d else lookup other m1.frag_depth) ≡ some e
            → e ≡ D other
        now_known other e same h = cc (c.right, (text_eq_iff name other).0 same, rw same at h)

    entering :
        (r : ℕ) (name : Text) (m : Memo)
        → rank name < r
        → IsFree r m
        → IsFree (rank name) (record m { computing = name ∷ m.computing })
    unfolding member
    entering r name m less f other h = elim (Bool-cases (text_eq name other)) [
      | inl e ↦
          let q : rank name ≡ rank other = ap rank ((text_eq_iff name other).0 e) in omega arith
      | inr e ↦ let q : r ≤ rank other = f other (rw e at h) in omega arith
    ]

    expand-IsCount :
        (r : ℕ) (count : Counter) (name : Text) (m : Memo) (o : Option Selections)
        → IsAcyclic frags rank
        → IsDepth
        → lookup name frags ≡ o
        → CountsBelow (rank name) count
        → rank name < r
        → member name m.computing ≡ false
        → IsKnown m
        → IsFree r m
        → IsCount m (D name) (expand count name m o)
    expand-IsCount r count name m none acyclic depth e h less o k f = record {
      right = sym (depth.unknown name e);
      known = k;
      same = refl;
    }
    expand-IsCount r count name m (some body) acyclic depth e h less o k f =
        let entered = record m { computing = name ∷ m.computing } in
        let inner =
          set-IsCount (rank name) count h body entered (acyclic name body e) k
            (entering r name m less f) in
        noted-IsCount name m (depth_of_set count body entered) o (record {
          right = inner.right ∙ sym (depth.spelled name body e);
          known = inner.known;
          same = inner.same;
        })

    unknown-IsCount :
        (r : ℕ) (count : Counter) (name : Text) (m : Memo) (o : Option ℕ)
        → IsAcyclic frags rank
        → IsDepth
        → lookup name m.frag_depth ≡ o
        → CountsBelow (rank name) count
        → rank name < r
        → IsKnown m
        → IsFree r m
        → IsCount m (D name) (unknown_depth count frags name m o)
    unknown-IsCount r count name m (some d) acyclic depth e h less k f = record {
      right = k name d e;
      known = k;
      same = refl;
    }
    unknown-IsCount r count name m none acyclic depth e h less k f =
        elim (Bool-cases (member name m.computing)) [
          | inl i ↦ absurd (too_low (f name i))
          | inr o ↦
              rw o
                (expand-IsCount r count name m (lookup name frags) acyclic depth refl h less o k f)
        ]
      where
        too_low : r ≤ rank name → ⊥
        too_low q = omega arith

    pub fragment_depth-IsCount :
        IsAcyclic frags rank
        → IsDepth
        → (fuel r : ℕ) → r ≤ fuel
        → CountsBelow r (fragment_depth fuel frags)
    unfolding fragment_depth
    fragment_depth-IsCount acyclic depth zero r q name m less k f = absurd (omega arith)
    fragment_depth-IsCount acyclic depth (suc fuel) r q name m less k f =
        unknown-IsCount r (fragment_depth fuel frags) name m (lookup name m.frag_depth) acyclic
          depth refl (fragment_depth-IsCount acyclic depth fuel (rank name) (omega arith)) less k f
