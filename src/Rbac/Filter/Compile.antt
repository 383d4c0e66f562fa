-- ===== src/Rbac/Filter/Compile.antt =====
-- CompileFilter loses nothing of the expression, and cuts out every claim reference.
use mathlib.Core.Path.{subst}
use titanium_graph_api.Base.{
  ℕ, zero, suc, ◌+◌, ◌≡◌, refl, ◌≢◌, ap, List, [], ◌∷◌, ◌++◌, Text, true, none, some, ◌∙◌, length,
  drop, cut_prefix, cut_prefix-eq-some, arith, All, Option-cases, Bool-cases, inl, inr, append-nil,
  codes,
}
use titanium_graph_api.Rbac.Filter.{
  starts_word, more_path, claim_path, jwt_prefix, non_empty, ref_at, is_claim_path, RowFilter,
  push_byte, cut_refs, compile_filter,
}
use titanium_graph_api.Results.{ok}

-- The expression that a list of segments and a list of paths were cut from.
unfoldable pub weave : List Text → List Text → Text
weave [] paths = []
weave (seg ∷ segs) [] = seg
weave (seg ∷ segs) (path ∷ paths) = seg ++ (jwt_prefix ++ (path ++ weave segs paths))

more_path-prefix : (s : Text) → s ≡ more_path s ++ drop (length (more_path s)) s
unfolding more_path
more_path-prefix [] = refl
more_path-prefix (c ∷ s) = ground (arith, more_path-prefix s)

claim_path-prefix : (s : Text) → s ≡ claim_path s ++ drop (length (claim_path s)) s
unfolding claim_path
claim_path-prefix s = ground (arith, more_path-prefix s)

non_empty-eq-some : (s : Text) {t : Text} → non_empty s ≡ some t → s ≡ t
non_empty-eq-some [] h = cc
non_empty-eq-some (c ∷ s) h = cc

non_empty-ne-nil : (s : Text) {t : Text} → non_empty s ≡ some t → t ≢ []
non_empty-ne-nil [] h = cc
non_empty-ne-nil (c ∷ s) h = cc

-- A reference is the prefix, its path, and the text behind them.
ref_at-eq-some :
    (s path : Text)
    → ref_at s ≡ some path
    → (t : Text) × (s ≡ jwt_prefix ++ t) × (claim_path t ≡ path) × (path ≢ [])
unfolding ref_at
ref_at-eq-some s path h = elim (Option-cases (cut_prefix jwt_prefix s)) [
  | inl e ↦ cc (rw (e, ref_at) at h)
  | inr (t, e) ↦ (
    t,
    cut_prefix-eq-some jwt_prefix s t e,
    non_empty-eq-some (claim_path t) (ground arith),
    non_empty-ne-nil (claim_path t) (ground arith),
  )
]

push_byte-ne-nil : (c : ℕ) (segs : List Text) → push_byte c segs ≢ []
push_byte-ne-nil c [] = cc
push_byte-ne-nil c (seg ∷ segs) = cc

push_byte-weave :
    (c : ℕ) (segs paths : List Text)
    → segs ≢ []
    → weave (push_byte c segs) paths ≡ c ∷ weave segs paths
unfolding weave
push_byte-weave c [] paths h = absurd (h refl)
push_byte-weave c (seg ∷ segs) [] h = refl
push_byte-weave c (seg ∷ segs) (p ∷ ps) h = refl

cut_refs-ne-nil : (k : ℕ) (s : Text) → (cut_refs k s).segments ≢ []
unfolding cut_refs
cut_refs-ne-nil zero [] = cc
cut_refs-ne-nil (suc k) [] = cc
cut_refs-ne-nil (suc k) (c ∷ s) = cut_refs-ne-nil k s
cut_refs-ne-nil zero (c ∷ s) = elim (Option-cases (ref_at (c ∷ s))) [
  | inl e ↦ rw (e, cut_refs) (push_byte-ne-nil c (cut_refs zero s).segments)
  | inr (path, e) ↦ rw (e, cut_refs) (cc)
]

drop-jwt : (c : ℕ) (s t : Text) (n : ℕ) → c ∷ s ≡ jwt_prefix ++ t → drop (n + 4) s ≡ drop n t
drop-jwt c s t n h =
    let e : n + 4 ≡ suc (suc (suc (suc n))) = omega arith in
    let tail : s ≡ codes "jwt." ++ t = cc in rw (e, tail)

cut_refs-weave : (k : ℕ) (s : Text) → weave (cut_refs k s).segments (cut_refs k s).paths ≡ drop k s
unfolding cut_refs weave
cut_refs-weave zero [] = refl
cut_refs-weave (suc k) [] = refl
cut_refs-weave (suc k) (c ∷ s) = cut_refs-weave k s
cut_refs-weave zero (c ∷ s) = elim (Option-cases (ref_at (c ∷ s))) [
  | inl e ↦
      rw (e, cut_refs)
        (push_byte-weave c _ _ (cut_refs-ne-nil zero s) ∙ ap (λ t. c ∷ t) (cut_refs-weave zero s))
  | inr (path, e) ↦
      let (t, whole, taken, _) = ref_at-eq-some (c ∷ s) path e in
      rw (
        e,
        cut_refs,
        cut_refs-weave (length path + 4) s,
        whole,
        drop-jwt c s t (length path) whole,
        ← taken,
        ← claim_path-prefix t,
      )
]

-- Every path is a claim path: words joined by single dots.
more_path-more_path : (s : Text) → more_path (more_path s) ≡ more_path s
unfolding more_path
more_path-more_path [] = refl
more_path-more_path (c ∷ []) = ground arith
more_path-more_path (c ∷ d ∷ s) = ground (arith, more_path-more_path (d ∷ s))

claim_path-starts : (s : Text) → starts_word s ≡ true → starts_word (more_path s) ≡ true
unfolding more_path
claim_path-starts [] h = cc
claim_path-starts (c ∷ s) h = ground arith

claim_path-IsClaimPath : (t : Text) → claim_path t ≢ [] → is_claim_path (claim_path t) ≡ true
unfolding is_claim_path claim_path
claim_path-IsClaimPath t h = elim (Bool-cases (starts_word t)) [
  | inl e ↦ rw (e, claim_path-starts t e, more_path-more_path t) (ground arith)
  | inr e ↦ absurd (h (rw e))
]

ref_at-IsClaimPath : (s path : Text) → ref_at s ≡ some path → is_claim_path path ≡ true
ref_at-IsClaimPath s path h =
    let (t, whole, taken, full) = ref_at-eq-some s path h in
    subst (λ p. is_claim_path p ≡ true) taken (claim_path-IsClaimPath t (rw taken full))

cut_refs-paths : (k : ℕ) (s : Text) → All (λ p. is_claim_path p ≡ true) (cut_refs k s).paths
unfolding cut_refs
cut_refs-paths zero [] = tt
cut_refs-paths (suc k) [] = tt
cut_refs-paths (suc k) (c ∷ s) = cut_refs-paths k s
cut_refs-paths zero (c ∷ s) = elim (Option-cases (ref_at (c ∷ s))) [
  | inl e ↦ rw (e, cut_refs) (cut_refs-paths zero s)
  | inr (path, e) ↦
      rw (e, cut_refs) (ref_at-IsClaimPath (c ∷ s) path e, cut_refs-paths (length path + 4) s)
]

-- No reference begins in the segment, read with the text behind it.
abbrev pub IsClean : Text → Text → Type 0
IsClean [] behind = Unit
IsClean (c ∷ seg) behind = (ref_at (c ∷ (seg ++ behind)) ≡ none) × IsClean seg behind

-- The segments are as many as the paths and one more, and no reference is left in any of them.
abbrev pub AreClean : List Text → List Text → Type 0
AreClean [] paths = ⊥
AreClean (seg ∷ []) [] = IsClean seg []
AreClean (seg ∷ t ∷ segs) [] = ⊥
AreClean (seg ∷ segs) (path ∷ paths) =
    IsClean seg (jwt_prefix ++ (path ++ weave segs paths)) × AreClean segs paths

push_byte-AreClean :
    (c : ℕ) (segs paths : List Text)
    → ref_at (c ∷ weave segs paths) ≡ none
    → AreClean segs paths
    → AreClean (push_byte c segs) paths
unfolding weave
push_byte-AreClean c [] paths e h = absurd h
push_byte-AreClean c (seg ∷ []) [] e h = (rw append-nil e, h)
push_byte-AreClean c (seg ∷ t ∷ segs) [] e h = absurd h
push_byte-AreClean c (seg ∷ []) (p ∷ ps) e h = ((e, h.0), h.1)
push_byte-AreClean c (seg ∷ t ∷ segs) (p ∷ ps) e h = ((e, h.0), h.1)

cut_refs-AreClean : (k : ℕ) (s : Text) → AreClean (cut_refs k s).segments (cut_refs k s).paths
unfolding cut_refs
cut_refs-AreClean zero [] = tt
cut_refs-AreClean (suc k) [] = tt
cut_refs-AreClean (suc k) (c ∷ s) = cut_refs-AreClean k s
cut_refs-AreClean zero (c ∷ s) = elim (Option-cases (ref_at (c ∷ s))) [
  | inl e ↦
      rw (e, cut_refs)
        (push_byte-AreClean c _ _ (rw (cut_refs-weave zero s) e) (cut_refs-AreClean zero s))
  | inr (path, e) ↦ rw (e, cut_refs) (tt, cut_refs-AreClean (length path + 4) s)
]

compile_filter-eq-ok :
    (expr : Text) {f : RowFilter} → compile_filter expr ≡ ok f → cut_refs zero expr ≡ f
unfolding compile_filter
compile_filter-eq-ok expr h = ground arith

-- A filter that compiles weaves back into the expression, byte for byte; every path is a claim
-- path; and no claim reference is left in the static SQL.
pub compile_filter_lem :
    (expr : Text) {f : RowFilter}
    → compile_filter expr ≡ ok f
    → (weave f.segments f.paths ≡ expr)
      × All (λ p. is_claim_path p ≡ true) f.paths
      × AreClean f.segments f.paths
compile_filter_lem expr h =
    let same = compile_filter-eq-ok expr h in
    rw (← same) (cut_refs-weave zero expr, cut_refs-paths zero expr, cut_refs-AreClean zero expr)
