-- ===== src/Schema/Queries/Filtered.antt =====
-- Every query is restricted by the row filter of the operation it runs under: the filter is one of
-- the conjuncts of its WHERE condition, each of which is in parentheses.
pub mod Reads
use titanium_graph_api.Base.{
  ℕ, zero, suc, ◌≡◌, refl, sym, ap, ◌∙◌, ◌⊎◌, inl, inr, List, [], ◌∷◌, ◌++◌, Text, Bool, true,
  false, Option, none, some, codes, join, member, text_eq, text_eq_refl, All, append_assoc,
  if◌then◌else◌, Bool-cases,
}
use titanium_graph_api.Value.{Value, Fields}
use titanium_graph_api.Results.{Result, ok, err, ◌>>=◌, Ensures, Ensures-bind}
use titanium_graph_api.Rbac.Filter.{RowFilter, filter_sql}
use titanium_graph_api.Rbac.Resolve.{OpAccess}
use titanium_graph_api.Sql.{Condition, parens, add_part, collect, conjunction, combine_conds}
use titanium_graph_api.Schema.Queries.{filter_cond, rbac_cond, select_from, Clause}

abbrev pub IsParens : Text → Type 0
IsParens p = (s : Text) × (p ≡ parens s)

-- The text is a conjunction of conditions in parentheses, and `p` is one of them.
pub record IsConjunct (p w : Text) : Type 0 where
  pub parts : List Text
  pub joined : w ≡ join (codes " AND ") parts
  pub wrapped : All IsParens parts
  pub present : member p parts ≡ true

abbrev pub Contains : Text → Text → Type 0
Contains w sql = (pre : Text) × (post : Text) × (sql ≡ pre ++ (w ++ post))

-- The row filter, rendered for the claims, is a conjunct of a condition within the query. (A filter
-- with an empty rendering is no filter.)
abbrev pub IsFilteredBy : Option RowFilter → Fields → Text → Type 0
IsFilteredBy none claims sql = Unit
IsFilteredBy (some f) claims sql =
    (c : Condition) × (filter_sql f claims ≡ ok c)
    × ((c.sql ≡ []) ⊎ ((w : Text) × IsConjunct (parens c.sql) w × Contains w sql))

-- What a rendered condition says of the filter it came from.
abbrev pub Renders : Option RowFilter → Fields → Option Condition → Type 0
Renders none claims o = Unit
Renders (some f) claims o = (c : Condition) × (filter_sql f claims ≡ ok c) × (o ≡ some c)

wrapped_add_part :
    (sql : Text) (args : List Value) (acc : List Text × List Value)
    → All IsParens acc.0
    → All IsParens (add_part sql args acc).0
wrapped_add_part [] args acc h = h
wrapped_add_part (c ∷ s) args (parts, rest) h = ((c ∷ s, refl), h)

wrapped_collect : (cs : List (Option Condition)) → All IsParens (collect cs).0
unfolding collect
wrapped_collect [] = tt
wrapped_collect (none ∷ cs) = wrapped_collect cs
wrapped_collect (some c ∷ cs) = wrapped_add_part c.sql c.args (collect cs) (wrapped_collect cs)

-- The condition is among those that are combined.
abbrev pub Among : Option Condition → List (Option Condition) → Type 0
Among o [] = ⊥
Among o (c ∷ cs) = (o ≡ c) ⊎ Among o cs

member_head : (p : Text) (ps : List Text) → member p (p ∷ ps) ≡ true
unfolding member
member_head p ps = rw (text_eq_refl p) refl

member_tail : (p q : Text) (ps : List Text) → member p ps ≡ true → member p (q ∷ ps) ≡ true
unfolding member
member_tail p q ps h = elim (Bool-cases (text_eq q p)) [ inl e ↦ rw e refl | inr e ↦ rw e h ]

member-add_part :
    (p sql : Text) (args : List Value) (acc : List Text × List Value)
    → member p acc.0 ≡ true
    → member p (add_part sql args acc).0 ≡ true
member-add_part p [] args acc h = h
member-add_part p (c ∷ s) args (parts, rest) h = member_tail p (parens (c ∷ s)) parts h

own_part :
    (sql : Text) (args : List Value) (acc : List Text × List Value)
    → (sql ≡ []) ⊎ (member (parens sql) (add_part sql args acc).0 ≡ true)
own_part [] args acc = inl refl
own_part (c ∷ s) args (parts, rest) = inr (member_head (parens (c ∷ s)) parts)

some_injective : {c d : Condition} → ◌≡◌ {A = Option Condition} (some c) (some d) → c ≡ d
some_injective e = cc

collected :
    (c : Condition) (cs : List (Option Condition))
    → Among (some c) cs
    → (c.sql ≡ []) ⊎ (member (parens c.sql) (collect cs).0 ≡ true)
unfolding collect
collected c [] h = absurd h
collected c (none ∷ cs) (inl e) = absurd (cc e)
collected c (none ∷ cs) (inr h) = collected c cs h
collected c (some d ∷ cs) (inl e) = rw (some_injective e) (own_part d.sql d.args (collect cs))
collected c (some d ∷ cs) (inr h) = elim (collected c cs h) [
  | inl e ↦ inl e
  | inr i ↦ inr (member-add_part (parens c.sql) d.sql d.args (collect cs) i)
]

IsConjunct-conjunction :
    (p : Text) (ps : List Text) (args : List Value)
    → All IsParens ps
    → member p ps ≡ true
    → IsConjunct p (conjunction (ps, args)).sql
unfolding member
IsConjunct-conjunction p [] args h k = absurd (cc k)
IsConjunct-conjunction p (q ∷ ps) args h k = record {
  parts = q ∷ ps;
  joined = refl;
  wrapped = h;
  present = k;
}

-- A condition with text is a conjunct of every conjunction it goes into.
combine_conds-IsConjunct :
    (c : Condition) (cs : List (Option Condition))
    → Among (some c) cs
    → (c.sql ≡ []) ⊎ IsConjunct (parens c.sql) (combine_conds cs).sql
unfolding combine_conds
combine_conds-IsConjunct c cs h = elim (collected c cs h) [
  | inl e ↦ inl e
  | inr i ↦
      inr
        (IsConjunct-conjunction (parens c.sql) (collect cs).0 (collect cs).1 (wrapped_collect cs) i)
]

-- The filter that a query combines is a conjunct of the query.
pub filtered_by :
    (o : Option RowFilter) (claims : Fields) (filter : Option Condition)
    (conds : List (Option Condition)) (sql : Text)
    → Renders o claims filter
    → Among filter conds
    → Contains (combine_conds conds).sql sql
    → IsFilteredBy o claims sql
filtered_by none claims filter conds sql h a k = tt
filtered_by (some f) claims filter conds sql (c, e, same) a k = (
  c,
  e,
  elim (combine_conds-IsConjunct c conds (rw same at a)) [
    | inl z ↦ inl z
    | inr i ↦ inr ((combine_conds conds).sql, i, k)
  ],
)

rendered_cond-Renders :
    (f : RowFilter) (claims : Fields) (r : Result Condition)
    → filter_sql f claims ≡ r
    → Ensures (Renders (some f) claims) (r >>= λ c. ok (some c))
rendered_cond-Renders f claims (ok c) e = (c, e, refl)
rendered_cond-Renders f claims (err x) e = tt

filter_cond-Renders :
    (o : Option RowFilter) (claims : Fields) → Ensures (Renders o claims) (filter_cond o claims)
filter_cond-Renders none claims = tt
filter_cond-Renders (some f) claims = rendered_cond-Renders f claims (filter_sql f claims) refl

pub rbac_cond-Renders :
    (oa : OpAccess) (claims : Fields) → Ensures (Renders oa.filter claims) (rbac_cond oa claims)
unfolding rbac_cond
rbac_cond-Renders oa claims = filter_cond-Renders oa.filter claims

pub Contains-left : (t w s : Text) → Contains w s → Contains w (t ++ s)
Contains-left t w s (pre, post, e) = (t ++ pre, post, rw e (sym (append_assoc t pre (w ++ post))))

pub Contains-right : (t w s : Text) → Contains w s → Contains w (s ++ t)
Contains-right t w s (pre, post, e) = (
  pre,
  post ++ t,
  rw e (append_assoc pre (w ++ post) t ∙ ap (λ x. pre ++ x) (append_assoc w post t)),
)
