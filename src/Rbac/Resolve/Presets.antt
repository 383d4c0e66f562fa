-- ===== src/Rbac/Resolve/Presets.antt =====
-- The presets of a rule come out in the order of their column names, none lost and none added.
use mathlib.Core.List.{Permᴰ}
use mathlib.Core.List.Permᴰ
use titanium_graph_api.Base.{
  ℕ, zero, suc, ◌≤◌, ◌≡◌, refl, ap, List, [], ◌∷◌, Text, true, false, if◌then◌else◌, length,
  text_lt, arith, All, Bool-cases, inl, inr,
}
use titanium_graph_api.Rbac.Resolve.{Preset, precedes, exchange, sort_presets}

text_lt_trans : (a b c : Text) → text_lt a b ≡ true → text_lt b c ≡ true → text_lt a c ≡ true
unfolding text_lt
text_lt_trans a b [] h k = cc
text_lt_trans a [] (z ∷ c) h k = cc
text_lt_trans [] (y ∷ b) (z ∷ c) h k = refl
text_lt_trans (x ∷ a) (y ∷ b) (z ∷ c) h k = ground (arith, text_lt_trans a b c)

text_lt_irrefl : (a : Text) → text_lt a a ≡ false
unfolding text_lt
text_lt_irrefl [] = refl
text_lt_irrefl (x ∷ a) = ground (arith, text_lt_irrefl a)

text_lt_asymm : (a b : Text) → text_lt a b ≡ true → text_lt b a ≡ false
unfolding text_lt
text_lt_asymm [] (y ∷ b) h = refl
text_lt_asymm a [] h = cc
text_lt_asymm (x ∷ a) (y ∷ b) h = ground (arith, text_lt_asymm a b)

-- If `b` is not before `c` and `a` is not before `b`, then `a` is not before `c`.
text_lt_of_lt_of_not_lt :
    (a b c : Text) → text_lt b c ≡ false → text_lt a b ≡ false → text_lt a c ≡ false
unfolding text_lt
text_lt_of_lt_of_not_lt a b [] h k = refl
text_lt_of_lt_of_not_lt a [] (z ∷ c) h k = cc
text_lt_of_lt_of_not_lt [] (y ∷ b) (z ∷ c) h k = cc
text_lt_of_lt_of_not_lt (x ∷ a) (y ∷ b) (z ∷ c) h k = ground (arith, text_lt_of_lt_of_not_lt a b c)

-- No preset of the list has a smaller column name.
abbrev pub IsLeast : Preset → List Preset → Type 0
IsLeast p ps = All (λ q. precedes q p ≡ false) ps

abbrev pub IsSorted : List Preset → Type 0
IsSorted [] = Unit
IsSorted (p ∷ ps) = IsLeast p ps × IsSorted ps

IsLeast-of_not_precedes :
    (p q : Preset) (ps : List Preset) → precedes p q ≡ false → IsLeast p ps → IsLeast q ps
IsLeast-of_not_precedes p q [] h k = tt
IsLeast-of_not_precedes p q (r ∷ ps) h (k, ks) = (
  text_lt_of_lt_of_not_lt r.column.name p.column.name q.column.name h k,
  IsLeast-of_not_precedes p q ps h ks,
)

-- Which of two presets an exchange keeps in front.
exchange-move :
    (p q : Preset) (qs : List Preset)
    → precedes q p ≡ true
    → exchange p (q ∷ qs) ≡ ((exchange q qs).0, p ∷ (exchange q qs).1)
unfolding exchange
exchange-move p q qs e = rw e

exchange-keep :
    (p q : Preset) (qs : List Preset)
    → precedes q p ≡ false
    → exchange p (q ∷ qs) ≡ ((exchange p qs).0, q ∷ (exchange p qs).1)
unfolding exchange
exchange-keep p q qs e = rw e

exchange-nil : (p : Preset) → exchange p [] ≡ (p, [])
unfolding exchange
exchange-nil p = refl

exchange-IsLeast :
    (p : Preset) (ps : List Preset)
    → IsLeast (exchange p ps).0 (exchange p ps).1 × (precedes p (exchange p ps).0 ≡ false)
exchange-IsLeast p [] = rw (exchange-nil p) (tt, text_lt_irrefl p.column.name)
exchange-IsLeast p (q ∷ qs) = elim (Bool-cases (precedes q p)) [
  | inl e ↦
      let (least, keep) = exchange-IsLeast q qs in
      let moved =
        text_lt_of_lt_of_not_lt p.column.name q.column.name _ keep (text_lt_asymm _ _ e) in
      rw (exchange-move p q qs e) ((moved, least), moved)
  | inr e ↦
      let (least, keep) = exchange-IsLeast p qs in
      rw (exchange-keep p q qs e)
        ((text_lt_of_lt_of_not_lt q.column.name p.column.name _ keep e, least), keep)
]

perm_front :
    (a b c : Preset) (qs rest : List Preset)
    → Permᴰ (b ∷ qs) (c ∷ rest)
    → Permᴰ (a ∷ b ∷ qs) (c ∷ a ∷ rest)
perm_front a b c qs rest h = Permᴰ.trans (Permᴰ.cons refl h) (Permᴰ.swap refl refl)

exchange-perm :
    (p : Preset) (ps : List Preset) → Permᴰ (p ∷ ps) ((exchange p ps).0 ∷ (exchange p ps).1)
exchange-perm p [] = rw (exchange-nil p) (Permᴰ.refl (p ∷ []))
exchange-perm p (q ∷ qs) = elim (Bool-cases (precedes q p)) [
  | inl e ↦ rw (exchange-move p q qs e) (perm_front p q _ qs _ (exchange-perm q qs))
  | inr e ↦
      rw (exchange-keep p q qs e)
        (Permᴰ.trans (Permᴰ.swap refl refl) (perm_front q p _ qs _ (exchange-perm p qs)))
]

length-exchange : (p : Preset) (ps : List Preset) → length (exchange p ps).1 ≡ length ps
unfolding exchange
length-exchange p [] = refl
length-exchange p (q ∷ qs) = ap suc (length-exchange (if precedes q p then q else p) qs)

IsLeast-perm : (p : Preset) {ps qs : List Preset} → Permᴰ ps qs → IsLeast p ps → IsLeast p qs
IsLeast-perm p Permᴰ.nil h = tt
IsLeast-perm p (Permᴰ.cons e d) (h, hs) = (rw (← e) h, IsLeast-perm p d hs)
IsLeast-perm p (Permᴰ.swap e f) (h, (k, hs)) = (rw (← f) k, (rw (← e) h, hs))
IsLeast-perm p (Permᴰ.trans c d) h = IsLeast-perm p d (IsLeast-perm p c h)

-- With a round for every preset, the exchange sort returns a permutation of its input in which no
-- preset stands before one with a smaller column name.
pub sort_presets_lem :
    (n : ℕ) (ps : List Preset)
    → length ps ≤ n
    → Permᴰ ps (sort_presets n ps) × IsSorted (sort_presets n ps)
unfolding sort_presets
sort_presets_lem zero [] h = (Permᴰ.nil, tt)
sort_presets_lem zero (p ∷ ps) h = absurd (omega arith)
sort_presets_lem (suc n) [] h = (Permᴰ.nil, tt)
sort_presets_lem (suc n) (p ∷ ps) h =
    let (least, rest) = exchange p ps in
    let (perm, sorted) = sort_presets_lem n rest (omega (arith, length-exchange p ps)) in
    (
      Permᴰ.trans (exchange-perm p ps) (Permᴰ.cons refl perm),
      (IsLeast-perm least perm (exchange-IsLeast p ps).0, sorted),
    )
