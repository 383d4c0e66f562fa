-- ===== src/Schema/Loader/Distinct.antt =====
-- Lists of distinct key signatures, and lists inside or outside of a set.
use titanium_graph_api.Base.{
  ◌≡◌, refl, List, [], ◌∷◌, ◌++◌, Text, true, false, if◌then◌else◌, member, text_eq, text_eq_iff,
  text_eq_refl, All, Bool-cases, inl, inr, arith,
}

-- No signature occurs twice.
abbrev pub AllDistinct : List Text → Type 0
AllDistinct [] = Unit
AllDistinct (s ∷ ss) = (member s ss ≡ false) × AllDistinct ss

abbrev pub IsOutside : List Text → Text → Type 0
IsOutside set s = member s set ≡ false

abbrev pub IsInside : List Text → Text → Type 0
IsInside set s = member s set ≡ true

member_cons_false :
    (s t : Text) (ss : List Text)
    → text_eq t s ≡ false
    → member s ss ≡ false
    → member s (t ∷ ss) ≡ false
unfolding member
member_cons_false s t ss h k = rw h k

pub member-append :
    (s : Text) (a b : List Text) → member s (a ++ b) ≡ (if member s a then true else member s b)
unfolding member
member-append s [] b = refl
member-append s (t ∷ a) b = elim (Bool-cases (text_eq t s)) [
  | inl e ↦ rw e refl
  | inr e ↦ rw e (member-append s a b)
]

text_eq_comm_false : (s t : Text) → text_eq s t ≡ false → text_eq t s ≡ false
text_eq_comm_false s t h = ground (arith, text_eq_iff s t, text_eq_iff t s)

member_apart :
    (s t : Text) (set : List Text)
    → member s set ≡ true
    → member t set ≡ false
    → text_eq s t ≡ false
member_apart s t set h k = ground (arith, text_eq_iff s t)

-- A list whose members lie in a set, with a member outside of it, stays distinct.
pub snoc-AllDistinct :
    (ss set : List Text) (s : Text)
    → AllDistinct ss
    → All (IsInside set) ss
    → IsOutside set s
    → AllDistinct (ss ++ s ∷ [])
unfolding member
snoc-AllDistinct [] set s h k o = (refl, tt)
snoc-AllDistinct (t ∷ ss) set s (d, h) (i, k) o = (
  rw (member-append t ss (s ∷ []), d, member_apart_rev t s set i o) refl,
  snoc-AllDistinct ss set s h k o,
)
  where
    member_apart_rev :
        (t s : Text) (set : List Text)
        → member t set ≡ true
        → member s set ≡ false
        → text_eq s t ≡ false
    member_apart_rev t s set i o = text_eq_comm_false t s (member_apart t s set i o)

pub append-AllDistinct :
    (a b : List Text) → AllDistinct a → AllDistinct b → All (IsOutside b) a → AllDistinct (a ++ b)
append-AllDistinct [] b h k o = k
append-AllDistinct (s ∷ a) b (d, h) k (o, os) =
    (rw (member-append s a b, d) o, append-AllDistinct a b h k os)

pub wider : (t : Text) (set ss : List Text) → All (IsInside set) ss → All (IsInside (t ∷ set)) ss
unfolding member
wider t set [] h = tt
wider t set (s ∷ ss) (i, h) =
    (elim (Bool-cases (text_eq t s)) [ inl e ↦ rw e refl | inr e ↦ rw e i ], wider t set ss h)

pub inside_head : (t : Text) (set : List Text) → member t (t ∷ set) ≡ true
unfolding member
inside_head t set = rw (text_eq_refl t) refl

pub IsOutside-of_inside :
    (set loaded : List Text) (s : Text)
    → All (IsInside set) loaded
    → IsOutside set s
    → IsOutside loaded s
unfolding member
IsOutside-of_inside set [] s h o = refl
IsOutside-of_inside set (t ∷ loaded) s (i, h) o =
    member_cons_false s t loaded (member_apart t s set i o) (IsOutside-of_inside set loaded s h o)

pub IsInside-right : (a b : List Text) (s : Text) → IsInside b s → IsInside (a ++ b) s
IsInside-right a b s h = elim (Bool-cases (member s a)) [
  | inl e ↦ rw (member-append s a b, e) refl
  | inr e ↦ rw (member-append s a b, e) h
]

pub IsInside-self : (a b : List Text) → All (IsInside (a ++ b)) a
IsInside-self [] b = tt
IsInside-self (s ∷ a) b = (inside_head s (a ++ b), wider s (a ++ b) a (IsInside-self a b))

pub IsOutside-smaller :
    (small large r : List Text)
    → ((s : Text) → IsInside small s → IsInside large s)
    → All (IsOutside large) r
    → All (IsOutside small) r
IsOutside-smaller small large [] h o = tt
IsOutside-smaller small large (s ∷ r) h (o, os) = (
  elim (Bool-cases (member s small)) [ inl e ↦ cc (h s e, o) | inr e ↦ e ],
  IsOutside-smaller small large r h os,
)

pub IsOutside-rest :
    (large r b : List Text) → All (IsInside large) b → All (IsOutside large) r → All (IsOutside r) b
unfolding member
IsOutside-rest large r [] h o = tt
IsOutside-rest large r (s ∷ b) (i, h) o = (outside_one large r s i o, IsOutside-rest large r b h o)
  where
    outside_one :
        (large r : List Text) (s : Text)
        → IsInside large s
        → All (IsOutside large) r
        → IsOutside r s
    outside_one large [] s i o = refl
    outside_one large (t ∷ r) s i (o, os) =
        member_cons_false s t r (text_eq_comm_false s t (member_apart s t large i o))
          (outside_one large r s i os)
