-- ===== src/Schema/Scalars/Decimal.antt =====
-- A 64-bit integer survives being written in decimal and read back as a BigInt.
use Prim.Native.Nat.pow
use titanium_graph_api.Base.{
  ℕ, zero, suc, ◌+◌, ◌*◌, ◌/◌, ◌%◌, ◌^◌, ◌≤◌, ◌<◌, ◌≡◌, refl, ap, ◌∙◌, [], ◌∷◌, Text, some, ◌==◌,
  ==_iff, Bool-cases, inl, inr, arith,
}
use titanium_graph_api.Base.Int.{ℤ, pos, negsuc}
use titanium_graph_api.Base.Numbers.{digits_before}
use titanium_graph_api.Config.{digits_from}

digits_from-digit :
    (n d : ℕ) (s : Text) → d < 10 → digits_from n ((b'0' + d) ∷ s) ≡ digits_from (n * 10 + d) s
digits_from-digit n d s h = ground arith

-- The digits of a number in front of `s` read as the number, with `s` still to come.
digits_from-digits_before :
    (f n : ℕ) (s : Text) → n < 10 ^ f → digits_from 0 (digits_before f n s) ≡ digits_from n s
unfolding digits_before
digits_from-digits_before zero n s h = rw (small n h) refl
  where
    small : (n : ℕ) → n < 10 ^ zero → n ≡ 0
    small n h = omega arith
digits_from-digits_before (suc f) n s h = elim (Bool-cases (n / 10 == 0)) [
  | inl e ↦ rw e (
      digits_from-digit 0 (n % 10) s (omega arith)
      ∙ ap (λ m. digits_from m s) (last n ((==_iff (n / 10) 0).0 e)))
  | inr e ↦ rw e (
      digits_from-digits_before f (n / 10) ((b'0' + n % 10) ∷ s) (tenth f n h)
      ∙ digits_from-digit (n / 10) (n % 10) s (omega arith)
      ∙ ap (λ m. digits_from m s) (whole n))
]
  where
    last : (n : ℕ) → n / 10 ≡ 0 → 0 * 10 + n % 10 ≡ n
    last n e = omega arith

    whole : (n : ℕ) → n / 10 * 10 + n % 10 ≡ n
    whole n = omega arith

    tenth : (f n : ℕ) → n < 10 ^ suc f → n / 10 < 10 ^ f
    tenth f n h = let p = pow.suc 10 f in omega (arith, p)

IsDigit : ℕ → Type 0
IsDigit c = (b'0' ≤ c) × (c ≤ b'9')

-- The range of an int64.
abbrev pub IsInt64 : ℤ → Type 0
IsInt64 (pos n) = n < 2 ^ 63
IsInt64 (negsuc n) = n < 2 ^ 63

pub read_back : (n : ℕ) → n ≤ 2 ^ 63 → digits_from 0 (digits_before 20 n []) ≡ some n
read_back n h = digits_from-digits_before 20 n [] (omega arith)

-- Text without white space stays as it is.
IsGraphic : ℕ → Type 0
IsGraphic c = (33 ≤ c) × (c ≤ 126)
