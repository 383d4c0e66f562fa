-- ===== src/Base/Numbers.antt =====
-- Go's fixed-width numbers: int64 with its wrap-around, its decimal text, and the float64 numbers
-- that are integers.
use titanium_graph_api.Base.{
  ℕ, zero, suc, ◌+◌, ◌-◌, ◌*◌, ◌/◌, ◌%◌, ◌^◌, [], ◌∷◌, Text, Option, none, some, Bool, true, false,
  ◌&&◌, ltb, ◌==◌, if◌then◌else◌,
}
use titanium_graph_api.Base.Int.{ℤ, pos, negsuc}

-- The int64 with the low 64 bits of a number.
unfoldable pub wrap_64 : ℕ → ℤ
wrap_64 n = let m = n % 2 ^ 64 in if ltb m (2 ^ 63) then pos m else negsuc (2 ^ 64 - 1 - m)

-- `time.Duration(n) * time.Second`, in nanoseconds.
unfoldable pub seconds : ℤ → ℤ
unfolding wrap_64
seconds (pos n) = wrap_64 (n * 10 ^ 9)
seconds (negsuc n) = wrap_64 (2 ^ 64 - (suc n * 10 ^ 9) % 2 ^ 64)

-- The digits in front of `s`; an int64 has at most 19 of them.
unfoldable pub digits_before : ℕ → ℕ → Text → Text
digits_before zero n s = s
digits_before (suc f) n s =
    let next = (b'0' + n % 10) ∷ s in
    let rest = digits_before f (n / 10) next in if n / 10 == 0 then next else rest

unfoldable pub show_int : ℤ → Text
unfolding digits_before
show_int (pos n) = digits_before 20 n []
show_int (negsuc n) = b'-' ∷ digits_before 20 (suc n) []

abbrev pub signed : Bool → ℕ → ℤ
signed false n = pos n
signed true zero = pos 0
signed true (suc n) = negsuc n

abbrev pub shifted : Bool → ℕ → ℕ → Option ℤ
shifted negative mantissa below =
    if mantissa % 2 ^ below == 0 then some (signed negative (mantissa / 2 ^ below)) else none

-- `v == float64(int64(v))`, and then `int64(v)`: the integer that a float64, given by its bits, is,
-- where it is one in the range of int64. The exponent of a float64 is biased by 1023, and its
-- mantissa has 52 bits and a leading one.
unfoldable pub float_to_int : ℕ → Option ℤ
float_to_int v =
    let negative = v / 2 ^ 63 % 2 == 1 in
    let exponent = v / 2 ^ 52 % 2 ^ 11 in
    let fraction = v % 2 ^ 52 in
    if exponent == 0
    then if fraction == 0 then some (pos 0) else none
    else if ltb exponent 1075
    then shifted negative (2 ^ 52 + fraction) (1075 - exponent)
    else if ltb exponent 1086
    then some (signed negative ((2 ^ 52 + fraction) * 2 ^ (exponent - 1075)))
    else if negative && exponent == 1086 && fraction == 0
    then some (negsuc (2 ^ 63 - 1))
    else none
