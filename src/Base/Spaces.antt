-- ===== src/Base/Spaces.antt =====
-- `strings.TrimSpace` on UTF-8, and ASCII case.
use titanium_graph_api.Base.{
  ℕ, zero, suc, ◌+◌, [], ◌∷◌, Text, Bool, true, false, ◌&&◌, ◌||◌, length, drop, leb, ◌==◌,
  if◌then◌else◌, map, text_eq,
}

abbrev pub is_ascii_space : ℕ → Bool
is_ascii_space c = leb 9 c && leb c 13 || c == 32

-- The second byte of a white space in two bytes, U+0085 or U+00A0.
abbrev pub is_latin_space : ℕ → ℕ → Bool
is_latin_space c d = c == 194 && (d == 133 || d == 160)

-- The white spaces in three bytes: U+1680, U+2000 to U+200A, U+2028, U+2029, U+202F, U+205F and
-- U+3000.
abbrev pub is_wide_space : ℕ → ℕ → ℕ → Bool
is_wide_space c d e =
    c == 225 && d == 154 && e == 128
    || c == 226 && d == 128 && (leb 128 e && leb e 138 || e == 168 || e == 169 || e == 175)
    || c == 226 && d == 129 && e == 159
    || c == 227 && d == 128 && e == 128

abbrev pub is_space_pair : ℕ → Text → Bool
is_space_pair c [] = false
is_space_pair c (d ∷ s) = is_latin_space c d

abbrev pub is_space_triple : ℕ → Text → Bool
is_space_triple c [] = false
is_space_triple c (d ∷ []) = false
is_space_triple c (d ∷ e ∷ s) = is_wide_space c d e

-- How many bytes the white space at the front takes: none where there is none.
unfoldable pub space_width : Text → ℕ
space_width [] = 0
space_width (c ∷ s) =
    if is_ascii_space c
    then 1
    else if is_space_pair c s
    then 2
    else if is_space_triple c s
    then 3
    else 0

abbrev pub trim_width : ℕ → Text → (ℕ → Text) → Text
trim_width zero s next = s
trim_width (suc w) s next = next (suc w)

-- Each round drops one white space, so as many rounds as there are bytes are enough.
unfoldable pub trim_left : ℕ → Text → Text
trim_left zero s = s
trim_left (suc f) s = trim_width (space_width s) s (λ w. trim_left f (drop w s))

abbrev pub is_blank : Text → Bool
is_blank [] = true
is_blank (c ∷ s) = false

-- A byte ends up behind the text if only white space follows it.
unfoldable pub trim_right : Text → Text
unfolding space_width trim_left
trim_right [] = []
trim_right (c ∷ s) =
    let rest = trim_right s in
    if is_blank (trim_left (length (c ∷ s)) (c ∷ s)) then [] else c ∷ rest

unfoldable pub trim_space : Text → Text
unfolding space_width trim_left trim_right
trim_space s = trim_right (trim_left (length s) s)

abbrev pub lower : ℕ → ℕ
lower c = if leb b'A' c && leb c b'Z' then c + 32 else c

-- `strings.ToLower` of ASCII text.
abbrev pub to_lower : Text → Text
to_lower s = map lower s

-- What a letter folds to: beyond ASCII case, the long s folds to s and the Kelvin sign to k.
abbrev pub folded : ℕ → Text → ℕ × ℕ
folded c [] = (lower c, 0)
folded c (d ∷ []) = if c == 197 && d == 191 then (b's', 1) else (lower c, 0)
folded c (d ∷ e ∷ s) =
    if c == 197 && d == 191
    then (b's', 1)
    else if c == 226 && d == 132 && e == 170
    then (b'k', 2)
    else (lower c, 0)

-- `skip` bytes belong to the letter before.
unfoldable pub fold_from : ℕ → Text → Text
fold_from skip [] = []
fold_from (suc skip) (c ∷ s) = fold_from skip s
fold_from zero (c ∷ s) = let (letter, more) = folded c s in letter ∷ fold_from more s

-- `strings.EqualFold` with an ASCII text.
unfoldable pub equal_fold : Text → Text → Bool
unfolding fold_from
equal_fold s t = text_eq (fold_from 0 s) (fold_from 0 t)
