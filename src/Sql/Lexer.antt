-- ===== src/Sql/Lexer.antt =====
-- A reading of SQL text, independent of the code that writes it: where quoted identifiers and
-- string literals begin and end, and how many placeholders stand outside them.
use titanium_graph_api.Base.{ℕ, ◌+◌, ◌≡◌, refl, [], ◌∷◌, ◌++◌, Text, ◌==◌, if◌then◌else◌, arith}

pub data Mode : Type 0 where
  plain ident single double : Mode

abbrev pub toggle : Mode → ℕ → Mode
toggle plain c =
    if c == b'`' then ident else if c == b'\'' then single else if c == b'"' then double else plain
toggle ident c = if c == b'`' then plain else ident
toggle single c = if c == b'\'' then plain else single
toggle double c = if c == b'"' then plain else double

abbrev pub is_mark : Mode → ℕ → ℕ
is_mark plain c = if c == b'?' then 1 else 0
is_mark _ c = 0

-- The mode after the text, and the number of placeholders in it.
unfoldable pub scan : Mode → Text → Mode
scan m [] = m
scan m (c ∷ s) = scan (toggle m c) s

unfoldable pub marks : Mode → Text → ℕ
marks m [] = 0
marks m (c ∷ s) = is_mark m c + marks (toggle m c) s

pub scan-append : (m : Mode) (s t : Text) → scan m (s ++ t) ≡ scan (scan m s) t
unfolding scan
scan-append m [] t = refl
scan-append m (c ∷ s) t = scan-append (toggle m c) s t

pub marks-append : (m : Mode) (s t : Text) → marks m (s ++ t) ≡ marks m s + marks (scan m s) t
unfolding scan marks
marks-append m [] t = omega arith
marks-append m (c ∷ s) t = omega (arith, marks-append (toggle m c) s t)

-- The text is complete (no quote is left open) and holds `n` placeholders.
pub record Reads (s : Text) (n : ℕ) : Type 0 where
  pub closed : scan plain s ≡ plain
  pub count : marks plain s ≡ n

pub Reads-append : (s t : Text) (m n : ℕ) → Reads s m → Reads t n → Reads (s ++ t) (m + n)
Reads-append s t m n h k = record {
  closed = rw (scan-append plain s t, h.closed) k.closed;
  count = rw (marks-append plain s t, h.closed, h.count, k.count) refl;
}
