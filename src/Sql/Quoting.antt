-- ===== src/Sql/Quoting.antt =====
-- quoteIdent: a quoted identifier is one token, and reads back as the name.
use titanium_graph_api.Base.{
  ℕ, ◌≡◌, ◌≢◌, refl, [], ◌∷◌, ◌++◌, Text, ◌==◌, arith, Option, some, none, append_assoc, Bool-cases,
  inl, inr, true, false, ==_iff,
}
use titanium_graph_api.Sql.{backtick, double_backticks, quote_ident}
use titanium_graph_api.Sql.Lexer.{ident, scan, marks, Reads, scan-append, marks-append}

abbrev cons_name : ℕ → Option (Text × Text) → Option (Text × Text)
cons_name c none = none
cons_name c (some (name, rest)) = some (c ∷ name, rest)

-- How MySQL reads a quoted identifier after its opening backtick: up to a backtick that is not
-- doubled. The result is the name and what follows the identifier.
unfoldable pub read_ident : Text → Option (Text × Text)
read_ident [] = none
read_ident (c ∷ []) = elim (c == backtick) [ true ↦ some ([], []) | false ↦ none ]
read_ident (c ∷ d ∷ s) = elim (c == backtick) [
  | false ↦ cons_name c (read_ident (d ∷ s))
  | true ↦ elim (d == backtick) [
    | true ↦ cons_name backtick (read_ident s)
    | false ↦ some ([], d ∷ s)
  ]
]

-- What follows an identifier does not begin with a backtick.
abbrev pub NoBacktick : Text → Type 0
NoBacktick [] = Unit
NoBacktick (c ∷ s) = c ≢ backtick

read_ident-end : (rest : Text) → NoBacktick rest → read_ident (backtick ∷ rest) ≡ some ([], rest)
unfolding read_ident
read_ident-end [] h = refl
read_ident-end (c ∷ s) h = ground arith

read_ident-keep :
    (c : ℕ) (t : Text) → c ≢ backtick → t ≢ [] → read_ident (c ∷ t) ≡ cons_name c (read_ident t)
unfolding read_ident
read_ident-keep c [] h k = absurd (k refl)
read_ident-keep c (d ∷ s) h k = ground arith

append-ne-nil : (s : Text) (c : ℕ) (t : Text) → s ++ c ∷ t ≢ []
append-ne-nil [] c t = cc
append-ne-nil (d ∷ s) c t = cc

read_ident-twice :
    (t : Text) → read_ident (backtick ∷ backtick ∷ t) ≡ cons_name backtick (read_ident t)
unfolding read_ident
read_ident-twice t = refl

read_ident-double_backticks :
    (name rest : Text)
    → NoBacktick rest
    → read_ident (double_backticks name ++ backtick ∷ rest) ≡ some (name, rest)
unfolding double_backticks
read_ident-double_backticks [] rest h = read_ident-end rest h
read_ident-double_backticks (c ∷ s) rest h = elim (Bool-cases (c == backtick)) [
  | inl same ↦
      let e : c ≡ backtick = (==_iff _ _).0 same in
      rw same (rw (read_ident-twice, read_ident-double_backticks s rest h, e))
  | inr other ↦ rw other (
      rw (read_ident-keep c _ (ground arith) (append-ne-nil (double_backticks s) backtick rest))
        (rw (read_ident-double_backticks s rest h)))
]

-- Whatever the name, the quoted identifier reads back as that name, and the text behind it is
-- left untouched: no name can end the identifier early.
pub read_ident-quote_ident :
    (name rest : Text)
    → NoBacktick rest
    → (t : Text) × (quote_ident name ++ rest ≡ backtick ∷ t) × (read_ident t ≡ some (name, rest))
unfolding quote_ident
read_ident-quote_ident name rest h = (
  double_backticks name ++ backtick ∷ rest,
  rw append_assoc,
  read_ident-double_backticks name rest h,
)

scan-double_backticks :
    (s : Text) → (scan ident (double_backticks s) ≡ ident) × (marks ident (double_backticks s) ≡ 0)
unfolding double_backticks scan marks
scan-double_backticks [] = (refl, refl)
scan-double_backticks (c ∷ s) =
    ground (arith, (scan-double_backticks s).0, (scan-double_backticks s).1)

-- A quoted identifier is closed text with no placeholder.
pub quote_ident-Reads : (name : Text) → Reads (quote_ident name) 0
unfolding quote_ident scan marks
quote_ident-Reads name = record {
  closed =
      rw
        (scan-append ident (double_backticks name) (backtick ∷ []), (scan-double_backticks name).0);
  count =
      rw
        (
          marks-append ident (double_backticks name) (backtick ∷ []),
          (scan-double_backticks name).0,
          (scan-double_backticks name).1,
        )
        (omega arith);
}
