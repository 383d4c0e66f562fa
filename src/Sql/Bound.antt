-- ===== src/Sql/Bound.antt =====
-- The builders of SQL text keep the number of placeholders equal to the number of arguments.
use titanium_graph_api.Base.{
  ℕ, zero, suc, ◌+◌, ◌≡◌, refl, List, [], ◌∷◌, ◌++◌, Text, arith, Option, some, none, join, map,
  codes, length, length-append, All,
}
use titanium_graph_api.Value.{Value}
use titanium_graph_api.Sql.{
  Condition, placeholders, quote_ident, quote_list, comma, parens, add_part, collect, conjunction,
  combine_conds, always,
}
use titanium_graph_api.Sql.Lexer.{plain, scan, marks, Reads, Reads-append}
use titanium_graph_api.Sql.Quoting.{quote_ident-Reads}

-- The driver binds exactly the arguments that the text has placeholders for.
abbrev pub IsBound : Condition → Type 0
IsBound c = Reads c.sql (length c.args)

abbrev pub IsBound? : Option Condition → Type 0
IsBound? none = Unit
IsBound? (some c) = IsBound c

-- Texts that each hold a number of placeholders, `n` in all.
abbrev pub ReadsAll : List Text → ℕ → Type 0
ReadsAll [] n = n ≡ 0
ReadsAll (s ∷ ss) n = (k : ℕ) × (m : ℕ) × Reads s k × ReadsAll ss m × (n ≡ k + m)

pub Reads-prepend : (s t : Text) (n : ℕ) → Reads s 0 → Reads t n → Reads (s ++ t) n
Reads-prepend s t n h k = let e : n ≡ 0 + n = omega arith in rw e (Reads-append s t 0 n h k)

pub Reads-extend : (s t : Text) (n : ℕ) → Reads s n → Reads t 0 → Reads (s ++ t) n
Reads-extend s t n h k = let e : n ≡ n + 0 = omega arith in rw e (Reads-append s t n 0 h k)

pub Reads-join :
    (sep : Text) (ss : List Text) (n : ℕ) → Reads sep 0 → ReadsAll ss n → Reads (join sep ss) n
unfolding join scan marks
Reads-join sep [] n h e = record { closed = refl; count = omega arith }
Reads-join sep (s ∷ []) n h (k, m, r, e, q) = let z : n ≡ k = omega arith in rw z r
Reads-join sep (s ∷ t ∷ ss) n h (k, m, r, rs, q) =
    rw q (Reads-append s _ k m r (Reads-prepend sep _ m h (Reads-join sep (t ∷ ss) m h rs)))

pub ReadsAll-append :
    (ss ts : List Text) (m n : ℕ) → ReadsAll ss m → ReadsAll ts n → ReadsAll (ss ++ ts) (m + n)
ReadsAll-append [] ts m n h k = let e : m + n ≡ n = omega arith in rw e k
ReadsAll-append (s ∷ ss) ts m n (a, b, r, rs, e) k =
    (a, b + n, r, ReadsAll-append ss ts b n rs k, omega arith)

-- A literal of the source: the equations hold by evaluation.
pub literal : (s : Text) (n : ℕ) → scan plain s ≡ plain → marks plain s ≡ n → Reads s n
literal s n h k = record { closed = h; count = k }

pub and_Reads : Reads (codes " AND ") 0
unfolding scan marks
and_Reads = record { closed = refl; count = refl }

pub comma-Reads : Reads comma 0
unfolding scan marks
comma-Reads = record { closed = refl; count = refl }

pub parens-Reads : (s : Text) (n : ℕ) → Reads s n → Reads (parens s) n
unfolding scan marks
parens-Reads s n h =
    Reads-prepend (codes "(") (s ++ codes ")") n (record { closed = refl; count = refl })
      (Reads-extend s (codes ")") n h (record { closed = refl; count = refl }))

pub placeholders-Reads : (n : ℕ) → Reads (placeholders n) n
unfolding placeholders scan marks
placeholders-Reads zero = record { closed = refl; count = refl }
placeholders-Reads (suc zero) = record { closed = refl; count = refl }
placeholders-Reads (suc (suc n)) =
    let e : suc (suc n) ≡ 1 + suc n = omega arith in
    rw e (
      Reads-append (codes "?, ") (placeholders (suc n)) 1 (suc n)
        (record { closed = refl; count = refl }) (placeholders-Reads (suc n)))

ReadsAll-quote : (names : List Text) → ReadsAll (map quote_ident names) 0
ReadsAll-quote [] = refl
ReadsAll-quote (s ∷ ss) = (0, 0, quote_ident-Reads s, ReadsAll-quote ss, refl)

pub quote_list-Reads : (names : List Text) → Reads (quote_list names) 0
unfolding quote_list
quote_list-Reads names =
    Reads-join comma (map quote_ident names) 0 comma-Reads (ReadsAll-quote names)

add_part-ReadsAll :
    (sql : Text) (args : List Value) (acc : List Text × List Value)
    → Reads sql (length args)
    → ReadsAll acc.0 (length acc.1)
    → ReadsAll (add_part sql args acc).0 (length (add_part sql args acc).1)
add_part-ReadsAll [] args acc h k = k
add_part-ReadsAll (c ∷ s) args (parts, rest) h k =
    (length args, length rest, parens-Reads (c ∷ s) _ h, k, length-append args rest)

collect-ReadsAll :
    (cs : List (Option Condition))
    → All IsBound? cs
    → ReadsAll (collect cs).0 (length (collect cs).1)
unfolding collect
collect-ReadsAll [] h = refl
collect-ReadsAll (none ∷ cs) (_, h) = collect-ReadsAll cs h
collect-ReadsAll (some c ∷ cs) (b, h) =
    add_part-ReadsAll c.sql c.args (collect cs) b (collect-ReadsAll cs h)

always-IsBound : IsBound always
unfolding scan marks
always-IsBound = record { closed = refl; count = refl }

pub conjunction-IsBound :
    (ps : List Text) (args : List Value)
    → ReadsAll ps (length args)
    → IsBound (conjunction (ps, args))
conjunction-IsBound [] args h = always-IsBound
conjunction-IsBound (p ∷ ps) args h = Reads-join (codes " AND ") (p ∷ ps) (length args) and_Reads h

-- If every condition has as many placeholders as arguments, so has their conjunction: parentheses
-- and joiners add none, and the arguments of skipped conditions are skipped too.
pub combine_conds-IsBound :
    (cs : List (Option Condition)) → All IsBound? cs → IsBound (combine_conds cs)
unfolding combine_conds
combine_conds-IsBound cs h =
    conjunction-IsBound (collect cs).0 (collect cs).1 (collect-ReadsAll cs h)
