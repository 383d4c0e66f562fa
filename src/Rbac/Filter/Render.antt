-- ===== src/Rbac/Filter/Render.antt =====
-- Rendering a row filter: the SQL text depends on the shape of the claims only, has a placeholder
-- for every argument, and is refused when a claim is missing.
use titanium_graph_api.Base.{
  ℕ, zero, suc, ◌<◌, ◌≡◌, ◌≢◌, refl, sym, ap, List, [], ◌∷◌, ◌++◌, Text, true, Option, none, some,
  ◌∙◌, length, length-append, arith, All, All-append, map, codes,
}
use titanium_graph_api.Value.{Value, null, bool, float, str, arr, Values, nil, cons, Fields, elems}
use titanium_graph_api.Results.{Result, ok, err, Ensures, Ensures-eq-ok, Ensures-bind, Ensures-if}
use titanium_graph_api.Sql.{Condition, placeholders}
use titanium_graph_api.Sql.Lexer.{scan, marks, Reads, Reads-append}
use titanium_graph_api.Sql.Bound.{IsBound, Reads-prepend, placeholders-Reads}
use titanium_graph_api.Rbac.{lookup_claim}
use titanium_graph_api.Rbac.Filter.{
  RowFilter, is_scalar, bind_items, bind_claim, found_claim, between, render, filter_sql,
}

-- What of a claim value may show in the SQL text.
pub data Shape : Type 0 where
  one other : Shape
  many : ℕ → Shape

abbrev pub shape : Value → Shape
shape null = one
shape (bool b) = one
shape (float f) = one
shape (str s) = one
shape (arr vs) = many (length (elems vs))
shape _ = other

abbrev pub shape_of : Option Value → Option Shape
shape_of none = none
shape_of (some v) = some (shape v)

-- The text that a value of this shape is rendered as.
abbrev pub shape_sql : Shape → Text
shape_sql one = codes "?"
shape_sql other = []
shape_sql (many zero) = codes "NULL"
shape_sql (many (suc n)) = placeholders (suc n)

abbrev pub IsScalar : Value → Type 0
IsScalar v = is_scalar v ≡ true

bind_items-Ensures :
    (path : Text) (vs : Values)
    → Ensures
        (λ items. (length items ≡ length (elems vs)) × All IsScalar items)
        (bind_items path vs)
unfolding bind_items
bind_items-Ensures path nil = (refl, tt)
bind_items-Ensures path (cons v vs) =
    Ensures-if _ (is_scalar v) _ _
      (λ scalar.
        Ensures-bind _ _ (bind_items path vs) _ (bind_items-Ensures path vs)
          (λ items (same, all). (ap suc same, (scalar, all))))
      (λ _. tt)

-- A claim that is bound: its text is that of its shape, and its arguments are scalars.
abbrev BindsAs : Value → Condition → Type 0
BindsAs v c = (c.sql ≡ shape_sql (shape v)) × IsBound c × All IsScalar c.args

bind_claim-Ensures : (path : Text) (v : Value) → Ensures (BindsAs v) (bind_claim path v)
unfolding bind_claim scan marks
bind_claim-Ensures path (arr nil) = (refl, record { closed = refl; count = refl }, tt)
bind_claim-Ensures path (arr (cons v vs)) =
    Ensures-bind _ (BindsAs (arr (cons v vs))) (bind_items path (cons v vs)) _
      (bind_items-Ensures path (cons v vs))
      (λ items (same, all). (ap placeholders same, placeholders-Reads (length items), all))
bind_claim-Ensures path null = (refl, record { closed = refl; count = refl }, (refl, tt))
bind_claim-Ensures path (bool b) = (refl, record { closed = refl; count = refl }, (refl, tt))
bind_claim-Ensures path (float f) = (refl, record { closed = refl; count = refl }, (refl, tt))
bind_claim-Ensures path (str s) = (refl, record { closed = refl; count = refl }, (refl, tt))
bind_claim-Ensures path v = tt

bind_claim-eq-ok :
    (path : Text) (v : Value) {c : Condition} → bind_claim path v ≡ ok c → BindsAs v c
bind_claim-eq-ok path v h =
    Ensures-eq-ok (BindsAs v) (bind_claim path v) (bind_claim-Ensures path v) h

-- The parts of a successful round of the loop.
record Round (claims : Fields) (path : Text) (c : Condition) : Type 0 where
  value : Value
  found : lookup_claim claims path ≡ some value
  binds : BindsAs value c

found_claim-Ensures :
    (claims : Fields) (path : Text) (o : Option Value)
    → lookup_claim claims path ≡ o
    → Ensures (Round claims path) (found_claim path o)
found_claim-Ensures claims path none e = tt
found_claim-Ensures claims path (some v) e = step (bind_claim path v) refl
  where
    step : (r : Result Condition) → bind_claim path v ≡ r → Ensures (Round claims path) r
    step (ok c) q = record { value = v; found = e; binds = bind_claim-eq-ok path v q }
    step (err x) q = tt

none_found : {o : Option Value} {v : Value} → o ≡ some v → o ≢ none
none_found e n = cc

-- Induction over a successful run of the loop.
module _ (claims : Fields) (Q : List Text → List Text → Condition → Type 0) where
  render_ind :
      ((paths : List Text) → Q [] paths (record { sql = []; args = [] }))
      → ((seg : Text) (segs : List Text) → Q (seg ∷ segs) [] (record { sql = seg; args = [] }))
      → ((seg path : Text) (segs paths : List Text) (c rest : Condition)
          → Round claims path c
          → Q segs paths rest
          → Q (seg ∷ segs) (path ∷ paths) (between seg c rest))
      → (segs paths : List Text) → Ensures (Q segs paths) (render segs paths claims)
  unfolding render
  render_ind base last more [] paths = base paths
  render_ind base last more (seg ∷ segs) [] = last seg segs
  render_ind base last more (seg ∷ segs) (path ∷ paths) =
      Ensures-bind (Round claims path) _ (found_claim path (lookup_claim claims path)) _
        (found_claim-Ensures claims path _ refl)
        (λ c r.
          Ensures-bind (Q segs paths) _ (render segs paths claims) _
            (render_ind base last more segs paths) (λ rest q. more seg path segs paths c rest r q))

abbrev Closed : List Text → Type 0
Closed segs = All (λ seg. Reads seg 0) segs

abbrev BoundScalars : Condition → Type 0
BoundScalars c = IsBound c × All IsScalar c.args

between-BoundScalars :
    (seg : Text) (c rest : Condition)
    → Reads seg 0
    → BoundScalars c
    → BoundScalars rest
    → BoundScalars (between seg c rest)
between-BoundScalars seg c rest h (b, s) (b', s') = (
  rw (length-append c.args rest.args) (
      Reads-prepend seg _ _ h
        (Reads-append c.sql rest.sql (length c.args) (length rest.args) b b')),
  All-append IsScalar c.args rest.args s s',
)

empty_Reads : Reads [] 0
unfolding scan marks
empty_Reads = record { closed = refl; count = refl }

-- If the static SQL between the references is closed text with no placeholder of its own, the
-- rendered filter has exactly one placeholder for every argument, and every argument is a scalar.
pub filter_sql-IsBound :
    (f : RowFilter) (claims : Fields) {c : Condition}
    → All (λ seg. Reads seg 0) f.segments
    → filter_sql f claims ≡ ok c
    → IsBound c × All IsScalar c.args
unfolding filter_sql
filter_sql-IsBound f claims closed h =
    Ensures-eq-ok (λ c. Closed f.segments → BoundScalars c) (render f.segments f.paths claims)
      (render_ind claims (λ segs paths c. Closed segs → BoundScalars c)
        (λ paths _. (empty_Reads, tt)) (λ seg segs k. (k.0, tt))
        (λ seg path segs paths c rest r ih k.
          between-BoundScalars seg c rest k.0 (r.binds.1, r.binds.2) (ih k.1))
        f.segments f.paths)
      h closed

-- The SQL text, computed from the shapes of the claims alone.
static_sql : List Text → List (Option Shape) → Text
static_sql [] shapes = []
static_sql (seg ∷ segs) [] = seg
static_sql (seg ∷ segs) (none ∷ shapes) = seg
static_sql (seg ∷ segs) (some sh ∷ shapes) = seg ++ (shape_sql sh ++ static_sql segs shapes)

abbrev pub shapes_at : Fields → List Text → List (Option Shape)
shapes_at claims paths = map (λ p. shape_of (lookup_claim claims p)) paths

filter_sql-static_sql :
    (f : RowFilter) (claims : Fields) {c : Condition}
    → filter_sql f claims ≡ ok c
    → c.sql ≡ static_sql f.segments (shapes_at claims f.paths)
unfolding filter_sql static_sql
filter_sql-static_sql f claims h =
    Ensures-eq-ok (λ c. c.sql ≡ static_sql f.segments (shapes_at claims f.paths))
      (render f.segments f.paths claims)
      (render_ind claims (λ segs paths c. c.sql ≡ static_sql segs (shapes_at claims paths))
        (λ paths. refl) (λ seg segs. refl)
        (λ seg path segs paths c rest r ih. rw (r.found, ih, r.binds.0)) f.segments f.paths)
      h

-- Claim values never reach the SQL text: two tokens whose claims have the same shapes at the paths
-- of the filter (a scalar, or an array of so many items) are rendered as the same text.
pub filter_sql-shapes :
    (f : RowFilter) (claims claims' : Fields) {c c' : Condition}
    → shapes_at claims f.paths ≡ shapes_at claims' f.paths
    → filter_sql f claims ≡ ok c
    → filter_sql f claims' ≡ ok c'
    → c.sql ≡ c'.sql
filter_sql-shapes f claims claims' e h h' =
    filter_sql-static_sql f claims h
    ∙ ap (static_sql f.segments) e
    ∙ sym (filter_sql-static_sql f claims' h')

-- A filter with more segments than paths is rendered only if the token holds the claim at every
-- one of its paths.
filter_sql-found :
    (f : RowFilter) (claims : Fields) {c : Condition}
    → length f.paths < length f.segments
    → filter_sql f claims ≡ ok c
    → All (λ p. lookup_claim claims p ≢ none) f.paths
unfolding filter_sql
filter_sql-found f claims lt h =
    Ensures-eq-ok
      (λ c. length f.paths < length f.segments → All (λ p. lookup_claim claims p ≢ none) f.paths)
      (render f.segments f.paths claims)
      (render_ind claims
        (λ segs paths c. length paths < length segs → All (λ p. lookup_claim claims p ≢ none) paths)
        (λ paths lt'. absurd (omega arith)) (λ seg segs lt'. tt)
        (λ seg path segs paths c rest r ih lt'. (λ e. none_found (r.found) e, ih (omega arith)))
        f.segments f.paths)
      h lt
