-- ===== src/Rbac/Resolve.antt =====
-- The resolution of one role's rules over the catalog.
pub mod Presets
pub mod Grants
use titanium_graph_api.Base.{
  ℕ, zero, suc, List, [], ◌∷◌, ◌++◌, Text, Bool, true, false, ◌&&◌, ◌||◌, not, Option, none, some,
  if◌then◌else◌, length, lookup, member, codes, text_eq, text_lt, cut_prefix, map,
}
use titanium_graph_api.Value.{Value, str, Fields}
use titanium_graph_api.Catalog.{Column, Table, Catalog, has_column, is_some}
use titanium_graph_api.Config.Roles.{OpPerm, TablePerm, Role}
use titanium_graph_api.Results.{
  Result, ok, err, ◌>>=◌, missing_claim, not_scalar_claim, unknown_table, unknown_column,
  unknown_preset, bad_claim_path,
}
use titanium_graph_api.Rbac.{lookup_claim}
use titanium_graph_api.Rbac.Filter.{RowFilter, is_scalar, compile_filter, is_claim_path, jwt_prefix}

-- `ClaimPath` is empty for a literal.
pub record Preset : Type 0 where
  pub column : Column
  pub claim_path : Text
  pub literal : Text

abbrev pub scalar_claim : Text → Option Value → Result Value
scalar_claim path none = err (missing_claim path)
scalar_claim path (some v) = if is_scalar v then ok v else err (not_scalar_claim path)

abbrev pub preset_source : Text → Text → Fields → Result Value
preset_source [] literal claims = ok (str literal)
preset_source (c ∷ path) literal claims = scalar_claim (c ∷ path) (lookup_claim claims (c ∷ path))

-- The value that a preset forces for the given claims.
unfoldable pub preset_value : Preset → Fields → Result Value
preset_value p claims = preset_source p.claim_path p.literal claims

-- One allowed operation.
pub record OpAccess : Type 0 where
  pub columns : List Column
  pub column_set : List Text
  pub filter : Option RowFilter
  pub presets : List Preset

-- `none` means that the operation is denied.
pub record TableAccess : Type 0 where
  pub select : Option OpAccess
  pub insert : Option OpAccess
  pub update : Option OpAccess
  pub delete : Option OpAccess

-- The columns of a rule that the table has; an explicit rule must name no other.
unfoldable pub wanted : Table → Bool → List Text → Result (List Text)
wanted t explicit [] = ok []
wanted t explicit (c ∷ cs) =
    let rest = wanted t explicit cs in
    if has_column t c
    then (do names ← rest; ok (c ∷ names))
    else if explicit
    then err (unknown_column t.name c)
    else rest

-- The columns of the table that are wanted, in table order.
unfoldable pub pick : List Text → List Column → List Column
pick names [] = []
pick names (c ∷ cs) = if member c.name names then c ∷ pick names cs else pick names cs

-- The effective columns; none of them left denies the operation.
abbrev pub effective_columns : Table → Bool → List Text → Result (List Column)
effective_columns t explicit [] = ok t.columns
effective_columns t explicit (n ∷ ns) = do
  names ← wanted t explicit (n ∷ ns)
  ok (pick names t.columns)

abbrev pub compile_op_filter : Text → Result (Option RowFilter)
compile_op_filter [] = ok none
compile_op_filter (c ∷ s) = do f ← compile_filter (c ∷ s); ok (some f)

-- A value that begins with ":jwt." names a claim.
abbrev pub make_preset : Table → Column → Text → Option Text → Result Preset
make_preset t c val none = ok (record { column = c; claim_path = []; literal = val })
make_preset t c val (some path) =
    if is_claim_path path
    then ok (record { column = c; claim_path = path; literal = [] })
    else err (bad_claim_path t.name val)

abbrev pub add_preset :
    Table → Bool → Text → Text → Option Column → Result (List Preset) → Result (List Preset)
add_preset t explicit name val none rest =
    if explicit then err (unknown_preset t.name name) else rest
add_preset t explicit name val (some c) rest = do
  p ← make_preset t c val (cut_prefix jwt_prefix val)
  ps ← rest
  ok (p ∷ ps)

-- The loop over the presets of the rule, in the order in which the map yields them.
unfoldable pub make_presets : Table → Bool → List (Text × Text) → Result (List Preset)
make_presets t explicit [] = ok []
make_presets t explicit ((name, val) ∷ rest) =
    add_preset t explicit name val (lookup name t.column_map) (make_presets t explicit rest)

abbrev pub precedes : Preset → Preset → Bool
precedes p q = text_lt p.column.name q.column.name

-- One round of the exchange sort: the least preset moves to the front.
unfoldable pub exchange : Preset → List Preset → Preset × List Preset
exchange p [] = (p, [])
exchange p (q ∷ qs) =
    let b = precedes q p in
    let (least, rest) = exchange (if b then q else p) qs in (least, (if b then p else q) ∷ rest)

unfoldable pub sort_presets : ℕ → List Preset → List Preset
sort_presets zero ps = ps
sort_presets (suc n) [] = []
sort_presets (suc n) (p ∷ ps) = let (least, rest) = exchange p ps in least ∷ sort_presets n rest

abbrev pub names_of : List Column → List Text
names_of cs = map (λ c. c.name) cs

abbrev pub denied_or : List Text → List Column → Result OpAccess → Result (Option OpAccess)
denied_or (n ∷ ns) [] access = ok none
denied_or names cols access = do oa ← access; ok (some oa)

abbrev pub build_access : Table → OpPerm → Bool → List Column → Result OpAccess
build_access t perm explicit cols = do
  f ← compile_op_filter perm.filter
  ps ← make_presets t explicit perm.presets
  ok (record {
    columns = cols;
    column_set = names_of cols;
    filter = f;
    presets = sort_presets (length ps) ps;
  })

abbrev pub resolve_rule : Table → OpPerm → Bool → Result (Option OpAccess)
resolve_rule t perm explicit = do
  cols ← effective_columns t explicit perm.columns
  denied_or perm.columns cols (build_access t perm explicit cols)

unfoldable pub resolve_op : Table → Option OpPerm → Bool → Result (Option OpAccess)
resolve_op t none explicit = ok none
resolve_op t (some perm) explicit = if perm.allow then resolve_rule t perm explicit else ok none

abbrev pub join_perm : Option (Option TablePerm) → Option TablePerm
join_perm none = none
join_perm (some p) = p

abbrev pub is_star : Text → Bool
is_star name = text_eq name (codes "*")

-- Every table that the role names, other than "*", is in the catalog.
unfoldable pub check_tables : Catalog → List (Text × Option TablePerm) → Result (Unit {0})
check_tables cat [] = ok tt
check_tables cat ((name, p) ∷ rest) =
    let later = check_tables cat rest in
    if is_star name || is_some (lookup name cat.tables) then later else err (unknown_table name)

unfoldable pub resolve_table : Table → TablePerm → Bool → Result TableAccess
unfolding resolve_op
resolve_table t perm explicit = do
  s ← resolve_op t perm.select explicit
  i ← resolve_op t perm.insert explicit
  u ← resolve_op t perm.update explicit
  d ← resolve_op t perm.delete explicit
  ok (record { select = s; insert = i; update = u; delete = d })

abbrev pub grants_something : TableAccess → Bool
grants_something ta =
    is_some ta.select || is_some ta.insert || is_some ta.update || is_some ta.delete

-- The rule for a table: its own, or else the wildcard's.
abbrev pub rule_for : Option TablePerm → Option TablePerm → Option (TablePerm × Bool)
rule_for (some p) wildcard = some (p, true)
rule_for none (some p) = some (p, false)
rule_for none none = none

abbrev pub Accesses : Type 0
Accesses = List (Text × TableAccess)

abbrev pub add_access : Text → TableAccess → Accesses → Accesses
add_access name ta acc = if grants_something ta then (name, ta) ∷ acc else acc

abbrev pub resolve_one :
    Text → Option Table → Option (TablePerm × Bool) → Result Accesses → Result Accesses
resolve_one name none rule rest = rest
resolve_one name (some t) none rest = rest
resolve_one name (some t) (some (perm, explicit)) rest = do
  ta ← resolve_table t perm explicit
  acc ← rest
  ok (add_access name ta acc)

-- The loop over the tables of the catalog, in order.
unfoldable pub resolve_tables : Role → Catalog → List Text → Result Accesses
resolve_tables role cat [] = ok []
resolve_tables role cat (name ∷ names) =
    resolve_one name (lookup name cat.tables)
      (rule_for (join_perm (lookup name role.tables)) (join_perm (lookup (codes "*") role.tables)))
      (resolve_tables role cat names)

unfoldable pub resolve : Role → Catalog → Result Accesses
unfolding check_tables resolve_tables
resolve role cat = check_tables cat role.tables >>= λ _. resolve_tables role cat cat.table_order
