-- ===== src/Schema/Hooks.antt =====
-- schema/hooks.go: lifecycle hooks of mutations. A hook is code of the embedding program: it sees
-- the event and works on the state of the transaction, or fails.
pub mod Runs
use titanium_graph_api.Base.{
  ℕ, List, [], ◌∷◌, ◌++◌, Text, Bool, true, false, Option, none, some, if◌then◌else◌, codes, lookup,
  text_eq, member, ◌&&◌,
}
use titanium_graph_api.Value.{Value, Fields}
use titanium_graph_api.Results.{Result, ok, err, ◌>>=◌}
use titanium_graph_api.Schema.Mutations.{ByCol}

pub data MutationOp : Type 0 where
  op_insert op_update op_delete : MutationOp

abbrev pub op_text : MutationOp → Text
op_text op_insert = codes "insert"
op_text op_update = codes "update"
op_text op_delete = codes "delete"

pub record MutationEvent : Type 0 where
  pub op : MutationOp
  pub table : Text
  pub role : Text
  pub claims : Fields
  pub values : List ByCol
  pub affected : ℕ

-- The custom fields' own resolvers are code of the embedding program.
pub record CustomField : Type 0 where
  pub name : Text
  pub operation : Text
  pub allowed_roles : List Text

abbrev pub allows_in : List Text → Text → Bool
allows_in [] role = true
allows_in (r ∷ rs) role = member role (r ∷ rs)

-- No roles listed means all roles.
unfoldable pub allows : CustomField → Text → Bool
allows c role = allows_in c.allowed_roles role

unfoldable pub hook_key : Text → MutationOp → Text
hook_key table op = table ++ (0 ∷ op_text op)

module _ (S : Type 0) where
  abbrev pub MutationHook : Type 0
  MutationHook = MutationEvent → S → Result S

  abbrev pub HookMap : Type 0
  HookMap = List (Text × List MutationHook)

  pub record Hooks : Type 0 where
    pub before : HookMap
    pub after : HookMap
    pub fields : List CustomField

  abbrev pub hooks_at : Option (List MutationHook) → List MutationHook
  hooks_at none = []
  hooks_at (some fns) = fns

  -- The first error stops the loop.
  unfoldable pub run_each : List MutationHook → MutationEvent → S → Result S
  run_each [] ev s = ok s
  run_each (fn ∷ fns) ev s = do s' ← fn ev s; run_each fns ev s'

  -- The hooks for all tables, and then those of the event's own.
  unfoldable pub run_hook_list : MutationEvent → HookMap → S → Result S
  unfolding run_each hook_key
  run_hook_list ev set s = do
    s' ← run_each (hooks_at (lookup (hook_key (codes "*") ev.op) set)) ev s
    run_each (hooks_at (lookup (hook_key ev.table ev.op) set)) ev s'

  unfoldable pub run_before : Option Hooks → MutationEvent → S → Result S
  run_before none ev s = ok s
  run_before (some h) ev s = run_hook_list ev h.before s

  unfoldable pub run_after : Option Hooks → MutationEvent → S → Result S
  run_after none ev s = ok s
  run_after (some h) ev s = run_hook_list ev h.after s

  unfoldable pub fields_for : List CustomField → Text → Text → List CustomField
  unfolding allows
  fields_for [] role operation = []
  fields_for (c ∷ cs) role operation =
      if text_eq c.operation operation && allows c role
      then c ∷ fields_for cs role operation
      else fields_for cs role operation

  unfoldable pub custom_fields_for : Option Hooks → Text → Text → List CustomField
  custom_fields_for none role operation = []
  custom_fields_for (some h) role operation = fields_for h.fields role operation
