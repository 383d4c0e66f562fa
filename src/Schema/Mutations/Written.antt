-- ===== src/Schema/Mutations/Written.antt =====
-- What a mutation writes: presets win, and everything else is a value that the client may write.
use titanium_graph_api.Base.{◌≡◌, ◌≢◌, [], Text, true, false, member, ◌⊎◌, All}
use titanium_graph_api.Value.{Value, Fields}
use titanium_graph_api.Results.{ok}
use titanium_graph_api.Catalog.{Column}
use titanium_graph_api.Rbac.Resolve.{Preset, preset_value, OpAccess}
use titanium_graph_api.Sql.{Condition}
use titanium_graph_api.Schema.{TableInfo}
use titanium_graph_api.Schema.Scalars.{Marshal, bind_value}
use titanium_graph_api.Schema.Mutations.{ByCol, is_preset}

-- A preset forces the value of the column.
pub record IsForced (oa : OpAccess) (claims : Fields) (name : Text) (v : Value) : Type 0 where
  pub forced : is_preset name oa.presets ≡ true
  pub preset : Preset
  pub names : preset.column.name ≡ name
  pub value : preset_value preset claims ≡ ok v

-- The client gave the value, for a column that it may write.
pub record IsGiven (marshal : Marshal) (oa : OpAccess) (name : Text) (v : Value) : Type 0 where
  pub column : Column
  pub names : column.name ≡ name
  pub in_grant : member name oa.column_set ≡ true
  pub not_forced : is_preset name oa.presets ≡ false
  pub not_generated : column.generated ≡ false
  pub given : Value
  pub bound : bind_value marshal column given ≡ ok v

module _ (marshal : Marshal) (ti : TableInfo) (oa : OpAccess) (claims : Fields) where
  abbrev pub IsWritten : Text × Value → Type 0
  IsWritten (name, v) = IsForced oa claims name v ⊎ IsGiven marshal oa name v

  abbrev Forced : Preset → Type 0
  Forced p = is_preset p.column.name oa.presets ≡ true

  abbrev pub IsWrittenPair : Column × Value → Type 0
  IsWrittenPair p = IsWritten (p.0.name, p.1)

  -- The values of an update are so, too, and there is at least one.
  abbrev pub IsUpdate : Condition × ByCol → Type 0
  IsUpdate r = All IsWritten r.1 × (r.1 ≢ [])
