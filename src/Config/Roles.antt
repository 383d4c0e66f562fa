-- ===== src/Config/Roles.antt =====
-- config/config.go: the role rules. A permission that YAML leaves null is `none`.
use titanium_graph_api.Base.{List, Text, Bool, Option}

pub record OpPerm : Type 0 where
  pub allow : Bool
  pub columns : List Text
  pub filter : Text
  pub presets : List (Text × Text)

pub record TablePerm : Type 0 where
  pub select : Option OpPerm
  pub insert : Option OpPerm
  pub update : Option OpPerm
  pub delete : Option OpPerm

pub record Role : Type 0 where
  pub tables : List (Text × Option TablePerm)
