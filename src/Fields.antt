-- ===== src/Fields.antt =====
-- The fields of a resource, of outblocks-plugin-go's registry/fields, as far as the code uses them:
-- the value that the state holds, if any, and the value that the configuration asks for.
use cli_plugin_gcp.Common.{◌≡◌, Option, none, some}

pub record Input (A : Type 0) : Type 0 where
  pub current : Option A
  pub wanted : A

module _ {A : Type 0} where
  abbrev pub set_current : Input A → A → Input A
  set_current f a = record f { current = some a }

  abbrev pub unset_current : Input A → Input A
  unset_current f = record f { current = none }

  -- The state holds what the configuration asks for.
  abbrev pub Agrees : Input A → Type 0
  Agrees f = f.current ≡ some f.wanted
