-- ===== src/Start/Project.antt =====
-- `Start` of plugin/start.go where its project is not found.
use cli_plugin_gcp.Common.{String, Option, none, some}
use cli_plugin_gcp.Common.Action.{Result, ok, err, panic}
use cli_plugin_gcp.Start.{connect, set_project, at_world, Cloud, Started}

-- How a start ends, by how the making of its project ended: what was made is lost in a panic, and an error, and
-- a wait that ran out of fuel, are passed on.
abbrev pub lost : Result (Option (Unit {0})) → Result (Option (Unit {0}))
lost (ok none) = ok none
lost (ok (some _)) = panic
lost (err e) = err e
lost panic = panic

module _ (c : Cloud) where
  open c use {World, get_project}

  -- the state after the settings, the credentials and the connection, in which `Start` looks for the project
  abbrev pub looking : String → String → Started c → Started c
  looking project region s =
      (at_world c (connect c) (at_world c c.credentials (set_project c project region s).1).1).1
