-- ===== src/Start/Tests.antt =====
-- A start with a project that does not exist: the user confirms that it is to be created, and it is.
use cli_plugin_gcp.Common.{◌≡◌, refl, true, [], none}
use cli_plugin_gcp.Common.Action.{ok, err, api, panic, pure}
use cli_plugin_gcp.Common.Int.{pos}
use cli_plugin_gcp.Operations.{Operation, wait_for_cloud_resource_manager_operation}
use cli_plugin_gcp.Start.{Cloud, Started, create_confirmed, make_project, project_found, start}

abbrev created : Operation
created = record { name = "operations/cp.1"; done = true; error = none }

abbrev cloud : Cloud
cloud = record {
  World = Unit {0};
  property = λ key message. ok key;
  credentials = pure tt;
  resource_manager = pure tt;
  get_project = λ project w. (err (api 404 []), w);
  warn = λ message. pure tt;
  confirm = λ message. pure true;
  create_project = λ project. pure created;
  get_operation = λ name. pure created;
  tick = pure tt;
}

abbrev fresh : Started cloud
fresh = (tt, record { project_id = ""; region = ""; project_number = pos 0 })

crashes : (start cloud 5 fresh).0 ≡ panic
unfolding start project_found make_project create_confirmed
    wait_for_cloud_resource_manager_operation
crashes = refl
