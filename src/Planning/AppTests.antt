-- ===== src/Planning/AppTests.antt =====
-- A plan of one app, and what is reported of it after an apply.
use cli_plugin_gcp.Common.{◌≡◌, refl, String, true, false, List, [], ◌∷◌, none, some}
use cli_plugin_gcp.Common.Action.{ok, err, text}
use Prim.Native.String.{◌++◌}
use cli_plugin_gcp.CloudRun.{CloudRun}
use cli_plugin_gcp.Common.{Dict, lookup}
use cli_plugin_gcp.Common.Int.{pos}
use cli_plugin_gcp.Common.Action.{pure}
use cli_plugin_gcp.Dependencies.{DepPlanner}
use cli_plugin_gcp.Dependencies.Plan.{DepsPlan}
use cli_plugin_gcp.Apps.{App}
use cli_plugin_gcp.Apps.Options.{Library, new_static_app_deploy_options}
use cli_plugin_gcp.Apps.Static.{
  StaticApp, static_cloud_run, bucket_of, static_image, static_app_plan, proxy_env,
}
use cli_plugin_gcp.AppStates.{Deployed, Saved, unspecified}
use cli_plugin_gcp.AppStates.Reported.{dns_of}
use cli_plugin_gcp.AppStates.Deployments.{
  DeployedApp, static_app, save_deployments, compute_app_deployment_state,
}
use cli_plugin_gcp.AppStates.Complete.{deployment_in}
use cli_plugin_gcp.Examples.Apps.{Options, lib, planner, place}
use cli_plugin_gcp.Planning.Apps.{
  AppPlan, AppContext, AppsPlan, plan_apps, prepare_all, plan_prepared, new_static_app,
  prepare_static_apps_deploy, prepare_service_apps_deploy, prepare_function_apps_deploy,
  prepare_apps_deploy, plan_static_app_deploy, plan_apps_deploy,
}
use cli_plugin_gcp.Planning.Saves.{plan_apps-reported}

-- A plan of one static app without a URL, which is not built.
abbrev decoders : Library
decoders = record lib {
  decode_static =
      λ o. ok (record { min_scale = pos 0; max_scale = pos 2; timeout = pos 60; patterns = [] });
}

abbrev dep_planner : DepPlanner
dep_planner = record {
  World = Unit {0};
  register = λ dep key r. pure true;
  database_options = λ p. err (text "no object");
  database_need = λ p. err (text "no object");
  storage_options = λ p. err (text "no object");
  storage_need = λ p. err (text "no object");
  to_upper = λ s. s;
  random_id = λ s. s;
  random_password = λ dep user. "secret";
  connection_name = λ sql. sql.name;
}

-- the variables are a map by the id of the app and the name of the variable
abbrev context : AppContext planner decoders
context = record {
  AppVars = Dict String;
  app_vars_from = λ apps. [];
  set_var = λ app name value vars. (app.id ++ "." ++ name, value) ∷ vars;
  vars_for_app = λ vars app deps. tt;
  static_props = λ o. ok (record {
    build_dir = "dist";
    routing = "react";
    cdn_enabled = false;
    remove_trailing_slash = none;
    basic_auth = none;
  });
  service_props = λ o. err (text "no object");
  function_props = λ o. err (text "no object");
  connection_name = λ d. d.cloud_sql.name;
  deps = dep_planner;
}

abbrev docs : App
docs = record { id = "docs"; name = "docs"; kind = "static"; url = ""; dir = "docs"; env = none }

abbrev no_options : Options
no_options = record {
  cpu_limit = 0;
  memory_limit = pos 0;
  min_scale = pos 0;
  max_scale = pos 0;
  timeout = pos 0;
  skip_runsd = false;
  container_concurrency = pos 0;
  execution_environment = "";
  cpu_throttling = none;
  startup_cpu_boost = none;
  service_account_name = "";
  egress_network = "";
  egress_subnet = "";
  egress_mode = "";
}

abbrev plans : List (AppPlan Options)
plans =
    record {
      app = docs;
      needy = record { address = 1; id = "docs"; needs = [] };
      skip = true;
      build = none;
      properties = no_options;
    }
    ∷ []

abbrev no_deps : DepsPlan
no_deps = record { database_deps = []; storage_deps = []; dep_id_map = [] }

abbrev docs_app : StaticApp
docs_app = record {
  app = docs;
  skip = true;
  props = record {
    build_dir = "dist";
    routing = "react";
    cdn_enabled = false;
    remove_trailing_slash = none;
    basic_auth = none;
  };
  deploy_opts = record { min_scale = pos 0; max_scale = pos 2; timeout = pos 60; patterns = [] };
}

-- in place of the service, its reply after the apply
abbrev docs_run : CloudRun
docs_run = static_cloud_run planner place docs_app

abbrev outcome : AppsPlan decoders.Float
outcome = record {
  app_id_map = ("docs", docs) ∷ [];
  static_apps =
      (
        "docs",
        (
          docs_app,
          record {
            bucket = bucket_of planner place docs;
            files = [];
            image = static_image planner place;
            cloud_run = docs_run;
          },
        ),
      )
      ∷ [];
  service_apps = [];
  function_apps = [];
  app_deploy_id_map = ("docs", static_app docs_run) ∷ [];
}

docs_planned :
    (plan_apps planner decoders context place none false no_deps plans true []).0 ≡ ok outcome
unfolding plan_apps prepare_all prepare_service_apps_deploy prepare_apps_deploy
    prepare_static_apps_deploy new_static_app new_static_app_deploy_options
    prepare_function_apps_deploy plan_prepared plan_apps_deploy plan_static_app_deploy
    static_app_plan proxy_env
docs_planned = refl

abbrev docs_made : DeployedApp
docs_made = static_app (record docs_run {
  name = record { current = some "docs-dev"; wanted = "docs-dev" };
  url = some "https://docs-dev-abc-ew.a.run.app";
  ready = some true;
})

abbrev docs_only : Deployed
docs_only = record {
  apps = ("docs", tt) ∷ [];
  hostname = λ url. err (text "no URL");
  ip = none;
  ssls = [];
}

abbrev unsaved : Saved
unsaved = record { app_states = []; records_map = []; records = [] }

plan_apps-reported_example :
    (s' : Saved) × (save_deployments docs_only (("docs", docs_made) ∷ []) unsaved ≡ ok s')
    × (deployment_in (lookup "docs" s'.app_states) ≡ some (record { ready = true; message = "" }))
    × (dns_of (lookup "docs" s'.app_states)
        ≡ some (record {
          ip = "";
          url = "";
          ssl_status = unspecified;
          ssl_status_info = "";
          internal_url = "http://docs-dev";
          cloud_url = "https://docs-dev-abc-ew.a.run.app";
        }))
unfolding compute_app_deployment_state
plan_apps-reported_example =
    plan_apps-reported planner decoders context place none false no_deps plans true [] outcome
      (("docs", docs_made) ∷ []) docs_only unsaved "docs" docs_made
      (record { ready = true; message = "" }) docs_planned refl refl refl refl
