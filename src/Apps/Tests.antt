-- ===== src/Apps/Tests.antt =====
-- Runs of the plans of apps on concrete inputs.
use Prim.Native.String.{◌++◌}
use cli_plugin_gcp.Common.{
  ◌≡◌, refl, String, Bool, true, false, List, [], ◌∷◌, none, some, string_eq, arith,
}
use cli_plugin_gcp.Common.Int.{pos}
use cli_plugin_gcp.Common.Action.{Action, ok, text, pure, fail}
use cli_plugin_gcp.Image.{Image}
use cli_plugin_gcp.Scheduler.{CloudSchedulerJob, job_reference}
use cli_plugin_gcp.Examples.Apps.{Options, lib, planner, place}
use cli_plugin_gcp.Apps.{App, AppBuild, AppScheduler}
use cli_plugin_gcp.Apps.Options.{new_service_app_deploy_options}
use cli_plugin_gcp.Apps.Bounds.{IsLibrary, IsBounded, new_service_app_deploy_options-IsBounded}
use cli_plugin_gcp.Apps.Schedulers.{job_of, add_cloud_schedulers, add_cloud_schedulers-collide}
use cli_plugin_gcp.Apps.Runsd.{entrypoint_of}
use cli_plugin_gcp.Apps.Service.{
  Service, ServiceProps, ProbeProps, new_service_app, service_app_plan_with, url_suffix,
}
use cli_plugin_gcp.Apps.Injected.{service_app_plan-skips_runsd}
use cli_plugin_gcp.Apps.Static.{proxy_env}

lib-IsLibrary : IsLibrary lib
lib-IsLibrary = record {
  skip_runsd = λ o o' e. ground arith;
  container_concurrency = λ o o' e. ground arith;
  min_le = λ m v h z. ground arith;
  max_le = λ m v h z. ground arith;
}

-- three instances at least, two at most, and runsd asked for
abbrev wanted : Options
wanted = record {
  cpu_limit = 2000;
  memory_limit = pos 512;
  min_scale = pos 3;
  max_scale = pos 2;
  timeout = pos 0;
  skip_runsd = false;
  container_concurrency = pos 0;
  execution_environment = "gen2";
  cpu_throttling = none;
  startup_cpu_boost = none;
  service_account_name = "";
  egress_network = "";
  egress_subnet = "";
  egress_mode = "private-ranges-only";
}

abbrev accepted : Options
accepted = record wanted {
  min_scale = pos 2;
  timeout = pos 300;
  skip_runsd = true;
  container_concurrency = pos 250;
  cpu_throttling = some true;
  startup_cpu_boost = some false;
}

accepted_is : new_service_app_deploy_options lib wanted ≡ ok accepted
unfolding new_service_app_deploy_options
accepted_is = refl

new_service_app_deploy_options-IsBounded_example : IsBounded accepted
new_service_app_deploy_options-IsBounded_example =
    new_service_app_deploy_options-IsBounded lib lib-IsLibrary wanted accepted accepted_is

abbrev app_at : String → String → App
app_at id url = record { id = id; name = id; kind = "service"; url = url; dir = id; env = none }

abbrev hourly : AppScheduler
hourly = record { name = ""; cron = "0 * * * *"; method = ""; path = "/tick"; headers = [] }

abbrev job_at : String → CloudSchedulerJob
job_at url = job_of planner place 0 hourly (url ++ "/tick")

jobs_made :
    (add_cloud_schedulers planner place (app_at "shop" "https://shop") 0 (hourly ∷ []) []).0
    ≡ ok (job_at "https://shop" ∷ [])
unfolding add_cloud_schedulers
jobs_made = refl

jobs_made' :
    (add_cloud_schedulers planner place (app_at "blog" "https://blog") 0 (hourly ∷ []) []).0
    ≡ ok (job_at "https://blog" ∷ [])
unfolding add_cloud_schedulers
jobs_made' = refl

add_cloud_schedulers-collide_example :
    job_reference (job_at "https://shop") ≡ job_reference (job_at "https://blog")
add_cloud_schedulers-collide_example =
    add_cloud_schedulers-collide planner place (app_at "shop" "https://shop")
      (app_at "blog" "https://blog") (hourly ∷ []) (hourly ∷ []) (job_at "https://shop" ∷ [])
      (job_at "https://blog" ∷ []) [] [] 0 hourly hourly (job_at "https://shop")
      (job_at "https://blog") jobs_made jobs_made' refl refl refl refl refl

abbrev no_probe : ProbeProps
no_probe = record {
  http_path = "";
  grpc_service = "";
  port = pos 0;
  initial_delay_seconds = pos 0;
  period_seconds = pos 10;
  timeout_seconds = pos 1;
  failure_threshold = pos 3;
}

abbrev props : ServiceProps
props = record {
  is_private = false;
  container = record {
    port = pos 8080;
    entrypoint = [];
    command = [];
    liveness_probe = no_probe;
    startup_probe = no_probe;
  };
  scheduler = [];
}

abbrev build : AppBuild
build = record {
  local_docker_image = "shop:1";
  local_docker_hash = "sha256:1";
  local_archive_path = "";
  local_archive_hash = "";
}

abbrev service : Service planner lib
service = record {
  app = app_at "shop" "";
  skip = false;
  destroy = false;
  build = build;
  props = props;
  deploy_opts = accepted;
}

service_made :
    new_service_app planner lib (app_at "shop" "") false false (some build) (ok props) wanted
    ≡ ok service
unfolding new_service_app new_service_app_deploy_options
service_made = refl

-- ways to add runsd that fail and that change nothing
abbrev failing : AppBuild → Image → Bool → Action (List String) Image
failing b i apply = fail (text "no runsd")

abbrev idle : AppBuild → Image → Bool → Action (List String) Image
idle b i apply = pure i

service_app_plan-skips_runsd_example :
    service_app_plan_with planner lib place tt [] none failing service false []
    ≡ service_app_plan_with planner lib place tt [] none idle service false []
service_app_plan-skips_runsd_example =
    service_app_plan-skips_runsd planner lib place tt [] none lib-IsLibrary (app_at "shop" "") false
      false (some build) (ok props) wanted service failing idle false [] service_made

runsd_before_command :
    entrypoint_of
      (record { id = "sha"; user = "node"; entrypoint = []; cmd = "npm" ∷ "start" ∷ [] })
    ≡ "/bin/runsd" ∷ "--user" ∷ "node" ∷ "--" ∷ "npm" ∷ "start" ∷ []
unfolding entrypoint_of
runsd_before_command = refl

undefined_suffix : url_suffix none ≡ "undefined-undefined"
unfolding url_suffix
undefined_suffix = refl

slash_kept :
    proxy_env
      (record {
        build_dir = "dist";
        routing = "react";
        cdn_enabled = false;
        remove_trailing_slash = some false;
        basic_auth = none;
      })
      (record {
        name = "web";
        location = "eu";
        project_id = "p";
        versioning = false;
        critical = false;
      })
    ≡ ("GCS_BUCKET", "web") ∷ ("ROUTING", "react") ∷ ("REMOVE_TRAILING_SLASH", "0") ∷ []
unfolding proxy_env
slash_kept = refl
