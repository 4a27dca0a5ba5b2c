-- ===== src/Apps/Service.antt =====
-- deploy/app_service.go: `Plan` of a service app.
use Prim.Native.String.{◌++◌}
use cli_plugin_gcp.Common.{
  String, Bool, false, not, ◌&&◌, List, [], ◌∷◌, Option, none, some, if◌then◌else◌, ◌==◌, string_eq,
  Dict, insert,
}
use cli_plugin_gcp.Common.Texts.{join}
use cli_plugin_gcp.Common.Int.{ℤ, pos, int_beq}
use cli_plugin_gcp.Common.Action.{
  Action, Result, ok, err, panic, text, wrap, try, pure, fail, crash, of_result, ◌>>=◌, ◌>>◌,
}
use cli_plugin_gcp.Image.{Image}
use cli_plugin_gcp.CloudRun.{CloudRun, ProbeFields}
use cli_plugin_gcp.Scheduler.{CloudSchedulerJob}
use cli_plugin_gcp.Apps.{App, AppBuild, AppScheduler, AppPlanner, AppArgs, image, cloud_run, asked}
use cli_plugin_gcp.Apps.Options.{
  new_service_app_deploy_options, then_result, ServiceAppDeployOptions, Library,
}
use cli_plugin_gcp.Apps.Runsd.{add_runsd}
use cli_plugin_gcp.Apps.Schedulers.{add_cloud_schedulers}

-- types.ServiceAppProperties, as far as the plan reads it
pub record ProbeProps : Type 0 where
  pub http_path : String
  pub grpc_service : String
  pub port : ℤ
  pub initial_delay_seconds : ℤ
  pub period_seconds : ℤ
  pub timeout_seconds : ℤ
  pub failure_threshold : ℤ

pub record Container : Type 0 where
  pub port : ℤ
  pub entrypoint : List String
  pub command : List String
  pub liveness_probe : ProbeProps
  pub startup_probe : ProbeProps

pub record ServiceProps : Type 0 where
  pub is_private : Bool
  pub container : Container
  pub scheduler : List AppScheduler

-- CloudRunSettings
pub record CloudRunSettings : Type 0 where
  pub region : String
  pub project_hash : String
  pub region_code : String

unfoldable pub url_suffix : Option CloudRunSettings → String
url_suffix none = "undefined-undefined"
url_suffix (some s) = s.project_hash ++ "-" ++ s.region_code

abbrev probe_fields : ProbeProps → ProbeFields
probe_fields p = record {
  http_path = asked p.http_path;
  grpc_service = asked p.grpc_service;
  port = asked p.port;
  initial_delay_seconds = asked p.initial_delay_seconds;
  period_seconds = asked p.period_seconds;
  timeout_seconds = asked p.timeout_seconds;
  failure_threshold = asked p.failure_threshold;
}

abbrev project_hash_of : Option CloudRunSettings → String
project_hash_of none = "unknown"
project_hash_of (some s) = s.project_hash

abbrev env_of : Option (Dict String) → Dict String
env_of none = []
env_of (some env) = env

-- the map of the environment, with the hash of the project
abbrev pub with_hash : Option CloudRunSettings → Option (Dict String) → Dict String
with_hash settings env = insert "CLOUD_RUN_PROJECT_HASH" (project_hash_of settings) (env_of env)

-- ServiceApp with the resources that `Plan` sets, and the map of the environment after it
module _ (Float : Type 0) where
  pub record ServiceApp : Type 0 where
    pub app : App
    pub skip : Bool
    pub destroy : Bool
    pub build : AppBuild
    pub props : ServiceProps
    pub deploy_opts : ServiceAppDeployOptions Float

pub record ServiceResources : Type 0 where
  pub image : Image
  pub cloud_run : CloudRun
  pub cloud_scheduler_jobs : List CloudSchedulerJob
  pub env : Dict String

-- *b of a pointer to a bool
abbrev deref : Option Bool → Result Bool
deref none = panic
deref (some b) = ok b

-- a nil build is an empty one
abbrev empty_build : AppBuild
empty_build = record {
  local_docker_image = "";
  local_docker_hash = "";
  local_archive_path = "";
  local_archive_hash = "";
}

abbrev pub build_of : Option AppBuild → AppBuild
build_of none = empty_build
build_of (some b) = b

module _ (l : AppPlanner) (lib : Library) where
  open l use {World, Vars}

  abbrev pub Service : Type 0
  Service = ServiceApp lib.Float

  abbrev pub made :
      App
      → Bool
      → Bool
      → Option AppBuild
      → ServiceProps
      → ServiceAppDeployOptions lib.Float
      → Service
  made app skip destroy build props opts = record {
    app = app;
    skip = skip;
    destroy = destroy;
    build = build_of build;
    props = props;
    deploy_opts = opts;
  }

  -- `NewServiceApp`; `props` is how the properties are decoded
  unfoldable pub new_service_app :
      App → Bool → Bool → Option AppBuild → Result ServiceProps → lib.Input → Result Service
  new_service_app app skip destroy build props input =
      then_result
        (λ p.
          then_result (λ opts. ok (made app skip destroy build p opts))
            (new_service_app_deploy_options lib input))
        props

  -- what the args hold beside the place: the environment is that of the app
  module _ (c : AppArgs) (vars : Vars) (sql_names : List String)
      (settings : Option CloudRunSettings) where
    abbrev pub first_image : Service → Image
    first_image o = record {
      name = asked (l.image_id o.app.id);
      tag = asked "";
      project_id = asked c.project_id;
      region = asked c.region;
      digest = none;
      source = asked "";
      source_hash = asked "";
      pull = false;
      pull_auth = false;
    }

    abbrev adding_failed : Service → Result Image → Action World Image
    adding_failed o (ok i) = pure i
    adding_failed o (err e) =
        fail (wrap ("adding runsd to image of service app '" ++ o.app.name ++ "' failed") e)
    adding_failed o panic = crash

    -- the source of the image; `add` is `addRunsd`
    abbrev pub with_source :
        (AppBuild → Image → Bool → Action World Image) → Service → Bool → Action World Image
    with_source add o apply =
        if not (o.build.local_docker_image == "") && not (o.build.local_docker_hash == "")
        then (if not o.deploy_opts.skip_runsd
            then (if int_beq o.props.container.port (pos 80)
                then fail (
                    text (
                      "cannot inject runsd to service app '" ++ o.app.name
                      ++ "' running at port 80 - run at different port"))
                else (try (add o.build (first_image o) apply) >>= adding_failed o))
            else pure (record (first_image o) {
              source_hash = asked o.build.local_docker_hash;
              source = asked o.build.local_docker_image;
            }))
        else pure (first_image o)

    -- the loop over the environment
    unfoldable pub expand_env : Dict String → Dict String → Action World (Dict String)
    expand_env [] vars' = pure vars'
    expand_env ((k, v) ∷ env) vars' =
        of_result (l.expand vars v) >>= λ v'. expand_env env (insert k v' vars')

    -- a service app's container, from its options and its properties
    abbrev pub cloud_run_of : Service → Image → Dict String → Bool → Bool → CloudRun
    cloud_run_of o i env throttling boost = record {
      name = asked (l.id o.app.id);
      project_id = asked c.project_id;
      region = asked c.region;
      command = asked o.props.container.entrypoint;
      args = asked o.props.container.command;
      image = asked (l.image_ref i);
      is_public = asked (not o.props.is_private);
      cloud_sql_instances = asked (join "," sql_names);
      min_scale = asked o.deploy_opts.min_scale;
      max_scale = asked o.deploy_opts.max_scale;
      cpu_limit = asked (l.itoa_int (lib.milli o.deploy_opts.cpu_limit) ++ "m");
      memory_limit = asked (l.itoa_int o.deploy_opts.memory_limit ++ "Mi");
      container_concurrency = asked o.deploy_opts.container_concurrency;
      timeout_seconds = asked o.deploy_opts.timeout;
      port = asked o.props.container.port;
      env_vars = asked env;
      ingress = asked "all";
      execution_environment = asked o.deploy_opts.execution_environment;
      cpu_throttling = asked throttling;
      startup_cpu_boost = asked boost;
      service_account_name = asked o.deploy_opts.service_account_name;
      egress_network = asked o.deploy_opts.egress_network;
      egress_subnet = asked o.deploy_opts.egress_subnet;
      egress_mode = asked o.deploy_opts.egress_mode;
      liveness_probe = probe_fields o.props.container.liveness_probe;
      startup_probe = probe_fields o.props.container.startup_probe;
      url = none;
      ready = none;
      status_message = none;
    }

    abbrev jobs_of : Service → Action World (List CloudSchedulerJob)
    jobs_of o =
        if o.app.url == "" then pure [] else add_cloud_schedulers l c o.app 0 o.props.scheduler

    abbrev pub missing_image : Service → Bool → Bool
    missing_image o existing =
        not existing && (o.build.local_docker_hash == "") && not o.skip && not o.destroy

    abbrev pub plan_cloud_run : Service → Image → Action World ServiceResources
    plan_cloud_run o i =
        let env = with_hash settings o.app.env in
        expand_env env [] >>= λ env_vars.
        of_result (deref o.deploy_opts.cpu_throttling) >>= λ throttling.
        of_result (deref o.deploy_opts.startup_cpu_boost) >>= λ boost.
        l.register o.app.id "cloud_run" (cloud_run (cloud_run_of o i env_vars throttling boost))
        >> jobs_of o
        >>= λ jobs. pure (record {
          image = i;
          cloud_run = cloud_run_of o i env_vars throttling boost;
          cloud_scheduler_jobs = jobs;
          env = env;
        })

    -- `Plan`, with any way to add runsd
    unfoldable pub service_app_plan_with :
        (AppBuild → Image → Bool → Action World Image)
        → Service
        → Bool
        → Action World ServiceResources
    service_app_plan_with add o apply = with_source add o apply >>= λ i.
        l.register o.app.id "image" (image i) >> l.is_existing o.app.id "image" >>= λ existing.
        if missing_image o existing
        then fail (text ("image for app '" ++ o.app.name ++ "' is missing"))
        else plan_cloud_run o i

    unfoldable pub service_app_plan : Service → Bool → Action World ServiceResources
    service_app_plan o apply = service_app_plan_with (add_runsd l) o apply
