-- ===== src/Apps/Function.antt =====
-- deploy/app_function.go: `Plan` of a function app.
use Prim.Native.String.{◌++◌}
use cli_plugin_gcp.Common.{
  String, Bool, false, not, List, [], ◌∷◌, Option, none, some, if◌then◌else◌, ◌==◌, string_eq, Dict,
  insert,
}
use cli_plugin_gcp.Common.Action.{Action, pure, of_result, ◌>>=◌, ◌>>◌}
use cli_plugin_gcp.CloudFunction.{CloudFunction}
use cli_plugin_gcp.Scheduler.{CloudSchedulerJob}
use cli_plugin_gcp.Objects.{BucketObject}
use cli_plugin_gcp.Apps.{
  App, AppBuild, AppScheduler, AppPlanner, AppArgs, AppBucket, cloud_function, bucket,
  bucket_object, asked,
}
use cli_plugin_gcp.Apps.Options.{FunctionAppDeployOptions}
use cli_plugin_gcp.Apps.Schedulers.{add_cloud_schedulers}

-- types.FunctionAppProperties, as far as the plan reads it
pub record FunctionProps : Type 0 where
  pub entrypoint : String
  pub runtime : String
  pub is_private : Bool
  pub scheduler : List AppScheduler

pub record FunctionApp : Type 0 where
  pub app : App
  pub skip : Bool
  pub build : AppBuild
  pub props : FunctionProps
  pub deploy_opts : FunctionAppDeployOptions

pub record FunctionResources : Type 0 where
  pub bucket : AppBucket
  pub archive : BucketObject
  pub cloud_function : CloudFunction
  pub cloud_scheduler_jobs : List CloudSchedulerJob

module _ (l : AppPlanner) (c : AppArgs) where
  open l use {World, Vars}

  abbrev function_bucket : App → AppBucket
  function_bucket app = record {
    name = l.global_id c.project_id app.id;
    location = c.region;
    project_id = c.project_id;
    versioning = false;
    critical = false;
  }

  abbrev pub archive_of : FunctionApp → BucketObject
  archive_of o = record {
    bucket_name = asked (function_bucket o.app).name;
    name = asked (o.build.local_archive_hash ++ ".zip");
    hash = asked o.build.local_archive_hash;
    path = o.build.local_archive_path;
    is_public = asked false;
    content_type = asked "application/zip";
    cache_control = asked "";
  }

  -- an app that was not built keeps the archive of the registry
  abbrev pub kept_archive : FunctionApp → Action World BucketObject
  kept_archive o =
      if o.build.local_archive_hash == ""
      then l.get_archive o.app.id (archive_of o)
      else pure (archive_of o)

  unfoldable pub expand_function_env : Vars → Dict String → Dict String → Action World (Dict String)
  expand_function_env vars [] vars' = pure vars'
  expand_function_env vars ((k, v) ∷ env) vars' =
      of_result (l.expand vars v) >>= λ v'. expand_function_env vars env (insert k v' vars')

  abbrev env_or_empty : Option (Dict String) → Dict String
  env_or_empty none = []
  env_or_empty (some env) = env

  abbrev pub function_of : FunctionApp → BucketObject → Dict String → CloudFunction
  function_of o archive env = record {
    name = asked (l.id o.app.id);
    project_id = asked c.project_id;
    region = asked c.region;
    entrypoint = asked o.props.entrypoint;
    runtime = asked o.props.runtime;
    source_bucket = asked (function_bucket o.app).name;
    source_object = archive.name;
    is_public = asked (not o.props.is_private);
    min_scale = asked o.deploy_opts.min_scale;
    max_scale = asked o.deploy_opts.max_scale;
    memory_limit = asked o.deploy_opts.memory_limit;
    timeout_seconds = asked o.deploy_opts.timeout;
    env_vars = asked env;
    ingress = asked "ALLOW_ALL";
    url = none;
    ready = none;
    status_message = none;
  }

  abbrev function_jobs : FunctionApp → Action World (List CloudSchedulerJob)
  function_jobs o =
      if o.app.url == "" then pure [] else add_cloud_schedulers l c o.app 0 o.props.scheduler

  -- `Plan`
  unfoldable pub function_app_plan : Vars → FunctionApp → Action World FunctionResources
  function_app_plan vars o =
      l.register o.app.id "bucket" (bucket (function_bucket o.app)) >> kept_archive o >>= λ archive.
      l.register o.app.id "archive" (bucket_object archive)
      >> expand_function_env vars (env_or_empty o.app.env) []
      >>= λ env.
          l.register o.app.id "cloud_function" (cloud_function (function_of o archive env))
          >> function_jobs o
          >>= λ jobs. pure (record {
            bucket = function_bucket o.app;
            archive = archive;
            cloud_function = function_of o archive env;
            cloud_scheduler_jobs = jobs;
          })
