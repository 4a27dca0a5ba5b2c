-- ===== src/Apps.antt =====
-- deploy/app_service.go, deploy/app_static.go, deploy/app_function.go and deploy/util.go: how an app
-- becomes resources. The registry, Docker, the file system, the evaluation of variables, net/url and the
-- names of gcp in the plugin's environment are parameters. A lazy field is its value.
pub mod Options
pub mod Bounds
pub mod Schedulers
pub mod Runsd
pub mod Service
pub mod Injected
pub mod Static
pub mod Function
mod Tests
use cli_plugin_gcp.Common.{ℕ, String, Bool, List, Option, Dict, none}
use cli_plugin_gcp.Common.Int.{ℤ}
use cli_plugin_gcp.Common.Action.{Action, Result}
use cli_plugin_gcp.Fields.{Input}
use cli_plugin_gcp.Image.{Image}
use cli_plugin_gcp.CloudRun.{CloudRun}
use cli_plugin_gcp.CloudFunction.{CloudFunction}
use cli_plugin_gcp.Scheduler.{CloudSchedulerJob}
use cli_plugin_gcp.Objects.{BucketObject}

-- apiv1.App; a nil map of the environment is `none`
pub record App : Type 0 where
  pub id : String
  pub name : String
  pub kind : String
  pub url : String
  pub dir : String
  pub env : Option (Dict String)

-- apiv1.AppBuild
pub record AppBuild : Type 0 where
  pub local_docker_image : String
  pub local_docker_hash : String
  pub local_archive_path : String
  pub local_archive_hash : String

-- types.AppScheduler
pub record AppScheduler : Type 0 where
  pub name : String
  pub cron : String
  pub method : String
  pub path : String
  pub headers : Dict String

-- gcp.Bucket, as far as the plans of apps set it
pub record AppBucket : Type 0 where
  pub name : String
  pub location : String
  pub project_id : String
  pub versioning : Bool
  pub critical : Bool

pub data AppResource : Type 0 where
  image : Image → AppResource
  cloud_run : CloudRun → AppResource
  cloud_function : CloudFunction → AppResource
  scheduler_job : CloudSchedulerJob → AppResource
  bucket : AppBucket → AppResource
  bucket_object : BucketObject → AppResource

-- a field that is asked for and that no state holds yet
abbrev pub asked : {A : Type 0} → A → Input A
asked a = record { current = none; wanted = a }

-- what `docker inspect` tells of an image
pub record Inspect : Type 0 where
  pub id : String
  pub user : String
  pub entrypoint : List String
  pub cmd : List String

-- `register` is RegisterAppResource of an app's id, `register_plugin` RegisterPluginResource,
-- `is_existing` IsExisting of what is registered under a key, and `get_archive` GetAppResource of the
-- archive. `id`, `image_id` and `global_id` are the names of gcp/util.go, `parse_url` url.Parse,
-- `resolve_url` the text of ResolveReference, `itoa` the "%d" of fmt.Sprintf, and `expand` the
-- evaluator of the variables. `run_build` starts docker build in a directory and `wait_build` waits for
-- it. `image_ref` is ImageName of an image by the time of the apply.
pub record AppPlanner : Type 1 where
  pub World : Type 0
  pub Vars : Type 0
  pub Url : Type 0
  pub register : String → String → AppResource → Action World (Unit {0})
  pub register_plugin : String → String → AppResource → Action World (Unit {0})
  pub is_existing : String → String → Action World Bool
  pub get_archive : String → BucketObject → Action World BucketObject
  pub id : String → String
  pub image_id : String → String
  pub global_id : String → String → String
  pub image_ref : Image → String
  pub parse_url : String → Result Url
  pub resolve_url : Url → Url → String
  pub itoa : ℕ → String
  pub itoa_int : ℤ → String
  pub expand : Vars → String → Result String
  pub docker : Action World (Unit {0})
  pub image_inspect : String → Action World Inspect
  pub mkdir_temp : Action World String
  pub remove_all : String → Action World (Unit {0})
  pub join_path : String → String → String
  pub write_file : String → String → Action World (Unit {0})
  pub run_build : String → String → Action World (Unit {0})
  pub wait_build : Action World (Unit {0})
  pub build_stderr : Action World String
  pub project_dir : String
  pub check_dir : String → Action World (Option String)
  pub find_files : String → List String → Action World (Dict String)
  pub type_by_path : String → String

-- the place of an app's resources
pub record AppArgs : Type 0 where
  pub project_id : String
  pub region : String
