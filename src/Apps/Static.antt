-- ===== src/Apps/Static.antt =====
-- deploy/app_static.go: `Plan` of a static app.
use Prim.Native.String.{◌++◌}
use cli_plugin_gcp.Common.{
  String, Bool, true, false, List, [], ◌∷◌, Option, none, some, if◌then◌else◌, ◌==◌, string_eq,
  Dict, insert,
}
use cli_plugin_gcp.Common.Int.{pos}
use cli_plugin_gcp.Common.Action.{Action, text, pure, fail, ◌>>=◌, ◌>>◌}
use cli_plugin_gcp.Image.{Image}
use cli_plugin_gcp.CloudRun.{CloudRun, ProbeFields}
use cli_plugin_gcp.Objects.{BucketObject}
use cli_plugin_gcp.Apps.{
  App, AppPlanner, AppArgs, AppBucket, image, cloud_run, bucket, bucket_object, asked,
}
use cli_plugin_gcp.Apps.Options.{StaticAppDeployOptions}

-- types.StaticAppProperties, as far as the plan reads it
pub record BasicAuth : Type 0 where
  pub realm : String
  pub users : Dict String

pub record StaticProps : Type 0 where
  pub build_dir : String
  pub routing : String
  pub cdn_enabled : Bool
  pub remove_trailing_slash : Option Bool
  pub basic_auth : Option BasicAuth

pub record StaticApp : Type 0 where
  pub app : App
  pub skip : Bool
  pub props : StaticProps
  pub deploy_opts : StaticAppDeployOptions

pub record StaticResources : Type 0 where
  pub bucket : AppBucket
  pub files : List BucketObject
  pub image : Image
  pub cloud_run : CloudRun

-- the tags of gcp/cloud_run.go, for the fields that the plan leaves out
abbrev default_probe : ProbeFields
default_probe = record {
  http_path = asked "";
  grpc_service = asked "";
  port = asked (pos 0);
  initial_delay_seconds = asked (pos 0);
  period_seconds = asked (pos 10);
  timeout_seconds = asked (pos 1);
  failure_threshold = asked (pos 3);
}

-- GCSProxyImageName, GCSProxyVersion and GCSProxyDockerImage of gcp/consts.go
abbrev proxy_name : String
proxy_name = "nginx-gcs-static-proxy"

abbrev proxy_version : String
proxy_version = "1.21-v5"

abbrev proxy_image : String
proxy_image = "docker.io/outblocks/nginx-gcs-static-proxy:1.21-v5"

abbrev or_plain : String → String
or_plain t = if t == "" then "text/plain; charset=utf-8" else t

-- the variables of the proxy
abbrev with_slash : Option Bool → Dict String → Dict String
with_slash none env = env
with_slash (some remove) env = insert "REMOVE_TRAILING_SLASH" (if remove then "1" else "0") env

abbrev pub with_accounts : Dict String → Dict String → Dict String
with_accounts [] env = env
with_accounts ((user, password) ∷ us) env =
    with_accounts us (insert ("ACCOUNT_" ++ user) password env)

abbrev with_users : String → Dict String → Dict String → Dict String
with_users realm [] env = env
with_users realm (u ∷ us) env = with_accounts (u ∷ us) (insert "BASIC_AUTH_REALM" realm env)

abbrev with_auth : Option BasicAuth → Dict String → Dict String
with_auth none env = env
with_auth (some a) env = with_users a.realm a.users env

unfoldable pub proxy_env : StaticProps → AppBucket → Dict String
proxy_env p b =
    with_auth p.basic_auth
      (with_slash p.remove_trailing_slash (("GCS_BUCKET", b.name) ∷ ("ROUTING", p.routing) ∷ []))

module _ (l : AppPlanner) (c : AppArgs) where
  open l use {World}

  abbrev pub bucket_of : App → AppBucket
  bucket_of app = record {
    name = l.global_id c.project_id app.id;
    location = c.region;
    project_id = c.project_id;
    versioning = false;
    critical = false;
  }

  -- the object of a file, by its path in the build directory and its hash
  abbrev pub object_of : StaticApp → String → String → String → BucketObject
  object_of o build_path file hash = record {
    bucket_name = asked (bucket_of o.app).name;
    name = asked file;
    hash = asked hash;
    path = l.join_path build_path file;
    is_public = asked true;
    content_type = asked (or_plain (l.type_by_path (l.join_path build_path file)));
    cache_control = asked (if o.props.cdn_enabled then "" else "private, max-age=0, no-transform");
  }

  unfoldable pub add_files : StaticApp → String → Dict String → Action World (List BucketObject)
  add_files o build_path [] = pure []
  add_files o build_path ((file, hash) ∷ files) =
      l.register o.app.id file (bucket_object (object_of o build_path file hash))
      >> add_files o build_path files
      >>= λ objects. pure (object_of o build_path file hash ∷ objects)

  abbrev pub build_dir : StaticApp → String
  build_dir o = l.join_path (l.join_path l.project_dir o.app.dir) o.props.build_dir

  abbrev in_build_dir : StaticApp → Option String → Action World (List BucketObject)
  in_build_dir o none = fail (
      text (
        o.app.kind
        ++ " app '"
        ++ o.app.name
        ++ "' build dir '"
        ++ build_dir o
        ++ "' does not exist"))
  in_build_dir o (some path) = l.find_files path o.deploy_opts.patterns >>= add_files o path

  abbrev pub contents_of : StaticApp → Action World (List BucketObject)
  contents_of o = if o.skip then pure [] else l.check_dir (build_dir o) >>= in_build_dir o

  abbrev pub static_image : Image
  static_image = record {
    name = asked (l.image_id proxy_name);
    tag = asked proxy_version;
    project_id = asked c.project_id;
    region = asked c.region;
    digest = none;
    source = asked proxy_image;
    source_hash = asked "";
    pull = true;
    pull_auth = false;
  }

  abbrev pub static_cloud_run : StaticApp → CloudRun
  static_cloud_run o = record {
    name = asked (l.id o.app.id);
    project_id = asked c.project_id;
    region = asked c.region;
    command = asked [];
    args = asked [];
    image = asked (l.image_ref static_image);
    is_public = asked true;
    cloud_sql_instances = asked "";
    min_scale = asked o.deploy_opts.min_scale;
    max_scale = asked o.deploy_opts.max_scale;
    cpu_limit = asked "1000m";
    memory_limit = asked "128Mi";
    container_concurrency = asked (pos 250);
    timeout_seconds = asked o.deploy_opts.timeout;
    port = asked (pos 80);
    env_vars = asked (proxy_env o.props (bucket_of o.app));
    ingress = asked "all";
    execution_environment = asked "gen1";
    cpu_throttling = asked true;
    startup_cpu_boost = asked false;
    service_account_name = asked "";
    egress_network = asked "";
    egress_subnet = asked "";
    egress_mode = asked "private-ranges-only";
    liveness_probe = default_probe;
    startup_probe = default_probe;
    url = none;
    ready = none;
    status_message = none;
  }

  -- `Plan`; CommonName of deploy/consts.go
  unfoldable pub static_app_plan : StaticApp → Action World StaticResources
  static_app_plan o =
      l.register o.app.id "bucket" (bucket (bucket_of o.app)) >> contents_of o >>= λ files.
      l.register_plugin "common" proxy_name (image static_image)
      >> l.register o.app.id "cloud_run" (cloud_run (static_cloud_run o))
      >> pure (record {
        bucket = bucket_of o.app;
        files = files;
        image = static_image;
        cloud_run = static_cloud_run o;
      })
