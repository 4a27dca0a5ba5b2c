-- ===== src/CloudFunction.antt =====
-- gcp/cloud_function.go: the resource `CloudFunction`, the function that it sends, and what `Read`
-- takes from one. net/url and the integers of strconv are parameters. A resource that a failed function
-- leaves half changed is dropped.
pub mod Policy
pub mod Access
pub mod Calls
pub mod Roundtrip
mod Tests
use Prim.Native.String.{◌++◌, [], ◌∷◌}
use cli_plugin_gcp.Common.{
  ℕ, String, Bool, true, false, Option, none, some, if◌then◌else◌, ◌==◌, string_eq, Dict,
}
use cli_plugin_gcp.Common.Int.{ℤ}
use cli_plugin_gcp.Common.Texts.{trim_suffix}
use cli_plugin_gcp.Common.Action.{
  Action, Result, ok, err, panic, Fault, wrap, try, pure, fail, crash, of_result, ◌>>=◌, ◌>>◌,
}
use cli_plugin_gcp.ApiErrors.{err_is_404}
use cli_plugin_gcp.Fields.{Input, set_current}
use cli_plugin_gcp.Operations.{Operation, poll_operation}
use cli_plugin_gcp.Policies.{Binding}
use cli_plugin_gcp.CloudFunction.Policy.{public_binding, read_public, new_bindings}

pub record CloudFunction : Type 0 where
  pub name : Input String
  pub project_id : Input String
  pub region : Input String
  pub entrypoint : Input String
  pub runtime : Input String
  pub source_bucket : Input String
  pub source_object : Input String
  pub is_public : Input Bool
  pub min_scale : Input ℤ
  pub max_scale : Input ℤ
  pub memory_limit : Input ℤ
  pub timeout_seconds : Input ℤ
  pub env_vars : Input (Dict String)
  pub ingress : Input String
  -- outputs: what the state holds
  pub url : Option String
  pub ready : Option Bool
  pub status_message : Option String

-- cloudfunctions.CloudFunction; the trigger, if there is one, by its URL
pub record ApiFunction : Type 0 where
  pub name : String
  pub available_memory_mb : ℤ
  pub build_environment_variables : Dict String
  pub environment_variables : Dict String
  pub entry_point : String
  pub ingress_settings : String
  pub min_instances : ℤ
  pub max_instances : ℤ
  pub runtime : String
  pub https_trigger : Option String
  pub timeout : String
  pub source_archive_url : String
  pub status : String

-- `itoa` is the "%d" of fmt.Sprintf, `atoi` strconv.Atoi with 0 for an error, and `parse` url.Parse with
-- the host and the path of what it gives.
pub record Parsers : Type 0 where
  pub itoa : ℤ → String
  pub atoi : String → ℤ
  pub parse : String → Result (String × String)

abbrev pub function_path : String → String → String → String
function_path project region name =
    "projects/" ++ project ++ "/locations/" ++ region ++ "/functions/" ++ name

abbrev pub region_path : String → String → String
region_path project region = "projects/" ++ project ++ "/locations/" ++ region

module _ (p : Parsers) where
  unfoldable pub wanted_api_cloud_function : CloudFunction → ApiFunction
  wanted_api_cloud_function o = record {
    name = function_path o.project_id.wanted o.region.wanted o.name.wanted;
    available_memory_mb = o.memory_limit.wanted;
    build_environment_variables = o.env_vars.wanted;
    environment_variables = o.env_vars.wanted;
    entry_point = o.entrypoint.wanted;
    ingress_settings = o.ingress.wanted;
    min_instances = o.min_scale.wanted;
    max_instances = o.max_scale.wanted;
    runtime = o.runtime.wanted;
    https_trigger = some "";
    timeout = p.itoa o.timeout_seconds.wanted ++ "s";
    source_archive_url = "gs://" ++ o.source_bucket.wanted ++ "/" ++ o.source_object.wanted;
    status = "";
  }

  -- CloudFunctionReady and CloudFunctionOffline of gcp/consts.go
  abbrev pub status_message : CloudFunction → String → String
  status_message o status =
      if status == "OFFLINE"
      then "Function failed on loading user code. This is likely due to a bug in the user code. Please examine your function logs to see the error cause: \nhttps://console.cloud.google.com/functions/details/"
        ++ o.region.wanted ++ "/" ++ o.name.wanted ++ "?project=" ++ o.project_id.wanted
        ++ "&tab=logs"
      else "Function failed to deploy: " ++ status

  -- a panic where the function has no trigger
  unfoldable pub set_current_status_info : ApiFunction → CloudFunction → Result CloudFunction
  set_current_status_info cf o = elim cf.https_trigger [
    | none ↦ panic
    | some url ↦ ok (record o {
      ready = some (cf.status == "ACTIVE");
      status_message = some (status_message o cf.status);
      url = some url;
    })
  ]

  abbrev read_rest : ApiFunction → CloudFunction → CloudFunction
  read_rest cf o = record o {
    min_scale = set_current o.min_scale cf.min_instances;
    max_scale = set_current o.max_scale cf.max_instances;
    memory_limit = set_current o.memory_limit cf.available_memory_mb;
    timeout_seconds = set_current o.timeout_seconds (p.atoi (trim_suffix cf.timeout "s"));
    env_vars = set_current o.env_vars cf.environment_variables;
    ingress = set_current o.ingress cf.ingress_settings;
  }

  abbrev with_status : ApiFunction → Result CloudFunction → Result CloudFunction
  with_status cf (ok o) = ok (read_rest cf o)
  with_status cf (err e) = err e
  with_status cf panic = panic

  -- the archive, from its URL; u.Path[1:] panics on an empty path
  abbrev pub read_source :
      ApiFunction → CloudFunction → Result (String × String) → Result CloudFunction
  read_source cf o (ok (host, [])) = panic
  read_source cf o (ok (host, c ∷ path)) = with_status cf (
      set_current_status_info cf (record o {
        entrypoint = set_current o.entrypoint cf.entry_point;
        runtime = set_current o.runtime cf.runtime;
        source_bucket = set_current o.source_bucket host;
        source_object = set_current o.source_object path;
      }))
  read_source cf o (err e) = err (wrap "error parsing source archive url" e)
  read_source cf o panic = panic

  -- what `Read` takes from a function that the API gave
  unfoldable pub read_function : ApiFunction → CloudFunction → Result CloudFunction
  read_function cf o = read_source cf o (p.parse cf.source_archive_url)
