-- ===== src/LoadBalancer.antt =====
-- deploy/load_balancer.go: the state of a load balancer and the apps that it takes on. The resources are
-- those of gcp, as far as the plan sets them. The registry, net/url, the functions of outblocks-plugin-go
-- and the address that a resource has by the time of the apply are parameters. A lazy field is its value.
pub mod Plan
pub mod Routes
pub mod Steps
pub mod Served
mod Tests
use Prim.Native.String.{◌++◌}
use mathlib.Core.List.{◌++◌ as append}
use cli_plugin_gcp.Common.{
  ℕ, List, [], ◌∷◌, String, Bool, true, false, not, ◌&&◌, ◌||◌, Option, none, some, if◌then◌else◌,
  ◌==◌, string_eq, Dict, insert,
}
use cli_plugin_gcp.Common.Action.{Action, Result, pure, ◌>>=◌, ◌>>◌}
use cli_plugin_gcp.Url.{split_url}
use cli_plugin_gcp.UrlMap.{Target, UrlMap}

pub record ServerlessNeg : Type 0 where
  pub name : String
  pub project_id : String
  pub region : String
  pub cloud_run : String
  pub cloud_function : String

pub record BackendService : Type 0 where
  pub name : String
  pub project_id : String
  pub neg : String
  pub cdn_enabled : Bool

pub record Address : Type 0 where
  pub name : String
  pub project_id : String

pub record ManagedSsl : Type 0 where
  pub name : String
  pub project_id : String
  pub domains : List String

pub record SelfManagedSsl : Type 0 where
  pub name : String
  pub project_id : String
  pub certificate : String
  pub private_key : String

pub record TargetHttpProxy : Type 0 where
  pub name : String
  pub project_id : String
  pub url_map : String

pub record TargetHttpsProxy : Type 0 where
  pub name : String
  pub project_id : String
  pub url_map : String
  pub ssl_certificates : List String

pub record ForwardingRule : Type 0 where
  pub name : String
  pub project_id : String
  pub ip_address : String
  pub target : String
  pub port_range : String

-- apiv1.App, as far as the plan reads it
pub record App : Type 0 where
  pub id : String
  pub url : String
  pub path_redirect : String

-- A ServiceApp, a StaticApp or a FunctionApp: the name of its service or function, and whether that
-- exists.
pub record AppDeploy : Type 0 where
  pub app : App
  pub skip : Bool
  pub target_name : String
  pub is_existing : Bool
  pub cdn_enabled : Bool

pub record CacheInvalidate : Type 0 where
  pub url_map_name : String
  pub project_id : String
  pub static_apps : List AppDeploy
  pub service_apps : List AppDeploy
  pub function_apps : List AppDeploy

pub data Resource : Type 0 where
  serverless_neg : ServerlessNeg → Resource
  backend_service : BackendService → Resource
  address : Address → Resource
  managed_ssl : ManagedSsl → Resource
  self_managed_ssl : SelfManagedSsl → Resource
  url_map : UrlMap → Resource
  target_http_proxy : TargetHttpProxy → Resource
  target_https_proxy : TargetHttpsProxy → Resource
  forwarding_rule : ForwardingRule → Resource
  cache_invalidate : CacheInvalidate → Resource

-- a global resource of Compute Engine, as the methods RefField of gcp name it
abbrev pub global_ref : String → String → String → String
global_ref kind project name =
    "https://www.googleapis.com/compute/v1/projects/" ++ project ++ "/global/" ++ kind ++ "/"
    ++ name

abbrev pub neg_ref : ServerlessNeg → String
neg_ref neg =
    "https://www.googleapis.com/compute/v1/projects/" ++ neg.project_id ++ "/regions/" ++ neg.region
    ++ "/networkEndpointGroups/" ++ neg.name

abbrev pub backend_ref : BackendService → String
backend_ref svc = global_ref "backendServices" svc.project_id svc.name

pub record LoadBalancer : Type 0 where
  pub addresses : List Address
  pub managed_ssls : List ManagedSsl
  pub managed_ssl_domain_map : Dict ManagedSsl
  pub self_managed_ssls : List SelfManagedSsl
  pub serverless_negs : List ServerlessNeg
  pub backend_services : List BackendService
  pub url_maps : List UrlMap
  pub target_http_proxies : List TargetHttpProxy
  pub target_https_proxies : List TargetHttpsProxy
  pub forwarding_rules : List ForwardingRule
  pub url_targets : Dict Target
  pub app_map : Dict String

pub record LoadBalancerArgs : Type 0 where
  pub name : String
  pub project_id : String
  pub region : String

abbrev pub new_load_balancer : LoadBalancer
new_load_balancer = record {
  addresses = [];
  managed_ssls = [];
  managed_ssl_domain_map = [];
  self_managed_ssls = [];
  serverless_negs = [];
  backend_services = [];
  url_maps = [];
  target_http_proxies = [];
  target_https_proxies = [];
  forwarding_rules = [];
  url_targets = [];
  app_map = [];
}

-- `register` is RegisterPluginResource under LoadBalancerName: whether the resource is new there.
-- `id_field` is gcp.IDField with the plugin's environment, `hostname` url.Parse and Hostname, where an
-- error means a nil pointer, and `disable_proxy` sets cloudflare_proxy in the properties of the domain.
pub record Planner : Type 1 where
  pub World : Type 0
  pub register : String → Resource → Action World Bool
  pub disable_proxy : String → Action World (Unit {0})
  pub id_field : String → String
  pub hostname : String → Result String
  pub ip : Address → String
  pub limit_string : String → ℕ → String
  pub sha_string : String → String

module _ (l : Planner) (c : LoadBalancerArgs) where
  open l use {World, register, id_field}

  abbrev pub create_cloud_run_serverless_neg : String → String → ServerlessNeg
  create_cloud_run_serverless_neg app_id cloudrun = record {
    name = id_field app_id;
    project_id = c.project_id;
    region = c.region;
    cloud_run = cloudrun;
    cloud_function = "";
  }

  abbrev pub create_cloud_function_serverless_neg : String → String → ServerlessNeg
  create_cloud_function_serverless_neg app_id cloudfunction = record {
    name = id_field app_id;
    project_id = c.project_id;
    region = c.region;
    cloud_run = "";
    cloud_function = cloudfunction;
  }

  abbrev pub backend_of : App → ServerlessNeg → Bool → BackendService
  backend_of app neg cdn = record {
    name = id_field app.id;
    project_id = c.project_id;
    neg = neg_ref neg;
    cdn_enabled = cdn;
  }

  -- host + path
  abbrev pub route_key : App → String
  route_key app = (split_url app.url).0 ++ (split_url app.url).1

  abbrev pub with_route : App → ServerlessNeg → BackendService → LoadBalancer → LoadBalancer
  with_route app neg svc o = record o {
    serverless_negs = append o.serverless_negs (neg ∷ []);
    backend_services = append o.backend_services (svc ∷ []);
    url_targets =
        insert (route_key app)
          (record { service_id = backend_ref svc; path_redirect = app.path_redirect })
          o.url_targets;
    app_map = insert app.url app.id o.app_map;
  }

  abbrev pub add_serverless_neg :
      App → ServerlessNeg → Bool → LoadBalancer → Action World LoadBalancer
  add_serverless_neg app neg cdn o =
      register app.id (serverless_neg neg)
      >> register app.id (backend_service (backend_of app neg cdn))
      >> pure (with_route app neg (backend_of app neg cdn) o)

  abbrev pub add_cloud_run : AppDeploy → LoadBalancer → Action World LoadBalancer
  add_cloud_run d =
      add_serverless_neg d.app (create_cloud_run_serverless_neg d.app.id d.target_name)
        d.cdn_enabled

  abbrev pub add_cloud_function : AppDeploy → LoadBalancer → Action World LoadBalancer
  add_cloud_function d =
      add_serverless_neg d.app (create_cloud_function_serverless_neg d.app.id d.target_name)
        d.cdn_enabled

  -- the test of the three loops
  abbrev pub is_left_out : AppDeploy → Bool
  is_left_out d = (d.app.url == "") || (d.skip && not d.is_existing)

  unfoldable pub process_service_apps : Dict AppDeploy → LoadBalancer → Action World LoadBalancer
  process_service_apps [] o = pure o
  process_service_apps ((k, d) ∷ ds) o =
      (if is_left_out d then pure o else add_cloud_run d o) >>= process_service_apps ds

  unfoldable pub process_static_apps : Dict AppDeploy → LoadBalancer → Action World LoadBalancer
  process_static_apps [] o = pure o
  process_static_apps ((k, d) ∷ ds) o =
      (if is_left_out d then pure o else add_cloud_run d o) >>= process_static_apps ds

  unfoldable pub process_function_apps : Dict AppDeploy → LoadBalancer → Action World LoadBalancer
  process_function_apps [] o = pure o
  process_function_apps ((k, d) ∷ ds) o =
      (if is_left_out d then pure o else add_cloud_function d o) >>= process_function_apps ds
