-- ===== src/AppStates/Deployments.antt =====
-- actions/status.go and the rest of `save` of actions/plan.go: the states of the deployments of apps, and of
-- dependencies. A state that is reached by its pointer is written back to the map.
use Prim.Native.String.{◌++◌}
use cli_plugin_gcp.Common.{
  String, Bool, not, [], ◌∷◌, Option, none, some, if◌then◌else◌, ◌==◌, string_eq, Dict, lookup,
  insert,
}
use cli_plugin_gcp.Common.Action.{Result, ok, err, panic}
use cli_plugin_gcp.Fields.{Input}
use cli_plugin_gcp.CloudRun.{CloudRun}
use cli_plugin_gcp.CloudFunction.{CloudFunction}
use cli_plugin_gcp.Sql.{CloudSql}
use cli_plugin_gcp.AppStates.{
  AppState, DependencyState, DeploymentState, DnsState, DependencyDns, unspecified, Deployed, Saved,
  get_or_create_app_state, get_or_create_dependency_state, then_save, save_app_ssl_states,
}

-- what appDeployIDMap holds: the app by its kind, with the resource that it runs on
pub data DeployedApp : Type 0 where
  static_app service_app : CloudRun → DeployedApp
  function_app : CloudFunction → DeployedApp

-- what depDeployIDMap holds, and whether the resource exists; a bucket by its name and location
pub data DeployedDep : Type 0 where
  database_dep : CloudSql → Bool → DeployedDep
  storage_dep : Input String → Input String → Bool → DeployedDep

abbrev pub text_of : Option String → String
text_of none = ""
text_of (some s) = s

abbrev pub deployment_of : Option Bool → Option String → Option DeploymentState
deployment_of none message = none
deployment_of (some ready) message = some (record { ready = ready; message = text_of message })

unfoldable pub compute_app_deployment_state : DeployedApp → Option DeploymentState
compute_app_deployment_state (static_app c) = deployment_of c.ready c.status_message
compute_app_deployment_state (service_app c) = deployment_of c.ready c.status_message
compute_app_deployment_state (function_app f) = deployment_of f.ready f.status_message

abbrev pub or_empty_dns : Option DnsState → DnsState
or_empty_dns none = record {
  ip = "";
  url = "";
  ssl_status = unspecified;
  ssl_status_info = "";
  internal_url = "";
  cloud_url = "";
}
or_empty_dns (some dns) = dns

-- the switch on the kind of the app
abbrev pub with_urls : DeployedApp → DnsState → DnsState
with_urls (static_app c) dns = record dns {
  internal_url = "http://" ++ text_of c.name.current;
  cloud_url = text_of c.url;
}
with_urls (service_app c) dns = record dns {
  internal_url = "http://" ++ text_of c.name.current;
  cloud_url = text_of c.url;
}
with_urls (function_app f) dns = record dns { cloud_url = text_of f.url }

-- connInfo
abbrev first_ip : CloudSql → String
first_ip o = if text_of o.public_ip == "" then text_of o.private_ip else text_of o.public_ip

abbrev connection_info : CloudSql → String
connection_info o =
    if first_ip o == "" then "" else first_ip o ++ " (" ++ text_of o.connection_name ++ ")"

unfoldable pub compute_dependency_dns_state : DeployedDep → Option DependencyDns
compute_dependency_dns_state (database_dep o existing) =
    if not existing
    then none
    else some (record {
      ip = text_of o.public_ip;
      internal_ip = text_of o.private_ip;
      connection_info = connection_info o;
      properties = ("connection_name", text_of o.connection_name) ∷ [];
    })
compute_dependency_dns_state (storage_dep name location existing) =
    if not existing
    then none
    else some (record {
      ip = "";
      internal_ip = "";
      connection_info = "";
      properties = ("name", text_of name.current) ∷ ("location", text_of location.current) ∷ [];
    })

-- the state of an app, after a round of the loop over appDeployIDMap
abbrev pub with_deployment : DeployedApp → DeploymentState → AppState → AppState
with_deployment app deployment st = record st {
  deployment = some deployment;
  dns = some (with_urls app (or_empty_dns st.dns));
}

abbrev pub save_deployed :
    String → DeployedApp → Option DeploymentState → Option (Unit {0}) → Saved → Result Saved
save_deployed id app none known s = ok s
save_deployed id app (some deployment) none s = panic
save_deployed id app (some deployment) (some u) s =
    let (st, states) = get_or_create_app_state id s.app_states in
    ok (record s { app_states = insert id (with_deployment app deployment st) states })

module _ (d : Deployed) where
  -- the loop over appDeployIDMap; an app that appIDMap does not hold is a nil pointer
  unfoldable pub save_deployments : Dict DeployedApp → Saved → Result Saved
  save_deployments [] s = ok s
  save_deployments ((id, app) ∷ m) s =
      then_save (save_deployments m)
        (save_deployed id app (compute_app_deployment_state app) (lookup id d.apps) s)

-- `deps` is the keys of depIDMap
abbrev with_dependency_dns : Option DependencyDns → DependencyState → DependencyState
with_dependency_dns none st = st
with_dependency_dns (some dns) st = record st { dns = some dns }

abbrev save_dependency :
    String → DeployedDep → Option (Unit {0}) → Dict DependencyState → Result (Dict DependencyState)
save_dependency id dep none states = panic
save_dependency id dep (some u) states =
    let (st, states') = get_or_create_dependency_state id states in
    ok (insert id (with_dependency_dns (compute_dependency_dns_state dep) st) states')

abbrev then_dependencies :
    (Dict DependencyState → Result (Dict DependencyState))
    → Result (Dict DependencyState)
    → Result (Dict DependencyState)
then_dependencies k (ok states) = k states
then_dependencies k (err e) = err e
then_dependencies k panic = panic

unfoldable pub save_dependencies :
    Dict (Unit {0}) → Dict DeployedDep → Dict DependencyState → Result (Dict DependencyState)
save_dependencies deps [] states = ok states
save_dependencies deps ((id, dep) ∷ m) states =
    then_dependencies (save_dependencies deps m) (save_dependency id dep (lookup id deps) states)

-- AppMapping of the first URL map, if there is one
abbrev pub entries_of : Option (Dict String) → Dict String
entries_of none = []
entries_of (some m) = m

abbrev pub current_mapping : Option (Input (Dict String)) → Dict String
current_mapping none = []
current_mapping (some f) = entries_of f.current

abbrev pub wanted_mapping : Option (Input (Dict String)) → Dict String
wanted_mapping none = []
wanted_mapping (some f) = f.wanted

-- `save` after the registry is saved, as far as it reports apps
unfoldable pub save_app_states :
    Deployed → Option (Input (Dict String)) → Dict DeployedApp → Saved → Result Saved
save_app_states d app_mapping apps s =
    then_save (save_deployments d apps)
      (save_app_ssl_states d (current_mapping app_mapping) (wanted_mapping app_mapping) s)
