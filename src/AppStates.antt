-- ===== src/AppStates.antt =====
-- actions/plan.go: the states of the apps that a plan reports, with their DNS and certificates
-- (`getOrCreateAppState`, `getOrCreateDependencyState`, `saveAppSSLStates`). A state that is reached
-- by its pointer is written back to the map. Domain statuses are those of a managed certificate.
pub mod Deployments
pub mod Reported
pub mod Complete
mod Tests
use cli_plugin_gcp.Common.{
  Bool, ◌++◌, List, [], ◌∷◌, map, String, Option, none, some, if◌then◌else◌, ◌||◌, ◌==◌, string_eq,
  Dict, lookup, insert,
}
use cli_plugin_gcp.Common.Action.{Result, ok, err, panic}

-- DNSState_SSLStatus
pub data SslStatus : Type 0 where
  unspecified ssl_ok provisioning provisioning_failed renewal_failed : SslStatus

pub record DnsState : Type 0 where
  pub ip : String
  pub url : String
  pub ssl_status : SslStatus
  pub ssl_status_info : String
  pub internal_url : String
  pub cloud_url : String

pub record DeploymentState : Type 0 where
  pub ready : Bool
  pub message : String

-- DNSState of a dependency, with the properties of its struct
pub record DependencyDns : Type 0 where
  pub ip : String
  pub internal_ip : String
  pub connection_info : String
  pub properties : Dict String

-- the id of the app or of the dependency, and the states if there are any
pub record AppState : Type 0 where
  pub app : String
  pub deployment : Option DeploymentState
  pub dns : Option DnsState

pub record DependencyState : Type 0 where
  pub dependency : String
  pub dns : Option DependencyDns

-- gcp.ManagedSSL: its status, and the status of each domain
pub record ManagedStatus : Type 0 where
  pub status : String
  pub domain_status : Dict String

pub record DnsRecord : Type 0 where
  pub record_name : String
  pub value : String

-- what the methods change: AppStates, dnsRecordsMap and DNSRecords
pub record Saved : Type 0 where
  pub app_states : Dict AppState
  pub records_map : Dict DnsRecord
  pub records : List DnsRecord

abbrev pub or_new : String → Option AppState → AppState
or_new app none = record { app = app; deployment = none; dns = none }
or_new app (some st) = st

-- the state, and the map with it
unfoldable pub get_or_create_app_state : String → Dict AppState → AppState × Dict AppState
get_or_create_app_state app states =
    let st = or_new app (lookup app states) in (st, insert app st states)

abbrev or_new_dependency : String → Option DependencyState → DependencyState
or_new_dependency dep none = record { dependency = dep; dns = none }
or_new_dependency dep (some st) = st

unfoldable pub get_or_create_dependency_state :
    String → Dict DependencyState → DependencyState × Dict DependencyState
get_or_create_dependency_state dep states =
    let st = or_new_dependency dep (lookup dep states) in (st, insert dep st states)

-- the switch
abbrev pub status_of : String → SslStatus
status_of s =
    if s == "ACTIVE"
    then ssl_ok
    else if s == "PROVISIONING"
    then provisioning
    else if (s == "PROVISIONING_FAILED") || (s == "PROVISIONING_FAILED_PERMANENTLY")
    then provisioning_failed
    else if s == "RENEWAL_FAILED"
    then renewal_failed
    else unspecified

abbrev info_or_nil : Option String → String
info_or_nil none = ""
info_or_nil (some s) = s

-- the DNS state of a URL, by the certificate of its domain
abbrev pub dns_state : String → String → String → Option ManagedStatus → DnsState
dns_state ip url domain none = record {
  ip = ip;
  url = url;
  ssl_status = unspecified;
  ssl_status_info = "";
  internal_url = "";
  cloud_url = "";
}
dns_state ip url domain (some ssl) = record {
  ip = ip;
  url = url;
  ssl_status = status_of ssl.status;
  ssl_status_info = info_or_nil (lookup domain ssl.domain_status);
  internal_url = "";
  cloud_url = "";
}

-- `apps` is the keys of appIDMap, `hostname` url.Parse and Hostname, where an error means a nil pointer,
-- `ip` the address of the load balancer, if there is one, and `ssls` is ManagedSSLDomainMap.
pub record Deployed : Type 0 where
  pub apps : Dict (Unit {0})
  pub hostname : String → Result String
  pub ip : Option String
  pub ssls : Dict ManagedStatus

abbrev pub then_save : {A : Type 0} → (A → Result Saved) → Result A → Result Saved
then_save k (ok a) = k a
then_save k (err e) = err e
then_save k panic = panic

-- an app that the plan does not know is passed over
abbrev pub if_known : Option (Unit {0}) → Result Saved → Result Saved → Result Saved
if_known none passed saved = passed
if_known (some u) passed saved = saved

abbrev pub ip_of : Option String → Result String
ip_of none = panic
ip_of (some ip) = ok ip

-- u.Hostname() of a URL that is not parsed reads a nil pointer
abbrev pub host_of : Result String → Result String
host_of (ok host) = ok host
host_of (err e) = panic
host_of panic = panic

module _ (d : Deployed) where
  -- one round of the first loop, for an app that is known
  abbrev pub save_record : String → Saved → Result Saved
  save_record url s =
      then_save
        (λ domain.
          then_save
            (λ ip. ok (record s {
              records_map =
                  insert domain (record { record_name = domain; value = ip }) s.records_map;
            }))
            (ip_of d.ip))
        (host_of (d.hostname url))

  unfoldable pub save_wanted : Dict String → Saved → Result Saved
  save_wanted [] s = ok s
  save_wanted ((url, id) ∷ m) s =
      let rest = save_wanted m in
      if_known (lookup id d.apps) (rest s) (then_save rest (save_record url s))

  abbrev pub with_dns : String → DnsState → Saved → Saved
  with_dns id dns s =
      let (st, states) = get_or_create_app_state id s.app_states in
      record s { app_states = insert id (record st { dns = some dns }) states }

  -- one round of the second loop
  abbrev pub save_state : String → String → Saved → Result Saved
  save_state url id s =
      then_save
        (λ domain.
          then_save (λ ip. ok (with_dns id (dns_state ip url domain (lookup domain d.ssls)) s))
            (ip_of d.ip))
        (host_of (d.hostname url))

  unfoldable pub save_current : Dict String → Saved → Result Saved
  save_current [] s = ok s
  save_current ((url, id) ∷ m) s =
      let rest = save_current m in
      if_known (lookup id d.apps) (rest s) (then_save rest (save_state url id s))

  abbrev pub with_records : Saved → Saved
  with_records s = record s { records = s.records ++ map (λ e. e.1) s.records_map }

  unfoldable pub save_app_ssl_states : Dict String → Dict String → Saved → Result Saved
  save_app_ssl_states current wanted s =
      then_save (λ s'. then_save (λ s''. ok (with_records s'')) (save_current current s'))
        (save_wanted wanted s)
