-- ===== src/CloudRun/Read.antt =====
-- gcp/cloud_run.go: what `Read` takes from a service that the API gave.
use cli_plugin_gcp.Common.{
  String, Bool, true, false, ◌&&◌, List, [], ◌∷◌, Option, none, some, ◌==◌, string_eq,
  if◌then◌else◌, Dict, lookup, insert,
}
use cli_plugin_gcp.Common.Int.{ℤ}
use cli_plugin_gcp.Common.Texts.{has_suffix}
use cli_plugin_gcp.Common.Action.{Result, ok, panic}
use cli_plugin_gcp.Fields.{set_current, unset_current}
use cli_plugin_gcp.CloudRun.{
  Input, CloudRun, ProbeFields, HttpGet, Grpc, Probe, Container, RevisionSpec, RevisionTemplate,
  Metadata, Condition, Service, NetworkInterface, Text,
}

-- m[k]: "" where the key is missing
abbrev pub value_at : String → Dict String → String
value_at k m = elim (lookup k m) [ none ↦ "" | some v ↦ v ]

abbrev unset_probe : ProbeFields → ProbeFields
unset_probe f = record {
  http_path = unset_current f.http_path;
  grpc_service = unset_current f.grpc_service;
  port = f.port;
  initial_delay_seconds = unset_current f.initial_delay_seconds;
  period_seconds = unset_current f.period_seconds;
  timeout_seconds = unset_current f.timeout_seconds;
  failure_threshold = unset_current f.failure_threshold;
}

abbrev read_http : Option HttpGet → ProbeFields → ProbeFields
read_http none f = f
read_http (some h) f = record f {
  http_path = set_current f.http_path h.path;
  port = set_current f.port h.port;
}

abbrev read_grpc : Option Grpc → ProbeFields → ProbeFields
read_grpc none f = f
read_grpc (some g) f = record f {
  grpc_service = set_current f.grpc_service g.service;
  port = set_current f.port g.port;
}

abbrev read_seconds : Probe → ProbeFields → ProbeFields
read_seconds p f = record f {
  initial_delay_seconds = set_current f.initial_delay_seconds p.initial_delay_seconds;
  period_seconds = set_current f.period_seconds p.period_seconds;
  timeout_seconds = set_current f.timeout_seconds p.timeout_seconds;
  failure_threshold = set_current f.failure_threshold p.failure_threshold;
}

-- the port of a probe that is gone stays as it was
unfoldable pub read_probe : Option Probe → ProbeFields → ProbeFields
read_probe none f = unset_probe f
read_probe (some p) f = read_seconds p (read_grpc p.grpc (read_http p.http_get f))

-- the loop over the conditions: the last one of the type "Ready" counts
unfoldable pub read_conditions :
    List Condition → Option Bool × Option String → Option Bool × Option String
read_conditions [] out = out
read_conditions (c ∷ cs) out =
    read_conditions cs
      (if c.kind == "Ready" then (some (c.status == "True"), some c.message) else out)

-- the loop over the variables of the container
unfoldable pub read_env : List (String × String) → Dict String → Dict String
read_env [] m = m
read_env ((k, v) ∷ es) m = read_env es (insert k v m)

module _ (t : Text) where
  abbrev first_interface :
      Option (List NetworkInterface) → Input String × Input String → Input String × Input String
  first_interface none o = o
  first_interface (some []) o = o
  first_interface (some (i ∷ is)) o = (set_current o.0 i.network, set_current o.1 i.subnetwork)

  -- the network and the subnet, from the annotation
  unfoldable pub read_interfaces :
      String → Input String × Input String → Input String × Input String
  read_interfaces text o =
      if text == ""
      then (unset_current o.0, unset_current o.1)
      else first_interface (t.unmarshal text) o

  -- the default account of Compute Engine counts as none, if none is asked for
  unfoldable pub read_account : String → String → String
  read_account account wanted =
      if (wanted == "") && has_suffix account "-compute@developer.gserviceaccount.com"
      then ""
      else account

  abbrev read_container :
      Service
      → Metadata
      → RevisionSpec
      → Dict String
      → Container
      → Dict String
      → ℤ
      → CloudRun
      → CloudRun
  read_container svc meta spec notes c limits port o =
      let readiness = read_conditions svc.status.conditions (o.ready, o.status_message) in
      let egress =
        read_interfaces (value_at "run.googleapis.com/network-interfaces" notes)
          (o.egress_network, o.egress_subnet) in
      record o {
        ready = readiness.0;
        status_message = readiness.1;
        command = set_current o.command c.command;
        args = set_current o.args c.args;
        image = set_current o.image c.image;
        url = some svc.status.url;
        cloud_sql_instances =
            set_current o.cloud_sql_instances
              (value_at "run.googleapis.com/cloudsql-instances" notes);
        cpu_limit = set_current o.cpu_limit (value_at "cpu" limits);
        memory_limit = set_current o.memory_limit (value_at "memory" limits);
        container_concurrency = set_current o.container_concurrency spec.container_concurrency;
        timeout_seconds = set_current o.timeout_seconds spec.timeout_seconds;
        port = set_current o.port port;
        ingress = set_current o.ingress (value_at "run.googleapis.com/ingress" meta.annotations);
        execution_environment =
            set_current o.execution_environment
              (value_at "run.googleapis.com/execution-environment" notes);
        cpu_throttling =
            set_current o.cpu_throttling
              (value_at "run.googleapis.com/cpu-throttling" notes == "true");
        startup_cpu_boost =
            set_current o.startup_cpu_boost
              (value_at "run.googleapis.com/startup-cpu-boost" notes == "true");
        egress_mode =
            set_current o.egress_mode (value_at "run.googleapis.com/vpc-access-egress" notes);
        service_account_name =
            set_current o.service_account_name
              (read_account spec.service_account_name o.service_account_name.wanted);
        min_scale =
            set_current o.min_scale (t.atoi (value_at "autoscaling.knative.dev/minScale" notes));
        max_scale =
            set_current o.max_scale (t.atoi (value_at "autoscaling.knative.dev/maxScale" notes));
        env_vars = set_current o.env_vars (read_env c.env []);
        liveness_probe = read_probe c.liveness_probe o.liveness_probe;
        startup_probe = read_probe c.startup_probe o.startup_probe;
        egress_network = egress.0;
        egress_subnet = egress.1;
      }

  -- a service that is not of the form that the plugin makes: the port of a probe is unset as well
  abbrev unset_all : CloudRun → CloudRun
  unset_all o = record o {
    image = unset_current o.image;
    url = none;
    cloud_sql_instances = unset_current o.cloud_sql_instances;
    cpu_limit = unset_current o.cpu_limit;
    memory_limit = unset_current o.memory_limit;
    container_concurrency = unset_current o.container_concurrency;
    timeout_seconds = unset_current o.timeout_seconds;
    port = unset_current o.port;
    min_scale = unset_current o.min_scale;
    max_scale = unset_current o.max_scale;
    env_vars = unset_current o.env_vars;
    ingress = unset_current o.ingress;
    execution_environment = unset_current o.execution_environment;
    cpu_throttling = unset_current o.cpu_throttling;
    startup_cpu_boost = unset_current o.startup_cpu_boost;
    service_account_name = unset_current o.service_account_name;
    egress_network = unset_current o.egress_network;
    egress_subnet = unset_current o.egress_subnet;
    egress_mode = unset_current o.egress_mode;
    liveness_probe = record (unset_probe o.liveness_probe) {
      port = unset_current o.liveness_probe.port;
    };
    startup_probe = record (unset_probe o.startup_probe) {
      port = unset_current o.startup_probe.port;
    };
  }

  abbrev read_shape :
      Service
      → Option Metadata
      → RevisionSpec
      → Dict String
      → Container
      → Option (Dict String)
      → List ℤ
      → CloudRun
      → Result (Bool × CloudRun)
  read_shape svc (some meta) spec notes c (some limits) (port ∷ []) o =
      ok (true, read_container svc meta spec notes c limits port o)
  read_shape svc none spec notes c (some limits) (port ∷ []) o = panic
  read_shape svc meta spec notes c limits ports o = ok (false, unset_all o)

  abbrev read_containers :
      Service → RevisionSpec → Dict String → List Container → CloudRun → Result (Bool × CloudRun)
  read_containers svc spec notes (c ∷ []) o =
      read_shape svc svc.metadata spec notes c c.limits c.ports o
  read_containers svc spec notes cs o = ok (false, unset_all o)

  abbrev read_template : Service → Option RevisionTemplate → CloudRun → Result (Bool × CloudRun)
  read_template svc none o = ok (false, unset_all o)
  read_template svc (some r) o = elim r.annotations [
    | none ↦ ok (false, unset_all o)
    | some notes ↦ read_containers svc r.spec notes r.spec.containers o
  ]

  -- The fields that come from the service. A service of another form unsets them, and `Read` ends there:
  -- the test. The code takes the service's status for there.
  unfoldable pub read_run_service : Service → CloudRun → Result (Bool × CloudRun)
  read_run_service svc o = read_template svc svc.template o
