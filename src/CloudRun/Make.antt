-- ===== src/CloudRun/Make.antt =====
-- gcp/cloud_run.go: `makeRunService`.
use cli_plugin_gcp.Common.{
  true, String, Bool, not, ◌&&◌, ◌||◌, List, [], ◌∷◌, Option, none, some, ◌==◌, string_eq,
  if◌then◌else◌, Dict, insert,
}
use cli_plugin_gcp.Common.Int.{ℤ, pos, is_zero}
use cli_plugin_gcp.CloudRun.{
  CloudRun, ProbeFields, Probe, Container, Service, NetworkInterface, Text,
}

-- CloudRunAnnotationTrue and CloudRunAnnotationFalse of gcp/consts.go
abbrev pub annotation : Bool → String
annotation b = if b then "true" else "false"

abbrev pub chosen : {A : Type 0} → Bool → A → Option A
chosen b a = if b then some a else none

-- a probe is made where it has a path or a gRPC service; its port defaults to that of the service
abbrev pub has_probe : ProbeFields → Bool
has_probe f = not (f.http_path.wanted == "") || not (f.grpc_service.wanted == "")

abbrev pub probe_port : ℤ → ProbeFields → ℤ
probe_port port f = if not (is_zero f.port.wanted) then f.port.wanted else port

unfoldable pub make_probe : ℤ → ProbeFields → Option Probe
make_probe port f = chosen (has_probe f) (record {
  http_get =
      chosen (not (f.http_path.wanted == ""))
        (record { path = f.http_path.wanted; port = probe_port port f });
  grpc =
      chosen (not (f.grpc_service.wanted == ""))
        (record { service = f.grpc_service.wanted; port = probe_port port f });
  initial_delay_seconds = f.initial_delay_seconds.wanted;
  period_seconds = f.period_seconds.wanted;
  timeout_seconds = f.timeout_seconds.wanted;
  failure_threshold = f.failure_threshold.wanted;
})

module _ (t : Text) (o : CloudRun) where
  abbrev pub base_annotations : Dict String
  base_annotations =
      ("run.googleapis.com/client-name", "outblocks")
      ∷ ("autoscaling.knative.dev/minScale", t.itoa o.min_scale.wanted)
      ∷ ("autoscaling.knative.dev/maxScale", t.itoa o.max_scale.wanted)
      ∷ ("run.googleapis.com/cloudsql-instances", o.cloud_sql_instances.wanted)
      ∷ ("run.googleapis.com/execution-environment", o.execution_environment.wanted)
      ∷ ("run.googleapis.com/cpu-throttling", annotation o.cpu_throttling.wanted)
      ∷ ("run.googleapis.com/startup-cpu-boost", annotation o.startup_cpu_boost.wanted)
      ∷ []

  abbrev pub interfaces : List NetworkInterface
  interfaces =
      record { network = o.egress_network.wanted; subnetwork = o.egress_subnet.wanted } ∷ []

  abbrev pub has_egress : Bool
  has_egress = not (o.egress_network.wanted == "") && not (o.egress_subnet.wanted == "")

  abbrev pub annotations : Dict String
  annotations =
      if has_egress
      then insert "run.googleapis.com/vpc-access-egress" o.egress_mode.wanted
          (insert "run.googleapis.com/network-interfaces" (t.marshal interfaces) base_annotations)
      else base_annotations

  abbrev pub container : Container
  container = record {
    startup_probe = make_probe o.port.wanted o.startup_probe;
    liveness_probe = make_probe o.port.wanted o.liveness_probe;
    command = o.command.wanted;
    args = o.args.wanted;
    image = o.image.wanted;
    env = o.env_vars.wanted;
    ports = o.port.wanted ∷ [];
    limits = some (("cpu", o.cpu_limit.wanted) ∷ ("memory", o.memory_limit.wanted) ∷ []);
  }

  -- a service that is not stored yet: its status is the zero value
  unfoldable pub make_run_service : Service
  make_run_service = record {
    api_version = "serving.knative.dev/v1";
    kind = "Service";
    metadata = some (record {
      name = o.name.wanted;
      generation = pos 0;
      annotations = ("run.googleapis.com/ingress", o.ingress.wanted) ∷ [];
    });
    template = some (record {
      annotations = some annotations;
      spec = record {
        service_account_name = o.service_account_name.wanted;
        container_concurrency = o.container_concurrency.wanted;
        timeout_seconds = o.timeout_seconds.wanted;
        containers = container ∷ [];
      };
    });
    traffic = record { percent = 100; latest_revision = true } ∷ [];
    status = record { observed_generation = pos 0; url = ""; conditions = [] };
  }
