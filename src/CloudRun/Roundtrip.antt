-- ===== src/CloudRun/Roundtrip.antt =====
-- What `Read` of gcp/cloud_run.go finds in a service that `makeRunService` has made.
use cli_plugin_gcp.Common.{
  lookup-keys, or_else, keys, is_distinct, ◌≡◌, refl, ap, ◌∙◌, String, Bool, true, false, [], ◌∷◌,
  some, ◌==◌, string_eq, not, none, if◌then◌else◌, Dict, lookup, insert, lookup-insert, Bool-cases,
  inl, inr, arith,
}
use text.Mathlib.TextEquality.{eq_iff}
use cli_plugin_gcp.Common.Texts.{has_suffix}
use cli_plugin_gcp.Common.Int.{ℤ}
use cli_plugin_gcp.Common.Action.{ok, err, panic}
use cli_plugin_gcp.Fields.{set_current, Agrees}
use cli_plugin_gcp.CloudRun.{CloudRun, ProbeFields, Service, Status, Text, IsText}
use cli_plugin_gcp.CloudRun.Make.{
  annotation, chosen, has_probe, probe_port, make_probe, has_egress, annotations, interfaces,
  base_annotations, make_run_service,
}
use cli_plugin_gcp.CloudRun.Read.{
  value_at, read_probe, read_env, read_interfaces, read_account, read_run_service,
}

-- The state holds what is asked for, in the fields that no other field has a say in.
pub record IsApplied (o : CloudRun) : Type 0 where
  pub command : Agrees o.command
  pub args : Agrees o.args
  pub image : Agrees o.image
  pub cloud_sql_instances : Agrees o.cloud_sql_instances
  pub min_scale : Agrees o.min_scale
  pub max_scale : Agrees o.max_scale
  pub cpu_limit : Agrees o.cpu_limit
  pub memory_limit : Agrees o.memory_limit
  pub container_concurrency : Agrees o.container_concurrency
  pub timeout_seconds : Agrees o.timeout_seconds
  pub port : Agrees o.port
  pub ingress : Agrees o.ingress
  pub execution_environment : Agrees o.execution_environment
  pub cpu_throttling : Agrees o.cpu_throttling
  pub startup_cpu_boost : Agrees o.startup_cpu_boost
  pub service_account_name : Agrees o.service_account_name

-- The network and its mode: what is asked for where both names are given, and nothing where not.
pub record IsConnected (t : Text) (o o' : CloudRun) : Type 0 where
  pub network : o'.egress_network.current ≡ chosen (has_egress t o) o.egress_network.wanted
  pub subnet : o'.egress_subnet.current ≡ chosen (has_egress t o) o.egress_subnet.wanted
  pub mode : o'.egress_mode.current ≡ some (if has_egress t o then o.egress_mode.wanted else "")

-- A probe over HTTP, over gRPC.
abbrev pub has_path : ProbeFields → Bool
has_path f = not (f.http_path.wanted == "")

abbrev pub has_service : ProbeFields → Bool
has_service f = not (f.grpc_service.wanted == "")

-- A probe with a port for one that asks for none: the path, the service and the port are what is asked for
-- where the probe has such a call, and as before where it has not; no path and no service are left where there
-- is no probe. The seconds and the threshold are what is asked for where there is a probe.
pub record IsProbed (port : ℤ) (f f' : ProbeFields) : Type 0 where
  pub path : f'.http_path.current ≡ (
      if has_path f
      then some f.http_path.wanted
      else if has_service f
      then f.http_path.current
      else none)
  pub service : f'.grpc_service.current ≡ (
      if has_service f
      then some f.grpc_service.wanted
      else if has_path f
      then f.grpc_service.current
      else none)
  pub probed_port :
      f'.port.current ≡ (if has_probe f then some (probe_port port f) else f.port.current)
  pub initial_delay :
      f'.initial_delay_seconds.current ≡ chosen (has_probe f) f.initial_delay_seconds.wanted
  pub period : f'.period_seconds.current ≡ chosen (has_probe f) f.period_seconds.wanted
  pub timeout : f'.timeout_seconds.current ≡ chosen (has_probe f) f.timeout_seconds.wanted
  pub threshold : f'.failure_threshold.current ≡ chosen (has_probe f) f.failure_threshold.wanted

read_account_same : (t : Text) (account : String) → read_account t account account ≡ account
unfolding read_account has_suffix
read_account_same t account = ground (arith, eq_iff account "")

read_probe-IsProbed :
    (port : ℤ) (f : ProbeFields) → IsProbed port f (read_probe (make_probe port f) f)
unfolding read_probe make_probe
read_probe-IsProbed port f = record {
  path = ground arith;
  service = ground arith;
  probed_port = ground arith;
  initial_delay = ground arith;
  period = ground arith;
  timeout = ground arith;
  threshold = ground arith;
}

annotation-true : (b : Bool) → (annotation b == "true") ≡ b
annotation-true true = refl
annotation-true false = refl

module _ (t : Text) (law : IsText t) (o : CloudRun) where
  -- the annotations that are there with a network and without one
  noted :
      (k : String)
      → ("run.googleapis.com/vpc-access-egress" == k) ≡ false
      → ("run.googleapis.com/network-interfaces" == k) ≡ false
      → value_at k (annotations t o) ≡ value_at k (base_annotations t o)
  noted k h h' = elim (Bool-cases (has_egress t o)) [
    | inl e ↦ ground (
      arith,
      lookup-insert "run.googleapis.com/vpc-access-egress" k o.egress_mode.wanted (
          insert "run.googleapis.com/network-interfaces" (t.marshal (interfaces t o))
            (base_annotations t o)),
      lookup-insert "run.googleapis.com/network-interfaces" k (t.marshal (interfaces t o))
          (base_annotations t o),
    )
    | inr e ↦ rw e refl
  ]

  written : read_interfaces t (t.marshal (interfaces t o)) (o.egress_network, o.egress_subnet) ≡ (
    set_current o.egress_network o.egress_network.wanted,
    set_current o.egress_subnet o.egress_subnet.wanted,
  )
  unfolding read_interfaces
  written = elim (Bool-cases (t.marshal (interfaces t o) == "")) [
    | inl e ↦ absurd (law.marshal-ne-nil _ ((eq_iff (t.marshal (interfaces t o)) "").0 e))
    | inr e ↦ rw e (rw (law.unmarshal-marshal _) refl)
  ]

  abbrev pub stored : Status → Service
  stored s = record (make_run_service t o) { status = s }

  read-env :
      (es m : Dict String) (k : String)
      → is_distinct (keys es) ≡ true
      → lookup k (read_env es m) ≡ or_else (lookup k es) (lookup k m)
  unfolding read_env
  read-env [] m k h = refl
  read-env ((j, v) ∷ es) m k h =
      ground
        (arith, eq_iff j k, lookup-insert j k v m, read-env es (insert j v m) k, lookup-keys es k)

  unfoldable found : Status → CloudRun
  found s = elim (read_run_service t (stored s) o) [ ok (b, o') ↦ o' | err e ↦ o | panic ↦ o ]

  applied : (s : Status) → IsApplied (found s)
  unfolding found read_run_service make_run_service
  applied s = record {
    command = refl;
    args = refl;
    image = refl;
    cloud_sql_instances = ap some (noted "run.googleapis.com/cloudsql-instances" refl refl);
    min_scale =
        ap some (ap t.atoi (noted "autoscaling.knative.dev/minScale" refl refl) ∙ law.atoi-itoa _);
    max_scale =
        ap some (ap t.atoi (noted "autoscaling.knative.dev/maxScale" refl refl) ∙ law.atoi-itoa _);
    cpu_limit = refl;
    memory_limit = refl;
    container_concurrency = refl;
    timeout_seconds = refl;
    port = refl;
    ingress = refl;
    execution_environment = ap some (noted "run.googleapis.com/execution-environment" refl refl);
    cpu_throttling = ap some (
        ap (λ v. v == "true") (noted "run.googleapis.com/cpu-throttling" refl refl)
        ∙ annotation-true _);
    startup_cpu_boost = ap some (
        ap (λ v. v == "true") (noted "run.googleapis.com/startup-cpu-boost" refl refl)
        ∙ annotation-true _);
    service_account_name = ap some (read_account_same t o.service_account_name.wanted);
  }

  connected : (s : Status) → IsConnected t o (found s)
  unfolding found read_run_service make_run_service read_interfaces
  connected s = elim (Bool-cases (has_egress t o)) [
    | inl e ↦ record {
      network = rw e (ap (λ p. p.0.current) written);
      subnet = rw e (ap (λ p. p.1.current) written);
      mode = rw e refl;
    }
    | inr e ↦ record { network = rw e refl; subnet = rw e refl; mode = rw e refl }
  ]

  -- What `Create` sends is what `Read` finds, whatever status the service has by then. The fields of IsApplied
  -- hold what is asked for. So do the network, with its subnet and its mode, where both names are given, and
  -- nothing is left of them where not. Of a probe that is made, the path or the service, the port, which
  -- defaults to that of the service, the seconds and the threshold are read back; of one that is not,
  -- all but the port is unset. Each variable of the environment has the value that is asked
  -- for, if the variables have different names.
  pub read_run_service-make_run_service :
      (s : Status)
      → is_distinct (keys o.env_vars.wanted) ≡ true
      → (o' : CloudRun) × (read_run_service t (stored s) o ≡ ok (true, o'))
        × IsApplied o'
        × IsConnected t o o'
        × IsProbed o.port.wanted o.liveness_probe o'.liveness_probe
        × IsProbed o.port.wanted o.startup_probe o'.startup_probe
        × ((env : Dict String) × (o'.env_vars.current ≡ some env)
            × ((k : String) → lookup k env ≡ lookup k o.env_vars.wanted))
  unfolding found read_run_service make_run_service
  read_run_service-make_run_service s distinct = (
    found s,
    refl,
    applied s,
    connected s,
    read_probe-IsProbed _ _,
    read_probe-IsProbed _ _,
    (
      read_env o.env_vars.wanted [],
      refl,
      λ k. ground (arith, read-env o.env_vars.wanted [] k distinct),
    ),
  )
