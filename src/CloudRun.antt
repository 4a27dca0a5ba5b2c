-- ===== src/CloudRun.antt =====
-- gcp/cloud_run.go: the resource `CloudRun` and the service of Cloud Run, as far as the code reads
-- and writes it. The seven fields of each of the two probes are a record of their own.
pub mod Make
pub mod Read
pub mod Roundtrip
pub mod Calls
pub mod Ready
mod Tests
use cli_plugin_gcp.Common.{ℕ, ◌≡◌, ◌≢◌, some, String, Bool, List, [], ◌∷◌, Option, Dict}
use cli_plugin_gcp.Common.Int.{ℤ}
use cli_plugin_gcp.Fields.{Input}

pub record ProbeFields : Type 0 where
  pub http_path : Input String
  pub grpc_service : Input String
  pub port : Input ℤ
  pub initial_delay_seconds : Input ℤ
  pub period_seconds : Input ℤ
  pub timeout_seconds : Input ℤ
  pub failure_threshold : Input ℤ

pub record CloudRun : Type 0 where
  pub name : Input String
  pub project_id : Input String
  pub region : Input String
  pub command : Input (List String)
  pub args : Input (List String)
  pub image : Input String
  pub is_public : Input Bool
  pub cloud_sql_instances : Input String
  pub min_scale : Input ℤ
  pub max_scale : Input ℤ
  pub cpu_limit : Input String
  pub memory_limit : Input String
  pub container_concurrency : Input ℤ
  pub timeout_seconds : Input ℤ
  pub port : Input ℤ
  pub env_vars : Input (Dict String)
  pub ingress : Input String
  pub execution_environment : Input String
  pub cpu_throttling : Input Bool
  pub startup_cpu_boost : Input Bool
  pub service_account_name : Input String
  pub egress_network : Input String
  pub egress_subnet : Input String
  pub egress_mode : Input String
  pub liveness_probe : ProbeFields
  pub startup_probe : ProbeFields
  -- outputs: what the state holds
  pub url : Option String
  pub ready : Option Bool
  pub status_message : Option String

-- The types of google.golang.org/api/run/v1. A pointer that the code tests for nil is an `Option`.
pub record HttpGet : Type 0 where
  pub path : String
  pub port : ℤ

pub record Grpc : Type 0 where
  pub service : String
  pub port : ℤ

pub record Probe : Type 0 where
  pub http_get : Option HttpGet
  pub grpc : Option Grpc
  pub initial_delay_seconds : ℤ
  pub period_seconds : ℤ
  pub timeout_seconds : ℤ
  pub failure_threshold : ℤ

pub record Container : Type 0 where
  pub startup_probe : Option Probe
  pub liveness_probe : Option Probe
  pub command : List String
  pub args : List String
  pub image : String
  pub env : List (String × String)
  pub ports : List ℤ
  pub limits : Option (Dict String)

pub record RevisionSpec : Type 0 where
  pub service_account_name : String
  pub container_concurrency : ℤ
  pub timeout_seconds : ℤ
  pub containers : List Container

-- the template's annotations, if it has metadata
pub record RevisionTemplate : Type 0 where
  pub annotations : Option (Dict String)
  pub spec : RevisionSpec

pub record Metadata : Type 0 where
  pub name : String
  pub generation : ℤ
  pub annotations : Dict String

pub record Condition : Type 0 where
  pub kind : String
  pub status : String
  pub message : String

pub record Status : Type 0 where
  pub observed_generation : ℤ
  pub url : String
  pub conditions : List Condition

pub record TrafficTarget : Type 0 where
  pub percent : ℕ
  pub latest_revision : Bool

-- the template, if there is a spec and it has one
pub record Service : Type 0 where
  pub api_version : String
  pub kind : String
  pub metadata : Option Metadata
  pub template : Option RevisionTemplate
  pub traffic : List TrafficTarget
  pub status : Status

-- CloudRunNetworkInterface of gcp/util.go
pub record NetworkInterface : Type 0 where
  pub network : String
  pub subnetwork : String

-- strconv and encoding/json, as the two functions use them; an error of Atoi counts as 0.
pub record Text : Type 0 where
  pub itoa : ℤ → String
  pub atoi : String → ℤ
  pub marshal : List NetworkInterface → String
  pub unmarshal : String → Option (List NetworkInterface)

-- A number is read back as it was written, and so is an interface; its text is not empty.
pub record IsText (t : Text) : Type 0 where
  pub atoi-itoa : (n : ℤ) → t.atoi (t.itoa n) ≡ n
  pub unmarshal-marshal : (i : NetworkInterface) → t.unmarshal (t.marshal (i ∷ [])) ≡ some (i ∷ [])
  pub marshal-ne-nil : (i : NetworkInterface) → t.marshal (i ∷ []) ≢ ""
