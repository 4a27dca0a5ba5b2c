-- ===== src/CloudRun/Tests.antt =====
-- Runs of the modules on Cloud Run on concrete inputs.
use Prim.Native.Char.{code}
use Prim.Native.String.{[], ◌∷◌}
use cli_plugin_gcp.Common.{
  ℕ, zero, suc, ◌≡◌, ◌≢◌, ◌<◌, refl, ap, String, Bool, true, false, Option, none, some,
  if◌then◌else◌, nat_beq, arith, Dict, lookup,
}
use cli_plugin_gcp.Common.Int.{pos, negsuc}
use mathlib.Core.List.{[], ◌∷◌}
use cli_plugin_gcp.Common.Action.{ok, pure}
use cli_plugin_gcp.Examples.Numbers.{number, value, value-number, count}
use cli_plugin_gcp.CloudRun.{Input, CloudRun, ProbeFields, Service, Text, IsText, Status}
use cli_plugin_gcp.CloudRun.Calls.{RunService, wait_for_run_service_ready, get_run_service}
use cli_plugin_gcp.CloudRun.Ready.{Answers, wait_for_run_service_ready-ends}
use cli_plugin_gcp.CloudRun.Read.{read_run_service}
use cli_plugin_gcp.CloudRun.Roundtrip.{
  read_run_service-make_run_service, IsApplied, IsConnected, IsProbed, stored,
}
use cli_plugin_gcp.CloudRun.Make.{make_run_service}

-- a text in front of another: each of its characters has an "x" before it, and a point follows
put : String → String → String
put [] rest = "." ∷ rest
put (c ∷ s) rest = "x" ∷ c ∷ put s rest

get : Bool → String → Option (String × String)
get b [] = none
get false (c ∷ s) = if nat_beq (code c) b'.' then some ([], s) else get true s
get true (c ∷ s) = elim (get false s) [ none ↦ none | some (a, r) ↦ some (c ∷ a, r) ]

get-put : (s rest : String) → get false (put s rest) ≡ some (s, rest)
unfolding put get
get-put [] rest = refl
get-put (c ∷ s) rest = ground (arith, get-put s rest)

unary_text : Text
unary_text = record {
  itoa = number;
  atoi = value;
  marshal = λ is. elim is [ [] ↦ "" | i ∷ _ ↦ put i.network i.subnetwork ];
  unmarshal = λ s. elim (get false s) [
    | none ↦ none
    | some (n, m) ↦ some (record { network = n; subnetwork = m } ∷ [])
  ];
}

put-ne-nil : (s rest : String) → put s rest ≢ ""
unfolding put count
put-ne-nil [] rest e = absurd (omega (arith, ap count e))
put-ne-nil (c ∷ s) rest e = absurd (omega (arith, ap count e))

unary_IsText : IsText unary_text
unfolding unary_text
unary_IsText = record {
  atoi-itoa = value-number;
  unmarshal-marshal = λ i. rw (unary_text, get-put i.network i.subnetwork) refl;
  marshal-ne-nil = λ i. put-ne-nil i.network i.subnetwork;
}

asked : {A : Type 0} → A → Input A
asked a = record { current = none; wanted = a }

abbrev no_probe : ProbeFields
no_probe = record {
  http_path = asked "";
  grpc_service = asked "";
  port = asked (pos 0);
  initial_delay_seconds = asked (pos 0);
  period_seconds = asked (pos 10);
  timeout_seconds = asked (pos 1);
  failure_threshold = asked (pos 3);
}

abbrev web : CloudRun
web = record {
  name = asked "web";
  project_id = asked "shop";
  region = asked "europe-west1";
  command = asked [];
  args = asked ("serve" ∷ []);
  image = asked "gcr.io/shop/web";
  is_public = asked true;
  cloud_sql_instances = asked "";
  min_scale = asked (pos 0);
  max_scale = asked (pos 20);
  cpu_limit = asked "1000m";
  memory_limit = asked "128Mi";
  container_concurrency = asked (pos 250);
  timeout_seconds = asked (pos 300);
  port = asked (pos 80);
  env_vars = asked (("URL", "https://shop.example") ∷ ("MODE", "prod") ∷ []);
  ingress = asked "all";
  execution_environment = asked "gen1";
  cpu_throttling = asked true;
  startup_cpu_boost = asked false;
  service_account_name = asked "";
  egress_network = asked "default";
  egress_subnet = asked "main";
  egress_mode = asked "private-ranges-only";
  liveness_probe = no_probe;
  startup_probe = record no_probe { http_path = asked "/health" };
  url = none;
  ready = none;
  status_message = none;
}

abbrev settled : Status
settled = record {
  observed_generation = pos 0;
  url = "https://web.run.app";
  conditions = record { kind = "Ready"; status = "False"; message = "no image" } ∷ [];
}

read_run_service-make_run_service_example :
    (o' : CloudRun) × (read_run_service unary_text (stored unary_text unary_IsText web settled) web
      ≡ ok (true, o'))
    × IsApplied o'
    × IsConnected unary_text web o'
    × IsProbed web.port.wanted web.liveness_probe o'.liveness_probe
    × IsProbed web.port.wanted web.startup_probe o'.startup_probe
    × ((env : Dict String) × (o'.env_vars.current ≡ some env)
        × ((k : String) → lookup k env ≡ lookup k web.env_vars.wanted))
unfolding asked
read_run_service-make_run_service_example =
    read_run_service-make_run_service unary_text unary_IsText web settled refl

-- the service is not observed yet for as many rounds as the world says
abbrev later : ℕ → Service
later zero = record (make_run_service unary_text web) { status = settled }
later (suc n) = record (make_run_service unary_text web) {
  status = record settled { observed_generation = negsuc 0 };
}

abbrev pred : ℕ → ℕ
pred zero = zero
pred (suc n) = n

abbrev slow : RunService
slow = record {
  World = ℕ;
  client = λ region. pure tt;
  tick = pure tt;
  create = λ path svc. pure tt;
  get = λ path w. (ok (later w), pred w);
  delete = λ path. pure tt;
  replace_service = λ path svc. pure tt;
  get_iam_policy = λ path. pure none;
  set_iam_policy = λ path policy. pure tt;
  any = λ f. f.wanted;
  current = λ f. f.wanted;
  is_changed = λ f. true;
}

-- a service that is not observed yet has no answer
fewer : (w : ℕ) → ((ready : Bool) (msg : String) → ¬ Answers (later w) ready msg) → pred w < w
unfolding make_run_service asked
fewer zero open' = absurd (
    open' false "no image" (
      record {
        name = "web";
        generation = pos 0;
        annotations = ("run.googleapis.com/ingress", "all") ∷ [];
      },
      refl,
      refl,
      (
        zero,
        record { kind = "Ready"; status = "False"; message = "no image" },
        refl,
        (refl, refl, refl),
      ),
    ))
fewer (suc w) open' = omega arith

wait_for_run_service_ready-ends_example :
    (svc : Service) × (ready : Bool) × (msg : String) × ((wait_for_run_service_ready slow 3 "shop"
        "web" 2).0
      ≡ ok (some (svc, ready, msg)))
    × Answers svc ready msg
    × ((v : ℕ) × ((get_run_service slow "shop" "web" v).0 ≡ ok svc))
wait_for_run_service_ready-ends_example =
    wait_for_run_service_ready-ends slow "shop" "web" (λ w. w) (λ w. (refl, omega arith))
      (λ w. (later w, refl, fewer w)) 3 2 (omega arith)
