-- ===== src/CloudFunction/Tests.antt =====
-- Runs of the modules on cloud functions on concrete inputs.
use cli_plugin_gcp.Common.{◌≡◌, ◌≢◌, refl, true, false, List, [], ◌∷◌, none, some, arith, string_eq}
use text.Mathlib.TextEquality.{eq_iff}
use cli_plugin_gcp.Common.Int.{pos}
use cli_plugin_gcp.Common.Action.{ok}
use cli_plugin_gcp.Common.Texts.{strip}
use cli_plugin_gcp.Fields.{Input}
use cli_plugin_gcp.Policies.{Binding, all_users}
use cli_plugin_gcp.Url.{host_of, path_of}
use cli_plugin_gcp.Examples.Numbers.{number, value, value-number}
use cli_plugin_gcp.CloudFunction.Policy.{
  update_bindings, invoker, read_public, new_bindings, grants,
}
use cli_plugin_gcp.CloudFunction.Access.{read_public-new_bindings, grants-new_bindings}
use cli_plugin_gcp.CloudFunction.{CloudFunction, Parsers, read_function}
use cli_plugin_gcp.CloudFunction.Roundtrip.{
  IsApplied, deployed, read_function-wanted_api_cloud_function,
}

asked : {A : Type 0} → A → Input A
asked a = record { current = none; wanted = a }

abbrev shared : List Binding
shared =
    record { role = invoker; members = "user:ada" ∷ all_users ∷ [] }
    ∷ record { role = "roles/viewer"; members = "user:ada" ∷ [] }
    ∷ []

read_public-new_bindings_example : read_public (new_bindings false shared) ≡ false
read_public-new_bindings_example = read_public-new_bindings false shared

-- a public function that is updated gets the binding for all users once more
public_again :
    new_bindings true shared
    ≡ record { role = invoker; members = "user:ada" ∷ all_users ∷ [] }
      ∷ record { role = "roles/viewer"; members = "user:ada" ∷ [] }
      ∷ record { role = invoker; members = all_users ∷ [] }
      ∷ []
unfolding new_bindings update_bindings
public_again = refl

ada_other : "user:ada" ≢ all_users
ada_other = ground (arith, eq_iff "user:ada" all_users)

grants-new_bindings_example :
    grants invoker "user:ada" (new_bindings false shared) ≡ grants invoker "user:ada" shared
grants-new_bindings_example = grants-new_bindings invoker "user:ada" ada_other false shared

abbrev unary_parsers : Parsers
unary_parsers = record {
  itoa = number;
  atoi = value;
  parse = λ s. ok (host_of (strip s "gs://"), path_of (strip s "gs://"));
}

abbrev hook : CloudFunction
hook = record {
  name = asked "hook";
  project_id = asked "shop";
  region = asked "europe-west1";
  entrypoint = asked "handle";
  runtime = asked "nodejs20";
  source_bucket = asked "shop-sources";
  source_object = asked "hook.zip";
  is_public = asked true;
  min_scale = asked (pos 0);
  max_scale = asked (pos 3000);
  memory_limit = asked (pos 128);
  timeout_seconds = asked (pos 300);
  env_vars = asked (("MODE", "prod") ∷ []);
  ingress = asked "ALLOW_ALL";
  url = none;
  ready = none;
  status_message = none;
}

read_function-wanted_api_cloud_function_example :
    (o' : CloudFunction) × (read_function unary_parsers
        (deployed unary_parsers hook "ACTIVE" "https://hook")
        hook
      ≡ ok o')
    × IsApplied o'
    × (o'.url ≡ some "https://hook")
    × (o'.ready ≡ some true)
unfolding asked host_of path_of strip
read_function-wanted_api_cloud_function_example =
    read_function-wanted_api_cloud_function unary_parsers hook "ACTIVE" "https://hook" refl
      value-number
