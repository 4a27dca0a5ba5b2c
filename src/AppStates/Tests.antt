-- ===== src/AppStates/Tests.antt =====
-- Runs of the modules on the states of apps on concrete inputs.
use cli_plugin_gcp.Common.{◌≡◌, ◌≢◌, refl, String, true, false, [], ◌∷◌, some, Dict, lookup, arith}
use text.Mathlib.TextEquality.{eq_iff}
use cli_plugin_gcp.Common.Action.{ok}
use cli_plugin_gcp.Common.Int.{pos}
use cli_plugin_gcp.Fields.{Input}
use cli_plugin_gcp.Apps.{asked}
use cli_plugin_gcp.CloudFunction.{CloudFunction}
use cli_plugin_gcp.AppStates.{Deployed, Saved, ssl_ok}
use cli_plugin_gcp.AppStates.Deployments.{
  function_app, save_app_states, compute_app_deployment_state,
}
use cli_plugin_gcp.AppStates.Complete.{deployment_in, save_app_states_complete}
use cli_plugin_gcp.AppStates.Reported.{dns_of}

abbrev deployed : Deployed
deployed = record {
  apps = ("web", tt) ∷ [];
  hostname = λ url. ok "shop.example";
  ip = some "203.0.113.1";
  ssls =
      (
        "shop.example",
        record { status = "ACTIVE"; domain_status = ("shop.example", "ACTIVE") ∷ [] },
      )
      ∷ [];
}

abbrev nothing : Saved
nothing = record { app_states = []; records_map = []; records = [] }

-- the second app is of another plan
abbrev mapping : Dict String
mapping = ("https://shop.example/", "web") ∷ ("https://shop.example/old/", "old") ∷ []

old_other : ◌≢◌ {A = String} "old" "web"
old_other = ground (arith, eq_iff "old" "web")

-- the function of the app, as the state holds it
abbrev web : CloudFunction
web = record {
  name = asked "dev-web";
  project_id = asked "shop";
  region = asked "europe-west1";
  entrypoint = asked "main";
  runtime = asked "go121";
  source_bucket = asked "sources";
  source_object = asked "web.zip";
  is_public = asked true;
  min_scale = asked (pos 0);
  max_scale = asked (pos 10);
  memory_limit = asked (pos 256);
  timeout_seconds = asked (pos 60);
  env_vars = asked [];
  ingress = asked "ALLOW_ALL";
  url = some "https://europe-west1-shop.cloudfunctions.net/dev-web";
  ready = some false;
  status_message = some "deploying";
}

abbrev served : Input (Dict String)
served = record { current = some mapping; wanted = mapping }

save_app_states_complete_example :
    (s' : Saved) × (save_app_states deployed (some served) (("web", function_app web) ∷ []) nothing
      ≡ ok s')
    × (deployment_in (lookup "web" s'.app_states)
        ≡ some (record { ready = false; message = "deploying" }))
    × (dns_of (lookup "web" s'.app_states)
        ≡ some (record {
          ip = "203.0.113.1";
          url = "https://shop.example/";
          ssl_status = ssl_ok;
          ssl_status_info = "ACTIVE";
          internal_url = "";
          cloud_url = "https://europe-west1-shop.cloudfunctions.net/dev-web";
        }))
unfolding compute_app_deployment_state
save_app_states_complete_example =
    save_app_states_complete deployed "203.0.113.1" "web" "https://shop.example/" "shop.example"
      (function_app web) (record { ready = false; message = "deploying" }) (some served)
      (("web", function_app web) ∷ []) nothing refl refl refl refl
      (("shop.example", refl), (("shop.example", refl), tt))
      (("shop.example", refl), (("shop.example", refl), tt))
      ((λ _. refl), ((λ same. absurd (old_other same)), tt)) refl (refl, tt) ((λ _. refl), tt) refl
