-- ===== src/Secrets/Tests.antt =====
-- Secrets at which the theorems apply.
use cli_plugin_gcp.Common.{
  map, List, keep, ◌==◌, if◌then◌else◌, ◌≡◌, refl, String, [], ◌∷◌, Dict, lookup, contains,
  string_eq, if◌then◌else◌, ◌==◌,
}
use cli_plugin_gcp.Common.Action.{pure, ok}
use cli_plugin_gcp.Secrets.{SecretManager, SecretVersion, destroy_old}
use cli_plugin_gcp.Secrets.Cleanup.{is_old, destroy_all, destroy_old-eq-destroy_all}
use cli_plugin_gcp.Secrets.Handlers.{replace_tasks, run_task, secret_key_prefix, secret_key}
use cli_plugin_gcp.Secrets.Replace.{tasks_on, due_calls, run_task-replace_tasks}
use cli_plugin_gcp.Examples.{util, dev}

abbrev request : Dict String
request = ("C", "3") ∷ ("B", "4") ∷ []

key_name : secret_key util dev "API_KEY" ≡ ok "OUTBLOCKS_shop-1_API_KEY"
unfolding secret_key secret_key_prefix
key_name = refl

-- a service that notes which versions it destroys
abbrev service : SecretManager
service = record {
  World = List String;
  get = λ path. pure tt;
  create = λ parent key labels. pure tt;
  list = λ parent size filter. pure [];
  delete = λ path. pure tt;
  add_version =
      λ path payload. pure (record { name = "3"; create_time = "noon"; state = "ENABLED" });
  access = λ path. pure "";
  list_versions = λ path. pure [];
  destroy = λ name w. (ok tt, name ∷ w);
  now = λ w. 9;
  parse_time = λ s. if s == "noon" then 12 else 6;
  encode = λ s. s;
  decode = λ s. s;
  client = pure tt;
}

abbrev versions : List SecretVersion
versions =
    record { name = "3"; create_time = "noon"; state = "ENABLED" }
    ∷ record { name = "2"; create_time = "dawn"; state = "ENABLED" }
    ∷ record { name = "1"; create_time = "dawn"; state = "DESTROYED" }
    ∷ []

cleaned : destroy_old service "A" 12 versions [] ≡ (ok tt, "2" ∷ [])
unfolding destroy_old
cleaned = refl

destroy_old-eq-destroy_all_example :
    destroy_old service "A" 12 versions []
    ≡ destroy_all service "A" (keep (is_old service 12) versions) []
destroy_old-eq-destroy_all_example = destroy_old-eq-destroy_all service "A" 12 versions []

run_task-replace_tasks_example :
    map
      (run_task service util dev "gcp-shop" (λ api. pure tt))
      (tasks_on "B" (replace_tasks ("A" ∷ "B" ∷ []) request))
    ≡ due_calls service util dev "gcp-shop"
        (λ api. pure tt)
        "B"
        (contains {A = String} "B" ("A" ∷ "B" ∷ []))
        (lookup "B" request)
run_task-replace_tasks_example =
    run_task-replace_tasks service util dev "gcp-shop" (λ api. pure tt) ("A" ∷ "B" ∷ []) request "B"
      refl refl
