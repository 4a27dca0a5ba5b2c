-- ===== src/Planning/Tests.antt =====
-- Runs of an apply on concrete inputs. The world is the list of the calls that were made, the last first.
use cli_plugin_gcp.Common.{◌≡◌, refl, String, true, false, List, [], ◌∷◌, none, some, arith}
use cli_plugin_gcp.Common.Action.{Action, Result, ok, err, panic, text}
use cli_plugin_gcp.Planning.{
  Runner, PlanSession, process, apply_action, prepare_cloud_run_url, enable_apis, register_apis,
  plan_all,
}
use cli_plugin_gcp.Planning.Saved.{apply_action-saves, apply_action-panic}

abbrev Calls : Type 0
Calls = List String

abbrev call : {A : Type 0} → String → Result A → Action Calls A
call name out calls = (out, name ∷ calls)

-- a quota is met at the second of the resources
abbrev quota : Runner
quota = record {
  World = Calls;
  Diff = List String;
  region = "europe-west1";
  unmarshal = λ bytes. ok (record { region = bytes; project_hash = "abc"; region_code = "ew" });
  marshal = λ c. ok c.region;
  suffix = λ url. some ("abc", "ew");
  register_temporary = call "register" (ok tt);
  create_temporary = call "create" (ok (some "https://temporary-service-abc-ew.a.run.app"));
  delete_temporary = call "delete" (ok (some tt));
  register_api = λ api. call api (ok tt);
  load_apis = λ data'. call "load apis" (ok tt);
  diff_apis = call "diff apis" (ok []);
  apply_apis = λ diff. call "apply apis" (ok tt);
  dump_apis = call "dump apis" (ok "apis");
  load = λ data'. call "load" (ok tt);
  plan_resources = λ c apply. call "plan" (ok tt);
  process_and_diff = call "diff" (ok ("first" ∷ "second" ∷ []));
  apply_diff = λ diff. call "apply" (err (text "quota"));
  dump = λ calls. (ok "first", "dump" ∷ calls);
  report = call "report" (ok tt);
}

abbrev known : PlanSession quota
known = record {
  world = [];
  state = record { registry = ""; other = some (("cloud_run_settings", "europe-west1") ∷ []) };
  cloud_run_settings = none;
}

abbrev new : PlanSession quota
new = record known { state = record known.state { other = none } }

abbrev before : PlanSession quota
before = (process quota true false true known).1

planned : process quota true false true known ≡ (ok (some ("first" ∷ "second" ∷ [])), before)
unfolding process prepare_cloud_run_url enable_apis register_apis plan_all
planned = refl

apply_action-saves_example :
    ((apply_action quota true false known).0 ≡ err (text "quota"))
    × ((apply_action quota true false known).1.state.registry ≡ "first")
    × ((apply_action quota true false known).1.state.other ≡ before.state.other)
apply_action-saves_example =
    apply_action-saves quota true false known before ("first" ∷ "second" ∷ []) (text "quota")
      "first" planned refl refl (λ e. ground arith)

abbrev deleted_again : PlanSession quota
deleted_again = record new {
  world = "delete" ∷ "create" ∷ "register" ∷ [];
  cloud_run_settings =
      some (record { region = "europe-west1"; project_hash = "abc"; region_code = "ew" });
}

apply_action-panic_example : apply_action quota true false new ≡ (panic, deleted_again)
apply_action-panic_example =
    apply_action-panic quota new "https://temporary-service-abc-ew.a.run.app" "abc" "ew"
      "europe-west1" refl refl refl refl refl refl refl
