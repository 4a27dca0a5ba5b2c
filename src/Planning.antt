-- ===== src/Planning.antt =====
-- actions/plan.go: `enableAPIs`, `planAll`, `process`, `save`, `Plan` and `Apply`, and `prepareCloudRunURL` of
-- actions/plan_service.go. The two registries are parameters. So are `plan_resources`, which stands for
-- planDependencies, planApps and the plan of the load balancer, each on a world of its own (Dependencies,
-- Planning/Apps, LoadBalancer), and `report`, what `save` does after the registry is saved (AppStates). `none` says
-- that a wait ran out of fuel.
pub mod Saved
pub mod Apps
pub mod Reported
pub mod Saves
mod Tests
mod AppTests
use Prim.Native.String.{◌++◌}
use cli_plugin_gcp.Common.{
  ℕ, String, Bool, true, false, not, ◌&&◌, List, [], ◌∷◌, Option, none, some, if◌then◌else◌, ◌==◌,
  string_eq, Dict, lookup, insert,
}
use cli_plugin_gcp.Common.Action.{
  Action, Result, ok, err, panic, Fault, text, try, pure, fail, crash, of_result, ◌>>=◌, ◌>>◌,
}
use cli_plugin_gcp.Fields.{Input, set_current}
use cli_plugin_gcp.CloudRun.{CloudRun}
use cli_plugin_gcp.Apps.Service.{CloudRunSettings}

-- apiv1.PluginState: a nil map is `none`
pub record PluginState : Type 0 where
  pub registry : String
  pub other : Option (Dict String)

-- `create_temporary` and `delete_temporary` are `Create` and `Delete` of gcp.CloudRun on the temporary
-- service, the first with the URL that it gives; `suffix` is the match of cloudRunSuffixRegex.
pub record Runner : Type 1 where
  pub World : Type 0
  pub Diff : Type 0
  pub region : String
  pub unmarshal : String → Result CloudRunSettings
  pub marshal : CloudRunSettings → Result String
  pub suffix : String → Option (String × String)
  pub register_temporary : Action World (Unit {0})
  pub create_temporary : Action World (Option String)
  pub delete_temporary : Action World (Option (Unit {0}))
  pub register_api : String → Action World (Unit {0})
  pub load_apis : Option String → Action World (Unit {0})
  pub diff_apis : Action World Diff
  pub apply_apis : Diff → Action World (Unit {0})
  pub dump_apis : Action World String
  pub load : String → Action World (Unit {0})
  pub plan_resources : Option CloudRunSettings → Bool → Action World (Unit {0})
  pub process_and_diff : Action World Diff
  pub apply_diff : Diff → Action World (Unit {0})
  pub dump : Action World String
  pub report : Action World (Unit {0})

-- APISRequired of gcp/consts.go
abbrev apis_required : List String
apis_required =
    "run.googleapis.com" ∷ "artifactregistry.googleapis.com" ∷ "compute.googleapis.com"
    ∷ "sqladmin.googleapis.com" ∷ "secretmanager.googleapis.com"
    ∷ "cloudresourcemanager.googleapis.com" ∷ "cloudfunctions.googleapis.com"
    ∷ "monitoring.googleapis.com" ∷ "cloudbuild.googleapis.com" ∷ "serviceusage.googleapis.com" ∷ []

abbrev no_settings : CloudRunSettings
no_settings = record { region = ""; project_hash = ""; region_code = "" }

-- a read of a map, which may be nil
abbrev pub entry : String → Option (Dict String) → Option String
entry key none = none
entry key (some m) = lookup key m

module _ (l : Runner) where
  open l use {World, Diff}

  -- PlanAction, as far as the methods here change it, beside the world
  pub record PlanSession : Type 0 where
    pub world : World
    pub state : PluginState
    pub cloud_run_settings : Option CloudRunSettings

  abbrev pub lift : {A : Type 0} → Action World A → Action PlanSession A
  lift m = λ s. ((m s.world).0, record s { world = (m s.world).1 })

  abbrev pub put : (PlanSession → PlanSession) → Action PlanSession (Unit {0})
  put f = λ s. (ok tt, f s)

  -- State.Other[key] = data: a panic on a nil map
  abbrev written : String → String → Option (Dict String) → Action PlanSession (Unit {0})
  written key data' none = crash
  written key data' (some m) =
      put (λ s. record s { state = record s.state { other = some (insert key data' m) } })

  abbrev pub write_other : String → String → Action PlanSession (Unit {0})
  write_other key data' = λ s. written key data' s.state.other s

  abbrev pub with_settings : CloudRunSettings → Action PlanSession (Unit {0})
  with_settings c = put (λ s. record s { cloud_run_settings = some c })

  abbrev pub settings_of : Option String → Result CloudRunSettings
  settings_of none = ok no_settings
  settings_of (some bytes) = l.unmarshal bytes

  -- the settings that the URL of the temporary service gives
  abbrev pub matched : String → Option (String × String) → Result CloudRunSettings
  matched url none = err (text ("cloud run URL of unknown format: " ++ url))
  matched url (some (hash, code)) =
      ok (record { region = l.region; project_hash = hash; region_code = code })

  abbrev pub save_suffix : String → Action PlanSession (Option (Unit {0}))
  save_suffix url = of_result (matched url (l.suffix url)) >>= λ c.
      with_settings c
      >> of_result (l.marshal c)
      >>= write_other "cloud_run_settings"
      >> pure (some tt)

  abbrev pub then_some :
      {A B : Type 0}
      → (A → Action PlanSession (Option B))
      → Option A
      → Action PlanSession (Option B)
  then_some k none = pure none
  then_some k (some a) = k a

  abbrev pub fetch_suffix : Action PlanSession (Option (Unit {0}))
  fetch_suffix =
      lift l.register_temporary
      >> lift l.create_temporary
      >>= then_some (λ url. lift l.delete_temporary >>= then_some (λ _. save_suffix url))

  abbrev pub prepare_from : Bool → CloudRunSettings → Action PlanSession (Option (Unit {0}))
  prepare_from create c =
      if c.region == l.region
      then (with_settings c >> pure (some tt))
      else if not create
      then pure (some tt)
      else (with_settings c >> fetch_suffix)

  unfoldable pub prepare_cloud_run_url : Bool → Action PlanSession (Option (Unit {0}))
  prepare_cloud_run_url create = λ s.
      (of_result (settings_of (entry "cloud_run_settings" s.state.other)) >>= prepare_from create) s

  unfoldable pub register_apis : List String → Action PlanSession (Unit {0})
  register_apis [] = pure tt
  register_apis (api ∷ apis) = lift (l.register_api api) >> register_apis apis

  abbrev or_empty : Option (Dict String) → Option (Dict String)
  or_empty none = some []
  or_empty (some m) = some m

  abbrev pub make_other : Action PlanSession (Unit {0})
  make_other = put (λ s. record s { state = record s.state { other = or_empty s.state.other } })

  unfoldable pub enable_apis : Action PlanSession (Unit {0})
  enable_apis =
      register_apis apis_required
      >> make_other
      >> (λ s. lift (l.load_apis (entry "api_registry" s.state.other)) s)
      >> lift l.diff_apis
      >>= (λ diff. lift (l.apply_apis diff))
      >> lift l.dump_apis
      >>= write_other "api_registry"

  unfoldable pub plan_all : Bool → Action PlanSession (Unit {0})
  plan_all apply = (λ s. lift (l.load s.state.registry) s) >> λ s.
      lift (l.plan_resources s.cloud_run_settings apply) s

  abbrev processed : Bool → Option (Unit {0}) → Action PlanSession (Option Diff)
  processed apply none = pure none
  processed apply (some u) =
      enable_apis >> plan_all apply >> lift l.process_and_diff >>= λ diff. pure (some diff)

  -- `apps` says whether there are plans of apps
  unfoldable pub process : Bool → Bool → Bool → Action PlanSession (Option Diff)
  process apps destroy apply =
      (if apps then prepare_cloud_run_url (apply && not destroy) else pure (some tt))
      >>= processed apply

  abbrev pub with_registry : String → Action PlanSession (Unit {0})
  with_registry data' = put (λ s. record s { state = record s.state { registry = data' } })

  unfoldable pub save : Bool → Action PlanSession (Unit {0})
  save destroy = lift l.dump >>= with_registry >> (if destroy then pure tt else lift l.report)

  abbrev planned : Bool → Option Diff → Action PlanSession (Option Diff)
  planned destroy none = pure none
  planned destroy (some diff) = save destroy >> pure (some diff)

  unfoldable pub plan_action : Bool → Bool → Action PlanSession (Option Diff)
  plan_action apps destroy = process apps destroy false >>= planned destroy

  -- the error of the apply comes before that of the save
  abbrev pub first_error :
      Result (Unit {0}) → Result (Unit {0}) → Action PlanSession (Option (Unit {0}))
  first_error (err e) saved = fail e
  first_error panic saved = crash
  first_error (ok u) (err e) = fail e
  first_error (ok u) panic = crash
  first_error (ok u) (ok u') = pure (some tt)

  abbrev pub apply_and_save : Bool → Option Diff → Action PlanSession (Option (Unit {0}))
  apply_and_save destroy none = pure none
  apply_and_save destroy (some diff) = try (lift (l.apply_diff diff)) >>= λ out.
      try (save destroy) >>= λ saved. first_error out saved

  unfoldable pub apply_action : Bool → Bool → Action PlanSession (Option (Unit {0}))
  apply_action apps destroy = process apps destroy true >>= apply_and_save destroy
