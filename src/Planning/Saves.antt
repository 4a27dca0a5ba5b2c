-- ===== src/Planning/Saves.antt =====
-- What `save` of actions/plan.go reports of the apps that `planApps` planned.
use cli_plugin_gcp.Common.{
  String, Bool, List, [], ◌∷◌, Option, some, true, Dict, lookup, All, All-map, All-same, keys,
  is_distinct, ◌≡◌, refl, sym, ap, ◌∙◌, subst,
}
use cli_plugin_gcp.Common.Action.{ok}
use cli_plugin_gcp.Dependencies.Plan.{DepsPlan}
use cli_plugin_gcp.Apps.{AppPlanner, AppArgs}
use cli_plugin_gcp.Apps.Options.{Library}
use cli_plugin_gcp.Apps.Service.{CloudRunSettings}
use cli_plugin_gcp.AppStates.{DeploymentState, Deployed, Saved}
use cli_plugin_gcp.AppStates.Reported.{dns_of}
use cli_plugin_gcp.AppStates.Deployments.{
  DeployedApp, compute_app_deployment_state, or_empty_dns, with_urls, save_deployments,
}
use cli_plugin_gcp.AppStates.Complete.{IsKnown, deployment_in, save_deployments-reports}
use cli_plugin_gcp.Planning.Apps.{AppPlan, AppContext, AppsPlan, ids_of_apps, plan_apps}
use cli_plugin_gcp.Planning.Reported.{known_ids, Knows, ids_of_apps-All, plan_apps-Ends}

module _ {V : Type 0} (P : String → Type 0) where
  keys-All : (m : Dict V) → All P (keys m) → All (λ e. P e.0) m
  keys-All [] all = tt
  keys-All ((k, v) ∷ m) (one, all) = (one, keys-All m all)

module _ (l : AppPlanner) (lib : Library) (x : AppContext l lib) (c : AppArgs)
    (settings : Option CloudRunSettings) (destroy : Bool) (deps : DepsPlan) where
  -- After planApps, the loop of `save` over the deployed apps never reads a nil app. `deployed` is appDeployIDMap
  -- with the apps as an apply has left them, and `d` knows the apps of appIDMap. Of every app in it whose service
  -- says whether it is ready, the state gets that, and its DNS state, a new one where there is none, the
  -- addresses of the service.
  pub plan_apps-reported :
      (plans : List (AppPlan lib.Input)) (apply : Bool) (w : l.World) (out : AppsPlan lib.Float)
      (deployed : Dict DeployedApp) (d : Deployed) (s : Saved) (id : String) (app : DeployedApp)
      (deployment : DeploymentState)
      → (plan_apps l lib x c settings destroy deps plans apply w).0 ≡ ok out
      → keys deployed ≡ keys out.app_deploy_id_map
      → d.apps ≡ known_ids out.app_id_map
      → lookup id deployed ≡ some app
      → compute_app_deployment_state app ≡ some deployment
      → (s' : Saved) × (save_deployments d deployed s ≡ ok s')
        × (deployment_in (lookup id s'.app_states) ≡ some deployment)
        × (dns_of (lookup id s'.app_states)
            ≡ some (with_urls app (or_empty_dns (dns_of (lookup id s.app_states)))))
  plan_apps-reported plans apply w out deployed d s id app deployment planned same_keys known at
        computed =
      let P = Knows (ids_of_apps plans []) in
      let (filled, ids) =
        plan_apps-Ends l lib x c settings destroy deps P plans apply (ids_of_apps-All plans []) w
          out planned in
      let all_known : All (IsKnown d) deployed =
        keys-All (λ i. lookup i d.apps ≡ some tt) deployed
          (subst (λ (us : Dict (Unit {0})). All (λ i. lookup i us ≡ some tt) (keys deployed))
            (sym (known ∙ ap known_ids ids))
            (subst (All P) (sym same_keys)
              (All-map (λ e. P e.0) P (λ e. e.0) out.app_deploy_id_map (λ e h. h) filled.ids))) in
      let distinct : is_distinct (keys deployed) ≡ true =
        ap is_distinct same_keys ∙ filled.distinct in
      let (s', saved, keeps, adds) =
        save_deployments-reports d id app deployment
          (or_empty_dns (dns_of (lookup id s.app_states))) computed deployed s all_known
          (All-same id app deployed distinct at) in
      let done = adds refl at in (s', saved, done.deployed, done.reached)
