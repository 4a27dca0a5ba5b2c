-- ===== src/Planning/Reported.antt =====
-- What `planApps` leaves for `save`, of actions/plan.go: the apps that are deployed are apps of the plan.
use cli_plugin_gcp.Common.{
  ◌==◌, Bool-cases, String, Bool, List, [], ◌∷◌, map, Option, some, true, ◌==◌, string_eq,
  Bool-cases, Dict, lookup, insert, All, All-insert, arith, keys, is_distinct, is_distinct-insert,
  ◌≡◌, refl, inl, inr,
}
use text.Mathlib.TextEquality.{eq_iff}
use cli_plugin_gcp.Common.Action.{Action, Gives, >>=-Gives, pure-Gives}
use cli_plugin_gcp.Dependencies.Plan.{DepsPlan}
use cli_plugin_gcp.Apps.{App, AppPlanner, AppArgs}
use cli_plugin_gcp.Apps.Options.{Library}
use cli_plugin_gcp.Apps.Service.{CloudRunSettings}
use cli_plugin_gcp.AppStates.Deployments.{DeployedApp}
use cli_plugin_gcp.Planning.Apps.{
  AppPlan, AppContext, AppsPlan, plans_of, ids_of_apps, plan_apps_deploy, plan_prepared, plan_apps,
  Prepared,
}

module _ (l : AppPlanner) (lib : Library) (x : AppContext l lib) (c : AppArgs)
    (settings : Option CloudRunSettings) (destroy : Bool) (deps : DepsPlan) where
  -- a property of ids that those of the plans have
  module _ (P : String → Type 0) where
    -- the deployed apps have it, and no id stands twice
    pub record IsFilled (deployed : Dict DeployedApp) : Type 0 where
      pub ids : All (λ e. P e.0) deployed
      pub distinct : is_distinct (keys deployed) ≡ true

    abbrev Fills : {R : Type 0} → Action l.World (Dict R × Dict DeployedApp) → Type 0
    Fills m = Gives (λ out. IsFilled out.1) m

    plan_apps_deploy-Fills :
        {A R : Type 0} (plan : A → AppPlan lib.Input → Action l.World R) (deploy : R → DeployedApp)
        (apps : List A) (ps : List (AppPlan lib.Input)) (out : Dict R × Dict DeployedApp)
        → All (λ (p : AppPlan lib.Input). P p.app.id) ps
        → IsFilled out.1
        → Fills (plan_apps_deploy l lib x c settings destroy deps plan deploy apps ps out)
    unfolding plan_apps_deploy
    plan_apps_deploy-Fills plan deploy apps [] out all filled =
        pure-Gives (λ o. IsFilled o.1) out filled
    plan_apps_deploy-Fills plan deploy [] (p ∷ ps) out all filled =
        λ w out' e. absurd (ground arith)
    plan_apps_deploy-Fills {A} {R} plan deploy (a ∷ apps) (p ∷ ps) out (one, all) filled =
        >>=-Gives {P = λ _. Unit {0}} (λ (o : Dict R × Dict DeployedApp). IsFilled o.1) (plan a p)
          (λ r.
            plan_apps_deploy l lib x c settings destroy deps plan deploy apps ps
              (insert p.app.id r out.0, insert p.app.id (deploy r) out.1))
          (λ _ _ _. tt)
          (λ r _.
            plan_apps_deploy-Fills plan deploy apps ps
              (insert p.app.id r out.0, insert p.app.id (deploy r) out.1) all
              (record {
                ids = All-insert (λ e. P e.0) out.1 p.app.id (deploy r) filled.ids one;
                distinct = is_distinct-insert p.app.id (deploy r) out.1 filled.distinct;
              }))

    plans_of-All :
        (kind : String) (ps : List (AppPlan lib.Input))
        → All (λ (p : AppPlan lib.Input). P p.app.id) ps
        → All (λ (p : AppPlan lib.Input). P p.app.id) (plans_of kind ps)
    plans_of-All kind [] all = tt
    plans_of-All kind (p ∷ ps) (one, all) = elim (Bool-cases (p.app.kind == kind)) [
      | inl e ↦ rw e (one, plans_of-All kind ps all)
      | inr e ↦ rw e (plans_of-All kind ps all)
    ]

    abbrev pub Ends : List (AppPlan lib.Input) → AppsPlan lib.Float → Type 0
    Ends plans out = IsFilled out.app_deploy_id_map × (out.app_id_map ≡ ids_of_apps plans [])

    plan_prepared-Ends :
        (plans : List (AppPlan lib.Input)) (apply : Bool)
        (prepared : Prepared l lib x c settings destroy deps)
        → All (λ (p : AppPlan lib.Input). P p.app.id) plans
        → Gives (Ends plans) (plan_prepared l lib x c settings destroy deps plans apply prepared [])
    unfolding plan_prepared
    plan_prepared-Ends plans apply (services, statics, functions, vars) all =
        >>=-Gives (Ends plans) _ _
          (plan_apps_deploy-Fills _ _ statics _ _ (plans_of-All "static" plans all)
            (record { ids = tt; distinct = refl }))
          (λ out filled.
            >>=-Gives (Ends plans) _ _
              (plan_apps_deploy-Fills _ _ services _ ([], out.1) (plans_of-All "service" plans all)
                filled)
              (λ out' filled'.
                >>=-Gives (Ends plans) _ _
                  (plan_apps_deploy-Fills _ _ functions _ ([], out'.1)
                    (plans_of-All "function" plans all) filled')
                  (λ out'' filled''. pure-Gives (Ends plans) _ (filled'', refl))))

    pub plan_apps-Ends :
        (plans : List (AppPlan lib.Input)) (apply : Bool)
        → All (λ (p : AppPlan lib.Input). P p.app.id) plans
        → Gives (Ends plans) (plan_apps l lib x c settings destroy deps plans apply)
    unfolding plan_apps
    plan_apps-Ends plans apply all =
        >>=-Gives {P = λ _. Unit {0}} (Ends plans) _ _ (λ _ _ _. tt)
          (λ prepared _. plan_prepared-Ends plans apply prepared all)

-- the keys of appIDMap
abbrev pub known_ids : Dict App → Dict (Unit {0})
known_ids m = map (λ e. (e.0, tt)) m

-- the id is known
abbrev pub Knows : Dict App → String → Type 0
Knows m id = lookup id (known_ids m) ≡ some tt

Knows-insert_self : (id : String) (app : App) (m : Dict App) → Knows (insert id app m) id
Knows-insert_self id app [] = ground (arith, eq_iff id id)
Knows-insert_self id app ((j, a) ∷ m) = ground (arith, eq_iff j id, Knows-insert_self id app m)

Knows-insert :
    (j : String) (app : App) (m : Dict App) (id : String) → Knows m id → Knows (insert j app m) id
Knows-insert j app [] id h = absurd (ground arith)
Knows-insert j app ((k, a) ∷ m) id h = elim (Bool-cases (k == id)) [
  | inl e ↦ ground (arith, eq_iff k j)
  | inr e ↦ ground (arith, eq_iff k j, Knows-insert j app m id)
]

module _ {P : Type 0} where
  ids_of_apps-keeps :
      (ps : List (AppPlan P)) (m : Dict App) (id : String)
      → Knows m id
      → Knows (ids_of_apps ps m) id
  ids_of_apps-keeps [] m id h = h
  ids_of_apps-keeps (p ∷ ps) m id h =
      ids_of_apps-keeps ps (insert p.app.id p.app m) id (Knows-insert p.app.id p.app m id h)

  pub ids_of_apps-All :
      (ps : List (AppPlan P)) (m : Dict App)
      → All (λ (p : AppPlan P). Knows (ids_of_apps ps m) p.app.id) ps
  ids_of_apps-All [] m = tt
  ids_of_apps-All (p ∷ ps) m = (
    ids_of_apps-keeps ps (insert p.app.id p.app m) p.app.id (Knows-insert_self p.app.id p.app m),
    ids_of_apps-All ps (insert p.app.id p.app m),
  )
