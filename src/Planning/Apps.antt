-- ===== src/Planning/Apps.antt =====
-- `planApps` of actions/plan.go, and actions/plan_static.go, actions/plan_service.go and
-- actions/plan_function.go: the plans of apps by kind. What a failed plan leaves in its fields is dropped.
-- Where the three kinds do the same, they share a function here.
use Prim.Native.String.{◌++◌}
use cli_plugin_gcp.Common.{
  String, Bool, List, [], ◌∷◌, map, Option, none, some, if◌then◌else◌, ◌==◌, string_eq, Dict,
  lookup, insert,
}
use cli_plugin_gcp.Common.Action.{Action, Result, ok, pure, crash, of_result, ◌>>=◌}
use cli_plugin_gcp.Dependencies.{NeedyApp, AppNeed, DepPlanner}
use cli_plugin_gcp.Dependencies.Database.{DatabaseDep}
use cli_plugin_gcp.Dependencies.Plan.{DepsPlan, DepVars, find_dependencies_env_vars}
use cli_plugin_gcp.Apps.{App, AppBuild, AppPlanner, AppArgs}
use cli_plugin_gcp.Apps.Options.{
  Library, then_result, new_static_app_deploy_options, new_function_app_deploy_options,
}
use cli_plugin_gcp.Apps.Service.{
  CloudRunSettings, ServiceProps, ServiceApp, ServiceResources, Service, build_of, url_suffix,
  new_service_app, service_app_plan,
}
use cli_plugin_gcp.Apps.Static.{StaticProps, StaticApp, StaticResources, static_app_plan}
use cli_plugin_gcp.Apps.Function.{FunctionProps, FunctionApp, FunctionResources, function_app_plan}
use cli_plugin_gcp.AppStates.Deployments.{DeployedApp, static_app, service_app, function_app}

-- apiv1.AppPlan with the app of its state, which also is the app of the needs; `properties` are those of
-- the app, for any decoder.
pub record AppPlan (Properties : Type 0) : Type 0 where
  pub app : App
  pub needy : NeedyApp
  pub skip : Bool
  pub build : Option AppBuild
  pub properties : Properties

-- `set_var` writes to the map that ForApp of an app gives, which the variables hold. The three decoders are
-- those of the properties of outblocks-plugin-go.
pub record AppContext (l : AppPlanner) (lib : Library) : Type 1 where
  pub AppVars : Type 0
  pub app_vars_from : List App → AppVars
  pub set_var : App → String → String → AppVars → AppVars
  pub vars_for_app : AppVars → App → Dict DepVars → l.Vars
  pub static_props : lib.Input → Result StaticProps
  pub service_props : lib.Input → Result ServiceProps
  pub function_props : lib.Input → Result FunctionProps
  pub connection_name : DatabaseDep → String
  pub deps : DepPlanner

-- what planApps sets of PlanAction; an app with its resources, and appDeployIDMap by the kind of the app
pub record AppsPlan (Float : Type 0) : Type 0 where
  pub app_id_map : Dict App
  pub static_apps : Dict (StaticApp × StaticResources)
  pub service_apps : Dict (ServiceApp Float × ServiceResources)
  pub function_apps : Dict (FunctionApp × FunctionResources)
  pub app_deploy_id_map : Dict DeployedApp

module _ {P : Type 0} where
  -- AppTypeStatic, AppTypeService and AppTypeFunction of deploy/consts.go
  abbrev pub is_kind : String → AppPlan P → Bool
  is_kind kind p = p.app.kind == kind

  abbrev pub plans_of : String → List (AppPlan P) → List (AppPlan P)
  plans_of kind [] = []
  plans_of kind (p ∷ ps) = if is_kind kind p then p ∷ plans_of kind ps else plans_of kind ps

  abbrev pub ids_of_apps : List (AppPlan P) → Dict App → Dict App
  ids_of_apps [] ids = ids
  ids_of_apps (p ∷ ps) ids = ids_of_apps ps (insert p.app.id p.app ids)

-- the databases of an app's needs
abbrev pub databases_of : Dict DatabaseDep → List AppNeed → List DatabaseDep
databases_of deps [] = []
databases_of deps (n ∷ ns) =
    let rest = databases_of deps ns in
    elim (lookup n.dependency deps) [ none ↦ rest | some d ↦ d ∷ rest ]

module _ (l : AppPlanner) (lib : Library) (x : AppContext l lib) (c : AppArgs)
    (settings : Option CloudRunSettings) (destroy : Bool) (deps : DepsPlan) where
  open l use {World}
  open x use {AppVars}

  abbrev pub Plan : Type 0
  Plan = AppPlan lib.Input

  -- `NewStaticApp` and `NewFunctionApp`
  unfoldable pub new_static_app : Plan → Result StaticApp
  new_static_app p =
      then_result
        (λ props.
          then_result
            (λ opts. ok (record { app = p.app; skip = p.skip; props = props; deploy_opts = opts }))
            (new_static_app_deploy_options lib p.properties))
        (x.static_props p.properties)

  unfoldable pub new_function_app : Plan → Result FunctionApp
  new_function_app p =
      then_result
        (λ props.
          then_result
            (λ opts. ok (record {
              app = p.app;
              skip = p.skip;
              build = build_of p.build;
              props = props;
              deploy_opts = opts;
            }))
            (new_function_app_deploy_options lib p.properties))
        (x.function_props p.properties)

  -- vars["url"] = vars["cloud_url"] where the app has no URL
  abbrev with_url : App → String → AppVars → AppVars
  with_url app cloud_url vars = if app.url == "" then x.set_var app "url" cloud_url vars else vars

  abbrev run_url : App → String
  run_url app = "https://" ++ l.id app.id ++ "-" ++ url_suffix settings ++ ".a.run.app"

  abbrev pub run_vars : App → AppVars → AppVars
  run_vars app vars = with_url app (run_url app) (
      x.set_var app "private_url" ("http://" ++ l.id app.id)
        (x.set_var app "cloud_url" (run_url app) vars))

  abbrev function_url : App → String
  function_url app =
      "https://" ++ c.region ++ "-" ++ c.project_id ++ ".cloudfunctions.net/" ++ l.id app.id ++ " "

  abbrev pub function_vars : App → AppVars → AppVars
  function_vars app vars =
      with_url app (function_url app) (x.set_var app "cloud_url" (function_url app) vars)

  -- the loop of prepareStaticAppsDeploy and of the two like it
  unfoldable pub prepare_apps_deploy :
      {A : Type 0}
      → (Plan → Result A)
      → (App → AppVars → AppVars)
      → List Plan
      → AppVars
      → Result (List A × AppVars)
  prepare_apps_deploy new with_vars [] vars = ok ([], vars)
  prepare_apps_deploy new with_vars (p ∷ ps) vars =
      then_result
        (λ a.
          then_result (λ out. ok (a ∷ out.0, out.1))
            (prepare_apps_deploy new with_vars ps (with_vars p.app vars)))
        (new p)

  unfoldable pub prepare_static_apps_deploy :
      List Plan → AppVars → Result (List StaticApp × AppVars)
  prepare_static_apps_deploy = prepare_apps_deploy new_static_app run_vars

  unfoldable pub prepare_service_apps_deploy :
      List Plan → AppVars → Result (List (Service l lib) × AppVars)
  prepare_service_apps_deploy =
      prepare_apps_deploy
        (λ p.
          new_service_app l lib p.app p.skip destroy p.build (x.service_props p.properties)
            p.properties)
        run_vars

  unfoldable pub prepare_function_apps_deploy :
      List Plan → AppVars → Result (List FunctionApp × AppVars)
  prepare_function_apps_deploy = prepare_apps_deploy new_function_app function_vars

  unfoldable pub plan_static_app_deploy :
      StaticApp → Plan → Action World (StaticApp × StaticResources)
  plan_static_app_deploy a p = static_app_plan l c a >>= λ r. pure (a, r)

  abbrev names_of_databases : Plan → List String
  names_of_databases p = map x.connection_name (databases_of deps.database_deps p.needy.needs)

  unfoldable pub plan_service_app_deploy :
      AppVars → Bool → Service l lib → Plan → Action World (Service l lib × ServiceResources)
  plan_service_app_deploy vars apply a p =
      of_result (find_dependencies_env_vars x.deps deps p.needy) >>= λ dep_vars.
      service_app_plan l lib c (x.vars_for_app vars p.app dep_vars) (names_of_databases p) settings
        a apply
      >>= λ r. pure (a, r)

  unfoldable pub plan_function_app_deploy :
      AppVars → FunctionApp → Plan → Action World (FunctionApp × FunctionResources)
  plan_function_app_deploy vars a p =
      of_result (find_dependencies_env_vars x.deps deps p.needy) >>= λ dep_vars.
      function_app_plan l c (x.vars_for_app vars p.app dep_vars) a >>= λ r. pure (a, r)

  -- the loop of planStaticAppsDeploy and of the two like it, on the map that it returns and on
  -- appDeployIDMap; apps[i] is out of range where there are more plans than apps
  unfoldable pub plan_apps_deploy :
      {A R : Type 0}
      → (A → Plan → Action World R)
      → (R → DeployedApp)
      → List A
      → List Plan
      → Dict R × Dict DeployedApp
      → Action World (Dict R × Dict DeployedApp)
  plan_apps_deploy plan deployed apps [] out = pure out
  plan_apps_deploy plan deployed [] (p ∷ ps) out = crash
  plan_apps_deploy plan deployed (a ∷ apps) (p ∷ ps) out = plan a p >>= λ r.
      plan_apps_deploy plan deployed apps ps
        (insert p.app.id r out.0, insert p.app.id (deployed r) out.1)

  abbrev static_deploy : StaticApp × StaticResources → DeployedApp
  static_deploy r = static_app r.1.cloud_run

  abbrev service_deploy : Service l lib × ServiceResources → DeployedApp
  service_deploy r = service_app r.1.cloud_run

  abbrev function_deploy : FunctionApp × FunctionResources → DeployedApp
  function_deploy r = function_app r.1.cloud_function

  -- the three preparations: the service apps, the static apps, the function apps, and the variables
  abbrev pub Prepared : Type 0
  Prepared = List (Service l lib) × List StaticApp × List FunctionApp × AppVars

  unfoldable pub prepare_all : List Plan → AppVars → Result Prepared
  prepare_all plans vars =
      then_result
        (λ services.
          then_result
            (λ statics.
              then_result (λ functions. ok (services.0, statics.0, functions.0, functions.1))
                (prepare_function_apps_deploy (plans_of "function" plans) statics.1))
            (prepare_static_apps_deploy (plans_of "static" plans) services.1))
        (prepare_service_apps_deploy (plans_of "service" plans) vars)

  -- the three plans, after the preparations
  unfoldable pub plan_prepared :
      List Plan → Bool → Prepared → Dict DeployedApp → Action World (AppsPlan lib.Float)
  plan_prepared plans apply (services, statics, functions, vars) deployed =
      plan_apps_deploy plan_static_app_deploy static_deploy statics (plans_of "static" plans)
        ([], deployed)
      >>= λ static_out.
          plan_apps_deploy (plan_service_app_deploy vars apply) service_deploy services
            (plans_of "service" plans) ([], static_out.1)
          >>= λ service_out.
              plan_apps_deploy (plan_function_app_deploy vars) function_deploy functions
                (plans_of "function" plans) ([], service_out.1)
              >>= λ function_out. pure (record {
                app_id_map = ids_of_apps plans [];
                static_apps = static_out.0;
                service_apps = service_out.0;
                function_apps = function_out.0;
                app_deploy_id_map = function_out.1;
              })

  unfoldable pub plan_apps : List Plan → Bool → Action World (AppsPlan lib.Float)
  plan_apps plans apply =
      of_result (prepare_all plans (x.app_vars_from (map (λ p. p.app) plans))) >>= λ prepared.
      plan_prepared plans apply prepared []
