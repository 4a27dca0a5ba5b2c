-- ===== src/Apps/Injected.antt =====
-- What becomes of runsd in deploy/app_service.go.
use Prim.Native.String.{◌++◌}
use cli_plugin_gcp.Common.{
  refl, ◌≡◌, refl, ap, String, Bool, true, List, Option, if◌then◌else◌, string_eq, arith,
}
use cli_plugin_gcp.Common.Action.{next, Action, Result, ok, ◌>>=◌, ◌>>◌, fail, text}
use cli_plugin_gcp.Image.{Image}
use cli_plugin_gcp.Apps.{App, AppBuild, AppPlanner, AppArgs, image}
use cli_plugin_gcp.Apps.Options.{Library, then_result, new_service_app_deploy_options}
use cli_plugin_gcp.Apps.Bounds.{
  IsLibrary, then_result-eq-ok, new_service_app_deploy_options-skip_runsd,
}
use cli_plugin_gcp.Apps.Service.{
  CloudRunSettings, Service, ServiceProps, made, new_service_app, with_source, missing_image,
  plan_cloud_run, service_app_plan_with,
}

module _ (l : AppPlanner) (lib : Library) (c : AppArgs) (vars : l.Vars) (sql_names : List String)
    (settings : Option CloudRunSettings) where
  with_source-skips :
      (add add' : AppBuild → Image → Bool → Action l.World Image) (o : Service l lib) (apply : Bool)
      (w : l.World)
      → o.deploy_opts.skip_runsd ≡ true
      → with_source l lib c vars sql_names settings add o apply w
        ≡ with_source l lib c vars sql_names settings add' o apply w
  with_source-skips add add' o apply w skip = rw (skip, with_source) refl

  new_service_app-skip_runsd :
      IsLibrary lib
      → (app : App) (skip destroy : Bool) (build : Option AppBuild) (props : Result ServiceProps)
        (input : lib.Input) (o : Service l lib)
      → new_service_app l lib app skip destroy build props input ≡ ok o
      → o.deploy_opts.skip_runsd ≡ true
  unfolding new_service_app
  new_service_app-skip_runsd law app skip destroy build props input o e =
      let (p, decoded, rest) =
        then_result-eq-ok
          (λ p.
            then_result (λ opts. ok (made l lib app skip destroy build p opts))
              (new_service_app_deploy_options lib input))
          props o e in
      let (opts, accepted, same) =
        then_result-eq-ok (λ opts. ok (made l lib app skip destroy build p opts))
          (new_service_app_deploy_options lib input) o rest in
      let skips = new_service_app_deploy_options-skip_runsd lib law input opts accepted in
      ground arith

  -- runsd is never added: the plan of a service app that `NewServiceApp` accepts is the same whatever
  -- `addRunsd` does, also where the configuration says "skip_runsd: false".
  pub service_app_plan-skips_runsd :
      IsLibrary lib
      → (app : App) (skip destroy : Bool) (build : Option AppBuild) (props : Result ServiceProps)
        (input : lib.Input) (o : Service l lib)
        (add add' : AppBuild → Image → Bool → Action l.World Image) (apply : Bool) (w : l.World)
      → new_service_app l lib app skip destroy build props input ≡ ok o
      → service_app_plan_with l lib c vars sql_names settings add o apply w
        ≡ service_app_plan_with l lib c vars sql_names settings add' o apply w
  unfolding service_app_plan_with
  service_app_plan-skips_runsd law app skip destroy build props input o add add' apply w e =
      ap
        (λ out.
          next
            (λ i.
              l.register o.app.id "image" (image i)
              >> l.is_existing o.app.id "image"
              >>= λ existing.
                  if missing_image l lib c vars sql_names settings o existing
                  then fail (text ("image for app '" ++ o.app.name ++ "' is missing"))
                  else plan_cloud_run l lib c vars sql_names settings o i)
            out)
        (with_source-skips add add' o apply w
          (new_service_app-skip_runsd law app skip destroy build props input o e))
