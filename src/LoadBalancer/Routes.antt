-- ===== src/LoadBalancer/Routes.antt =====
-- Where the plan of deploy/load_balancer.go sends the URL of an app.
use cli_plugin_gcp.Common.{
  [], ◌∷◌, String, Bool, true, false, some, if◌then◌else◌, ◌==◌, string_eq, Dict, insert, lookup,
  All, ◌≡◌, ◌⊎◌, refl, ap, subst, ◌∙◌, arith, Bool-cases, inl, inr, lookup-insert_self,
}
use cli_plugin_gcp.Common.Action.{Action, Result, ok, pure, next, ◌>>=◌}
use cli_plugin_gcp.UrlMap.{Target}
use cli_plugin_gcp.UrlMap.Reading.{insert-keeps}
use cli_plugin_gcp.LoadBalancer.{
  backend_service, serverless_neg, Resource, App, AppDeploy, LoadBalancer, LoadBalancerArgs,
  Planner, global_ref, backend_of, with_route, route_key, is_left_out, ServerlessNeg,
  add_serverless_neg, process_service_apps, process_static_apps, process_function_apps, Resource,
  serverless_neg, backend_service,
}

-- the target of an app: its backend service, and its redirect
abbrev pub target_of : Planner → LoadBalancerArgs → AppDeploy → Target
target_of l c d = record {
  service_id = global_ref "backendServices" c.project_id (l.id_field d.app.id);
  path_redirect = d.app.path_redirect;
}

pub here_or_later :
    (i : String) (d : AppDeploy) (k : String) (a : AppDeploy) (ds : Dict AppDeploy)
    → lookup i ((k, a) ∷ ds) ≡ some d
    → (a ≡ d) ⊎ (lookup i ds ≡ some d)
here_or_later i d k a ds at = elim (Bool-cases (k == i)) [
  | inl same ↦ inl (ground arith)
  | inr other ↦ inr (ground arith)
]

pub next-ok :
    {W A B : Type 0} (k : A → Action W B) (out : Result A × W) (a : A)
    → out.0 ≡ ok a
    → next k out ≡ k a out.1
next-ok k (r, w) a e = rw e refl

-- the registry takes every resource
module _ (l : Planner) (c : LoadBalancerArgs)
    (registers : (id : String) (r : Resource) (w : l.World)
      → (b : Bool) × ((l.register id r w).0 ≡ ok b)) where
  add_serverless_neg-ok :
      (app : App) (neg : ServerlessNeg) (cdn : Bool) (o : LoadBalancer) (w : l.World)
      → (add_serverless_neg l c app neg cdn o w).0
        ≡ ok (with_route l c app neg (backend_of l c app neg cdn) o)
  add_serverless_neg-ok app neg cdn o w =
      let (b, first) = registers app.id (serverless_neg neg) w in
      let (b', second) =
        registers app.id (backend_service (backend_of l c app neg cdn))
          (l.register app.id (serverless_neg neg) w).1 in
      ground (arith, first, second)

  -- An app under its key in a map of apps. It is not left out.
  module _ (i : String) (d : AppDeploy) (served : is_left_out l c d ≡ false) where
    -- no other app that is served has its host and path, but for another target
    abbrev pub IsAlike : String × AppDeploy → Type 0
    IsAlike e =
        is_left_out l c e.1 ≡ false
        → route_key l c e.1.app ≡ route_key l c d.app
        → target_of l c e.1 ≡ target_of l c d

    abbrev pub IsRouted : LoadBalancer → Type 0
    IsRouted o = lookup (route_key l c d.app) o.url_targets ≡ some (target_of l c d)

    -- what a loop over a map of apps does
    abbrev pub Routes : Dict AppDeploy → (LoadBalancer → Action l.World LoadBalancer) → Type 0
    Routes ds f =
        (o : LoadBalancer) (w : l.World)
        → (o' : LoadBalancer) × ((f o w).0 ≡ ok o')
          × (o'.url_maps ≡ o.url_maps)
          × (All IsAlike ds → IsRouted o → IsRouted o')
          × (All IsAlike ds → lookup i ds ≡ some d → IsRouted o')

    Routes-none : Routes [] (λ o. pure o)
    Routes-none o w = (o, refl, refl, (λ _ e. e), λ _ e. absurd (ground (arith, e)))

    with_route-keeps :
        (e : String × AppDeploy) (neg : ServerlessNeg) (o : LoadBalancer)
        → is_left_out l c e.1 ≡ false
        → IsAlike e
        → IsRouted o
        → IsRouted (with_route l c e.1.app neg (backend_of l c e.1.app neg e.1.cdn_enabled) o)
    with_route-keeps e neg o here alike routed =
        insert-keeps (route_key l c d.app) (route_key l c e.1.app) _ (target_of l c d) o.url_targets
          (alike here) routed

    with_route-writes :
        (a : AppDeploy) (neg : ServerlessNeg) (o : LoadBalancer)
        → a ≡ d
        → IsRouted (with_route l c a.app neg (backend_of l c a.app neg a.cdn_enabled) o)
    with_route-writes a neg o same =
        subst
          (λ x.
            lookup (route_key l c x.app)
              (insert (route_key l c a.app) (target_of l c a) o.url_targets)
            ≡ some (target_of l c x))
          same (lookup-insert_self (route_key l c a.app) (target_of l c a) o.url_targets)

    Routes-cons :
        (k : String) (a : AppDeploy) (ds : Dict AppDeploy) (neg : ServerlessNeg)
        (rest : LoadBalancer → Action l.World LoadBalancer)
        → Routes ds rest
        → Routes ((k, a) ∷ ds) (λ o.
          (if is_left_out l c a then pure o else add_serverless_neg l c a.app neg a.cdn_enabled o)
          >>= rest)
    Routes-cons k a ds neg rest ih o w = elim (Bool-cases (is_left_out l c a)) [
      | inl out ↦
          let (o', e, maps, keeps, writes) = ih o w in
          (
            o',
            rw out e,
            maps,
            (λ alike routed. keeps alike.1 routed),
            λ alike at. elim (here_or_later i d k a ds at) [
              | inl same ↦ absurd (ground (arith, subst (λ x. is_left_out l c x ≡ true) same out))
              | inr later ↦ writes alike.1 later
            ],
          )
      | inr here ↦
          let added = add_serverless_neg-ok a.app neg a.cdn_enabled o w in
          let (o', e, maps, keeps, writes) =
            ih (with_route l c a.app neg (backend_of l c a.app neg a.cdn_enabled) o)
              (add_serverless_neg l c a.app neg a.cdn_enabled o w).1 in
          (
            o',
            rw here (ap (λ out. out.0) (next-ok rest _ _ added) ∙ e),
            maps,
            (λ alike routed. keeps alike.1 (with_route-keeps (k, a) neg o here alike.0 routed)),
            λ alike at. elim (here_or_later i d k a ds at) [
              | inl same ↦ keeps alike.1 (with_route-writes a neg o same)
              | inr later ↦ writes alike.1 later
            ],
          )
    ]

    pub process_static_apps-Routes : (ds : Dict AppDeploy) → Routes ds (process_static_apps l c ds)
    unfolding process_static_apps
    process_static_apps-Routes [] = Routes-none
    process_static_apps-Routes ((k, a) ∷ ds) =
        Routes-cons k a ds _ _ (process_static_apps-Routes ds)

    pub process_service_apps-Routes :
        (ds : Dict AppDeploy) → Routes ds (process_service_apps l c ds)
    unfolding process_service_apps
    process_service_apps-Routes [] = Routes-none
    process_service_apps-Routes ((k, a) ∷ ds) =
        Routes-cons k a ds _ _ (process_service_apps-Routes ds)

    pub process_function_apps-Routes :
        (ds : Dict AppDeploy) → Routes ds (process_function_apps l c ds)
    unfolding process_function_apps
    process_function_apps-Routes [] = Routes-none
    process_function_apps-Routes ((k, a) ∷ ds) =
        Routes-cons k a ds _ _ (process_function_apps-Routes ds)
