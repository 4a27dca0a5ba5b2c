-- ===== src/LoadBalancer/Served.antt =====
-- The plan of deploy/load_balancer.go as a whole: every app that is served has its route in the URL map.
use Prim.Native.String.{◌++◌ as text_append}
use cli_plugin_gcp.Common.{
  Bool-cases, arith, ◌==◌, true, any, any-map, any-lookup, [], ◌∷◌, ◌++◌, String, Bool, false,
  Option, some, if◌then◌else◌, string_eq, Dict, lookup, All, keys, ◌≡◌, ◌⊎◌, refl, ap, ◌∙◌, inl,
  inr,
}
use cli_plugin_gcp.Common.Action.{ok, pure, ◌>>=◌, ◌>>◌}
use cli_plugin_gcp.UrlMap.{UrlMap, sort, text_ltb}
use cli_plugin_gcp.LoadBalancer.{
  AppDeploy, LoadBalancer, LoadBalancerArgs, Planner, Resource, address, new_load_balancer,
  route_key, is_left_out, process_service_apps, process_static_apps, process_function_apps,
}
use cli_plugin_gcp.LoadBalancer.Plan.{
  is_managed, managed_of, none_in, collect_domains, with_address, invalidation, with_https,
  DomainInfo, process_domains, plan_http, plan_https, https_map, add_urls, plan_rest, plan,
  the_address,
}
use cli_plugin_gcp.LoadBalancer.Routes.{
  target_of, IsAlike, process_service_apps-Routes, process_static_apps-Routes,
  process_function_apps-Routes,
}
use cli_plugin_gcp.UrlMap.Groups.{any-sort}
use cli_plugin_gcp.LoadBalancer.Steps.{
  none_in-routed, bind-ok, process_domains-certifies, plan_http-Stays, IsCovered, plan_https-adds,
  IsParsed, add_urls-adds,
}

module _ (l : Planner) (c : LoadBalancerArgs) (host : String)
    (registers : (id : String) (r : Resource) (w : l.World)
      → (b : Bool) × ((l.register id r w).0 ≡ ok b))
    (proxies : (domain : String) (w : l.World)
      → (u : Unit {0}) × ((l.disable_proxy domain w).0 ≡ ok u)) where
  module _ (static service function : Dict AppDeploy) (find : String → Option DomainInfo)
      (static_parsed : All (IsParsed l) static) (service_parsed : All (IsParsed l) service)
      (function_parsed : All (IsParsed l) function) where
    -- the app whose URL has the host
    module _ (i : String) (d : AppDeploy) (named : (d.app.url == "") ≡ false)
        (hosted : l.hostname d.app.url ≡ ok host)
        (member : (lookup i static ≡ some d)
          ⊎ (lookup i service ≡ some d)
          ⊎ (lookup i function ≡ some d)) where
      collect_domains-adds :
          (w : l.World)
          → (m : Dict (Unit {0})) × ((collect_domains l c static service function w).0 ≡ ok m)
            × (any (λ x. x == host) (sort text_ltb (keys m)) ≡ true)
      collect_domains-adds w =
          let first = add_urls l c static [] in
          let second = add_urls l c service in
          let adds = add_urls-adds l c host registers proxies i d named hosted in
          let (m1, e1, k1, n1) = adds static [] w static_parsed in
          let (m2, e2, k2, n2) = adds service m1 (first w).1 service_parsed in
          let g2 = bind-ok first second w m1 (ok m2) e1 e2 in
          let (m3, e3, k3, n3) = adds function m2 ((first >>= second) w).1 function_parsed in
          let at : lookup host m3 ≡ some tt = elim member [
            | inl at ↦ k3 (k2 (n1 at))
            | inr (inl at) ↦ k3 (n2 at)
            | inr (inr at) ↦ n3 at
          ] in
          (
            m3,
            bind-ok (first >>= second) (add_urls l c function) w m2 (ok m3) g2 e3,
            any-sort text_ltb (λ x. x == host) (keys m3)
                ∙ any-map (λ x. x == host) (λ e. e.0) m3
                ∙ any-lookup host tt m3 at,
          )

      plan_rest-adds :
          (o : LoadBalancer) (w : l.World)
          → (o' : LoadBalancer) × (u : UrlMap) × ((plan_rest l c static service function find o w).0
              ≡ ok o')
            × (o'.url_maps ≡ o.url_maps ++ (u ∷ []))
            × (u.url_mapping.wanted ≡ o.url_targets)
            × (u.https_redirect.wanted ≡ false)
            × (is_managed (find host) ≡ true → IsCovered l c host registers proxies o')
      unfolding plan_rest
      plan_rest-adds o w =
          let reg = l.register (text_append c.name "-0") (address (the_address l c)) in
          let prep = reg >> collect_domains l c static service function in
          let certify = λ (domains : Dict (Unit {0})).
            process_domains l c find (sort text_ltb (keys domains)) (with_address l c o) in
          let (b, registered) = registers (text_append c.name "-0") (address (the_address l c)) w in
          let (domains, collected, listed) = collect_domains-adds (reg w).1 in
          let e1 =
            bind-ok reg (λ _. collect_domains l c static service function) w b (ok domains)
              registered collected in
          let (o2, e2, t2, m2, k2, certified) =
            process_domains-certifies l c host registers proxies find (sort text_ltb (keys domains))
              (with_address l c o) (prep w).1 in
          let g2 = bind-ok prep certify w domains (ok o2) e1 e2 in
          let (o3, e3, t3, m3, k3) =
            plan_http-Stays l c host registers proxies (the_address l c) o2
              ((prep >>= certify) w).1 in
          let g3 =
            bind-ok (prep >>= certify) (plan_http l c (the_address l c)) w o2 (ok o3) g2 e3 in
          let cache = invalidation l c static service function in
          let e4 =
            plan_https-adds l c host registers proxies cache (the_address l c) o3
              ((prep >>= certify >>= plan_http l c (the_address l c)) w).1 in
          (
            with_https l c (the_address l c) o3,
            https_map l c o3,
            bind-ok (prep >>= certify >>= plan_http l c (the_address l c))
                (plan_https l c cache (the_address l c)) w o3 _ g3 e4,
            ap (λ ms. ms ++ (https_map l c o3 ∷ [])) (m3 ∙ m2),
            t3 ∙ t2,
            refl,
            λ managed. k3 (certified listed managed),
          )

    -- If the registry takes every resource, the properties of a domain can be set and the URLs of the apps
    -- are parsed, then `Plan` of a new load balancer succeeds, and the one URL map that it makes sends the host
    -- and the path of an app that is not left out to the app's backend service, with its redirect:
    -- for an app of any of the three kinds, if no other app with that host and path is to go elsewhere.
    -- The host of the app's URL has its managed certificate, unless its domain brings one with its key.
    pub plan-serves :
        (i : String) (d : AppDeploy) (served : is_left_out l c d ≡ false)
        → All (IsAlike l c registers i d served) static
        → All (IsAlike l c registers i d served) service
        → All (IsAlike l c registers i d served) function
        → (lookup i static ≡ some d) ⊎ (lookup i service ≡ some d) ⊎ (lookup i function ≡ some d)
        → l.hostname d.app.url ≡ ok host
        → (w : l.World)
        → (o' : LoadBalancer) × (u : UrlMap) × ((plan l c static service function find
              new_load_balancer w).0
            ≡ ok o')
          × (o'.url_maps ≡ u ∷ [])
          × (lookup (route_key l c d.app) u.url_mapping.wanted ≡ some (target_of l c d))
          × (u.https_redirect.wanted ≡ false)
          × ((is_managed (find host) ≡ false)
              ⊎ (lookup host o'.managed_ssl_domain_map ≡ some (managed_of l c host)))
    unfolding plan
    plan-serves i d served as_ bs cs member hosted w =
        let first = process_static_apps l c static new_load_balancer in
        let second = process_service_apps l c service in
        let third = process_function_apps l c function in
        let (o1, e1, m1, k1, w1) =
          process_static_apps-Routes l c registers i d served static new_load_balancer w in
        let (o2, e2, m2, k2, w2) =
          process_service_apps-Routes l c registers i d served service o1 (first w).1 in
        let g2 = bind-ok first second w o1 (ok o2) e1 e2 in
        let (o3, e3, m3, k3, w3) =
          process_function_apps-Routes l c registers i d served function o2
            ((first >>= second) w).1 in
        let g3 = bind-ok (first >>= second) third w o2 (ok o3) g2 e3 in
        let routed : lookup (route_key l c d.app) o3.url_targets ≡ some (target_of l c d) =
          elim member [
            | inl at ↦ k3 cs (k2 bs (w1 as_ at))
            | inr (inl at) ↦ k3 cs (w2 bs at)
            | inr (inr at) ↦ w3 cs at
          ] in
        let (o', u, e4, maps, targets, plain, certified) =
          plan_rest-adds i d (ground arith) hosted member o3 ((first >>= second >>= third) w).1 in
        (
          o',
          u,
          bind-ok (first >>= second >>= third)
              (λ o.
                if none_in o.url_targets o.app_map
                then pure o
                else plan_rest l c static service function find o)
              w o3 (ok o') g3
              (rw
                (none_in-routed (route_key l c d.app) (target_of l c d) o3.url_targets o3.app_map
                  routed)
                e4),
          maps ∙ ap (λ ms. ms ++ (u ∷ [])) (m3 ∙ m2 ∙ m1),
          ap (lookup (route_key l c d.app)) targets ∙ routed,
          plain,
          elim (Bool-cases (is_managed (find host))) [
            | inl managed ↦ inr (certified managed)
            | inr own ↦ inl own
          ],
        )
