-- ===== src/LoadBalancer/Tests.antt =====
-- Runs of the modules on load balancers on concrete inputs.
use cli_plugin_gcp.Common.{
  ◌≡◌, ◌≢◌, ◌⊎◌, refl, String, Bool, true, false, List, [], ◌∷◌, none, some, lookup, arith, inl,
  inr,
}
use text.Mathlib.TextEquality.{eq_iff}
use cli_plugin_gcp.Common.Action.{ok, pure}
use cli_plugin_gcp.Url.{split_url, host_of, after_scheme, mapped, path_of, ends_in_slash}
use cli_plugin_gcp.Common.Texts.{has_prefix, strip}
use cli_plugin_gcp.UrlMap.{UrlMap}
use cli_plugin_gcp.LoadBalancer.{
  AppDeploy, LoadBalancer, LoadBalancerArgs, Planner, Resource, new_load_balancer,
}
use cli_plugin_gcp.LoadBalancer.Plan.{plan, is_managed}
use cli_plugin_gcp.LoadBalancer.Served.{plan-serves}

-- the world is the list of what is registered
abbrev planner : Planner
planner = record {
  World = List (String × Resource);
  register = λ id r w. (ok true, (id, r) ∷ w);
  disable_proxy = λ domain. pure tt;
  id_field = λ s. s;
  hostname = λ url. ok (host_of (strip url "https://"));
  ip = λ a. "203.0.113.1";
  limit_string = λ s n. s;
  sha_string = λ s. "0a1b2c3d";
}

abbrev balancer : LoadBalancerArgs
balancer = record { name = "load_balancer"; project_id = "shop"; region = "europe-west1" }

abbrev site : AppDeploy
site = record {
  app = record { id = "site"; url = "https://shop.example/"; path_redirect = "" };
  skip = false;
  target_name = "site-run";
  is_existing = false;
  cdn_enabled = true;
}

abbrev backend : AppDeploy
backend = record site {
  app = record { id = "backend"; url = "https://shop.example/api/"; path_redirect = "/" };
  target_name = "backend-run";
}

registers :
    (id : String) (r : Resource) (w : List (String × Resource))
    → (b : Bool) × ((planner.register id r w).0 ≡ ok b)
registers id r w = (true, refl)

other_path : ◌≢◌ {A = String} "shop.example/*" "shop.example/api/*"
other_path = ground (arith, eq_iff "shop.example/*" "shop.example/api/*")

plan-serves_example :
    (o' : LoadBalancer) × (u : UrlMap) × ((plan planner balancer
        (("site", site) ∷ [])
        (("backend", backend) ∷ [])
        []
        (λ domain. none)
        new_load_balancer
        []).0
      ≡ ok o')
    × (o'.url_maps ≡ u ∷ [])
    × (lookup "shop.example/api/*" u.url_mapping.wanted
        ≡ some (record {
          service_id =
              "https://www.googleapis.com/compute/v1/projects/shop/global/backendServices/backend";
          path_redirect = "/";
        }))
    × (u.https_redirect.wanted ≡ false)
    × ((is_managed none ≡ false)
        ⊎ (lookup "shop.example" o'.managed_ssl_domain_map
            ≡ some (record {
              name = "shop.example";
              project_id = "shop";
              domains = "shop.example" ∷ [];
            })))
unfolding split_url host_of after_scheme has_prefix strip mapped path_of ends_in_slash
plan-serves_example =
    plan-serves planner balancer "shop.example" registers (λ domain w. (tt, refl))
      (("site", site) ∷ []) (("backend", backend) ∷ []) [] (λ domain. none)
      (("shop.example", refl), tt) (("shop.example", refl), tt) tt "backend" backend refl
      ((λ _ same. absurd (other_path same)), tt) ((λ _ _. refl), tt) tt (inr (inl refl)) refl []
