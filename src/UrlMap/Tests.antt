-- ===== src/UrlMap/Tests.antt =====
-- Runs of the modules on URL maps on concrete inputs.
use Prim.Native.String.{◌++◌}
use cli_plugin_gcp.Common.{◌≡◌, refl, String, false, [], ◌∷◌, none, some, Dict, lookup, arith}
use text.Mathlib.TextEquality.{eq_iff}
use cli_plugin_gcp.Common.Action.{Result, ok, err, panic}
use cli_plugin_gcp.Fields.{Input}
use cli_plugin_gcp.Url.{split_url, host_of, after_scheme, mapped, path_of, ends_in_slash}
use cli_plugin_gcp.Common.Texts.{has_prefix}
use cli_plugin_gcp.UrlMap.{cleanup_url_mapping, sort, place, by_host, UrlMap, Target}
use cli_plugin_gcp.UrlMap.Made.{
  make_url_map, add_matchers, by_name, read_paths, read_rules, read_hosts, read_host_rules,
  ApiUrlMap, read_url_mapping,
}
use cli_plugin_gcp.UrlMap.Roundtrip.{read_url_mapping-make_url_map}

asked : {A : Type 0} → A → Input A
asked a = record { current = none; wanted = a }

abbrev api : Target
api = record { service_id = "svc-api"; path_redirect = "/" }

abbrev web : Target
web = record { service_id = "svc-web"; path_redirect = "" }

abbrev shop : UrlMap
shop = record {
  name = asked "shop";
  project_id = asked "p";
  url_mapping = asked (("shop.example/api/*", api) ∷ ("shop.example/*", web) ∷ []);
  app_mapping = asked [];
  https_redirect = asked false;
  fingerprint = "";
}

plain_id : String → String → String
plain_id name host = name ++ host

read_url_mapping-make_url_map_example :
    (u : ApiUrlMap) × (d : Dict Target) × (make_url_map plain_id shop ≡ ok u)
    × (read_url_mapping u ≡ ok d)
    × (lookup "shop.example/api/*" d ≡ some api)
unfolding asked plain_id split_url host_of after_scheme has_prefix mapped path_of ends_in_slash
read_url_mapping-make_url_map_example =
    read_url_mapping-make_url_map plain_id shop "shop.example/api/*" api refl refl (
      (λ _ _. refl, ground (arith, eq_iff "svc-api" ""), λ _. refl),
      (
        (
          λ _ at. absurd (ground (arith, eq_iff "/*" "/api/*")),
          ground (arith, eq_iff "svc-web" ""),
          λ _. refl,
        ),
        tt,
      ),
    )

abbrev read_back : UrlMap → Result (Dict Target)
read_back o = elim (make_url_map plain_id o) [
  | ok u ↦ read_url_mapping u
  | err e ↦ err e
  | panic ↦ panic
]

-- a host without an entry for its root is read back with one
rootless :
    read_back (record shop { url_mapping = asked (("shop.example/api/*", api) ∷ []) })
    ≡ ok (("shop.example/*", api) ∷ ("shop.example/api/*", api) ∷ [])
unfolding asked plain_id split_url host_of after_scheme has_prefix mapped path_of ends_in_slash
    make_url_map read_url_mapping cleanup_url_mapping sort place by_host add_matchers by_name
    read_paths read_rules read_hosts read_host_rules
rootless = refl
