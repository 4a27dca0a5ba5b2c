-- ===== src/UrlMap/Roundtrip.antt =====
-- `Read` of gcp/url_map.go finds in a URL map what `MakeURLMap` was asked for.
use Prim.Native.String.{◌++◌}
use cli_plugin_gcp.Common.{
  List, [], ◌∷◌, map, String, true, false, some, ◌==◌, string_eq, Dict, lookup, ◌≡◌, refl, sym,
  subst, arith, Bool-cases, Option-cases, inl, inr, All, All-weaken, All-both, any, All-lookup,
}
use text.Mathlib.TextEquality.{eq_iff}
use cli_plugin_gcp.Common.Action.{Result, ok}
use cli_plugin_gcp.Url.{split_url}
use cli_plugin_gcp.Url.Laws.{has_slash, split_url-slash}
use cli_plugin_gcp.UrlMap.{Target, UrlMap, UrlMapping, cleanup_url_mapping}
use cli_plugin_gcp.UrlMap.Made.{
  with_rules, ApiUrlMap, PathMatcher, path_matcher_of, host_rule_of, make_url_map, by_name,
  read_matcher, read_hosts, read_host_rules, read_url_mapping,
}
use cli_plugin_gcp.UrlMap.Groups.{IsEntry, cleanup-IsMapping}
use cli_plugin_gcp.UrlMap.Reading.{IsHostMatcher, read_matcher-keeps, read_matcher-writes}
use cli_plugin_gcp.UrlMap.Names.{
  has_name, default_of-ok, by_name-All, by_name-has, IsNamed, path_matchers-IsNamed,
}

module _ (generic_id : String → String → String) (name k : String) (t : Target) where
  abbrev h : String
  h = (split_url k).0

  abbrev p : String
  p = (split_url k).1

  module _ (pms : Dict PathMatcher) (good : All (IsNamed generic_id name k t) pms) where
    -- a host rule whose path matcher is there
    IsFound : UrlMapping → Type 0
    IsFound g = (has_slash g.host ≡ false) × (has_name (generic_id name g.host) pms ≡ true)

    abbrev read_all : List UrlMapping → Dict Target → Result (Dict Target)
    read_all gs m = read_host_rules pms (map (host_rule_of generic_id name) gs) m

    found-matcher :
        (g : UrlMapping)
        → IsFound g
        → (pm : PathMatcher) × (lookup (generic_id name g.host) pms ≡ some pm)
          × IsHostMatcher (generic_id name) h p t g.host pm
    unfolding IsFound has_name
    found-matcher g (slash, has) = elim (Option-cases (lookup (generic_id name g.host) pms)) [
      | inl missing ↦ absurd (ground arith)
      | inr (pm, e) ↦ (
        pm,
        e,
        All-lookup (IsNamed generic_id name k t) pms (generic_id name g.host) pm good e g.host refl,
      )
    ]

    read_all-keeps :
        (gs : List UrlMapping) (m : Dict Target)
        → All IsFound gs
        → lookup (h ++ p) m ≡ some t
        → (d : Dict Target) × (read_all gs m ≡ ok d) × (lookup (h ++ p) d ≡ some t)
    unfolding read_host_rules read_hosts IsFound
    read_all-keeps [] m all e = (m, refl, e)
    read_all-keeps (g ∷ gs) m (one, all) e =
        let (pm, found, host) = found-matcher g one in
        let (h_slash, p_slash, _) = split_url-slash k in
        let (d, read, at) =
          read_all-keeps gs (read_matcher g.host pm m) all
            (read_matcher-keeps (generic_id name) h p t h_slash p_slash g.host one.0 pm m host e) in
        (d, rw found read, at)

    read_all-writes :
        (gs : List UrlMapping) (m : Dict Target)
        → All IsFound gs
        → any (λ g. g.host == h) gs ≡ true
        → (d : Dict Target) × (read_all gs m ≡ ok d) × (lookup (h ++ p) d ≡ some t)
    unfolding read_host_rules read_hosts
    read_all-writes [] m all e = absurd (ground arith)
    read_all-writes (g ∷ gs) m (one, all) e =
        let (pm, found, host) = found-matcher g one in
        let (h_slash, p_slash, _) = split_url-slash k in
        elim (Bool-cases (g.host == h)) [
          | inl here ↦
              let g_h = (eq_iff g.host h).0 here in
              let (d, read, at) = read_all-keeps gs (read_matcher g.host pm m) all (
                subst (λ x. lookup (h ++ p) (read_matcher x pm m) ≡ some t) (sym g_h)
                  (read_matcher-writes (generic_id name) h p t h_slash p_slash pm m
                    (subst (λ x. IsHostMatcher (generic_id name) h p t x pm) g_h host))) in
              (d, rw found read, at)
          | inr later ↦
              let (d, read, at) =
                read_all-writes gs (read_matcher g.host pm m) all (ground arith) in
              (d, rw found read, at)
        ]

-- What `MakeURLMap` makes of a mapping, `Read` reads back: under the host and the path of a key that
-- the mapping has stands the key's service with its redirect, if every key with that host and path has
-- them, every entry names a service and no other host of the mapping has the same id. Neither of the
-- two panics.
pub read_url_mapping-make_url_map :
    (generic_id : String → String → String) (o : UrlMap) (k : String) (t : Target)
    → o.https_redirect.wanted ≡ false
    → lookup k o.url_mapping.wanted ≡ some t
    → All
        (IsEntry (generic_id o.name.wanted) (split_url k).0 (split_url k).1 t)
        o.url_mapping.wanted
    → (u : ApiUrlMap) × (d : Dict Target) × (make_url_map generic_id o ≡ ok u)
      × (read_url_mapping u ≡ ok d)
      × (lookup ((split_url k).0 ++ (split_url k).1) d ≡ some t)
unfolding make_url_map read_url_mapping IsFound
read_url_mapping-make_url_map generic_id o k t plain e es =
    let id = generic_id o.name.wanted in
    let gs = cleanup_url_mapping o.url_mapping.wanted in
    let (good, has) = cleanup-IsMapping id k t o.url_mapping.wanted e es in
    let (service, first) = default_of-ok id k t gs good in
    let named = (All-lookup _ o.url_mapping.wanted k t es e).1 in
    let pms = by_name (map (path_matcher_of generic_id o.name.wanted) gs) [] in
    let all =
      by_name-All (IsNamed generic_id o.name.wanted k t) _ [] tt
        (path_matchers-IsNamed generic_id o.name.wanted k t named gs good) in
    let found =
      All-weaken _ (IsFound generic_id o.name.wanted k t pms all) gs (λ g (x, y). (x.0.0, y))
        (All-both _ _ gs good (by_name-has generic_id o.name.wanted k t gs [])) in
    let (d, read, at) = read_all-writes generic_id o.name.wanted k t pms all gs [] found has in
    (with_rules generic_id o gs service, d, rw plain (rw first refl), read, at)
