-- ===== src/UrlMap/Made.antt =====
-- gcp/url_map.go: `MakeURLMap`, and the loops of `Read` over what it made.
use Prim.Native.String.{◌++◌}
use mathlib.Core.List.{◌++◌ as append}
use cli_plugin_gcp.Common.{
  List, [], ◌∷◌, map, String, Bool, false, ◌||◌, Option, none, some, if◌then◌else◌, ◌==◌, string_eq,
  Dict, lookup, insert,
}
use cli_plugin_gcp.Common.Action.{Result, ok, err, panic}
use cli_plugin_gcp.UrlMap.{Target, UrlMap, UrlPathMatcher, UrlMapping, cleanup_url_mapping}

-- The types of google.golang.org/api/compute/v1. An action is its PathPrefixRewrite, if there is one.
pub record PathRule : Type 0 where
  pub paths : List String
  pub service : String
  pub path_prefix_rewrite : Option String

pub record PathMatcher : Type 0 where
  pub name : String
  pub default_service : String
  pub default_rewrite : Option String
  pub path_rules : List PathRule

pub record HostRule : Type 0 where
  pub hosts : List String
  pub path_matcher : String

-- the redirect to HTTPS with its response code, if there is one
pub record ApiUrlMap : Type 0 where
  pub name : String
  pub fingerprint : String
  pub default_url_redirect : Option String
  pub default_service : String
  pub host_rules : List HostRule
  pub path_matchers : List PathMatcher

-- len(m.Paths) == 1 && m.Paths[0] == "/*"
abbrev pub is_root : List String → Bool
is_root (p ∷ []) = p == "/*"
is_root ps = false

abbrev pub with_default : UrlPathMatcher → PathMatcher → PathMatcher
with_default m pm =
    if (pm.default_service == "") || is_root m.paths
    then record pm { default_service = m.service_id; default_rewrite = some m.path_prefix_rewrite }
    else pm

abbrev pub with_rule : UrlPathMatcher → PathMatcher → PathMatcher
with_rule m pm = if is_root m.paths then pm else record pm {
  path_rules = append pm.path_rules (
      record {
        paths = m.paths;
        service = m.service_id;
        path_prefix_rewrite = some m.path_prefix_rewrite;
      }
      ∷ []);
}

-- the inner loop
unfoldable pub add_matchers : List UrlPathMatcher → PathMatcher → PathMatcher
add_matchers [] pm = pm
add_matchers (m ∷ ms) pm = add_matchers ms (with_rule m (with_default m pm))

abbrev pub no_rules : String → PathMatcher
no_rules name = record {
  name = name;
  default_service = "";
  default_rewrite = none;
  path_rules = [];
}

-- mapping[0].PathMatcher[0].ServiceID
abbrev pub first_service : List UrlPathMatcher → Result String
first_service [] = panic
first_service (m ∷ ms) = ok m.service_id

abbrev pub default_of : List UrlMapping → Result String
default_of [] = ok ""
default_of (g ∷ gs) = first_service g.path_matcher

-- `generic_id` is GenericID(name, host)
module _ (generic_id : String → String → String) where
  abbrev pub path_matcher_of : String → UrlMapping → PathMatcher
  path_matcher_of name g = add_matchers g.path_matcher (no_rules (generic_id name g.host))

  abbrev pub host_rule_of : String → UrlMapping → HostRule
  host_rule_of name g = record { hosts = g.host ∷ []; path_matcher = generic_id name g.host }

  abbrev pub with_rules : UrlMap → List UrlMapping → String → ApiUrlMap
  with_rules o gs service = record {
    name = o.name.wanted;
    fingerprint = o.fingerprint;
    default_url_redirect = none;
    default_service = service;
    host_rules = map (host_rule_of o.name.wanted) gs;
    path_matchers = map (path_matcher_of o.name.wanted) gs;
  }

  abbrev made : UrlMap → List UrlMapping → Result String → Result ApiUrlMap
  made o gs (ok service) = ok (with_rules o gs service)
  made o gs (err e) = err e
  made o gs panic = panic

  unfoldable pub make_url_map : UrlMap → Result ApiUrlMap
  make_url_map o =
      let gs = cleanup_url_mapping o.url_mapping.wanted in
      if o.https_redirect.wanted
      then ok (record {
        name = o.name.wanted;
        fingerprint = o.fingerprint;
        default_url_redirect = some "MOVED_PERMANENTLY_DEFAULT";
        default_service = "";
        host_rules = [];
        path_matchers = [];
      })
      else made o gs (default_of gs)

-- the loop of `Read` that fills pathMatchersMap
unfoldable pub by_name : List PathMatcher → Dict PathMatcher → Dict PathMatcher
by_name [] m = m
by_name (pm ∷ pms) m = by_name pms (insert pm.name pm m)

abbrev pub rewrite_or : String → Option String → String
rewrite_or other none = other
rewrite_or other (some r) = r

-- the loops over the paths and the rules of one path matcher
unfoldable pub read_paths : String → Target → List String → Dict Target → Dict Target
read_paths host t [] m = m
read_paths host t (p ∷ ps) m = read_paths host t ps (insert (host ++ p) t m)

unfoldable pub read_rules : String → String → List PathRule → Dict Target → Dict Target
unfolding read_paths
read_rules host redirect [] m = m
read_rules host redirect (pr ∷ prs) m = read_rules host redirect prs (
    read_paths host
      (record {
        service_id = pr.service;
        path_redirect = rewrite_or redirect pr.path_prefix_rewrite;
      })
      pr.paths m)

abbrev pub default_target : PathMatcher → Target
default_target pm = record {
  service_id = pm.default_service;
  path_redirect = rewrite_or "" pm.default_rewrite;
}

abbrev pub read_matcher : String → PathMatcher → Dict Target → Dict Target
read_matcher host pm m =
    read_rules host (rewrite_or "" pm.default_rewrite) pm.path_rules
      (insert (host ++ "/*") (default_target pm) m)

-- a path matcher that is missing is a nil pointer
abbrev pub read_host : Option PathMatcher → String → Dict Target → Result (Dict Target)
read_host none host m = panic
read_host (some pm) host m = ok (read_matcher host pm m)

abbrev pub then_read :
    (Dict Target → Result (Dict Target)) → Result (Dict Target) → Result (Dict Target)
then_read k (ok m) = k m
then_read k (err e) = err e
then_read k panic = panic

unfoldable pub read_hosts : Option PathMatcher → List String → Dict Target → Result (Dict Target)
read_hosts pm [] m = ok m
read_hosts pm (host ∷ hosts) m = then_read (read_hosts pm hosts) (read_host pm host m)

unfoldable pub read_host_rules :
    Dict PathMatcher → List HostRule → Dict Target → Result (Dict Target)
unfolding read_hosts
read_host_rules pms [] m = ok m
read_host_rules pms (hr ∷ hrs) m =
    then_read (read_host_rules pms hrs) (read_hosts (lookup hr.path_matcher pms) hr.hosts m)

-- the mapping that `Read` takes from a URL map
unfoldable pub read_url_mapping : ApiUrlMap → Result (Dict Target)
read_url_mapping u = read_host_rules (by_name u.path_matchers []) u.host_rules []
