-- ===== src/UrlMap.antt =====
-- gcp/url_map.go: the resource `URLMap`, the URL map of Compute Engine that it makes, what `Read` takes
-- from one, and `Create`, `Update` and `Delete`. The clients, `GenericID` and the accessors of the
-- fields are parameters.
pub mod Made
pub mod Groups
pub mod Matchers
pub mod Keys
pub mod Reading
pub mod Names
pub mod Roundtrip
mod Tests
pub mod Calls
use Prim.Native.String.{compare}
use Prim.Native.Nat.{Ordering}
use cli_plugin_gcp.Common.{
  List, [], ◌∷◌, ◌++◌, map, ltb, String, Bool, true, false, ◌&&◌, ◌||◌, Option, none, some,
  if◌then◌else◌, ◌==◌, string_eq, len, Dict, lookup, insert,
}
use cli_plugin_gcp.Url.{split_url}
use cli_plugin_gcp.Fields.{Input}

-- a value of the mapping: the texts under URLPathMatcherServiceIDKey and
-- URLPathMatcherPathPrefixRewriteKey
pub record Target : Type 0 where
  pub service_id : String
  pub path_redirect : String

-- the values of AppMapping are the ids of apps
pub record UrlMap : Type 0 where
  pub name : Input String
  pub project_id : Input String
  pub url_mapping : Input (Dict Target)
  pub app_mapping : Input (Dict String)
  pub https_redirect : Input Bool
  pub fingerprint : String

pub record UrlPathMatcher : Type 0 where
  pub paths : List String
  pub service_id : String
  pub path_prefix_rewrite : String

pub record UrlMapping : Type 0 where
  pub host : String
  pub path_matcher : List UrlPathMatcher

-- a < b, by bytes
abbrev pub text_ltb : String → String → Bool
text_ltb a b = elim (compare a b) [ Ordering.lt ↦ true | _ ↦ false ]

-- the loop over the paths of one matcher: the first of the shortest, and none where "/*" comes up
abbrev pub shorter : String → String → String
shorter best p = if (best == "") || ltb (len p) (len best) then p else best

abbrev pub shortest_from : String → List String → Option String
shortest_from best [] = some best
shortest_from best (p ∷ ps) = if p == "/*" then none else shortest_from (shorter best p) ps

abbrev pub shortest : List String → Option String
shortest ps = shortest_from "" ps

abbrev pub shortest_ltb : Option String → Option String → Bool
shortest_ltb none b = true
shortest_ltb (some a) none = false
shortest_ltb (some a) (some b) = text_ltb a b

abbrev pub matcher_ltb : UrlPathMatcher → UrlPathMatcher → Bool
matcher_ltb a b = shortest_ltb (shortest a.paths) (shortest b.paths)

abbrev pub mapping_ltb : UrlMapping → UrlMapping → Bool
mapping_ltb a b = text_ltb a.host b.host

-- sort.Slice
module _ {A : Type 0} (less : A → A → Bool) where
  unfoldable pub place : A → List A → List A
  place x [] = x ∷ []
  place x (y ∷ ys) = if less x y then x ∷ y ∷ ys else y ∷ place x ys

  unfoldable pub sort : List A → List A
  unfolding place
  sort [] = []
  sort (x ∷ xs) = place x (sort xs)

-- hmap[host]: nil where there is none
abbrev pub matchers_at : Option (List UrlPathMatcher) → List UrlPathMatcher
matchers_at none = []
matchers_at (some ms) = ms

abbrev pub to_matcher : String → Target → UrlPathMatcher
to_matcher path t = record {
  paths = path ∷ [];
  service_id = t.service_id;
  path_prefix_rewrite = t.path_redirect;
}

-- the first loop of `cleanupURLMapping`
unfoldable pub by_host : Dict Target → Dict (List UrlPathMatcher) → Dict (List UrlPathMatcher)
by_host [] hmap = hmap
by_host ((k, t) ∷ m) hmap = by_host m (
    insert (split_url k).0
      (matchers_at (lookup (split_url k).0 hmap) ++ (to_matcher (split_url k).1 t ∷ [])) hmap)

abbrev pub sorted_mapping : String × List UrlPathMatcher → UrlMapping
sorted_mapping (host, ms) = record { host = host; path_matcher = sort matcher_ltb ms }

unfoldable pub cleanup_url_mapping : Dict Target → List UrlMapping
cleanup_url_mapping m = sort mapping_ltb (map sorted_mapping (by_host m []))
