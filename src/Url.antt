-- ===== src/Url.antt =====
-- gcp/util.go: `SplitURL` and `RegionToGCR`. A URL is a list of characters; strings.ToUpper is a
-- parameter.
pub mod Laws
mod Tests
use Prim.Native.String.{◌++◌, String, [], ◌∷◌}
use Prim.Native.Char.{Char, code}
use cli_plugin_gcp.Common.{
  Bool, true, false, Option, none, some, nat_beq, if◌then◌else◌, ◌==◌, string_eq,
}
use cli_plugin_gcp.Common.Texts.{has_prefix, strip}

abbrev pub is_slash : Char → Bool
is_slash c = nat_beq (code c) b'/'

-- strings.SplitN(url, "://", 2), the second part where there are two
unfoldable pub after_scheme : String → Option String
after_scheme [] = none
after_scheme (c ∷ s) =
    let later = after_scheme s in
    if has_prefix (c ∷ s) "://" then some (strip (c ∷ s) "://") else later

abbrev without_scheme : String → Option String → String
without_scheme url none = url
without_scheme url (some s) = s

-- strings.SplitN(url, "/", 2): the first part, and the second one behind its slash or ""
unfoldable pub host_of : String → String
host_of [] = []
host_of (c ∷ s) = let rest = host_of s in if is_slash c then [] else c ∷ rest

unfoldable pub path_of : String → String
path_of [] = []
path_of (c ∷ s) = let rest = path_of s in if is_slash c then c ∷ s else rest

-- strings.HasSuffix(s, "/")
unfoldable pub ends_in_slash : String → Bool
ends_in_slash [] = false
ends_in_slash (c ∷ []) = is_slash c
ends_in_slash (c ∷ d ∷ s) = ends_in_slash (d ∷ s)

unfoldable pub mapped : String → String
mapped path =
    if path == ""
    then "/*"
    else if path == "/"
    then "/*"
    else if ends_in_slash path
    then path ++ "*"
    else path

-- the host and the path
unfoldable pub split_url : String → String × String
split_url url =
    let rest = without_scheme url (after_scheme url) in (host_of rest, mapped (path_of rest))

module _ (to_upper : String → String) where
  -- strings.SplitN(s, "-", 2)[0]
  pub before_dash : String → String
  before_dash [] = []
  before_dash (c ∷ s) = let rest = before_dash s in if nat_beq (code c) b'-' then [] else c ∷ rest

  pub region_to_gcr : String → String
  region_to_gcr region =
      let part = before_dash (to_upper region) in
      if part == "EUROPE" then "eu.gcr.io" else if part == "ASIA" then "asia.gcr.io" else "gcr.io"
