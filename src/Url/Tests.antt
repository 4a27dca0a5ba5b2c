-- ===== src/Url/Tests.antt =====
-- URLs as the configuration has them.
use cli_plugin_gcp.Common.{◌≡◌, refl}
use cli_plugin_gcp.Common.Texts.{has_prefix, strip}
use cli_plugin_gcp.Url.{after_scheme, host_of, path_of, ends_in_slash, mapped, split_url}

with_scheme : split_url "https://app.example.com/api/" ≡ ("app.example.com", "/api/*")
unfolding split_url after_scheme host_of path_of mapped ends_in_slash has_prefix strip
with_scheme = refl

-- the key that the load balancer makes of a URL whose path has a scheme in it, split once more
split_again :
    (split_url "https://shop.example/go/http://x.example"
      ≡ ("shop.example", "/go/http://x.example"))
    × (split_url "shop.example/go/http://x.example" ≡ ("x.example", "/*"))
unfolding split_url host_of after_scheme has_prefix strip mapped path_of ends_in_slash
split_again = (refl, refl)
