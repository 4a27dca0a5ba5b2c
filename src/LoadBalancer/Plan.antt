-- ===== src/LoadBalancer/Plan.antt =====
-- deploy/load_balancer.go: the certificates of the domains, the part for HTTP, and `Plan`.
use Prim.Native.String.{◌++◌}
use mathlib.Core.List.{◌++◌ as append}
use cli_plugin_gcp.Common.{
  List, [], ◌∷◌, map, String, Bool, true, false, ◌||◌, Option, none, some, if◌then◌else◌, ◌==◌,
  string_eq, Dict, insert, keys,
}
use cli_plugin_gcp.Common.Action.{Action, pure, of_result, ◌>>=◌, ◌>>◌}
use cli_plugin_gcp.Fields.{Input}
use cli_plugin_gcp.UrlMap.{UrlMap, sort, text_ltb}
use cli_plugin_gcp.LoadBalancer.{
  Target, CacheInvalidate, App, AppDeploy, Address, ManagedSsl, SelfManagedSsl, TargetHttpProxy,
  TargetHttpsProxy, ForwardingRule, address, managed_ssl, self_managed_ssl, url_map,
  target_http_proxy, target_https_proxy, forwarding_rule, cache_invalidate, LoadBalancer,
  LoadBalancerArgs, Planner, global_ref, process_service_apps, process_static_apps,
  process_function_apps,
}

-- apiv1.DomainInfo: the certificate and the key
pub record DomainInfo : Type 0 where
  pub cert : String
  pub key : String

-- the domain is to have a managed certificate: it brings none of its own
abbrev pub is_managed : Option DomainInfo → Bool
is_managed none = true
is_managed (some i) = (i.cert == "") || (i.key == "")

abbrev pub ssl_ref : String → String → String
ssl_ref project name = global_ref "sslCertificates" project name

-- a field that is asked for and that no state holds yet
abbrev pub asked : {A : Type 0} → A → Input A
asked a = record { current = none; wanted = a }

-- len(o.urlMap) == 0 && len(o.appMap) == 0
abbrev pub none_in : Dict Target → Dict String → Bool
none_in [] [] = true
none_in [] (e ∷ es) = false
none_in (e ∷ es) ids = false

module _ (l : Planner) (c : LoadBalancerArgs) where
  open l use {World, register, id_field}

  abbrev pub managed_of : String → ManagedSsl
  managed_of domain = record {
    name = id_field domain;
    project_id = c.project_id;
    domains = domain ∷ [];
  }

  abbrev pub no_proxy : String → Option DomainInfo → Action World (Unit {0})
  no_proxy domain none = pure tt
  no_proxy domain (some i) = l.disable_proxy domain

  abbrev pub with_managed : String → LoadBalancer → LoadBalancer
  with_managed domain o = record o {
    managed_ssls = append o.managed_ssls (managed_of domain ∷ []);
    managed_ssl_domain_map = insert domain (managed_of domain) o.managed_ssl_domain_map;
  }

  abbrev pub add_managed : String → Option DomainInfo → LoadBalancer → Action World LoadBalancer
  add_managed domain info o =
      register domain (managed_ssl (managed_of domain))
      >> no_proxy domain info
      >> pure (with_managed domain o)

  abbrev pub self_managed_name : String → String
  self_managed_name cert = "self-managed-" ++ l.limit_string (l.sha_string cert) 8

  abbrev pub self_managed_of : DomainInfo → SelfManagedSsl
  self_managed_of i = record {
    name = id_field (self_managed_name i.cert);
    project_id = c.project_id;
    certificate = i.cert;
    private_key = i.key;
  }

  abbrev pub with_self_managed : DomainInfo → LoadBalancer → Bool → LoadBalancer
  with_self_managed i o added =
      if added
      then record o { self_managed_ssls = append o.self_managed_ssls (self_managed_of i ∷ []) }
      else o

  abbrev pub add_self_managed : DomainInfo → LoadBalancer → Action World LoadBalancer
  add_self_managed i o =
      register (self_managed_name i.cert) (self_managed_ssl (self_managed_of i)) >>= λ added.
      pure (with_self_managed i o added)

  unfoldable pub process_domain :
      String → Option DomainInfo → LoadBalancer → Action World LoadBalancer
  process_domain domain none o = add_managed domain none o
  process_domain domain (some i) o =
      if (i.cert == "") || (i.key == "")
      then add_managed domain (some i) o
      else add_self_managed i o

  abbrev pub http_map : UrlMap
  http_map = record {
    name = asked (id_field (c.name ++ "-http-0"));
    project_id = asked c.project_id;
    url_mapping = asked [];
    app_mapping = asked [];
    https_redirect = asked true;
    fingerprint = "";
  }

  abbrev pub http_proxy : TargetHttpProxy
  http_proxy = record {
    name = id_field (c.name ++ "-0");
    project_id = c.project_id;
    url_map = global_ref "urlMaps" c.project_id (id_field (c.name ++ "-http-0"));
  }

  abbrev pub http_rule : Address → ForwardingRule
  http_rule addr = record {
    name = id_field (c.name ++ "-http-0");
    project_id = c.project_id;
    ip_address = l.ip addr;
    target = global_ref "targetHttpProxies" c.project_id (id_field (c.name ++ "-0"));
    port_range = "80-80";
  }

  abbrev pub register_http : Address → Action World Bool
  register_http addr =
      register (c.name ++ "-http-0") (url_map http_map)
      >> register (c.name ++ "-0") (target_http_proxy http_proxy)
      >> register (c.name ++ "-http-0") (forwarding_rule (http_rule addr))

  abbrev pub with_http : Address → LoadBalancer → LoadBalancer
  with_http addr o = record o {
    target_http_proxies = append o.target_http_proxies (http_proxy ∷ []);
    forwarding_rules = append o.forwarding_rules (http_rule addr ∷ []);
  }

  unfoldable pub plan_http : Address → LoadBalancer → Action World LoadBalancer
  plan_http addr o = register_http addr >> pure (with_http addr o)

  -- the keys of the set that `addURLIfNeeded` fills
  unfoldable pub add_url_if_needed : Dict (Unit {0}) → App → Action World (Dict (Unit {0}))
  add_url_if_needed domains app =
      if app.url == ""
      then pure domains
      else (of_result (l.hostname app.url) >>= λ host. pure (insert host tt domains))

  unfoldable pub add_urls : Dict AppDeploy → Dict (Unit {0}) → Action World (Dict (Unit {0}))
  add_urls [] domains = pure domains
  add_urls ((k, d) ∷ ds) domains = add_url_if_needed domains d.app >>= add_urls ds

  -- the loop over the sorted domains; `match` is domainMatch.Match
  unfoldable pub process_domains :
      (String → Option DomainInfo) → List String → LoadBalancer → Action World LoadBalancer
  process_domains find [] o = pure o
  process_domains find (d ∷ ds) o = process_domain d (find d) o >>= process_domains find ds

  abbrev pub https_map : LoadBalancer → UrlMap
  https_map o = record {
    name = asked (id_field (c.name ++ "-https-0"));
    project_id = asked c.project_id;
    url_mapping = asked o.url_targets;
    app_mapping = asked o.app_map;
    https_redirect = asked false;
    fingerprint = "";
  }

  abbrev pub certificates : LoadBalancer → List String
  certificates o =
      append (map (λ s. ssl_ref s.project_id s.name) o.managed_ssls)
        (map (λ s. ssl_ref s.project_id s.name) o.self_managed_ssls)

  abbrev pub https_proxy : LoadBalancer → TargetHttpsProxy
  https_proxy o = record {
    name = id_field (c.name ++ "-0");
    project_id = c.project_id;
    url_map = global_ref "urlMaps" c.project_id (id_field (c.name ++ "-https-0"));
    ssl_certificates = certificates o;
  }

  abbrev pub https_rule : Address → ForwardingRule
  https_rule addr = record {
    name = id_field (c.name ++ "-https-0");
    project_id = c.project_id;
    ip_address = l.ip addr;
    target = global_ref "targetHttpsProxies" c.project_id (id_field (c.name ++ "-0"));
    port_range = "443-443";
  }

  abbrev values : Dict AppDeploy → List AppDeploy
  values ds = map (λ e. e.1) ds

  abbrev pub invalidation : Dict AppDeploy → Dict AppDeploy → Dict AppDeploy → CacheInvalidate
  invalidation static service function = record {
    url_map_name = id_field (c.name ++ "-https-0");
    project_id = c.project_id;
    static_apps = values static;
    service_apps = values service;
    function_apps = values function;
  }

  abbrev pub register_https : CacheInvalidate → Address → LoadBalancer → Action World Bool
  register_https cache addr o =
      register (c.name ++ "-https-0") (url_map (https_map o))
      >> register c.name (cache_invalidate cache)
      >> register (c.name ++ "-0") (target_https_proxy (https_proxy o))
      >> register (c.name ++ "-https-0") (forwarding_rule (https_rule addr))

  abbrev pub with_https : Address → LoadBalancer → LoadBalancer
  with_https addr o = record o {
    url_maps = append o.url_maps (https_map o ∷ []);
    target_https_proxies = append o.target_https_proxies (https_proxy o ∷ []);
    forwarding_rules = append o.forwarding_rules (https_rule addr ∷ []);
  }

  -- the end of `Plan`, from the URL map on
  unfoldable pub plan_https : CacheInvalidate → Address → LoadBalancer → Action World LoadBalancer
  plan_https cache addr o = register_https cache addr o >> pure (with_https addr o)

  abbrev pub the_address : Address
  the_address = record { name = id_field (c.name ++ "-0"); project_id = c.project_id }

  abbrev pub with_address : LoadBalancer → LoadBalancer
  with_address o = record o { addresses = append o.addresses (the_address ∷ []) }

  -- the domains of all apps, sorted
  abbrev pub collect_domains :
      Dict AppDeploy → Dict AppDeploy → Dict AppDeploy → Action World (Dict (Unit {0}))
  collect_domains static service function =
      add_urls static [] >>= add_urls service >>= add_urls function

  -- what `Plan` does once there is an app to serve
  unfoldable pub plan_rest :
      Dict AppDeploy
      → Dict AppDeploy
      → Dict AppDeploy
      → (String → Option DomainInfo)
      → LoadBalancer
      → Action World LoadBalancer
  plan_rest static service function find o =
      register (c.name ++ "-0") (address the_address)
      >> collect_domains static service function
      >>= (λ domains. process_domains find (sort text_ltb (keys domains)) (with_address o))
      >>= plan_http the_address
      >>= plan_https (invalidation static service function) the_address

  unfoldable pub plan :
      Dict AppDeploy
      → Dict AppDeploy
      → Dict AppDeploy
      → (String → Option DomainInfo)
      → LoadBalancer
      → Action World LoadBalancer
  plan static service function find o =
      process_static_apps l c static o
      >>= process_service_apps l c service
      >>= process_function_apps l c function
      >>= λ o'.
          if none_in o'.url_targets o'.app_map
          then pure o'
          else plan_rest static service function find o'
