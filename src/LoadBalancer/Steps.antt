-- ===== src/LoadBalancer/Steps.antt =====
-- The steps of the plan of deploy/load_balancer.go succeed and keep the routes, if the calls of the registry do.
use cli_plugin_gcp.Common.{
  subst, any, lookup-insert_self, List, [], ◌∷◌, String, Bool, true, false, ◌||◌, Option, none,
  some, ◌==◌, string_eq, Dict, insert, lookup, All, ◌≡◌, refl, ap, ◌∙◌, arith, Bool-cases, inl, inr,
}
use text.Mathlib.TextEquality.{eq_iff}
use cli_plugin_gcp.UrlMap.Reading.{insert-keeps}
use cli_plugin_gcp.Common.Action.{Action, Result, ok, pure, ◌>>=◌, ◌>>◌}
use cli_plugin_gcp.UrlMap.{Target}
use cli_plugin_gcp.LoadBalancer.{
  AppDeploy, Address, LoadBalancer, LoadBalancerArgs, Planner, Resource, CacheInvalidate,
  managed_ssl, self_managed_ssl, url_map, target_http_proxy, target_https_proxy, forwarding_rule,
  cache_invalidate,
}
use cli_plugin_gcp.LoadBalancer.Plan.{
  is_managed, none_in, managed_of, no_proxy, with_managed, add_managed, with_self_managed,
  self_managed_name, self_managed_of, add_self_managed, register_http, with_http, http_rule,
  http_proxy, http_map, register_https, with_https, https_rule, https_proxy, DomainInfo,
  process_domain, process_domains, plan_http, plan_https, https_map, add_url_if_needed, add_urls,
}
use cli_plugin_gcp.LoadBalancer.Routes.{here_or_later, next-ok}

pub none_in-routed :
    (k : String) (t : Target) (m : Dict Target) (ids : Dict String)
    → lookup k m ≡ some t
    → none_in m ids ≡ false
none_in-routed k t [] ids e = absurd (ground (arith, e))
none_in-routed k t (x ∷ m) ids e = refl

pub bind-ok :
    {W A B : Type 0} (m : Action W A) (k : A → Action W B) (w : W) (a : A) (r : Result B)
    → (m w).0 ≡ ok a
    → (k a (m w).1).0 ≡ r
    → ((m >>= k) w).0 ≡ r
bind-ok m k w a r e e' = ap (λ out. out.0) (next-ok k (m w) a e) ∙ e'

-- the action gives a value in every world
abbrev pub Succeeds : {W A : Type 0} → Action W A → Type 0
Succeeds {W} {A} m = (w : W) → (a : A) × ((m w).0 ≡ ok a)

pub >>=-Succeeds :
    {W A B : Type 0} (m : Action W A) (k : A → Action W B)
    → Succeeds m
    → ((a : A) → Succeeds (k a))
    → Succeeds (m >>= k)
>>=-Succeeds m k first rest w =
    let (a, e) = first w in
    let (b, e') = rest a (m w).1 in (b, ap (λ out. out.0) (next-ok k (m w) a e) ∙ e')

>>-pure :
    {W A B : Type 0} (m : Action W A) (b : B) (w : W) → Succeeds m → ((m >> pure b) w).0 ≡ ok b
>>-pure m b w first = let (a, e) = first w in ap (λ out. out.0) (next-ok (λ _. pure b) (m w) a e)

-- the URL of an app is parsed
abbrev pub IsParsed : Planner → String × AppDeploy → Type 0
IsParsed l e = (host : String) × (l.hostname e.1.app.url ≡ ok host)

module _ (l : Planner) (c : LoadBalancerArgs) (h : String)
    (registers : (id : String) (r : Resource) (w : l.World)
      → (b : Bool) × ((l.register id r w).0 ≡ ok b))
    (proxies : (domain : String) (w : l.World)
      → (u : Unit {0}) × ((l.disable_proxy domain w).0 ≡ ok u)) where
  -- the host h has its managed certificate
  abbrev pub IsCovered : LoadBalancer → Type 0
  IsCovered o = lookup h o.managed_ssl_domain_map ≡ some (managed_of l c h)

  -- the routes stay as they are, and so do the URL maps and the certificate of the host
  abbrev pub Stays : (LoadBalancer → Action l.World LoadBalancer) → Type 0
  Stays f =
      (o : LoadBalancer) (w : l.World)
      → (o' : LoadBalancer) × ((f o w).0 ≡ ok o')
        × (o'.url_targets ≡ o.url_targets)
        × (o'.url_maps ≡ o.url_maps)
        × (IsCovered o → IsCovered o')

  register-Succeeds : (id : String) (r : Resource) → Succeeds (l.register id r)
  register-Succeeds id r = registers id r

  managed-Succeeds :
      (domain : String) (info : Option DomainInfo)
      → Succeeds
          (l.register domain (managed_ssl (managed_of l c domain)) >> no_proxy l c domain info)
  managed-Succeeds domain none =
      >>=-Succeeds (l.register domain (managed_ssl (managed_of l c domain)))
        (λ b. no_proxy l c domain none) (registers domain (managed_ssl (managed_of l c domain)))
        (λ b v. (tt, refl))
  managed-Succeeds domain (some i) =
      >>=-Succeeds (l.register domain (managed_ssl (managed_of l c domain)))
        (λ b. no_proxy l c domain (some i)) (registers domain (managed_ssl (managed_of l c domain)))
        (λ b. proxies domain)

  with_self_managed-targets :
      (i : DomainInfo) (o : LoadBalancer) (added : Bool)
      → (with_self_managed l c i o added).url_targets ≡ o.url_targets
  with_self_managed-targets i o true = refl
  with_self_managed-targets i o false = refl

  with_self_managed-maps :
      (i : DomainInfo) (o : LoadBalancer) (added : Bool)
      → (with_self_managed l c i o added).url_maps ≡ o.url_maps
  with_self_managed-maps i o true = refl
  with_self_managed-maps i o false = refl

  with_self_managed-managed :
      (i : DomainInfo) (o : LoadBalancer) (added : Bool)
      → (with_self_managed l c i o added).managed_ssl_domain_map ≡ o.managed_ssl_domain_map
  with_self_managed-managed i o true = refl
  with_self_managed-managed i o false = refl

  add_self_managed-Stays : (i : DomainInfo) → Stays (add_self_managed l c i)
  add_self_managed-Stays i o w =
      let (added, e) =
        registers (self_managed_name l c i.cert) (self_managed_ssl (self_managed_of l c i)) w in
      (
        with_self_managed l c i o added,
        ap (λ out. out.0)
            (next-ok (λ b. pure (with_self_managed l c i o b))
              (l.register (self_managed_name l c i.cert) (self_managed_ssl (self_managed_of l c i))
                w)
              added e),
        with_self_managed-targets i o added,
        with_self_managed-maps i o added,
        λ covered. ap (lookup h) (with_self_managed-managed i o added) ∙ covered,
      )

  -- with the certificate of the domain itself, if it is to have one
  Certifies : String → Option DomainInfo → (LoadBalancer → Action l.World LoadBalancer) → Type 0
  Certifies domain info f =
      (o : LoadBalancer) (w : l.World)
      → (o' : LoadBalancer) × ((f o w).0 ≡ ok o')
        × (o'.url_targets ≡ o.url_targets)
        × (o'.url_maps ≡ o.url_maps)
        × (IsCovered o → IsCovered o')
        × (domain ≡ h → is_managed info ≡ true → IsCovered o')

  add_managed-Certifies :
      (domain : String) (info : Option DomainInfo)
      → Certifies domain info (add_managed l c domain info)
  unfolding Certifies
  add_managed-Certifies domain info o w = (
    with_managed l c domain o,
    >>-pure (l.register domain (managed_ssl (managed_of l c domain)) >> no_proxy l c domain info)
        (with_managed l c domain o) w (managed-Succeeds domain info),
    refl,
    refl,
    (λ covered.
        insert-keeps h domain (managed_of l c domain) (managed_of l c h) o.managed_ssl_domain_map
          (λ at. ap (managed_of l c) at) covered),
    λ at _.
        subst
          (λ x.
            lookup x (insert domain (managed_of l c domain) o.managed_ssl_domain_map)
            ≡ some (managed_of l c x))
          at (lookup-insert_self domain (managed_of l c domain) o.managed_ssl_domain_map),
  )

  process_domain-Certifies :
      (domain : String) (info : Option DomainInfo)
      → Certifies domain info (process_domain l c domain info)
  unfolding process_domain Certifies
  process_domain-Certifies domain none o w = add_managed-Certifies domain none o w
  process_domain-Certifies domain (some i) o w =
      elim (Bool-cases ((i.cert == "") || (i.key == ""))) [
        | inl managed ↦
            let (o', e, targets, maps, keeps, new) = add_managed-Certifies domain (some i) o w in
            (o', rw managed e, targets, maps, keeps, new)
        | inr own ↦
            let (o', e, targets, maps, keeps) = add_self_managed-Stays i o w in
            (o', rw own e, targets, maps, keeps, λ _ managed. absurd (ground arith))
      ]

  pub process_domains-certifies :
      (find : String → Option DomainInfo) (ds : List String) (o : LoadBalancer) (w : l.World)
      → (o' : LoadBalancer) × ((process_domains l c find ds o w).0 ≡ ok o')
        × (o'.url_targets ≡ o.url_targets)
        × (o'.url_maps ≡ o.url_maps)
        × (IsCovered o → IsCovered o')
        × (any (λ x. x == h) ds ≡ true → is_managed (find h) ≡ true → IsCovered o')
  unfolding process_domains Certifies
  process_domains-certifies find [] o w =
      (o, refl, refl, refl, (λ e. e), λ e. absurd (ground arith))
  process_domains-certifies find (d ∷ ds) o w =
      let (o', e, targets, maps, keeps, own) = process_domain-Certifies d (find d) o w in
      let (o'', e', targets', maps', keeps', later) =
        process_domains-certifies find ds o' (process_domain l c d (find d) o w).1 in
      (
        o'',
        ap (λ out. out.0) (next-ok _ _ o' e) ∙ e',
        targets' ∙ targets,
        maps' ∙ maps,
        (λ covered. keeps' (keeps covered)),
        λ member managed. elim (Bool-cases (d == h)) [
          | inl here ↦
              let d_h = (eq_iff d h).0 here in
              keeps' (own d_h (ap (λ x. is_managed (find x)) d_h ∙ managed))
          | inr there ↦ later (ground arith) managed
        ],
      )

  >>-register :
      (m : Action l.World Bool) (id : String) (r : Resource)
      → Succeeds m
      → Succeeds (m >> l.register id r)
  >>-register m id r first = >>=-Succeeds m (λ b. l.register id r) first (λ b. registers id r)

  pub plan_http-Stays : (addr : Address) → Stays (plan_http l c addr)
  unfolding plan_http
  plan_http-Stays addr o w = (
    with_http l c addr o,
    >>-pure (register_http l c addr) (with_http l c addr o) w (
        >>-register _ _ (forwarding_rule (http_rule l c addr)) (
          >>-register _ _ (target_http_proxy (http_proxy l c))
            (registers _ (url_map (http_map l c))))),
    refl,
    refl,
    λ covered. covered,
  )

  pub plan_https-adds :
      (cache : CacheInvalidate) (addr : Address) (o : LoadBalancer) (w : l.World)
      → (plan_https l c cache addr o w).0 ≡ ok (with_https l c addr o)
  unfolding plan_https
  plan_https-adds cache addr o w =
      >>-pure (register_https l c cache addr o) (with_https l c addr o) w (
        >>-register _ _ (forwarding_rule (https_rule l c addr)) (
          >>-register _ _ (target_https_proxy (https_proxy l c o))
            (>>-register _ _ (cache_invalidate cache) (registers _ (url_map (https_map l c o))))))

  -- An app under its key; h is the host of its URL. A loop over apps enters the host, and leaves it in.
  module _ (i : String) (d : AppDeploy) (named : (d.app.url == "") ≡ false)
      (hosted : l.hostname d.app.url ≡ ok h) where
    abbrev IsIn : Dict (Unit {0}) → Type 0
    IsIn m = lookup h m ≡ some tt

    added :
        (a : AppDeploy) (m : Dict (Unit {0})) (w : l.World)
        → IsParsed l (i, a)
        → (m' : Dict (Unit {0})) × ((add_url_if_needed l c m a.app w).0 ≡ ok m')
          × (IsIn m → IsIn m')
          × (a ≡ d → IsIn m')
    unfolding add_url_if_needed
    added a m w (host, e) = elim (Bool-cases (a.app.url == "")) [
      | inl none' ↦ (
        m,
        rw none' refl,
        (λ at. at),
        λ same. absurd (ground (arith, ap (λ x. x.app.url == "") same)),
      )
      | inr some' ↦ (
        insert host tt m,
        rw some' (rw e refl),
        (λ at. insert-keeps h host tt tt m (λ _. refl) at),
        λ same.
            let host_h : host ≡ h =
              ground (arith, hosted, e, ap (λ x. l.hostname x.app.url) same) in
            subst (λ x. lookup x (insert host tt m) ≡ some tt) host_h
              (lookup-insert_self host tt m),
      )
    ]

    pub add_urls-adds :
        (ds : Dict AppDeploy) (m : Dict (Unit {0})) (w : l.World)
        → All (IsParsed l) ds
        → (m' : Dict (Unit {0})) × ((add_urls l c ds m w).0 ≡ ok m')
          × (IsIn m → IsIn m')
          × (lookup i ds ≡ some d → IsIn m')
    unfolding add_urls
    add_urls-adds [] m w parsed = (m, refl, (λ at. at), λ e. absurd (ground (arith, e)))
    add_urls-adds ((k, a) ∷ ds) m w (one, parsed) =
        let (m1, e1, keeps1, own) = added a m w one in
        let (m2, e2, keeps2, later) =
          add_urls-adds ds m1 (add_url_if_needed l c m a.app w).1 parsed in
        (
          m2,
          bind-ok (add_url_if_needed l c m a.app) (add_urls l c ds) w m1 (ok m2) e1 e2,
          (λ at. keeps2 (keeps1 at)),
          λ at. elim (here_or_later i d k a ds at) [
            | inl same ↦ keeps2 (own same)
            | inr member ↦ later member
          ],
        )
