-- ===== src/AppStates/Reported.antt =====
-- What `saveAppSSLStates` of actions/plan.go reports of an app that has a URL.
use cli_plugin_gcp.Common.{
  [], ◌∷◌, String, Option, none, some, if◌then◌else◌, ◌==◌, string_eq, Dict, lookup, insert, All,
  ◌≡◌, ◌⊎◌, refl, ap, ◌∙◌, arith, Bool-cases, Option-cases, inl, inr, lookup-insert,
}
use text.Mathlib.TextEquality.{eq_iff}
use cli_plugin_gcp.Common.Action.{ok}
use cli_plugin_gcp.AppStates.{
  AppState, DnsState, Deployed, Saved, get_or_create_app_state, or_new, dns_state, with_records,
  with_dns, save_wanted, save_current, save_app_ssl_states,
}

-- the DNS state of an app, where there is one
abbrev pub dns_of : Option AppState → Option DnsState
dns_of none = none
dns_of (some st) = st.dns

-- the URL is parsed
abbrev pub IsParsed : Deployed → String × String → Type 0
IsParsed d e = (host : String) × (d.hostname e.0 ≡ ok host)

-- no other URL has the app
abbrev pub IsOnly : String → String → String × String → Type 0
IsOnly id url e = e.1 ≡ id → e.0 ≡ url

-- the load balancer has an address
module _ (d : Deployed) (ip : String) (addressed : d.ip ≡ some ip) where
  save_wanted-ok :
      (m : Dict String) (s : Saved)
      → All (IsParsed d) m
      → (s' : Saved) × (save_wanted d m s ≡ ok s') × (s'.app_states ≡ s.app_states)
  unfolding save_wanted
  save_wanted-ok [] s parsed = (s, refl, refl)
  save_wanted-ok ((url, id) ∷ m) s ((host, named), parsed) =
      elim (Option-cases (lookup id d.apps)) [
        | inl unknown ↦ let (s', e, same) = save_wanted-ok m s parsed in (s', rw unknown e, same)
        | inr (u, known) ↦
            let (s', e, same) =
              save_wanted-ok m
                (record s {
                  records_map =
                      insert host (record { record_name = host; value = ip }) s.records_map;
                })
                parsed in
            (s', rw known (rw named (rw addressed e)), same)
      ]

  -- An app with its id, its URL and the host of that.
  module _ (id url domain : String) (known : lookup id d.apps ≡ some tt)
      (hosted : d.hostname url ≡ ok domain) where
    abbrev expected : DnsState
    expected = dns_state ip url domain (lookup domain d.ssls)

    abbrev IsReported : Saved → Type 0
    IsReported s = dns_of (lookup id s.app_states) ≡ some expected

    with_dns-at :
        (j : String) (dns : DnsState) (s : Saved)
        → dns_of (lookup id (with_dns d j dns s).app_states)
          ≡ (if j == id then some dns else dns_of (lookup id s.app_states))
    unfolding get_or_create_app_state
    with_dns-at j dns s =
        let st = or_new j (lookup j s.app_states) in
        elim (Bool-cases (j == id)) [
          | inl e ↦
              rw (lookup-insert j id (record st { dns = some dns }) (insert j st s.app_states))
                (rw e refl)
          | inr e ↦
              rw (lookup-insert j id (record st { dns = some dns }) (insert j st s.app_states))
                (rw e (rw (lookup-insert j id st s.app_states) (rw e refl)))
        ]

    with_dns-keeps :
        (j : String) (dns : DnsState) (s : Saved)
        → (j ≡ id → dns ≡ expected)
        → IsReported s
        → IsReported (with_dns d j dns s)
    with_dns-keeps j dns s agrees reported = elim (Bool-cases (j == id)) [
      | inl e ↦ with_dns-at j dns s ∙ rw e (ap some (agrees ((eq_iff j id).0 e)))
      | inr e ↦ with_dns-at j dns s ∙ rw e reported
    ]

    with_dns-adds :
        (j : String) (dns : DnsState) (s : Saved)
        → j ≡ id
        → dns ≡ expected
        → IsReported (with_dns d j dns s)
    with_dns-adds j dns s same agrees =
        with_dns-at j dns s ∙ rw ((eq_iff j id).1 same) (ap some agrees)

    here_or_later :
        (u j : String) (m : Dict String)
        → lookup url ((u, j) ∷ m) ≡ some id
        → ((u ≡ url) × (j ≡ id)) ⊎ (lookup url m ≡ some id)
    here_or_later u j m at = elim (Bool-cases (u == url)) [
      | inl e ↦ inl ((eq_iff u url).0 e, ground arith)
      | inr e ↦ inr (ground arith)
    ]

    report-eq :
        (u host : String)
        → u ≡ url
        → d.hostname u ≡ ok host
        → dns_state ip u host (lookup host d.ssls) ≡ expected
    report-eq u host same named =
        let host_domain : host ≡ domain = ground (arith, named, hosted, ap d.hostname same) in
        ap (λ x. dns_state ip x host (lookup host d.ssls)) same
        ∙ ap (λ x. dns_state ip url x (lookup x d.ssls)) host_domain

    save_current-reports :
        (m : Dict String) (s : Saved)
        → All (IsParsed d) m
        → All (IsOnly id url) m
        → (s' : Saved) × (save_current d m s ≡ ok s')
          × (IsReported s → IsReported s')
          × (lookup url m ≡ some id → IsReported s')
    unfolding save_current
    save_current-reports [] s parsed only = (s, refl, (λ e. e), λ at. absurd (ground (arith, at)))
    save_current-reports ((u, j) ∷ m) s ((host, named), parsed) (one, only) =
        elim (Option-cases (lookup j d.apps)) [
          | inl unknown ↦
              let (s', e, keeps, later) = save_current-reports m s parsed only in
              (
                s',
                rw unknown e,
                keeps,
                λ at. elim (here_or_later u j m at) [
                  | inl (here, same) ↦ absurd (ground (arith, ap (λ x. lookup x d.apps) same))
                  | inr member ↦ later member
                ],
              )
          | inr (v, there) ↦
              let dns = dns_state ip u host (lookup host d.ssls) in
              let (s', e, keeps, later) = save_current-reports m (with_dns d j dns s) parsed only in
              let agrees : j ≡ id → dns ≡ expected = λ same. report-eq u host (one same) named in
              (
                s',
                rw there (rw named (rw addressed e)),
                (λ reported. keeps (with_dns-keeps j dns s agrees reported)),
                λ at. elim (here_or_later u j m at) [
                  | inl (here, same) ↦ keeps (with_dns-adds j dns s same (agrees same))
                  | inr member ↦ later member
                ],
              )
        ]

    -- Of an app that the plan knows and whose URL the load balancer serves under no other name, the plan
    -- reports the address of the load balancer, the URL and the status of the certificate of the URL's host,
    -- if there is an address and every URL of the two mappings is parsed.
    pub save_app_ssl_states-reports :
        (current wanted : Dict String) (s : Saved)
        → All (IsParsed d) current
        → All (IsParsed d) wanted
        → All (IsOnly id url) current
        → lookup url current ≡ some id
        → (s' : Saved) × (save_app_ssl_states d current wanted s ≡ ok s')
          × (dns_of (lookup id s'.app_states)
              ≡ some (dns_state ip url domain (lookup domain d.ssls)))
    unfolding save_app_ssl_states
    save_app_ssl_states-reports current wanted s current_parsed wanted_parsed only at =
        let (s1, e1, same) = save_wanted-ok wanted s wanted_parsed in
        let (s2, e2, keeps, adds) = save_current-reports current s1 current_parsed only in
        (with_records d s2, rw e1 (rw e2 refl), adds at)
