-- ===== src/AppStates/Complete.antt =====
-- What `save` of actions/plan.go reports of an app, over both of its loops on apps.
use cli_plugin_gcp.Common.{
  [], ◌∷◌, String, Option, none, some, ◌==◌, string_eq, Dict, lookup, insert, All, ◌≡◌, refl, ap,
  ◌∙◌, arith, false, Bool-cases, Option-cases, inl, inr, lookup-insert,
}
use text.Mathlib.TextEquality.{eq_iff}
use cli_plugin_gcp.Common.Action.{ok}
use cli_plugin_gcp.Fields.{Input}
use cli_plugin_gcp.AppStates.{
  AppState, DnsState, DeploymentState, Deployed, Saved, get_or_create_app_state, or_new, dns_state,
}
use cli_plugin_gcp.AppStates.Reported.{dns_of, IsParsed, IsOnly, save_app_ssl_states-reports}
use cli_plugin_gcp.AppStates.Deployments.{
  DeployedApp, static_app, service_app, function_app, compute_app_deployment_state, or_empty_dns,
  with_urls, with_deployment, save_deployed, save_deployments, current_mapping, wanted_mapping,
  save_app_states,
}

with_urls-idempotent :
    (app : DeployedApp) (dns : DnsState) → with_urls app (with_urls app dns) ≡ with_urls app dns
with_urls-idempotent (static_app c) dns = refl
with_urls-idempotent (service_app c) dns = refl
with_urls-idempotent (function_app f) dns = refl

abbrev pub deployment_in : Option AppState → Option DeploymentState
deployment_in none = none
deployment_in (some st) = st.deployment

-- the deployment has no other entry for the id
abbrev pub IsSame : String → DeployedApp → String × DeployedApp → Type 0
IsSame id app e = e.0 ≡ id → e.1 ≡ app

-- the plan knows the app
abbrev pub IsKnown : Deployed → String × DeployedApp → Type 0
IsKnown d e = lookup e.0 d.apps ≡ some tt

-- An app of the plan that is deployed, and the DNS state it has before the loop.
module _ (d : Deployed) (id : String) (app : DeployedApp) (deployment : DeploymentState)
    (before : DnsState) (computed : compute_app_deployment_state app ≡ some deployment) where
  pub record IsDeployed (s : Saved) : Type 0 where
    pub deployed : deployment_in (lookup id s.app_states) ≡ some deployment
    pub reached : dns_of (lookup id s.app_states) ≡ some (with_urls app before)

  -- not reached yet, or reached
  abbrev pub IsBefore : Saved → Type 0
  IsBefore s = or_empty_dns (dns_of (lookup id s.app_states)) ≡ before

  abbrev step : String → DeployedApp → DeploymentState → Saved → Saved
  step j a dep s =
      let (st, states) = get_or_create_app_state j s.app_states in
      record s { app_states = insert j (with_deployment a dep st) states }

  step-other :
      (j : String) (a : DeployedApp) (dep : DeploymentState) (s : Saved)
      → (j == id) ≡ false
      → lookup id (step j a dep s).app_states ≡ lookup id s.app_states
  unfolding get_or_create_app_state
  step-other j a dep s other =
      let st = or_new j (lookup j s.app_states) in
      rw
        (
          lookup-insert j id (with_deployment a dep st) (insert j st s.app_states),
          other,
          lookup-insert j id st s.app_states,
          other,
        )
        refl

  dns-or_new : (j : String) (st : Option AppState) → (or_new j st).dns ≡ dns_of st
  dns-or_new j none = refl
  dns-or_new j (some st) = refl

  step-here :
      (s : Saved)
      → lookup id (step id app deployment s).app_states
        ≡ some (with_deployment app deployment (or_new id (lookup id s.app_states)))
  unfolding get_or_create_app_state
  step-here s =
      let st = or_new id (lookup id s.app_states) in
      rw
        (
          lookup-insert id id (with_deployment app deployment st) (insert id st s.app_states),
          (eq_iff id id).1 refl,
        )
        refl

  step-dns :
      (s : Saved)
      → dns_of (lookup id (step id app deployment s).app_states)
        ≡ some (with_urls app (or_empty_dns (dns_of (lookup id s.app_states))))
  step-dns s =
      ap dns_of (step-here s)
      ∙ ap (λ dns. some (with_urls app (or_empty_dns dns))) (dns-or_new id (lookup id s.app_states))

  step-adds : (s : Saved) → IsBefore s → IsDeployed (step id app deployment s)
  step-adds s first = record {
    deployed = ap deployment_in (step-here s);
    reached = step-dns s ∙ ap (λ dns. some (with_urls app dns)) first;
  }

  step-again : (s : Saved) → IsDeployed s → IsDeployed (step id app deployment s)
  step-again s done = record {
    deployed = ap deployment_in (step-here s);
    reached =
        step-dns s
        ∙ ap (λ dns. some (with_urls app (or_empty_dns dns))) done.reached
        ∙ ap some (with_urls-idempotent app before);
  }

  step-keeps :
      (j : String) (a : DeployedApp) (dep : DeploymentState) (s : Saved)
      → (j == id) ≡ false
      → IsDeployed s
      → IsDeployed (step j a dep s)
  step-keeps j a dep s other done = record {
    deployed = ap deployment_in (step-other j a dep s other) ∙ done.deployed;
    reached = ap dns_of (step-other j a dep s other) ∙ done.reached;
  }

  -- one entry of the deployment
  save_deployed-step :
      (j : String) (a : DeployedApp) (s : Saved)
      → lookup j d.apps ≡ some tt
      → (j ≡ id → a ≡ app)
      → (s' : Saved) × (save_deployed j a (compute_app_deployment_state a) (lookup j d.apps) s
          ≡ ok s')
        × (IsDeployed s → IsDeployed s')
        × (IsBefore s → (j ≡ id → IsDeployed s') × ((j == id) ≡ false → IsBefore s'))
  save_deployed-step j a s known same = elim (Bool-cases (j == id)) [
    | inl e ↦
        let at = (eq_iff j id).0 e in
        (
          step id app deployment s,
          rw (known, at, same at, computed) refl,
          step-again s,
          λ first. ((λ _. step-adds s first), λ other. absurd (ground (arith, e))),
        )
    | inr other ↦ elim (Option-cases (compute_app_deployment_state a)) [
      | inl undeployed ↦ (
        s,
        rw undeployed refl,
        (λ done. done),
        λ first. ((λ at. absurd (ground (arith, (eq_iff j id).1 at))), λ _. first),
      )
      | inr (dep, is) ↦ (
        step j a dep s,
        rw (is, known) refl,
        step-keeps j a dep s other,
        λ first. (
          (λ at. absurd (ground (arith, (eq_iff j id).1 at))),
          λ _. ap (λ st. or_empty_dns (dns_of st)) (step-other j a dep s other) ∙ first,
        ),
      )
    ]
  ]

  pub save_deployments-reports :
      (m : Dict DeployedApp) (s : Saved)
      → All (IsKnown d) m
      → All (IsSame id app) m
      → (s' : Saved) × (save_deployments d m s ≡ ok s')
        × (IsDeployed s → IsDeployed s')
        × (IsBefore s → lookup id m ≡ some app → IsDeployed s')
  unfolding save_deployments
  save_deployments-reports [] s known same =
      (s, refl, (λ done. done), λ first at. absurd (ground (arith, at)))
  save_deployments-reports ((j, a) ∷ m) s (one, known) (agrees, same) =
      let (s1, e1, kept, moved) = save_deployed-step j a s one agrees in
      let (s2, e2, keeps, adds) = save_deployments-reports m s1 known same in
      (
        s2,
        rw (e1, e2) refl,
        (λ done. keeps (kept done)),
        λ first at. elim (Bool-cases (j == id)) [
          | inl here ↦ keeps ((moved first).0 ((eq_iff j id).0 here))
          | inr other ↦ adds ((moved first).1 other) (ground arith)
        ],
      )

-- An app of the plan that is deployed and whose URL the load balancer serves under no other name: its state
-- holds whether it is ready, and one DNS state with the address, the URL, the certificate and the addresses
-- of its service. The load balancer has an address, the URLs are parsed, the plan knows the deployed
-- apps, and each of them has one entry.
pub save_app_states_complete :
    (d : Deployed) (ip id url domain : String) (app : DeployedApp) (deployment : DeploymentState)
    (app_mapping : Option (Input (Dict String))) (apps : Dict DeployedApp) (s : Saved)
    → d.ip ≡ some ip
    → lookup id d.apps ≡ some tt
    → d.hostname url ≡ ok domain
    → compute_app_deployment_state app ≡ some deployment
    → All (IsParsed d) (current_mapping app_mapping)
    → All (IsParsed d) (wanted_mapping app_mapping)
    → All (IsOnly id url) (current_mapping app_mapping)
    → lookup url (current_mapping app_mapping) ≡ some id
    → All (IsKnown d) apps
    → All (IsSame id app) apps
    → lookup id apps ≡ some app
    → (s' : Saved) × (save_app_states d app_mapping apps s ≡ ok s')
      × (deployment_in (lookup id s'.app_states) ≡ some deployment)
      × (dns_of (lookup id s'.app_states)
          ≡ some (with_urls app (dns_state ip url domain (lookup domain d.ssls))))
unfolding save_app_states
save_app_states_complete d ip id url domain app deployment app_mapping apps s addressed known hosted
      computed current_parsed wanted_parsed only at all_known same deployed =
    let (s1, e1, reported) =
      save_app_ssl_states-reports d ip addressed id url domain known hosted
        (current_mapping app_mapping) (wanted_mapping app_mapping) s current_parsed wanted_parsed
        only at in
    let (s2, e2, keeps, adds) =
      save_deployments-reports d id app deployment (dns_state ip url domain (lookup domain d.ssls))
        computed apps s1 all_known same in
    let done = adds (ap or_empty_dns reported) deployed in
    (s2, rw (e1, e2) refl, done.deployed, done.reached)
