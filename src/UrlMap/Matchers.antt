-- ===== src/UrlMap/Matchers.antt =====
-- What the inner loop of `MakeURLMap` of gcp/url_map.go makes of the matchers of a host.
use mathlib.Core.List.{◌++◌ as append}
use cli_plugin_gcp.Common.{
  List, [], ◌∷◌, String, Bool, true, false, ◌||◌, some, if◌then◌else◌, ◌==◌, string_eq, ◌≡◌, ◌≢◌,
  ◌⊎◌, refl, sym, ap, subst, ◌∙◌, arith, Bool-cases, inl, inr, All, All-append, any, any-append,
  contains,
}
use text.Mathlib.TextEquality.{eq_iff}
use cli_plugin_gcp.Url.Laws.{starts_with_slash}
use cli_plugin_gcp.UrlMap.{Target, UrlPathMatcher, to_matcher}
use cli_plugin_gcp.UrlMap.Made.{
  PathRule, PathMatcher, is_root, with_default, with_rule, add_matchers, default_target,
}
use cli_plugin_gcp.UrlMap.Groups.{IsMatcher, has_path}

abbrev pub to_rule : String → Target → PathRule
to_rule q u = record {
  paths = q ∷ [];
  service = u.service_id;
  path_prefix_rewrite = some u.path_redirect;
}

abbrev pub rule_has : String → PathRule → Bool
rule_has p r = contains p r.paths

with_default-rules :
    (m : UrlPathMatcher) (pm : PathMatcher) → (with_default m pm).path_rules ≡ pm.path_rules
with_default-rules m pm = elim (Bool-cases ((pm.default_service == "") || is_root m.paths)) [
  | inl e ↦ rw e refl
  | inr e ↦ rw e refl
]

with_default-new :
    (m : UrlPathMatcher) (pm : PathMatcher)
    → ((pm.default_service == "") || is_root m.paths) ≡ true
    → default_target (with_default m pm)
      ≡ record { service_id = m.service_id; path_redirect = m.path_prefix_rewrite }
with_default-new m pm e = rw e refl

with_default-old :
    (m : UrlPathMatcher) (pm : PathMatcher)
    → ((pm.default_service == "") || is_root m.paths) ≡ false
    → default_target (with_default m pm) ≡ default_target pm
with_default-old m pm e = rw e refl

with_rule-default :
    (m : UrlPathMatcher) (pm : PathMatcher) → default_target (with_rule m pm) ≡ default_target pm
with_rule-default m pm = elim (Bool-cases (is_root m.paths)) [
  | inl e ↦ rw e refl
  | inr e ↦ rw e refl
]

with_rule-rules :
    (m : UrlPathMatcher) (pm : PathMatcher)
    → (with_rule m pm).path_rules ≡ (
        if is_root m.paths
        then pm.path_rules
        else append pm.path_rules (
            record {
              paths = m.paths;
              service = m.service_id;
              path_prefix_rewrite = some m.path_prefix_rewrite;
            }
            ∷ []))
with_rule-rules m pm = elim (Bool-cases (is_root m.paths)) [ inl e ↦ rw e refl | inr e ↦ rw e refl ]

step-path_rules :
    (q : String) (u : Target) (pm : PathMatcher)
    → (with_rule (to_matcher q u) (with_default (to_matcher q u) pm)).path_rules
      ≡ (if q == "/*" then pm.path_rules else append pm.path_rules (to_rule q u ∷ []))
step-path_rules q u pm =
    with_rule-rules (to_matcher q u) (with_default (to_matcher q u) pm)
    ∙ ap (λ rs. if q == "/*" then rs else append rs (to_rule q u ∷ []))
        (with_default-rules (to_matcher q u) pm)

module _ (id : String → String) (h p : String) (t : Target) (host : String) where
  abbrev pub IsRule : PathRule → Type 0
  IsRule r =
      (q : String) × (u : Target) × (r ≡ to_rule q u)
      × (starts_with_slash q ≡ true)
      × (host ≡ h → q ≡ p → u ≡ t)

  step-rules :
      (m : UrlPathMatcher) (pm : PathMatcher)
      → IsMatcher id h p t host m
      → All IsRule pm.path_rules
      → All IsRule (with_rule m (with_default m pm)).path_rules
  step-rules m pm (q, u, made, slash, same, named) all = rw made (
      subst (All IsRule) (sym (step-path_rules q u pm)) (elim (Bool-cases (q == "/*")) [
        | inl e ↦ rw e all
        | inr e ↦
            rw e (
              All-append IsRule pm.path_rules (to_rule q u ∷ []) all
                ((q, u, refl, slash, same), tt))
      ]))

  pub add_matchers-rules :
      (ms : List UrlPathMatcher) (pm : PathMatcher)
      → All (IsMatcher id h p t host) ms
      → All IsRule pm.path_rules
      → All IsRule (add_matchers ms pm).path_rules
  unfolding add_matchers
  add_matchers-rules [] pm each all = all
  add_matchers-rules (m ∷ ms) pm (one, each) all =
      add_matchers-rules ms _ each (step-rules m pm one all)

-- the default of a host whose matchers have the root path
module _ (id : String → String) (h : String) (t : Target) (named : t.service_id ≢ "") where
  step-default :
      (m : UrlPathMatcher) (pm : PathMatcher)
      → IsMatcher id h "/*" t h m
      → (has_path "/*" m ≡ true) ⊎ (default_target pm ≡ t)
      → default_target (with_rule m (with_default m pm)) ≡ t
  step-default m pm (q, u, made, slash, same, filled) before = rw made (
      with_rule-default (to_matcher q u) (with_default (to_matcher q u) pm)
      ∙ elim (Bool-cases (q == "/*")) [
        | inl e ↦
            with_default-new (to_matcher q u) pm (ground (arith, e))
            ∙ same refl ((eq_iff q "/*").0 e)
        | inr e ↦ elim before [
          | inl here ↦ absurd (ground (arith, subst (λ n. has_path "/*" n ≡ true) made here))
          | inr done ↦
              with_default-old (to_matcher q u) pm
                (ground (arith, ap (λ v. v.service_id) done, eq_iff pm.default_service ""))
              ∙ done
        ]
      ])

  pub add_matchers-default :
      (ms : List UrlPathMatcher) (pm : PathMatcher)
      → All (IsMatcher id h "/*" t h) ms
      → (any (has_path "/*") ms ≡ true) ⊎ (default_target pm ≡ t)
      → default_target (add_matchers ms pm) ≡ t
  unfolding add_matchers
  add_matchers-default [] pm each (inl here) = absurd (ground arith)
  add_matchers-default [] pm each (inr done) = done
  add_matchers-default (m ∷ ms) pm (one, each) (inr done) =
      add_matchers-default ms _ each (inr (step-default m pm one (inr done)))
  add_matchers-default (m ∷ ms) pm (one, each) (inl here) = elim (Bool-cases (has_path "/*" m)) [
    | inl e ↦ add_matchers-default ms _ each (inr (step-default m pm one (inl e)))
    | inr e ↦ add_matchers-default ms _ each (inl (ground arith))
  ]

-- every other path has its rule
module _ (id : String → String) (h p : String) (t : Target) (other : p ≢ "/*") where
  step-has :
      (m : UrlPathMatcher) (pm : PathMatcher)
      → IsMatcher id h p t h m
      → any (rule_has p) (with_rule m (with_default m pm)).path_rules
        ≡ (any (rule_has p) pm.path_rules || has_path p m)
  step-has m pm (q, u, made, slash, same, named) = rw made (
      ap (any (rule_has p)) (step-path_rules q u pm) ∙ elim (Bool-cases (q == "/*")) [
        | inl e ↦ rw e (ground (arith, eq_iff q "/*", eq_iff q p, eq_iff p "/*"))
        | inr e ↦ rw e (any-append (rule_has p) pm.path_rules (to_rule q u ∷ []) ∙ ground arith)
      ])

  pub add_matchers-has :
      (ms : List UrlPathMatcher) (pm : PathMatcher)
      → All (IsMatcher id h p t h) ms
      → any (rule_has p) (add_matchers ms pm).path_rules
        ≡ (any (rule_has p) pm.path_rules || any (has_path p) ms)
  unfolding add_matchers
  add_matchers-has [] pm each = ground arith
  add_matchers-has (m ∷ ms) pm (one, each) =
      add_matchers-has ms _ each ∙ ground (arith, step-has m pm one)
