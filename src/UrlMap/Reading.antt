-- ===== src/UrlMap/Reading.antt =====
-- What the loops of `Read` of gcp/url_map.go take from a path matcher, under the key of a host and a path.
use Prim.Native.String.{◌++◌}
use cli_plugin_gcp.Common.{
  List, [], ◌∷◌, String, true, false, some, ◌==◌, string_eq, Dict, lookup, insert, ◌≡◌, ◌≢◌, refl,
  sym, ap, subst, ◌∙◌, arith, Bool-cases, inl, inr, All, any, lookup-insert, lookup-insert_self,
}
use text.Mathlib.TextEquality.{eq_iff}
use cli_plugin_gcp.Url.Laws.{has_slash, starts_with_slash}
use cli_plugin_gcp.UrlMap.{Target}
use cli_plugin_gcp.UrlMap.Made.{
  PathRule, PathMatcher, default_target, read_rules, read_paths, read_matcher,
}
use cli_plugin_gcp.UrlMap.Matchers.{IsRule, rule_has}
use cli_plugin_gcp.UrlMap.Keys.{hosts_same, paths_same}

pub insert-keeps :
    {V : Type 0} (k j : String) (v t : V) (m : Dict V)
    → (j ≡ k → v ≡ t)
    → lookup k m ≡ some t
    → lookup k (insert j v m) ≡ some t
insert-keeps k j v t m same h = elim (Bool-cases (j == k)) [
  | inl e ↦ rw (lookup-insert j k v m) (rw e (ap some (same ((eq_iff j k).0 e))))
  | inr e ↦ rw (lookup-insert j k v m) (rw e h)
]

module _ (id : String → String) (h p : String) (t : Target) where
  -- Of a path matcher that stands for a host: its rules are well made, and if the host is h, then it has
  -- the target t for the path p.
  abbrev pub IsHostMatcher : String → PathMatcher → Type 0
  IsHostMatcher host pm =
      All (IsRule id h p t host) pm.path_rules
      × (host ≡ h → p ≡ "/*" → default_target pm ≡ t)
      × (host ≡ h → p ≢ "/*" → any (rule_has p) pm.path_rules ≡ true)

module _ (id : String → String) (h p : String) (t : Target) (h_slash : has_slash h ≡ false)
    (p_slash : starts_with_slash p ≡ true) where
  module _ (host : String) (host_slash : has_slash host ≡ false) where
    read_rules-keeps :
        (redirect : String) (rs : List PathRule) (m : Dict Target)
        → All (IsRule id h p t host) rs
        → lookup (h ++ p) m ≡ some t
        → lookup (h ++ p) (read_rules host redirect rs m) ≡ some t
    unfolding read_rules read_paths
    read_rules-keeps redirect [] m all e = e
    read_rules-keeps redirect (r ∷ rs) m ((q, u, made, slash, same), all) e =
        read_rules-keeps redirect rs _ all (
          rw made (
            insert-keeps (h ++ p) (host ++ q) u t m
              (λ at.
                same (hosts_same host q h p host_slash h_slash slash p_slash at)
                  (paths_same host q h p host_slash h_slash slash p_slash at))
              e))

    pub read_matcher-keeps :
        (pm : PathMatcher) (m : Dict Target)
        → IsHostMatcher id h p t host pm
        → lookup (h ++ p) m ≡ some t
        → lookup (h ++ p) (read_matcher host pm m) ≡ some t
    read_matcher-keeps pm m (all, root, other) e = read_rules-keeps _ pm.path_rules _ all (
        insert-keeps (h ++ p) (host ++ "/*") (default_target pm) t m
          (λ at.
            root (hosts_same host "/*" h p host_slash h_slash refl p_slash at)
              (sym (paths_same host "/*" h p host_slash h_slash refl p_slash at)))
          e)

  read_rules-writes :
      (redirect : String) (rs : List PathRule) (m : Dict Target)
      → All (IsRule id h p t h) rs
      → any (rule_has p) rs ≡ true
      → lookup (h ++ p) (read_rules h redirect rs m) ≡ some t
  unfolding read_rules read_paths
  read_rules-writes redirect [] m all e = absurd (ground arith)
  read_rules-writes redirect (r ∷ rs) m ((q, u, made, slash, same), all) e =
      elim (Bool-cases (q == p)) [
        | inl here ↦
            let q_p = (eq_iff q p).0 here in
            read_rules-keeps h h_slash redirect rs _ all (
              rw made (
                subst (λ x. lookup (h ++ x) (insert (h ++ q) u m) ≡ some t) q_p
                  (lookup-insert_self (h ++ q) u m ∙ ap some (same refl q_p))))
        | inr later ↦
            read_rules-writes redirect rs _ all
              (ground (arith, subst (λ x. any (rule_has p) (x ∷ rs) ≡ true) made e))
      ]

  pub read_matcher-writes :
      (pm : PathMatcher) (m : Dict Target)
      → IsHostMatcher id h p t h pm
      → lookup (h ++ p) (read_matcher h pm m) ≡ some t
  read_matcher-writes pm m (all, root, other) = elim (Bool-cases (p == "/*")) [
    | inl e ↦
        let p_root = (eq_iff p "/*").0 e in
        read_rules-keeps h h_slash _ pm.path_rules _ all (
          subst (λ x. lookup (h ++ x) (insert (h ++ "/*") (default_target pm) m) ≡ some t)
            (sym p_root)
            (lookup-insert_self (h ++ "/*") (default_target pm) m ∙ ap some (root refl p_root)))
    | inr e ↦
        read_rules-writes _ pm.path_rules _ all (other refl (λ at. ground (arith, eq_iff p "/*")))
  ]
