-- ===== src/UrlMap/Names.antt =====
-- The path matchers of a map by their names, in the loops of gcp/url_map.go: each stands for the host
-- whose id is its name.
use cli_plugin_gcp.Common.{
  List, [], ◌∷◌, map, String, Bool, true, false, none, some, ◌==◌, string_eq, Dict, lookup, insert,
  ◌≡◌, ◌≢◌, refl, sym, ap, subst, ◌∙◌, arith, Bool-cases, inl, inr, All, All-weaken, All-map, any,
  All-insert, lookup-insert,
}
use text.Mathlib.TextEquality.{eq_iff}
use cli_plugin_gcp.Common.Action.{ok}
use cli_plugin_gcp.Url.{split_url}
use cli_plugin_gcp.UrlMap.{Target, UrlMapping, UrlPathMatcher}
use cli_plugin_gcp.UrlMap.Made.{
  PathMatcher, no_rules, with_default, with_rule, is_root, add_matchers, first_service, default_of,
  path_matcher_of, by_name,
}
use cli_plugin_gcp.UrlMap.Groups.{IsMatcher, has_path, IsMapping}
use cli_plugin_gcp.UrlMap.Matchers.{add_matchers-rules, add_matchers-default, add_matchers-has}
use cli_plugin_gcp.UrlMap.Reading.{IsHostMatcher}

step-name :
    (m : UrlPathMatcher) (pm : PathMatcher) → (with_rule m (with_default m pm)).name ≡ pm.name
step-name m pm = elim (Bool-cases (is_root m.paths)) [
  | inl root ↦ ground (arith, root)
  | inr other ↦ ground (arith, other)
]

add_matchers-name :
    (ms : List UrlPathMatcher) (pm : PathMatcher) → (add_matchers ms pm).name ≡ pm.name
unfolding add_matchers
add_matchers-name [] pm = refl
add_matchers-name (m ∷ ms) pm = add_matchers-name ms _ ∙ step-name m pm

first_service-ok :
    (ms : List UrlPathMatcher)
    → any (λ m. true) ms ≡ true
    → (s : String) × (first_service ms ≡ ok s)
first_service-ok [] e = absurd (ground arith)
first_service-ok (m ∷ ms) e = (m.service_id, refl)

pub default_of-ok :
    (id : String → String) (k : String) (t : Target) (gs : List UrlMapping)
    → All (IsMapping id k t) gs
    → (s : String) × (default_of gs ≡ ok s)
default_of-ok id k t [] all = ("", refl)
default_of-ok id k t (g ∷ gs) (((slash, clash, each, some'), has), all) =
    first_service-ok g.path_matcher some'

-- `pathMatchersMap`: a name that is there stays, and every path matcher adds its own
unfoldable pub has_name : String → Dict PathMatcher → Bool
has_name n m = elim (lookup n m) [ none ↦ false | some pm ↦ true ]

by_name-stays :
    (n : String) (pms : List PathMatcher) (m : Dict PathMatcher)
    → has_name n m ≡ true
    → has_name n (by_name pms m) ≡ true
unfolding by_name has_name
by_name-stays n [] m e = e
by_name-stays n (pm ∷ pms) m e =
    by_name-stays n pms _ (ground (arith, lookup-insert pm.name n pm m))

pub by_name-All :
    (P : String × PathMatcher → Type 0) (pms : List PathMatcher) (m : Dict PathMatcher)
    → All P m
    → All (λ pm. P (pm.name, pm)) pms
    → All P (by_name pms m)
unfolding by_name
by_name-All P [] m all new = all
by_name-All P (pm ∷ pms) m all (one, new) =
    by_name-All P pms _ (All-insert P m pm.name pm all one) new

module _ (generic_id : String → String → String) (name k : String) (t : Target) where
  abbrev id : String → String
  id = generic_id name

  path_matcher_of-name : (g : UrlMapping) → (path_matcher_of generic_id name g).name ≡ id g.host
  path_matcher_of-name g = add_matchers-name g.path_matcher (no_rules (id g.host))

  by_name-adds :
      (n : String) (pm : PathMatcher) (m : Dict PathMatcher)
      → pm.name ≡ n
      → has_name n (insert pm.name pm m) ≡ true
  unfolding has_name
  by_name-adds n pm m e = ground (arith, lookup-insert pm.name n pm m, eq_iff pm.name n)

  pub by_name-has :
      (gs : List UrlMapping) (m : Dict PathMatcher)
      → All
          (λ g. has_name (id g.host) (by_name (map (path_matcher_of generic_id name) gs) m) ≡ true)
          gs
  unfolding by_name
  by_name-has [] m = tt
  by_name-has (g ∷ gs) m = (
    by_name-stays (id g.host) (map (path_matcher_of generic_id name) gs) _
        (by_name-adds (id g.host) _ m (path_matcher_of-name g)),
    by_name-has gs _,
  )

  abbrev h : String
  h = (split_url k).0

  abbrev p : String
  p = (split_url k).1

  -- of a path matcher under its name: it stands for every host that has the name as its id
  abbrev pub IsNamed : String × PathMatcher → Type 0
  IsNamed e = (host : String) → e.0 ≡ id host → IsHostMatcher id h p t host e.1

  module _ (named : t.service_id ≢ "") where
    path_matcher_of-IsHostMatcher :
        (g : UrlMapping)
        → IsMapping id k t g
        → IsHostMatcher id h p t g.host (path_matcher_of generic_id name g)
    path_matcher_of-IsHostMatcher g ((slash, clash, each, some'), has) = (
      add_matchers-rules id h p t g.host g.path_matcher _ each tt,
      (λ at root.
          add_matchers-default id h t named g.path_matcher _
            (subst (λ x. All (IsMatcher id h x t h) g.path_matcher) root
              (subst (λ x. All (IsMatcher id h p t x) g.path_matcher) at each))
            (inl (subst (λ x. any (has_path x) g.path_matcher ≡ true) root (has at)))),
      (λ at other.
          add_matchers-has id h p t other g.path_matcher _
            (subst (λ x. All (IsMatcher id h p t x) g.path_matcher) at each)
          ∙ has at),
    )

    path_matcher_of-IsNamed :
        (g : UrlMapping)
        → IsMapping id k t g
        → IsNamed ((path_matcher_of generic_id name g).name, path_matcher_of generic_id name g)
    path_matcher_of-IsNamed g good host at =
        let (all, root, other) = path_matcher_of-IsHostMatcher g good in
        elim (Bool-cases (host == h)) [
          | inl e ↦
              let host_h = (eq_iff host h).0 e in
              let g_h = good.0.1 (sym (path_matcher_of-name g) ∙ at ∙ ap id host_h) in
              subst (λ x. IsHostMatcher id h p t x (path_matcher_of generic_id name g))
                (g_h ∙ sym host_h) (all, root, other)
          | inr e ↦
              let differs : host ≢ h = λ same. ground (arith, eq_iff host h) in
              (
                All-weaken _ _ _
                    (λ r (q, u, made, slash, same).
                      (q, u, made, slash, λ at'. absurd (differs at')))
                    all,
                (λ at'. absurd (differs at')),
                (λ at'. absurd (differs at')),
              )
        ]

    pub path_matchers-IsNamed :
        (gs : List UrlMapping)
        → All (IsMapping id k t) gs
        → All (λ pm. IsNamed (pm.name, pm)) (map (path_matcher_of generic_id name) gs)
    path_matchers-IsNamed gs =
        All-map _ _ (path_matcher_of generic_id name) gs path_matcher_of-IsNamed
