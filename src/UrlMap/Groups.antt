-- ===== src/UrlMap/Groups.antt =====
-- What `cleanupURLMapping` of gcp/url_map.go makes of a mapping: for a host and a path, the matchers of
-- that host agree with the mapping, and one of them is there.
use cli_plugin_gcp.Common.{
  List, [], ◌∷◌, ◌++◌, map, String, Bool, true, false, ◌||◌, some, ◌==◌, string_eq, Dict, lookup,
  insert, ◌≡◌, ◌≢◌, refl, sym, ap, subst, ◌∙◌, arith, Bool-cases, Option-cases, inl, inr, All,
  All-append, All-map, any, any-append, contains, All-lookup, All-insert, All-same, is_distinct,
  is_distinct-insert, keys, lookup-insert, lookup-insert_self, All-both, any-map, any-lookup,
}
use text.Mathlib.TextEquality.{eq_iff}
use cli_plugin_gcp.Url.{split_url}
use cli_plugin_gcp.Url.Laws.{split_url-slash, has_slash, starts_with_slash}
use cli_plugin_gcp.UrlMap.{
  Target, UrlPathMatcher, UrlMapping, place, sort, matchers_at, to_matcher, by_host, sorted_mapping,
  cleanup_url_mapping, matcher_ltb, mapping_ltb,
}

-- Sorting keeps what holds of every element, and of some.
module _ {A : Type 0} (less : A → A → Bool) where
  All-place : (P : A → Type 0) (x : A) (xs : List A) → P x → All P xs → All P (place less x xs)
  unfolding place
  All-place P x [] p all = (p, tt)
  All-place P x (y ∷ ys) p (q, all) = elim (Bool-cases (less x y)) [
    | inl e ↦ rw e (p, (q, all))
    | inr e ↦ rw e (q, All-place P x ys p all)
  ]

  pub All-sort : (P : A → Type 0) (xs : List A) → All P xs → All P (sort less xs)
  unfolding sort
  All-sort P [] all = tt
  All-sort P (x ∷ xs) (p, all) = All-place P x (sort less xs) p (All-sort P xs all)

  any-place : (q : A → Bool) (x : A) (xs : List A) → any q (place less x xs) ≡ (q x || any q xs)
  unfolding place
  any-place q x [] = refl
  any-place q x (y ∷ ys) = ground (arith, any-place q x ys)

  pub any-sort : (q : A → Bool) (xs : List A) → any q (sort less xs) ≡ any q xs
  unfolding sort
  any-sort q [] = refl
  any-sort q (x ∷ xs) = ground (arith, any-place q x (sort less xs), any-sort q xs)

abbrev pub has_path : String → UrlPathMatcher → Bool
has_path p m = contains p m.paths

-- `id` is GenericID at the name of the map. Of an entry: it has the target t if it falls on the host h and
-- the path p, it names a service, and the id of its host is that of h only if the host is h.
module _ (id : String → String) (h p : String) (t : Target) where
  abbrev pub IsEntry : String × Target → Type 0
  IsEntry e =
      ((split_url e.0).0 ≡ h → (split_url e.0).1 ≡ p → e.1 ≡ t)
      × (e.1.service_id ≢ "")
      × (id (split_url e.0).0 ≡ id h → (split_url e.0).0 ≡ h)

  -- the same of a matcher of a host, and of the matchers of a host
  abbrev pub IsMatcher : String → UrlPathMatcher → Type 0
  IsMatcher host m =
      (q : String) × (u : Target) × (m ≡ to_matcher q u)
      × (starts_with_slash q ≡ true)
      × (host ≡ h → q ≡ p → u ≡ t)
      × (u.service_id ≢ "")

  abbrev pub IsGroup : String × List UrlPathMatcher → Type 0
  IsGroup e =
      (has_slash e.0 ≡ false)
      × (id e.0 ≡ id h → e.0 ≡ h)
      × All (IsMatcher e.0) e.1
      × (any (λ m. true) e.1 ≡ true)

  matchers_at-IsGroup :
      (host : String) (d : Dict (List UrlPathMatcher))
      → All IsGroup d
      → All (IsMatcher host) (matchers_at (lookup host d))
  matchers_at-IsGroup host d all = elim (Option-cases (lookup host d)) [
    | inl e ↦ rw e tt
    | inr (ms, e) ↦ rw e ((All-lookup IsGroup d host ms all e).2)
  ]

  by_host-IsGroup :
      (m : Dict Target) (d : Dict (List UrlPathMatcher))
      → All IsEntry m
      → All IsGroup d
      → All IsGroup (by_host m d)
  unfolding by_host
  by_host-IsGroup [] d es gs = gs
  by_host-IsGroup ((k, v) ∷ m) d ((same, named, clash), es) gs =
      let (host_slash, path_slash, _) = split_url-slash k in
      by_host-IsGroup m _ es (
        All-insert IsGroup d _ _ gs (
          host_slash,
          clash,
          All-append (IsMatcher _) (matchers_at (lookup (split_url k).0 d))
              (to_matcher (split_url k).1 v ∷ []) (matchers_at-IsGroup (split_url k).0 d gs)
              (((split_url k).1, v, refl, path_slash, same, named), tt),
          ground (
            arith,
            any-append (λ x. true) (matchers_at (lookup (split_url k).0 d))
                (to_matcher (split_url k).1 v ∷ []),
          ),
        ))

by_host-distinct :
    (m : Dict Target) (d : Dict (List UrlPathMatcher))
    → is_distinct (keys d) ≡ true
    → is_distinct (keys (by_host m d)) ≡ true
unfolding by_host
by_host-distinct [] d e = e
by_host-distinct ((k, v) ∷ m) d e = by_host-distinct m _ (is_distinct-insert _ _ d e)

-- a path that a host has stays, and every entry adds its own
insert-stays :
    (h p host : String) (m : UrlPathMatcher) (d : Dict (List UrlPathMatcher))
    → any (has_path p) (matchers_at (lookup h d)) ≡ true
    → any
        (has_path p)
        (matchers_at (lookup h (insert host (matchers_at (lookup host d) ++ (m ∷ [])) d)))
      ≡ true
insert-stays h p host m d e = elim (Bool-cases (host == h)) [
  | inl same ↦ rw (lookup-insert host h (matchers_at (lookup host d) ++ (m ∷ [])) d) (
      rw same (
        rw ((eq_iff host h).0 same)
          (rw (any-append (has_path p) (matchers_at (lookup h d)) (m ∷ [])) (rw e refl))))
  | inr other ↦ rw (lookup-insert host h (matchers_at (lookup host d) ++ (m ∷ [])) d) (rw other e)
]

insert-adds :
    (p host : String) (ms : List UrlPathMatcher) (v : Target) (d : Dict (List UrlPathMatcher))
    → any (has_path p) (matchers_at (lookup host (insert host (ms ++ (to_matcher p v ∷ [])) d)))
      ≡ true
insert-adds p host ms v d =
    rw (lookup-insert_self host (ms ++ (to_matcher p v ∷ [])) d)
      (ground (arith, any-append (has_path p) ms (to_matcher p v ∷ []), eq_iff p p))

by_host-stays :
    (h p : String) (m : Dict Target) (d : Dict (List UrlPathMatcher))
    → any (has_path p) (matchers_at (lookup h d)) ≡ true
    → any (has_path p) (matchers_at (lookup h (by_host m d))) ≡ true
unfolding by_host
by_host-stays h p [] d e = e
by_host-stays h p ((k, v) ∷ m) d e =
    by_host-stays h p m _ (insert-stays h p (split_url k).0 (to_matcher (split_url k).1 v) d e)

by_host-has :
    (k : String) (t : Target) (m : Dict Target) (d : Dict (List UrlPathMatcher))
    → lookup k m ≡ some t
    → any (has_path (split_url k).1) (matchers_at (lookup (split_url k).0 (by_host m d))) ≡ true
unfolding by_host
by_host-has k t [] d e = absurd (ground arith)
by_host-has k t ((j, v) ∷ m) d e = elim (Bool-cases (j == k)) [
  | inl same ↦ by_host-stays (split_url k).0 (split_url k).1 m _ (
      subst
        (λ i.
          any (has_path (split_url k).1) (
            matchers_at (
              lookup (split_url k).0 (
                insert (split_url i).0
                  (matchers_at (lookup (split_url i).0 d) ++ (to_matcher (split_url i).1 v ∷ []))
                  d)))
          ≡ true)
        (sym ((eq_iff j k).0 same))
        (insert-adds (split_url k).1 (split_url k).0 (matchers_at (lookup (split_url k).0 d)) v d))
  | inr other ↦ by_host-has k t m _ (ground arith)
]

-- The groups that come out: all are well made, those of the host have the path, and there is one.
module _ (id : String → String) (k : String) (t : Target) where
  abbrev pub IsMapping : UrlMapping → Type 0
  IsMapping g =
      IsGroup id (split_url k).0 (split_url k).1 t (g.host, g.path_matcher)
      × (g.host ≡ (split_url k).0 → any (has_path (split_url k).1) g.path_matcher ≡ true)

  sorted-IsMapping :
      (e : String × List UrlPathMatcher)
      → IsGroup id (split_url k).0 (split_url k).1 t e
      → (e.0 ≡ (split_url k).0 → any (has_path (split_url k).1) e.1 ≡ true)
      → IsMapping (sorted_mapping e)
  sorted-IsMapping e (slash, clash, all, some') has = (
    (slash, clash, All-sort matcher_ltb _ e.1 all, any-sort matcher_ltb (λ m. true) e.1 ∙ some'),
    λ same. any-sort matcher_ltb (has_path (split_url k).1) e.1 ∙ has same,
  )

  pub cleanup-IsMapping :
      (m : Dict Target)
      → lookup k m ≡ some t
      → All (IsEntry id (split_url k).0 (split_url k).1 t) m
      → All IsMapping (cleanup_url_mapping m)
        × (any (λ g. g.host == (split_url k).0) (cleanup_url_mapping m) ≡ true)
  unfolding cleanup_url_mapping
  cleanup-IsMapping m e es =
      let h = (split_url k).0 in
      let p = (split_url k).1 in
      let d = by_host m [] in
      let has = by_host-has k t m [] e in
      elim (Option-cases (lookup h d)) [
        | inl missing ↦ absurd (ground arith)
        | inr (ms, found) ↦
            let groups =
              All-both (IsGroup id h p t) (λ g. g.0 ≡ h → g.1 ≡ ms) d
                (by_host-IsGroup id h p t m [] es tt)
                (All-same h ms d (by_host-distinct m [] refl) found) in
            (
              All-sort mapping_ltb IsMapping (map sorted_mapping d) (
                  All-map _ IsMapping sorted_mapping d
                    (λ g (good, same).
                      sorted-IsMapping g good
                        (λ at. ap (any (has_path p)) (same at) ∙ ground arith))
                    groups),
              any-sort mapping_ltb (λ g. g.host == h) (map sorted_mapping d)
                  ∙ any-map (λ g. g.host == h) sorted_mapping d
                  ∙ any-lookup h ms d found,
            )
      ]
