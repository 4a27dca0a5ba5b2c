-- ===== src/UrlMap/Keys.antt =====
-- The keys of a mapping: a host and a path are found again in their concatenation.
use Prim.Native.String.{◌++◌, String, [], ◌∷◌}
use cli_plugin_gcp.Common.{◌≡◌, refl, ap, sym, ◌∙◌, true, false, arith, Bool-cases, inl, inr}
use text.Mathlib.TextLemmas.{nil-append, cons-append}
use cli_plugin_gcp.Url.{is_slash, host_of, path_of}
use cli_plugin_gcp.Url.Laws.{has_slash, starts_with_slash}

host_of-path : (p : String) → starts_with_slash p ≡ true → host_of p ≡ ""
unfolding host_of
host_of-path [] e = refl
host_of-path (c ∷ p) e = rw e refl

path_of-path : (p : String) → starts_with_slash p ≡ true → path_of p ≡ p
unfolding path_of
path_of-path [] e = refl
path_of-path (c ∷ p) e = rw e refl

host_of-append :
    (h p : String) → has_slash h ≡ false → starts_with_slash p ≡ true → host_of (h ++ p) ≡ h
unfolding host_of
host_of-append [] p none' e = rw (nil-append p) (host_of-path p e)
host_of-append (c ∷ h) p none' e = elim (Bool-cases (is_slash c)) [
  | inl slash ↦ absurd (ground arith)
  | inr other ↦
      rw (cons-append c h p) (rw other (ap (λ s. c ∷ s) (host_of-append h p (ground arith) e)))
]

path_of-append :
    (h p : String) → has_slash h ≡ false → starts_with_slash p ≡ true → path_of (h ++ p) ≡ p
unfolding path_of
path_of-append [] p none' e = rw (nil-append p) (path_of-path p e)
path_of-append (c ∷ h) p none' e = elim (Bool-cases (is_slash c)) [
  | inl slash ↦ absurd (ground arith)
  | inr other ↦ rw (cons-append c h p) (rw other (path_of-append h p (ground arith) e))
]

module _ (h q k p : String) (h_none : has_slash h ≡ false) (k_none : has_slash k ≡ false)
    (q_starts : starts_with_slash q ≡ true) (p_starts : starts_with_slash p ≡ true)
    (same : h ++ q ≡ k ++ p) where
  pub hosts_same : h ≡ k
  hosts_same =
      sym (host_of-append h q h_none q_starts)
      ∙ ap host_of same
      ∙ host_of-append k p k_none p_starts

  pub paths_same : q ≡ p
  paths_same =
      sym (path_of-append h q h_none q_starts)
      ∙ ap path_of same
      ∙ path_of-append k p k_none p_starts
