-- ===== src/Url/Laws.antt =====
-- What `SplitURL` gives to a URL map: hosts without a path, and paths that begin with a slash and do
-- not end with one.
use Prim.Native.String.{◌++◌, String, [], ◌∷◌}
use cli_plugin_gcp.Common.{
  Bool, ap, sym, ◌∙◌, true, false, ◌≡◌, ◌≢◌, refl, arith, Bool-cases, inl, inr, if◌then◌else◌, ◌==◌,
  string_eq,
}
use text.Mathlib.TextLemmas.{cons-append}
use text.Mathlib.TextEquality.{eq_iff}
use cli_plugin_gcp.Url.{is_slash, host_of, path_of, ends_in_slash, mapped, split_url}

abbrev pub starts_with_slash : String → Bool
starts_with_slash [] = false
starts_with_slash (c ∷ s) = is_slash c

abbrev pub has_slash : String → Bool
has_slash [] = false
has_slash (c ∷ s) = if is_slash c then true else has_slash s

host_of-slash : (s : String) → has_slash (host_of s) ≡ false
unfolding host_of
host_of-slash [] = refl
host_of-slash (c ∷ s) = elim (Bool-cases (is_slash c)) [
  | inl here ↦ rw here refl
  | inr more ↦ rw more (ap (λ b. if b then true else has_slash (host_of s)) more ∙ host_of-slash s)
]

path_of-slash : (s : String) → path_of s ≢ "" → starts_with_slash (path_of s) ≡ true
unfolding path_of
path_of-slash [] h = absurd (h refl)
path_of-slash (c ∷ s) h = ground (arith, path_of-slash s)

starts-append : (s t : String) → starts_with_slash s ≡ true → starts_with_slash (s ++ t) ≡ true
starts-append [] t h = cc
starts-append (c ∷ s) t h = rw cons-append h

ends-star : (s : String) → ends_in_slash (s ++ "*") ≡ false
unfolding ends_in_slash
ends-star [] = refl
ends-star (c ∷ []) = rw cons-append refl
ends-star (c ∷ d ∷ s) =
    rw (cons-append, cons-append)
      (ap (λ u. ends_in_slash u) (sym (cons-append d s "*")) ∙ ends-star (d ∷ s))

mapped-slash :
    (p : String)
    → (p ≢ "" → starts_with_slash p ≡ true)
    → (starts_with_slash (mapped p) ≡ true) × (ends_in_slash (mapped p) ≡ false)
unfolding mapped ends_in_slash
mapped-slash p h = elim (Bool-cases (p == "")) [
  | inl empty ↦ rw empty (refl, refl)
  | inr some ↦ elim (Bool-cases (p == "/")) [
    | inl root ↦ rw (some, root) (refl, refl)
    | inr more ↦ elim (Bool-cases (ends_in_slash p)) [
      | inl folder ↦
          rw (some, more, folder)
            (starts-append p "*" (h (λ e. ground (arith, eq_iff p ""))), ends-star p)
      | inr file ↦ rw (some, more, file) (h (λ e. ground (arith, eq_iff p "")), file)
    ]
  ]
]

-- Of every URL, `SplitURL` gives a host in which there is no slash and a path that begins with a
-- slash and does not end with one.
pub split_url-slash :
    (url : String)
    → (has_slash (split_url url).0 ≡ false)
      × (starts_with_slash (split_url url).1 ≡ true)
      × (ends_in_slash (split_url url).1 ≡ false)
unfolding split_url
split_url-slash url =
    let (starts, ends) = mapped-slash (path_of _) (path_of-slash _) in
    (host_of-slash _, starts, ends)
