-- ===== src/EnsureApi/Termination.antt =====
-- `runAndEnsureAPI` of plugin/plugin.go retries at most once for each API that it sees missing.
use text.Mathlib.TextEquality.{eq_iff}
use cli_plugin_gcp.Common.{
  ℕ, zero, suc, ◌≤◌, ◌<◌, ◌≡◌, ◌≢◌, String, true, false, not, List, [], ◌∷◌, Option, none, some,
  arith, ◌==◌, string_eq, contains, keep, length, Bool-cases, inl, inr,
}
use cli_plugin_gcp.Common.Action.{Action, ok, err, Fault, bind_rule, ◌>>◌, Result-cases}
use cli_plugin_gcp.ApiErrors.{err_extract_missing_api}
use cli_plugin_gcp.EnsureApi.{
  run_and_ensure_api, lift, Session, ensure_api, retry, after_call, run_from,
}

-- The listed APIs that are not seen yet.
abbrev pub unseen : List String → List String → ℕ
unseen apis seen = length (keep (λ a. not (contains a seen)) apis)

contains_more :
    (a b : String) (seen : List String) → contains a seen ≡ true → contains a (b ∷ seen) ≡ true
contains_more a b seen h = ground arith

unseen_le : (apis seen : List String) (b : String) → unseen apis (b ∷ seen) ≤ unseen apis seen
unseen_le [] seen b = omega arith
unseen_le (a ∷ apis) seen b = ground (arith, unseen_le apis seen b)

unseen_lt :
    (apis seen : List String) (b : String)
    → contains b apis ≡ true
    → contains b seen ≡ false
    → unseen apis (b ∷ seen) < unseen apis seen
unseen_lt [] seen b h k = cc
unseen_lt (a ∷ apis) seen b h k = elim (Bool-cases (a == b)) [
  | inl same ↦ ground (arith, eq_iff a b, eq_iff b a, unseen_le apis seen b)
  | inr other ↦ ground (arith, eq_iff a b, eq_iff b a, unseen_lt apis seen b)
]

unseen-le_length : (apis : List String) → unseen apis [] ≤ length apis
unseen-le_length [] = omega arith
unseen-le_length (a ∷ apis) = ground (arith, unseen-le_length apis)

-- Every API that a failure of `f` reports as missing is in the list.
abbrev pub IsListed : {W A : Type 0} → List String → Action W A → Type 0
IsListed {W} apis f =
    (s : W) (e : Fault) (a : String)
    → (f s).0 ≡ err e
    → err_extract_missing_api (some e) ≡ ok a
    → a ≢ ""
    → contains a apis ≡ true

module _ {W A : Type 0} (create_service : String → Action W (Unit {0})) where
  -- a round that goes on: the API is enabled, or that fails
  ensured-ne-none :
      (missing : String) (seen : List String) (rest : List String → Action (Session W) (Option A))
      (s : Session W)
      → ((t : Session W) → (rest (missing ∷ seen) t).0 ≢ ok none)
      → ((ensure_api create_service (missing ∷ []) >> rest (missing ∷ seen)) s).0 ≢ ok none
  ensured-ne-none missing seen rest s more =
      bind_rule (λ out. out.0 ≢ ok none) (λ _. rest (missing ∷ seen))
        (ensure_api create_service (missing ∷ [])) s (λ e _. ground arith) (λ _. ground arith)
        (λ _ _. more _)

  retry-ne-none :
      (missing : String) (seen : List String) (rest : List String → Action (Session W) (Option A))
      (e : Fault) (s : Session W)
      → (missing ≢ ""
          → contains missing seen ≡ false
          → (t : Session W) → (rest (missing ∷ seen) t).0 ≢ ok none)
      → (retry create_service seen rest e (ok missing) s).0 ≢ ok none
  unfolding retry
  retry-ne-none missing seen rest e s more = elim (Bool-cases (missing == "")) [
    | inl empty ↦ ground arith
    | inr named ↦ elim (Bool-cases (contains missing seen)) [
      | inl twice ↦ ground arith
      | inr first ↦ rw named (
          rw first (
            ensured-ne-none missing seen rest s
              (more (λ same. ground (arith, eq_iff missing "")) first)))
    ]
  ]

  pub run_from-ne-none :
      (apis : List String) (f : Action W A) (listed : IsListed apis f) (fuel : ℕ)
      (seen : List String) (s : Session W)
      → unseen apis seen < fuel
      → (run_from create_service fuel f seen s).0 ≢ ok none
  unfolding run_from after_call retry
  run_from-ne-none apis f listed zero seen s h = omega arith
  run_from-ne-none apis f listed (suc fuel) seen s h = elim (Result-cases (f s.world).0) [
    | inl (a, done) ↦ rw done (λ bad. ground arith)
    | inr (inl (e, failed)) ↦ rw failed (elim (Result-cases (err_extract_missing_api (some e))) [
      | inl (missing, said) ↦ rw said (
          retry-ne-none missing seen (λ seen' t. run_from create_service fuel f seen' t) e
            (lift f s).1
            λ named fresh t. run_from-ne-none apis f listed fuel (missing ∷ seen) t (
              ground (
                arith,
                unseen_lt apis seen missing (listed s.world e missing failed said named) fresh,
              )))
      | inr (inl (x, said)) ↦ rw said (λ bad. ground arith)
      | inr (inr said) ↦ rw said (λ bad. ground arith)
    ])
    | inr (inr crashed) ↦ rw crashed (λ bad. ground arith)
  ]

  -- With more fuel than there are APIs that the failures of `f` can name, the retries come to an end:
  -- one of them decides how `run_and_ensure_api` ends.
  pub run_and_ensure_api-ne-none :
      (apis : List String) (f : Action W A) (listed : IsListed apis f) (fuel : ℕ) (s : Session W)
      → length apis < fuel
      → (run_and_ensure_api create_service fuel f s).0 ≢ ok none
  unfolding run_and_ensure_api
  run_and_ensure_api-ne-none apis f listed fuel s enough =
      run_from-ne-none apis f listed fuel [] s (omega (arith, unseen-le_length apis))
