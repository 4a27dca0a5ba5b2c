-- ===== src/EnsureApi/Tests.antt =====
-- A call that needs one API which is not enabled.
use cli_plugin_gcp.Common.{
  ℕ, ◌≡◌, ◌≢◌, refl, String, List, [], ◌∷◌, none, some, if◌then◌else◌, contains, string_eq, arith,
}
use cli_plugin_gcp.Common.Action.{Action, ok, err, Fault, api, info}
use cli_plugin_gcp.ApiErrors.{missing_in, missing_api, err_extract_missing_api}
use cli_plugin_gcp.EnsureApi.{Session, run_and_ensure_api, run_from, after_call, retry, ensure_api}
use cli_plugin_gcp.EnsureApi.Termination.{IsListed, run_and_ensure_api-ne-none}

abbrev disabled : Fault
disabled = api 403 (
    info "type.googleapis.com/google.rpc.ErrorInfo"
      (some (("service", "secretmanager.googleapis.com") ∷ []))
    ∷ [])

-- the world: the APIs that are enabled
abbrev use_secrets : Action (List String) ℕ
use_secrets w = (if contains "secretmanager.googleapis.com" w then ok 7 else err disabled, w)

abbrev enable : String → Action (List String) (Unit {0})
enable a w = (ok tt, a ∷ w)

abbrev fresh : Session (List String)
fresh = record { world = []; apis_enabled = [] }

enabled_on_the_way : (run_and_ensure_api enable 3 use_secrets fresh).0 ≡ ok (some 7)
unfolding run_and_ensure_api run_from after_call retry ensure_api missing_in missing_api
    err_extract_missing_api
enabled_on_the_way = refl

named : err_extract_missing_api (some disabled) ≡ ok "secretmanager.googleapis.com"
unfolding missing_in missing_api err_extract_missing_api
named = refl

is_disabled : (w : List String) (e : Fault) → (use_secrets w).0 ≡ err e → e ≡ disabled
is_disabled w e failed = ground arith

is_secrets :
    (e : Fault) (a : String)
    → e ≡ disabled
    → err_extract_missing_api (some e) ≡ ok a
    → a ≡ "secretmanager.googleapis.com"
is_secrets e a same said = ground (arith, named)

listed : IsListed ("secretmanager.googleapis.com" ∷ []) use_secrets
listed w e a failed said ne = rw (is_secrets e a (is_disabled w e failed) said) refl

run_and_ensure_api-ne-none_example : (run_and_ensure_api enable 2 use_secrets fresh).0 ≢ ok none
run_and_ensure_api-ne-none_example =
    run_and_ensure_api-ne-none enable ("secretmanager.googleapis.com" ∷ []) use_secrets listed 2
      fresh (omega arith)
