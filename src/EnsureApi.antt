-- ===== src/EnsureApi.antt =====
-- plugin/plugin.go: `ensureAPI` and `runAndEnsureAPI`. A call that fails because an API is not enabled
-- is made again once the API is enabled. The retries have fuel here: `none` means that it ran out.
-- The state holds, beside the world, the APIs that the plugin has enabled (`apisEnabled`).
pub mod Termination
mod Tests
use cli_plugin_gcp.Common.{
  ℕ, zero, suc, String, Bool, true, false, List, [], ◌∷◌, Option, none, some, if◌then◌else◌, ◌==◌,
  string_eq, contains,
}
use cli_plugin_gcp.Common.Action.{
  Action, Result, ok, err, panic, Fault, wrap, pure, fail, crash, try, ◌>>=◌, ◌>>◌,
}
use cli_plugin_gcp.ApiErrors.{err_extract_missing_api}

pub record Session (W : Type 0) : Type 0 where
  pub world : W
  pub apis_enabled : List String

module _ {W : Type 0} where
  -- a call that does not touch the plugin's own state
  abbrev pub lift : {A : Type 0} → Action W A → Action (Session W) A
  lift m s = ((m s.world).0, record s { world = (m s.world).1 })

  abbrev note_enabled : String → Action (Session W) (Unit {0})
  note_enabled a s = (ok tt, record s { apis_enabled = a ∷ s.apis_enabled })

  abbrev enabled_result : String → Result (Unit {0}) → Action (Session W) (Unit {0})
  enabled_result a (ok _) = note_enabled a
  enabled_result a (err e) = fail (wrap "error enabling required apis" e)
  enabled_result a panic = crash

module _ {W : Type 0} (create_service : String → Action W (Unit {0})) where
  -- `create_service` is `Create` of gcp/api_service.go
  pub ensure_api : List String → Action (Session W) (Unit {0})
  ensure_api [] s = (ok tt, s)
  ensure_api (a ∷ as') s =
      if contains a s.apis_enabled
      then ensure_api as' s
      else (try (lift (create_service a)) >>= enabled_result a >> ensure_api as') s

  -- after a failed call: what the error says of a missing API decides; `rest` is the next round
  pub retry :
      {A : Type 0}
      → List String
      → (List String → Action (Session W) (Option A))
      → Fault
      → Result String
      → Action (Session W) (Option A)
  retry seen rest e (ok missing) =
      if missing == ""
      then fail e
      else if contains missing seen
      then fail e
      else (ensure_api (missing ∷ []) >> rest (missing ∷ seen))
  retry seen rest e (err x) = fail x
  retry seen rest e panic = crash

  pub after_call :
      {A : Type 0}
      → List String
      → (List String → Action (Session W) (Option A))
      → Result A
      → Action (Session W) (Option A)
  after_call seen rest (ok a) = pure (some a)
  after_call seen rest (err e) = retry seen rest e (err_extract_missing_api (some e))
  after_call seen rest panic = crash

  -- the loop of `runAndEnsureAPI`, from the APIs that it has seen missing
  pub run_from : {A : Type 0} → ℕ → Action W A → List String → Action (Session W) (Option A)
  run_from zero f seen = pure none
  run_from (suc fuel) f seen = try (lift f) >>= after_call seen (λ seen' s. run_from fuel f seen' s)

  pub run_and_ensure_api : {A : Type 0} → ℕ → Action W A → Action (Session W) (Option A)
  run_and_ensure_api fuel f = run_from fuel f []
