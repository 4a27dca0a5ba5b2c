-- ===== src/UrlMap/Calls.antt =====
-- gcp/url_map.go: `Read`, `Create`, `Update` and `Delete`. The clients, `GenericID` and the accessors of
-- the fields are parameters. The wait for an operation has fuel: `none` means that it ran out.
use cli_plugin_gcp.Common.{
  ℕ, String, Bool, true, false, Option, some, if◌then◌else◌, ◌==◌, string_eq,
}
use cli_plugin_gcp.Common.Action.{
  Action, Result, ok, err, panic, try, pure, fail, crash, of_result, ◌>>=◌, ◌>>◌,
}
use cli_plugin_gcp.ApiErrors.{err_is_404}
use cli_plugin_gcp.Fields.{Input, set_current}
use cli_plugin_gcp.Operations.{StatusOperation, wait_for_global_compute_operation}
use cli_plugin_gcp.UrlMap.{UrlMap}
use cli_plugin_gcp.UrlMap.Made.{ApiUrlMap, make_url_map, read_url_mapping}

-- `client` is GCPComputeClient; the calls that change something give the name of an operation, and
-- `wait` is GlobalOperations.Wait.
pub record UrlMapService : Type 1 where
  pub World : Type 0
  pub client : Action World (Unit {0})
  pub get : String → String → Action World ApiUrlMap
  pub insert : String → ApiUrlMap → Action World String
  pub update : String → String → ApiUrlMap → Action World String
  pub delete : String → String → Action World String
  pub wait : String → String → Action World StatusOperation
  pub any : Input String → String
  pub current : Input String → String
  pub generic_id : String → String → String

module _ (s : UrlMapService) where
  open s use {World}

  abbrev waited : ℕ → String → String → Action World (Option (Unit {0}))
  waited fuel project op = wait_for_global_compute_operation fuel (s.wait project op)

  abbrev read_found : UrlMap → Result ApiUrlMap → Action World (Bool × UrlMap)
  read_found o (ok u) = of_result (read_url_mapping u) >>= λ m. pure (
    true,
    record o {
      project_id = set_current o.project_id (s.any o.project_id);
      name = set_current o.name (s.any o.name);
      url_mapping = set_current o.url_mapping m;
      fingerprint = u.fingerprint;
    },
  )
  read_found o (err e) = if err_is_404 (some e) then pure (false, o) else fail e
  read_found o panic = crash

  -- `Read`; the test says whether the resource exists
  unfoldable pub read_url_map : UrlMap → Action World (Bool × UrlMap)
  read_url_map o = s.client >> try (s.get (s.any o.project_id) (s.any o.name)) >>= read_found o

  -- `Create`
  unfoldable pub create_url_map : ℕ → UrlMap → Action World (Option (Unit {0}))
  create_url_map fuel o =
      s.client
      >> of_result (make_url_map s.generic_id o)
      >>= (λ u. s.insert o.project_id.wanted u)
      >>= λ op. waited fuel o.project_id.wanted op

  -- the fingerprint is fetched where the resource has none
  abbrev fingerprinted : UrlMap → Action World UrlMap
  fingerprinted o =
      if o.fingerprint == ""
      then (s.get (s.current o.project_id) (s.current o.name) >>= λ u.
          pure (record o { fingerprint = u.fingerprint }))
      else pure o

  -- `Update`
  unfoldable pub update_url_map : ℕ → UrlMap → Action World (Option (Unit {0}))
  update_url_map fuel o =
      s.client
      >> fingerprinted o
      >>= (λ o'. of_result (make_url_map s.generic_id o'))
      >>= (λ u. s.update (s.current o.project_id) (s.current o.name) u)
      >>= λ op. waited fuel (s.current o.project_id) op

  -- `Delete`
  unfoldable pub delete_url_map : ℕ → UrlMap → Action World (Option (Unit {0}))
  delete_url_map fuel o = s.client >> s.delete (s.current o.project_id) (s.current o.name) >>= λ op.
      waited fuel (s.current o.project_id) op
