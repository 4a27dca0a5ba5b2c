-- ===== src/Start.antt =====
-- plugin/start.go: `Start`. The settings are the part of `Plugin` that it writes. What it calls of
-- outblocks-plugin-go, of the host and of Google's services is a parameter; the wait for the new
-- project has fuel, and `none` says that it ran out.
pub mod Project
mod Tests
use Prim.Native.String.{◌++◌}
use cli_plugin_gcp.Common.{
  ℕ, String, Bool, true, false, ◌||◌, not, Option, none, some, if◌then◌else◌,
}
use cli_plugin_gcp.Common.Action.{
  Action, Result, ok, err, panic, Fault, text, wrap, try, pure, fail, crash, of_result, ◌>>=◌, ◌>>◌,
}
use cli_plugin_gcp.Common.Int.{ℤ}
use cli_plugin_gcp.ApiErrors.{err_is_403, err_is_404}
use cli_plugin_gcp.Operations.{Operation, wait_for_cloud_resource_manager_operation}

pub record Settings : Type 0 where
  pub project_id : String
  pub region : String
  pub project_number : ℤ

pub record Cloud : Type 1 where
  pub World : Type 0
  -- validate.String on the properties of the request: the text, or the message as an error
  pub property : String → String → Result String
  pub credentials : Action World (Unit {0})
  pub resource_manager : Action World (Unit {0})
  -- Projects.Get: the number of the project
  pub get_project : String → Action World ℤ
  pub warn : String → Action World (Unit {0})
  pub confirm : String → Action World Bool
  pub create_project : String → Action World Operation
  pub get_operation : String → Action World Operation
  pub tick : Action World (Unit {0})

module _ (c : Cloud) where
  open c use {World, get_project, confirm, create_project, get_operation, tick}

  abbrev pub Started : Type 0
  Started = World × Settings

  abbrev pub at_world : {A : Type 0} → Action World A → Action Started A
  at_world m s = ((m s.0).0, ((m s.0).1, s.1))

  abbrev pub named : {A : Type 0} → String → Result A → Action World A
  named what (ok a) = pure a
  named what (err e) = fail (wrap what e)
  named what panic = crash

  abbrev pub set_project : String → String → Action Started (Unit {0})
  set_project project region s = (
    ok tt,
    (s.0, record { project_id = project; region = region; project_number = s.1.project_number }),
  )

  abbrev set_number : ℤ → Action Started (Option (Unit {0}))
  set_number n s = (ok (some tt), (s.0, record s.1 { project_number = n }))

  abbrev pub connect : Action World (Unit {0})
  connect = try c.resource_manager >>= named "error creating gcp cloud resource manager client"

  -- from the warning to the end of the wait for the new project
  pub create_confirmed : ℕ → String → Action World (Option (Unit {0}))
  create_confirmed fuel project = do
    c.warn ("Project '" ++ project ++ "' not found or caller lacks permission!\n")
    connect
    confirmed ← confirm "Do you want to create a new GCP Project?"
    if not confirmed
        then fail (text "unable to proceed without access to a GCP project")
        else (try (create_project project) >>= named "unable to create GCP project" >>= λ op.
            try (wait_for_cloud_resource_manager_operation fuel tick get_operation op)
            >>= named "unable to create GCP project")

  -- the project is made, and the answer of the first look is still nil: reading its number panics
  abbrev pub after_create : {A B : Type 0} → Option A → Action World (Option B)
  after_create none = pure none
  after_create (some _) = crash

  pub make_project : {B : Type 0} → ℕ → String → Action World (Option B)
  make_project fuel project = create_confirmed fuel project >>= after_create

  -- the rest of `Start`, from how the first look for the project ended
  pub project_found : ℕ → String → Result ℤ → Action Started (Option (Unit {0}))
  project_found fuel project (ok n) = set_number n
  project_found fuel project (err e) =
      if err_is_404 (some e) || err_is_403 (some e)
      then at_world (make_project fuel project)
      else fail (wrap ("error getting project '" ++ project ++ "'") e)
  project_found fuel project panic = crash

  pub start : ℕ → Action Started (Option (Unit {0}))
  start fuel = do
    project ← of_result (c.property "project" "GCP 'project' is required")
    region ← of_result (c.property "region" "GCP 'region' is required")
    set_project project region
    at_world c.credentials
    at_world connect
    found ← try (at_world (get_project project))
    project_found fuel project found
