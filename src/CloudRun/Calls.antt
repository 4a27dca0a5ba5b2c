-- ===== src/CloudRun/Calls.antt =====
-- gcp/cloud_run.go: the calls of the API, the loops that wait for it, and `Read`, `Create`, `Update`
-- and `Delete`. The clients and the accessors of the fields are parameters. Each loop has fuel here:
-- `none` means that it ran out. A resource that a failed function leaves half changed is dropped.
use Prim.Native.String.{◌++◌}
use cli_plugin_gcp.Common.{
  ℕ, zero, suc, String, Bool, true, false, ◌&&◌, List, [], ◌∷◌, Option, none, some, if◌then◌else◌,
  ◌==◌, string_eq,
}
use cli_plugin_gcp.Common.Int.{int_beq}
use cli_plugin_gcp.Common.Action.{
  Action, Result, ok, err, panic, wrap, try, pure, fail, crash, of_result, ◌>>=◌, ◌>>◌,
}
use cli_plugin_gcp.ApiErrors.{err_is_404}
use cli_plugin_gcp.Fields.{Input, set_current}
use cli_plugin_gcp.Policies.{Binding, all_users}
use cli_plugin_gcp.CloudRun.{CloudRun, Condition, Status, Service, Text, Metadata}
use cli_plugin_gcp.CloudRun.Make.{make_run_service}
use cli_plugin_gcp.CloudRun.Read.{read_run_service}

-- `client` is GCPRunClient of a region, and `tick` the select on ctx.Done() and on the ticker. A policy
-- that is nil is `none`. `any`, `current` and `is_changed` are methods of the fields.
pub record RunService : Type 1 where
  pub World : Type 0
  pub client : String → Action World (Unit {0})
  pub tick : Action World (Unit {0})
  pub create : String → Service → Action World (Unit {0})
  pub get : String → Action World Service
  pub delete : String → Action World (Unit {0})
  pub replace_service : String → Service → Action World (Unit {0})
  pub get_iam_policy : String → Action World (Option (List Binding))
  pub set_iam_policy : String → Option (List Binding) → Action World (Unit {0})
  pub any : Input String → String
  pub current : Input String → String
  pub is_changed : Input Bool → Bool

-- the one binding that makes a service public
abbrev pub public_binding : Binding
public_binding = record { role = "roles/run.invoker"; members = all_users ∷ [] }

abbrev pub is_public_member : String → List String → Bool
is_public_member role (m ∷ []) = (role == "roles/run.invoker") && (m == all_users)
is_public_member role ms = false

abbrev pub is_public_policy : Option (List Binding) → Bool
is_public_policy (some (b ∷ [])) = is_public_member b.role b.members
is_public_policy p = false

-- the inner loop of the wait: the first condition of the type "Ready" that says yes or no
unfoldable pub decided : List Condition → Option (Bool × String)
decided [] = none
decided (c ∷ cs) =
    if (c.kind == "Ready") && (c.status == "True")
    then some (true, "")
    else if (c.kind == "Ready") && (c.status == "False")
    then some (false, c.message)
    else decided cs

-- what the wait takes from a service: nothing from one whose last change is not observed yet
abbrev decided_at : Status → Option Metadata → Option (Bool × String)
decided_at s none = none
decided_at s (some m) =
    if int_beq s.observed_generation m.generation then decided s.conditions else none

abbrev pub readiness : Service → Option (Bool × String)
readiness svc = decided_at svc.status svc.metadata

abbrev pub queried : {W : Type 0} → Result Service → Action W Service
queried (ok svc) = pure svc
queried (err e) = fail (wrap "failed to query run service for readiness" e)
queried panic = crash

abbrev pub namespace : String → String
namespace project = "namespaces/" ++ project

abbrev pub service_path : String → String → String
service_path project name = "namespaces/" ++ project ++ "/services/" ++ name

abbrev pub policy_path : String → String → String → String
policy_path project region name =
    "projects/" ++ project ++ "/locations/" ++ region ++ "/services/" ++ name

abbrev pub answered :
    {W : Type 0}
    → Action W (Option (Service × Bool × String))
    → Service
    → Option (Bool × String)
    → Action W (Option (Service × Bool × String))
answered rest svc none = rest
answered rest svc (some (ready, msg)) = pure (some (svc, ready, msg))

module _ (s : RunService) where
  open s use {World}

  abbrev pub create_run_service : String → Service → Action World (Unit {0})
  create_run_service project svc = s.create (namespace project) svc

  abbrev pub get_run_service : String → String → Action World Service
  get_run_service project name = s.get (service_path project name)

  abbrev pub delete_run_service : String → String → Action World (Unit {0})
  delete_run_service project name = s.delete (service_path project name)

  abbrev pub update_run_service : String → String → Service → Action World (Unit {0})
  update_run_service project name svc = s.replace_service (service_path project name) svc

  abbrev pub set_run_service_iam_policy : String → String → String → Bool → Action World (Unit {0})
  set_run_service_iam_policy project region name public =
      s.set_iam_policy (policy_path project region name)
        (if public then some (public_binding ∷ []) else none)

  unfoldable pub wait_for_run_service_ready :
      ℕ → String → String → Action World (Option (Service × Bool × String))
  wait_for_run_service_ready zero project name = pure none
  wait_for_run_service_ready (suc fuel) project name =
      s.tick >> try (get_run_service project name) >>= queried >>= λ svc.
      answered (wait_for_run_service_ready fuel project name) svc (readiness svc)

  -- the rest of a round, after the call
  abbrev still_there :
      Action World (Option (Unit {0})) → Result Service → Action World (Option (Unit {0}))
  still_there rest (ok svc) = rest
  still_there rest (err e) =
      if err_is_404 (some e)
      then pure (some tt)
      else fail (wrap "failed to query run service for readiness" e)
  still_there rest panic = crash

  unfoldable pub wait_for_run_service_deleted :
      ℕ → String → String → Action World (Option (Unit {0}))
  wait_for_run_service_deleted zero project name = pure none
  wait_for_run_service_deleted (suc fuel) project name =
      s.tick
      >> try (get_run_service project name)
      >>= still_there (wait_for_run_service_deleted fuel project name)

  -- the test of the policy at the end of `Read`
  abbrev read_policy : CloudRun → Result (Option (List Binding)) → Action World CloudRun
  read_policy o (ok p) =
      pure (record o { is_public = set_current o.is_public (is_public_policy p) })
  read_policy o (err e) =
      if err_is_404 (some e)
      then pure (record o { is_public = set_current o.is_public false })
      else fail e
  read_policy o panic = crash

  abbrev read_rest : String → String → String → Bool × CloudRun → Action World (Bool × CloudRun)
  read_rest project region name (false, o) = pure (true, o)
  read_rest project region name (true, o) =
      try (s.get_iam_policy (policy_path project region name)) >>= read_policy o >>= λ o'.
      pure (true, o')

  abbrev identified : String → String → String → CloudRun → CloudRun
  identified project region name o = record o {
    project_id = set_current o.project_id project;
    name = set_current o.name name;
    region = set_current o.region region;
  }

  abbrev read_found :
      Text → String → String → String → CloudRun → Result Service → Action World (Bool × CloudRun)
  read_found t project region name o (ok svc) =
      of_result (read_run_service t svc (identified project region name o))
      >>= read_rest project region name
  read_found t project region name o (err e) =
      if err_is_404 (some e)
      then pure (false, o)
      else fail (wrap "error fetching cloud run service" e)
  read_found t project region name o panic = crash

  -- `Read`; the test says whether the resource exists
  unfoldable pub read_cloud_run : Text → CloudRun → Action World (Bool × CloudRun)
  read_cloud_run t o =
      s.client (s.any o.region)
      >> try (get_run_service (s.any o.project_id) (s.any o.name))
      >>= read_found t (s.any o.project_id) (s.any o.region) (s.any o.name) o

  -- what `Create` and `Update` keep of a service that has settled
  abbrev pub with_outputs : CloudRun → Service × Bool × String → CloudRun
  with_outputs o (svc, ready, msg) = record o {
    ready = some ready;
    status_message = some msg;
    url = some svc.status.url;
  }

  abbrev after_ready :
      Action World (Unit {0})
      → CloudRun
      → Option (Service × Bool × String)
      → Action World (Option CloudRun)
  after_ready rest o none = pure none
  after_ready rest o (some out) = rest >> pure (some (with_outputs o out))

  unfoldable pub create_cloud_run : Text → ℕ → CloudRun → Action World (Option CloudRun)
  create_cloud_run t fuel o =
      s.client o.region.wanted
      >> create_run_service o.project_id.wanted (make_run_service t o)
      >> wait_for_run_service_ready fuel o.project_id.wanted o.name.wanted
      >>= after_ready
          (set_run_service_iam_policy o.project_id.wanted o.region.wanted o.name.wanted
            o.is_public.wanted)
          o

  unfoldable pub update_cloud_run : Text → ℕ → CloudRun → Action World (Option CloudRun)
  update_cloud_run t fuel o =
      s.client o.region.wanted
      >> update_run_service o.project_id.wanted o.name.wanted (make_run_service t o)
      >> wait_for_run_service_ready fuel o.project_id.wanted o.name.wanted
      >>= after_ready
          (if s.is_changed o.is_public
            then set_run_service_iam_policy o.project_id.wanted o.region.wanted o.name.wanted
                o.is_public.wanted
            else pure tt)
          o

  unfoldable pub delete_cloud_run : ℕ → CloudRun → Action World (Option (Unit {0}))
  delete_cloud_run fuel o =
      s.client (s.current o.region)
      >> delete_run_service (s.current o.project_id) (s.current o.name)
      >> wait_for_run_service_deleted fuel (s.current o.project_id) (s.current o.name)
