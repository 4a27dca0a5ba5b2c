-- ===== src/CloudFunction/Calls.antt =====
-- gcp/cloud_function.go: the calls of the API and `Read`, `Create`, `Update` and `Delete`. The
-- clients and the accessors of the fields are parameters. The loop that waits has fuel: `none` means
-- that it ran out.
use cli_plugin_gcp.Common.{
  ℕ, String, Bool, true, false, not, List, [], ◌∷◌, ◌++◌, Option, none, some, if◌then◌else◌,
}
use cli_plugin_gcp.Common.Action.{
  Action, Result, ok, err, panic, Fault, wrap, try, pure, fail, crash, of_result, ◌>>=◌, ◌>>◌,
}
use cli_plugin_gcp.ApiErrors.{err_is_404}
use cli_plugin_gcp.Fields.{Input, set_current}
use cli_plugin_gcp.Operations.{Operation, poll_operation}
use cli_plugin_gcp.Policies.{Binding}
use cli_plugin_gcp.CloudFunction.Policy.{public_binding, read_public, new_bindings}
use cli_plugin_gcp.CloudFunction.{
  CloudFunction, ApiFunction, Parsers, function_path, region_path, wanted_api_cloud_function,
  set_current_status_info, read_function,
}

-- `client` is GCPCloudFunctionsClient, and `tick` the select on ctx.Done() and on the ticker.
pub record FunctionService : Type 1 where
  pub World : Type 0
  pub client : Action World (Unit {0})
  pub tick : Action World (Unit {0})
  pub create : String → ApiFunction → Action World Operation
  pub patch : String → ApiFunction → Action World Operation
  pub get : String → Action World ApiFunction
  pub delete : String → Action World Operation
  pub get_operation : String → Action World Operation
  pub get_iam_policy : String → Action World (List Binding)
  pub set_iam_policy : String → List Binding → Action World (Unit {0})
  pub any : Input String → String
  pub current : Input String → String

module _ (s : FunctionService) where
  open s use {World}

  abbrev pub create_cloud_function : String → String → ApiFunction → Action World Operation
  create_cloud_function project region cf = s.create (region_path project region) cf

  abbrev pub update_cloud_function : String → String → String → ApiFunction → Action World Operation
  update_cloud_function project region name cf = s.patch (function_path project region name) cf

  abbrev pub get_cloud_function : String → String → String → Action World ApiFunction
  get_cloud_function project region name = s.get (function_path project region name)

  abbrev pub delete_cloud_function : String → String → String → Action World Operation
  delete_cloud_function project region name = s.delete (function_path project region name)

  -- the loop is that of the other services
  unfoldable pub wait_for_cloud_functions_operation :
      ℕ → Operation → Action World (Option (Unit {0}))
  wait_for_cloud_functions_operation fuel op =
      if op.done then pure (some tt) else poll_operation fuel s.tick s.get_operation op

  abbrev pub wrapped : {A : Type 0} → String → Result A → Action World A
  wrapped what (ok a) = pure a
  wrapped what (err e) = fail (wrap what e)
  wrapped what panic = crash

  abbrev policy_of : ApiFunction → Action World (List Binding)
  policy_of cf = try (s.get_iam_policy cf.name) >>= wrapped "error fetching cloud function policy"

  abbrev send_policy : ApiFunction → List Binding → Action World (Unit {0})
  send_policy cf bs =
      try (s.set_iam_policy cf.name bs) >>= wrapped "error settings cloud function policy"

  abbrev identified : CloudFunction → CloudFunction
  identified o = record o {
    project_id = set_current o.project_id (s.any o.project_id);
    name = set_current o.name (s.any o.name);
    region = set_current o.region (s.any o.region);
  }

  abbrev read_found :
      Parsers → CloudFunction → Result ApiFunction → Action World (Bool × CloudFunction)
  read_found p o (ok cf) = of_result (read_function p cf (identified o)) >>= λ o'.
      policy_of cf >>= λ bs.
      pure (true, record o' { is_public = set_current o'.is_public (read_public bs) })
  read_found p o (err e) =
      if err_is_404 (some e)
      then pure (false, o)
      else fail (wrap "error fetching cloud function status" e)
  read_found p o panic = crash

  -- `Read`; the test says whether the resource exists
  unfoldable pub read_cloud_function : Parsers → CloudFunction → Action World (Bool × CloudFunction)
  read_cloud_function p o =
      s.client
      >> try (get_cloud_function (s.any o.project_id) (s.any o.region) (s.any o.name))
      >>= read_found p o

  -- `Create` and `Update` after the wait: the error of the operation counts only if the function
  -- cannot be read.
  abbrev pub fetched : Fault → Result ApiFunction → Action World ApiFunction
  fetched e (ok cf) = pure cf
  fetched e (err e') = fail e
  fetched e panic = crash

  abbrev pub refetch :
      Result (Option (Unit {0})) → Action World ApiFunction → Action World (Option ApiFunction)
  refetch (ok none) get = pure none
  refetch (ok (some u)) get = get >>= λ cf. pure (some cf)
  refetch (err e) get = try get >>= fetched e >>= λ cf. pure (some cf)
  refetch panic get = crash

  abbrev after_wait :
      Parsers
      → (ApiFunction → Action World (Unit {0}))
      → CloudFunction
      → Option ApiFunction
      → Action World (Option CloudFunction)
  after_wait p rest o none = pure none
  after_wait p rest o (some cf) =
      of_result (set_current_status_info p cf o) >>= λ o'. rest cf >> pure (some o')

  abbrev deployed :
      Parsers
      → ℕ
      → (ApiFunction → Action World (Unit {0}))
      → CloudFunction
      → Operation
      → Action World (Option CloudFunction)
  deployed p fuel rest o op =
      try (wait_for_cloud_functions_operation fuel op)
      >>= (λ out.
          refetch out (get_cloud_function o.project_id.wanted o.region.wanted o.name.wanted))
      >>= after_wait p rest o

  abbrev pub publish : CloudFunction → ApiFunction → Action World (Unit {0})
  publish o cf =
      if not o.is_public.wanted
      then pure tt
      else (policy_of cf >>= λ bs. send_policy cf (bs ++ (public_binding ∷ [])))

  abbrev pub republish : CloudFunction → ApiFunction → Action World (Unit {0})
  republish o cf = policy_of cf >>= λ bs. send_policy cf (new_bindings o.is_public.wanted bs)

  -- `Create`
  unfoldable pub create_function : Parsers → ℕ → CloudFunction → Action World (Option CloudFunction)
  create_function p fuel o =
      s.client
      >> create_cloud_function o.project_id.wanted o.region.wanted (wanted_api_cloud_function p o)
      >>= deployed p fuel (publish o) o

  -- `Update`
  unfoldable pub update_function : Parsers → ℕ → CloudFunction → Action World (Option CloudFunction)
  update_function p fuel o =
      s.client
      >> update_cloud_function o.project_id.wanted o.region.wanted o.name.wanted
          (wanted_api_cloud_function p o)
      >>= deployed p fuel (republish o) o

  -- `Delete`
  unfoldable pub delete_function : ℕ → CloudFunction → Action World (Option (Unit {0}))
  delete_function fuel o =
      s.client
      >> delete_cloud_function (s.current o.project_id) (s.current o.region) (s.current o.name)
      >>= wait_for_cloud_functions_operation fuel
