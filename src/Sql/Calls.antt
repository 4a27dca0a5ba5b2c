-- ===== src/Sql/Calls.antt =====
-- gcp/cloud_sql.go: `Read`, `Create`, `Update` and `Delete` of an instance. The client, the mutexes of the
-- registry, the random password and the accessors of the fields are parameters. The wait has fuel:
-- `none` means that it ran out.
use Prim.Native.String.{◌++◌}
use cli_plugin_gcp.Common.{
  ℕ, String, Bool, true, false, List, Option, none, some, if◌then◌else◌, Dict,
}
use cli_plugin_gcp.Common.Int.{is_zero}
use cli_plugin_gcp.Common.Action.{
  Action, Result, ok, err, panic, wrap, try, pure, fail, crash, of_result, ◌>>=◌, ◌>>◌,
}
use cli_plugin_gcp.ApiErrors.{err_is_404}
use cli_plugin_gcp.Fields.{Input}
use cli_plugin_gcp.Operations.{StatusOperation, wait_for_sql_operation}
use cli_plugin_gcp.Sql.{
  CloudSql, SqlSettings, DatabaseInstance, make_database_instance, set_output_fields, read_instance,
}

-- sqladmin.User
pub record SqlUser : Type 0 where
  pub name : String
  pub password : String
  pub host : String

-- `cached` is FuncCache; an operation is given by its name.
pub record SqlService : Type 1 where
  pub World : Type 0
  pub client : Action World (Unit {0})
  pub get_instance : String → String → Action World DatabaseInstance
  pub insert_instance : String → DatabaseInstance → Action World String
  pub update_instance : String → String → DatabaseInstance → Action World String
  pub delete_instance : String → String → Action World String
  pub get_database : String → String → String → Action World (Unit {0})
  pub insert_database : String → String → String → Action World String
  pub delete_database : String → String → String → Action World String
  pub list_users : String → String → Action World (List SqlUser)
  pub insert_user : String → String → SqlUser → Action World String
  pub update_user : String → String → String → String → SqlUser → Action World String
  pub delete_user : String → String → String → Action World String
  pub get_operation : String → String → Action World StatusOperation
  pub tick : Action World (Unit {0})
  pub lock : String → Action World (Unit {0})
  pub unlock : String → Action World (Unit {0})
  pub cached : String → Action World (Dict SqlUser) → Action World (Dict SqlUser)
  pub random_password : Action World String
  pub any : Input String → String
  pub current : Input String → String

-- `instanceMutexKey`
abbrev pub instance_mutex_key : String → String → String
instance_mutex_key project name = "google-sql-database-instance-" ++ project ++ "-" ++ name

module _ (s : SqlService) where
  open s use {World}

  -- Lock and the deferred Unlock
  abbrev pub under_lock : {A : Type 0} → String → Action World A → Action World A
  under_lock key m = s.lock key >> λ w. ((m w).0, (s.unlock key (m w).1).1)

  abbrev pub wait_sql : ℕ → String → String → Action World (Option (Unit {0}))
  wait_sql fuel project op = wait_for_sql_operation fuel s.tick (s.get_operation project op)

  -- the rest of a function after a wait that may run out of fuel
  abbrev pub then_after :
      {A : Type 0} → Action World A → Option (Unit {0}) → Action World (Option A)
  then_after m none = pure none
  then_after m (some u) = m >>= λ a. pure (some a)

  abbrev found_instance : CloudSql → Result DatabaseInstance → Action World (Bool × CloudSql)
  found_instance o (ok inst) =
      of_result (read_instance (s.any o.project_id) (s.any o.name) inst o) >>= λ o'. pure (true, o')
  found_instance o (err e) =
      if err_is_404 (some e)
      then pure (false, o)
      else fail (wrap "error fetching cloud sql instance status" e)
  found_instance o panic = crash

  -- `Read`; the test says whether the resource exists
  unfoldable pub read_sql : CloudSql → Action World (Bool × CloudSql)
  read_sql o =
      s.client >> try (s.get_instance (s.any o.project_id) (s.any o.name)) >>= found_instance o

  abbrev made : CloudSql → Action World DatabaseInstance
  made o = s.random_password >>= λ p. of_result (make_database_instance o p)

  -- the outputs, once the operation is done
  abbrev with_outputs : CloudSql → Action World CloudSql
  with_outputs o =
      s.get_instance o.project_id.wanted o.name.wanted >>= λ inst. pure (set_output_fields inst o)

  unfoldable pub create_sql : ℕ → CloudSql → Action World (Option CloudSql)
  create_sql fuel o =
      s.client
      >> made o
      >>= s.insert_instance o.project_id.wanted
      >>= wait_sql fuel o.project_id.wanted
      >>= then_after (with_outputs o)

  abbrev version_of : CloudSql → Option SqlSettings → Action World CloudSql
  version_of o none = crash
  version_of o (some st) = pure (record o { settings_version = st.settings_version })

  -- the version of the settings is fetched where it is not known
  abbrev versioned : CloudSql → Action World CloudSql
  versioned o =
      if is_zero o.settings_version
      then (s.get_instance o.project_id.wanted o.name.wanted >>= λ inst. version_of o inst.settings)
      else pure o

  unfoldable pub update_sql : ℕ → CloudSql → Action World (Option CloudSql)
  update_sql fuel o = under_lock (instance_mutex_key o.project_id.wanted o.name.wanted) (
      s.client >> versioned o >>= λ o'.
      made o'
      >>= s.update_instance o.project_id.wanted (s.current o.name)
      >>= wait_sql fuel o.project_id.wanted
      >>= then_after (with_outputs o'))

  unfoldable pub delete_sql : ℕ → CloudSql → Action World (Option (Unit {0}))
  delete_sql fuel o =
      s.client
      >> s.delete_instance (s.current o.project_id) (s.current o.name)
      >>= wait_sql fuel (s.current o.project_id)
