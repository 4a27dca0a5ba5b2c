-- ===== src/Sql/Users.antt =====
-- gcp/cloud_sql_user.go and gcp/cloud_sql_database.go: the users and the databases of an instance.
use Prim.Native.String.{◌++◌}
use cli_plugin_gcp.Common.{
  inr, inl, Bool-cases, ℕ, ◌≡◌, refl, String, Bool, true, false, ◌||◌, List, [], ◌∷◌, Option, none,
  some, if◌then◌else◌, ◌==◌, string_eq, Dict, lookup, insert, arith,
}
use cli_plugin_gcp.Common.Action.{
  Action, Result, ok, err, panic, Fault, text, wrap, try, pure, fail, crash, ◌>>=◌, ◌>>◌,
}
use cli_plugin_gcp.ApiErrors.{err_is_403, err_is_404}
use cli_plugin_gcp.Fields.{Input, set_current}
use cli_plugin_gcp.Sql.Calls.{SqlUser, SqlService, instance_mutex_key, under_lock, wait_sql}

pub record CloudSqlUser : Type 0 where
  pub project_id : Input String
  pub instance_name : Input String
  pub name : Input String
  pub password : Input String
  pub hostname : Input String

pub record CloudSqlDatabase : Type 0 where
  pub project_id : Input String
  pub instance_name : Input String
  pub name : Input String

abbrev by_user_name : List SqlUser → Dict SqlUser → Dict SqlUser
by_user_name [] m = m
by_user_name (u ∷ us) m = by_user_name us (insert u.name u m)

abbrev is_nil : {A : Type 0} → Option A → Bool
is_nil none = true
is_nil (some a) = false

module _ (s : SqlService) where
  open s use {World}

  abbrev listed : String → String → Result (Unit {0}) → Action World (Dict SqlUser)
  listed project inst (ok u) = s.list_users project inst >>= λ us. pure (by_user_name us [])
  listed project inst (err e) =
      if err_is_404 (some e)
      then fail e
      else (s.list_users project inst >>= λ us. pure (by_user_name us []))
  listed project inst panic = crash

  -- the function that FuncCache runs
  unfoldable pub users_by_name : String → String → Action World (Dict SqlUser)
  users_by_name project inst = try (s.get_instance project inst >> pure tt) >>= listed project inst

  abbrev pub users_of : String → String → Action World (Dict SqlUser)
  users_of project inst =
      s.cached ("CloudSQLUsers:list:" ++ project ++ ":" ++ inst) (users_by_name project inst)

  abbrev read_fields : CloudSqlUser → SqlUser → CloudSqlUser
  read_fields o u = record o {
    project_id = set_current o.project_id (s.any o.project_id);
    instance_name = set_current o.instance_name (s.any o.instance_name);
    name = set_current o.name u.name;
    hostname = set_current o.hostname u.host;
  }

  abbrev set_user :
      CloudSqlUser → Option SqlUser → Option Fault → Action World (Bool × CloudSqlUser)
  set_user o user (some e) = fail (wrap "error fetching cloud sql user status" e)
  set_user o (some u) none = pure (true, read_fields o u)
  set_user o none none = crash

  -- the tests of `Read` after the listing, of the user that was found and the error
  abbrev after_list_users :
      CloudSqlUser → Option SqlUser → Option Fault → Action World (Bool × CloudSqlUser)
  after_list_users o user e =
      if is_nil user || err_is_404 e || err_is_403 e then pure (false, o) else set_user o user e

  abbrev listed_users : CloudSqlUser → Result (Dict SqlUser) → Action World (Bool × CloudSqlUser)
  listed_users o (ok users) = after_list_users o (lookup (s.any o.name) users) none
  listed_users o (err e) = after_list_users o none (some e)
  listed_users o panic = crash

  -- `Read`; the test says whether the resource exists
  unfoldable pub read_user : CloudSqlUser → Action World (Bool × CloudSqlUser)
  read_user o =
      if s.any o.project_id == "" || s.any o.instance_name == "" || s.any o.name == ""
      then pure (false, o)
      else (s.client
          >> try (users_of (s.any o.project_id) (s.any o.instance_name))
          >>= listed_users o)

  -- A listing of the users that fails, for whatever reason, is taken for a user that does not exist: `Read` ends
  -- without an error, and the user is to be made.
  pub read_user-new :
      (o : CloudSqlUser) (w w' : World) (e : Fault)
      → s.client w ≡ (ok tt, w')
      → (users_of (s.any o.project_id) (s.any o.instance_name) w').0 ≡ err e
      → (read_user o w).0 ≡ ok (false, o)
  unfolding read_user
  read_user-new o w w' e made failed =
      elim (Bool-cases
        (s.any o.project_id == "" || s.any o.instance_name == "" || s.any o.name == "")) [
          | inl unnamed ↦ rw unnamed refl
          | inr named ↦ rw (named, made) (ground arith)
        ]

  abbrev user_sent : CloudSqlUser → SqlUser
  user_sent o = record {
    name = o.name.wanted;
    password = o.password.wanted;
    host = o.hostname.wanted;
  }

  unfoldable pub create_user : ℕ → CloudSqlUser → Action World (Option (Unit {0}))
  create_user fuel o =
      under_lock s (instance_mutex_key o.project_id.wanted o.instance_name.wanted) (
        s.client
        >> s.insert_user o.project_id.wanted o.instance_name.wanted (user_sent o)
        >>= wait_sql s fuel o.project_id.wanted)

  -- the user and its host are in the query, the new password in the body
  unfoldable pub update_user : ℕ → CloudSqlUser → Action World (Option (Unit {0}))
  update_user fuel o =
      under_lock s (instance_mutex_key o.project_id.wanted o.instance_name.wanted) (
        s.client
        >> s.update_user o.project_id.wanted o.instance_name.wanted o.name.wanted o.hostname.wanted
            (record { name = ""; password = o.password.wanted; host = "" })
        >>= wait_sql s fuel o.project_id.wanted)

  unfoldable pub delete_user : ℕ → CloudSqlUser → Action World (Option (Unit {0}))
  delete_user fuel o =
      under_lock s (instance_mutex_key (s.current o.project_id) (s.current o.instance_name)) (
        s.client
        >> s.delete_user (s.current o.project_id) (s.current o.instance_name) (s.current o.name)
        >>= wait_sql s fuel (s.current o.project_id))

  abbrev found_database :
      CloudSqlDatabase → Result (Unit {0}) → Action World (Bool × CloudSqlDatabase)
  found_database o (ok u) = pure (
    true,
    record o {
      project_id = set_current o.project_id (s.any o.project_id);
      instance_name = set_current o.instance_name (s.any o.instance_name);
      name = set_current o.name (s.any o.name);
    },
  )
  found_database o (err e) =
      if err_is_404 (some e)
      then pure (false, o)
      else fail (wrap "error fetching cloud sql database status" e)
  found_database o panic = crash

  -- of the error of the instance only 404 counts
  abbrev database_in : CloudSqlDatabase → Result (Unit {0}) → Action World (Bool × CloudSqlDatabase)
  database_in o panic = crash
  database_in o (ok u) =
      try (s.get_database (s.any o.project_id) (s.any o.instance_name) (s.any o.name))
      >>= found_database o
  database_in o (err e) =
      if err_is_404 (some e)
      then pure (false, o)
      else (try (s.get_database (s.any o.project_id) (s.any o.instance_name) (s.any o.name))
          >>= found_database o)

  unfoldable pub read_database : CloudSqlDatabase → Action World (Bool × CloudSqlDatabase)
  read_database o =
      if s.any o.project_id == "" || s.any o.instance_name == "" || s.any o.name == ""
      then pure (false, o)
      else (s.client
          >> try (s.get_instance (s.any o.project_id) (s.any o.instance_name) >> pure tt)
          >>= database_in o)

  unfoldable pub create_database : ℕ → CloudSqlDatabase → Action World (Option (Unit {0}))
  create_database fuel o =
      under_lock s (instance_mutex_key o.project_id.wanted o.instance_name.wanted) (
        s.client
        >> s.insert_database o.project_id.wanted o.instance_name.wanted o.name.wanted
        >>= wait_sql s fuel o.project_id.wanted)

  -- `Update`
  abbrev pub update_database : CloudSqlDatabase → Action World (Unit {0})
  update_database o = fail (text "unimplemented")

  unfoldable pub delete_database : ℕ → CloudSqlDatabase → Action World (Option (Unit {0}))
  delete_database fuel o =
      under_lock s (instance_mutex_key (s.current o.project_id) (s.current o.instance_name)) (
        s.client
        >> s.delete_database (s.current o.project_id) (s.current o.instance_name) (s.current o.name)
        >>= wait_sql s fuel (s.current o.project_id))
