-- ===== src/Dependencies/Database.antt =====
-- deploy/dep_database.go: the options of a database dependency, and `Plan`.
use Prim.Native.String.{◌++◌}
use cli_plugin_gcp.Common.{
  String, Bool, true, false, not, ◌||◌, [], ◌∷◌, Option, none, some, if◌then◌else◌, ◌==◌, string_eq,
  Dict, lookup, insert,
}
use cli_plugin_gcp.Common.Action.{Action, Result, ok, err, panic, text, pure, ◌>>=◌, ◌>>◌}
use cli_plugin_gcp.Dependencies.{
  Dependency, AppMap, DatabaseDepNeed, DatabaseDepOptionUser, DatabaseDepOptions, PlannedSql,
  PlannedDatabase, PlannedUser, cloud_sql, cloud_sql_database, cloud_sql_user, random_string,
  DepPlanner, Place,
}

-- the inner switch for PostgreSQL; `none` is to fall out of it
abbrev pub postgres_version : String → Option String
postgres_version v =
    if (v == "9") || (v == "9.6") || (v == "9_6")
    then some "POSTGRES_9_6"
    else if v == "10"
    then some "POSTGRES_10"
    else if v == "11"
    then some "POSTGRES_11"
    else if v == "12"
    then some "POSTGRES_12"
    else if (v == "13") || (v == "")
    then some "POSTGRES_13"
    else if v == "14"
    then some "POSTGRES_14"
    else if v == "15"
    then some "POSTGRES_15"
    else if v == "16"
    then some "POSTGRES_16"
    else if v == "17"
    then some "POSTGRES_17"
    else none

-- the inner switch for MySQL
abbrev pub mysql_version : String → Option String
mysql_version v =
    if (v == "5.6") || (v == "5_6")
    then some "MYSQL_5_6"
    else if (v == "5.7") || (v == "5_7") || (v == "")
    then some "MYSQL_5_7"
    else if (v == "8.0") || (v == "8")
    then some "MYSQL_8_0"
    else if v == "8.4"
    then some "MYSQL_8_4"
    else none

abbrev version_in : String → String → Option String
version_in kind version =
    if (kind == "POSTGRES") || (kind == "POSTGRESQL")
    then postgres_version version
    else if kind == "MYSQL"
    then mysql_version version
    else none

abbrev version_or_error : DatabaseDepOptions → String → Option String → Result String
version_or_error o kind none =
    err (
      text ("unknown database version '" ++ o.version ++ "' and type '" ++ kind ++ "' combination"))
version_or_error o kind (some v) = ok v

abbrev pub availability_zone : DatabaseDepOptions → String
availability_zone o = if o.ha then "REGIONAL" else "ZONAL"

-- the value of a key that is not there yet: `if _, ok := m[k]; !ok { m[k] = v }`
abbrev pub ensure : {V : Type 0} → String → V → Dict V → Dict V
ensure k v m = elim (lookup k m) [ none ↦ insert k v m | some old ↦ m ]

pub record DatabaseDep : Type 0 where
  pub cloud_sql : PlannedSql
  pub cloud_sql_databases : Dict PlannedDatabase
  pub cloud_sql_users : Dict PlannedUser
  pub dep : Dependency
  pub opts : DatabaseDepOptions
  pub needs : AppMap DatabaseDepNeed

abbrev user_or_empty : Option DatabaseDepOptionUser → DatabaseDepOptionUser
user_or_empty none = record { password = ""; hostname = "" }
user_or_empty (some u) = u

-- the users of the options
abbrev pub option_users :
    Dict (Option DatabaseDepOptionUser) → Dict DatabaseDepOptionUser → Dict DatabaseDepOptionUser
option_users [] users = users
option_users ((name, u) ∷ us) users = option_users us (insert name (user_or_empty u) users)

-- and those of the needs, where the options have none of that name
abbrev pub need_users :
    AppMap DatabaseDepNeed → Dict DatabaseDepOptionUser → Dict DatabaseDepOptionUser
need_users [] users = users
need_users ((app, n) ∷ ns) users =
    need_users ns (ensure n.user (record { password = n.password; hostname = n.hostname }) users)

abbrev pub database_of : DatabaseDep → String → PlannedDatabase
database_of o db = record {
  project_id = o.cloud_sql.project_id;
  instance_name = o.cloud_sql.name;
  name = db;
}

abbrev pub with_database : String → DatabaseDep → DatabaseDep
with_database db o = record o {
  cloud_sql_databases = insert db (database_of o db) o.cloud_sql_databases;
}

abbrev pub is_absent : {V : Type 0} → String → Dict V → Bool
is_absent k m = elim (lookup k m) [ none ↦ true | some v ↦ false ]

-- DepTypeMySQL
abbrev pub host_of_user : DatabaseDep → String → Option String
host_of_user o hostname = if o.dep.kind == "mysql" then some hostname else none

module _ (l : DepPlanner) where
  open l use {World, register}

  abbrev pub database_version : DatabaseDepOptions → String → Result String
  database_version o kind =
      version_or_error o kind (version_in (l.to_upper kind) (l.to_upper o.version))

  abbrev with_tier : DatabaseDepOptions → DatabaseDepOptions
  with_tier o = record o { tier = if o.tier == "" then "db-f1-micro" else o.tier }

  abbrev with_version : DatabaseDepOptions → Result String → Result DatabaseDepOptions
  with_version o (ok v) = ok (record o { database_version = v })
  with_version o (err e) = err e
  with_version o panic = panic

  abbrev decoded : String → Result DatabaseDepOptions → Result DatabaseDepOptions
  decoded kind (ok o) = with_version (with_tier o) (database_version (with_tier o) kind)
  decoded kind (err e) = err e
  decoded kind panic = panic

  unfoldable pub new_database_dep_options : Dependency → Result DatabaseDepOptions
  new_database_dep_options dep = decoded dep.kind (l.database_options dep.properties)

  abbrev pub instance_of : Place → Dependency → DatabaseDepOptions → PlannedSql
  instance_of c dep opts = record {
    name = l.random_id dep.id;
    project_id = c.project_id;
    region = c.region;
    database_version = opts.database_version;
    tier = opts.tier;
    availability_zone = availability_zone opts;
    database_flags = opts.flags;
  }

  -- the state of a dependency whose instance is set, with no databases and users yet
  abbrev pub with_instance :
      Place → Dependency → DatabaseDepOptions → AppMap DatabaseDepNeed → DatabaseDep
  with_instance c dep opts needs = record {
    cloud_sql = instance_of c dep opts;
    cloud_sql_databases = [];
    cloud_sql_users = [];
    dep = dep;
    opts = opts;
    needs = needs;
  }

  unfoldable pub register_database : String → DatabaseDep → Action World DatabaseDep
  register_database db o =
      if is_absent db o.cloud_sql_databases
      then (register o.dep db (cloud_sql_database (database_of o db)) >> pure (with_database db o))
      else pure o

  abbrev pub password_of : DatabaseDep → String → String → String
  password_of o user password =
      if not (password == "") then password else l.random_password o.dep user

  abbrev pub user_of : DatabaseDep → String → DatabaseDepOptionUser → PlannedUser
  user_of o user p = record {
    project_id = o.cloud_sql.project_id;
    instance_name = o.cloud_sql.name;
    name = user;
    password = password_of o user p.password;
    hostname = host_of_user o p.hostname;
  }

  abbrev pub with_user : String → DatabaseDepOptionUser → DatabaseDep → DatabaseDep
  with_user user p o = record o {
    cloud_sql_users = insert user (user_of o user p) o.cloud_sql_users;
  }

  -- a user without a password gets a random one
  abbrev pub register_password : DatabaseDep → String → String → Action World Bool
  register_password o user password =
      if not (password == "")
      then pure true
      else register o.dep user (random_string (user ++ " password"))

  unfoldable pub register_user :
      String → DatabaseDepOptionUser → DatabaseDep → Action World DatabaseDep
  register_user user p o =
      if is_absent user o.cloud_sql_users
      then (register_password o user p.password
          >> register o.dep user (cloud_sql_user (user_of o user p))
          >> pure (with_user user p o))
      else pure o

  unfoldable pub register_databases :
      AppMap DatabaseDepNeed → DatabaseDep → Action World DatabaseDep
  register_databases [] o = pure o
  register_databases ((app, n) ∷ ns) o = register_database n.database o >>= register_databases ns

  unfoldable pub register_users :
      Dict DatabaseDepOptionUser → DatabaseDep → Action World DatabaseDep
  register_users [] o = pure o
  register_users ((user, p) ∷ us) o = register_user user p o >>= register_users us

  -- `Plan`, for a dependency that `NewDatabaseDep` has made of `dep` and `opts`
  unfoldable pub database_dep_plan :
      Place → Dependency → DatabaseDepOptions → AppMap DatabaseDepNeed → Action World DatabaseDep
  database_dep_plan c dep opts needs =
      register dep "cloud_sql" (cloud_sql (instance_of c dep opts))
      >> register_databases needs (with_instance c dep opts needs)
      >>= register_users (need_users needs (option_users opts.users []))
