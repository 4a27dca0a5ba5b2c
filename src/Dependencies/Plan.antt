-- ===== src/Dependencies/Plan.antt =====
-- actions/plan_dependency.go and `planDependencies` of actions/plan.go: the needs of the apps by
-- dependency, the plan of each dependency, and the variables that an app gets.
use Prim.Native.String.{◌++◌}
use cli_plugin_gcp.Common.{
  ℕ, String, Bool, false, ◌||◌, List, [], ◌∷◌, Option, none, some, if◌then◌else◌, ◌==◌, string_eq,
  Dict, lookup, insert,
}
use cli_plugin_gcp.Common.Action.{Action, Result, ok, err, panic, text, pure, of_result, ◌>>=◌}
use cli_plugin_gcp.Dependencies.{
  NeedyApp, AppNeed, Dependency, AppMap, find_app, insert_app, DatabaseDepNeed, DepPlanner, Place,
  PlannedDatabase, PlannedUser,
}
use cli_plugin_gcp.Dependencies.Database.{DatabaseDep, new_database_dep_options, database_dep_plan}
use cli_plugin_gcp.Dependencies.Storage.{StorageDep, storage_dep_plan}

abbrev pub or_nil : {V : Type 0} → Option (AppMap V) → AppMap V
or_nil none = []
or_nil (some m) = m

-- one need, into allNeeds
abbrev pub add_need : NeedyApp → AppNeed → Dict (AppMap AppNeed) → Dict (AppMap AppNeed)
add_need app n all = insert n.dependency (insert_app app n (or_nil (lookup n.dependency all))) all

abbrev pub add_needs : NeedyApp → List AppNeed → Dict (AppMap AppNeed) → Dict (AppMap AppNeed)
add_needs app [] all = all
add_needs app (n ∷ ns) all = add_needs app ns (add_need app n all)

abbrev pub all_needs : List NeedyApp → Dict (AppMap AppNeed) → Dict (AppMap AppNeed)
all_needs [] all = all
all_needs (app ∷ apps) all = all_needs apps (add_needs app app.needs all)

-- what the methods of PlanAction change: databaseDeps, storageDeps and depIDMap
pub record DepsPlan : Type 0 where
  pub database_deps : Dict DatabaseDep
  pub storage_deps : Dict StorageDep
  pub dep_id_map : Dict Dependency

-- the two lists of plans, by the type of the dependency
abbrev pub is_database : Dependency → Bool
is_database dep = (dep.kind == "postgresql") || (dep.kind == "mysql")

abbrev pub is_storage : Dependency → Bool
is_storage dep = if is_database dep then false else dep.kind == "storage"

abbrev pub of_kind : (Dependency → Bool) → List Dependency → List Dependency
of_kind q [] = []
of_kind q (d ∷ ds) = if q d then d ∷ of_kind q ds else of_kind q ds

abbrev pub ids_of : List Dependency → Dict Dependency → Dict Dependency
ids_of [] ids = ids
ids_of (d ∷ ds) ids = ids_of ds (insert d.id d ids)

-- the user and the database default to the id of the app
abbrev pub with_defaults : NeedyApp → DatabaseDepNeed → DatabaseDepNeed
with_defaults app n = record n {
  user = if n.user == "" then app.id else n.user;
  database = if n.database == "" then app.id else n.database;
}

pub record DatabaseVars : Type 0 where
  pub user : String
  pub password : String
  pub database : String
  pub port : ℕ
  pub host : String
  pub socket : String

pub record StorageVars : Type 0 where
  pub name : String
  pub url : String
  pub endpoint : String

pub data DepVars : Type 0 where
  database_vars : DatabaseVars → DepVars
  storage_vars : StorageVars → DepVars

module _ (l : DepPlanner) (c : Place) where
  open l use {World}

  unfoldable pub database_needs :
      AppMap AppNeed → AppMap DatabaseDepNeed → Action World (AppMap DatabaseDepNeed)
  database_needs [] needs = pure needs
  database_needs ((app, n) ∷ ns) needs = of_result (l.database_need n.properties) >>= λ need.
      database_needs ns (insert_app app (with_defaults app need) needs)

  unfoldable pub plan_database_dep_deploy : Dependency → AppMap AppNeed → Action World DatabaseDep
  plan_database_dep_deploy dep needs = of_result (new_database_dep_options l dep) >>= λ opts.
      database_needs needs [] >>= database_dep_plan l c dep opts

  unfoldable pub plan_database_deps_deploy :
      List Dependency → Dict (AppMap AppNeed) → Dict DatabaseDep → Action World (Dict DatabaseDep)
  plan_database_deps_deploy [] all ret = pure ret
  plan_database_deps_deploy (dep ∷ deps) all ret =
      plan_database_dep_deploy dep (or_nil (lookup dep.name all)) >>= λ d.
      plan_database_deps_deploy deps all (insert dep.name d ret)

  unfoldable pub storage_needs :
      AppMap AppNeed → AppMap (Unit {0}) → Action World (AppMap (Unit {0}))
  storage_needs [] needs = pure needs
  storage_needs ((app, n) ∷ ns) needs = of_result (l.storage_need n.properties) >>= λ need.
      storage_needs ns (insert_app app need needs)

  unfoldable pub plan_storage_dep_deploy : Dependency → AppMap AppNeed → Action World StorageDep
  plan_storage_dep_deploy dep needs = of_result (l.storage_options dep.properties) >>= λ opts.
      storage_needs needs [] >>= storage_dep_plan l c dep opts

  unfoldable pub plan_storage_deps_deploy :
      List Dependency → Dict (AppMap AppNeed) → Dict StorageDep → Action World (Dict StorageDep)
  plan_storage_deps_deploy [] all ret = pure ret
  plan_storage_deps_deploy (dep ∷ deps) all ret =
      plan_storage_dep_deploy dep (or_nil (lookup dep.name all)) >>= λ d.
      plan_storage_deps_deploy deps all (insert dep.name d ret)

  -- `planDependencies`; of an app's plan it reads the app
  unfoldable pub plan_dependencies :
      List NeedyApp → List Dependency → Dict Dependency → Action World DepsPlan
  plan_dependencies apps deps ids =
      let all = all_needs apps [] in
      plan_database_deps_deploy (of_kind is_database deps) all [] >>= λ databases.
      plan_storage_deps_deploy (of_kind is_storage deps) all [] >>= λ storages.
      pure (record {
        database_deps = databases;
        storage_deps = storages;
        dep_id_map = ids_of deps ids;
      })

module _ (l : DepPlanner) where
  -- the variables of a database; a nil pointer is read where the user or the database is missing
  abbrev pub database_vars_of :
      DatabaseDep → Option PlannedUser → Option PlannedDatabase → Result DepVars
  database_vars_of d none db = panic
  database_vars_of d (some u) none = panic
  database_vars_of d (some u) (some db) = ok (
      database_vars (record {
        user = u.name;
        password = u.password;
        database = db.name;
        port = 5432;
        host = "/cloudsql/" ++ l.connection_name d.cloud_sql;
        socket = "/cloudsql/" ++ l.connection_name d.cloud_sql;
      }))

  abbrev pub of_need : DatabaseDep → Option DatabaseDepNeed → Result DepVars
  of_need d none = panic
  of_need d (some n) =
      database_vars_of d (lookup n.user d.cloud_sql_users) (lookup n.database d.cloud_sql_databases)

  abbrev pub storage_vars_of : StorageDep → DepVars
  storage_vars_of d = storage_vars (record {
    name = d.bucket.name;
    url = "https://storage.googleapis.com/" ++ d.bucket.name;
    endpoint = "https://storage.googleapis.com/storage/v1/";
  })

  abbrev pub of_storage : AppNeed → Option StorageDep → Result DepVars
  of_storage need none = err (text ("unable to find dependency '" ++ need.dependency ++ "'"))
  of_storage need (some d) = ok (storage_vars_of d)

  abbrev pub of_database :
      NeedyApp → AppNeed → Option StorageDep → Option DatabaseDep → Result DepVars
  of_database app need storage none = of_storage need storage
  of_database app need storage (some d) = of_need d (find_app app d.needs)

  unfoldable pub find_dependency_env_vars : DepsPlan → NeedyApp → AppNeed → Result DepVars
  find_dependency_env_vars s app need =
      of_database app need (lookup need.dependency s.storage_deps)
        (lookup need.dependency s.database_deps)

  abbrev pub add_vars :
      (Dict DepVars → Result (Dict DepVars))
      → AppNeed
      → Dict DepVars
      → Result DepVars
      → Result (Dict DepVars)
  add_vars rest need vars (ok v) = rest (insert need.dependency v vars)
  add_vars rest need vars (err e) = err e
  add_vars rest need vars panic = panic

  unfoldable pub env_vars_of :
      DepsPlan → NeedyApp → List AppNeed → Dict DepVars → Result (Dict DepVars)
  env_vars_of s app [] vars = ok vars
  env_vars_of s app (need ∷ needs) vars =
      let rest = env_vars_of s app needs in
      add_vars rest need vars (find_dependency_env_vars s app need)

  unfoldable pub find_dependencies_env_vars : DepsPlan → NeedyApp → Result (Dict DepVars)
  find_dependencies_env_vars s app = env_vars_of s app app.needs []
