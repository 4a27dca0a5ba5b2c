-- ===== src/Dependencies/Tests.antt =====
-- Runs of the plans of dependencies on concrete inputs.
use cli_plugin_gcp.Dependencies.Vars.{
  find_dependencies_env_vars_cases, find_dependency_env_vars-planned,
}
use cli_plugin_gcp.Dependencies.Storage.{storage_dep_plan, StorageDep}
use cli_plugin_gcp.Dependencies.Plan.{
  find_dependencies_env_vars, find_dependency_env_vars, database_vars, DatabaseVars, DepsPlan,
  storage_needs, database_needs, plan_storage_dep_deploy, plan_storage_deps_deploy,
  plan_database_deps_deploy, plan_dependencies, plan_database_dep_deploy,
}
use Prim.Native.String.{◌++◌}
use cli_plugin_gcp.Common.{◌⊎◌, ℕ, All, Dict, lookup, get_elem?}
use cli_plugin_gcp.Dependencies.Needed.{is_some}
use cli_plugin_gcp.Dependencies.Plan.{DepVars}
use cli_plugin_gcp.Common.{
  some, string_eq, ◌==◌, if◌then◌else◌, ◌≡◌, refl, true, false, List, [], ◌∷◌, none,
}
use cli_plugin_gcp.Common.Action.{ok, err, pure, text}
use cli_plugin_gcp.Dependencies.{
  find_app, DatabaseDepNeed, NeedyApp, AppNeed, Dependency, DepPlanner, Place,
}
use cli_plugin_gcp.Dependencies.Database.{
  register_user, register_database, register_users, register_databases, database_dep_plan,
  DatabaseDep, new_database_dep_options,
}

-- the properties give the user of a need and the name of a bucket
abbrev planner : DepPlanner
planner = record {
  World = Unit {0};
  register = λ dep key r. pure true;
  database_options = λ p. ok (record {
    version = "15";
    tier = "";
    ha = false;
    flags = [];
    users = ("admin", none) ∷ [];
    database_version = "";
  });
  database_need = λ p. ok (record { user = p; password = "pw"; hostname = ""; database = "" });
  storage_options = λ p. ok (record {
    name = p;
    location = "";
    versioning = false;
    delete_in_days = 0;
    expire_versions_days = 0;
    max_versions = 0;
    is_public = false;
    cors = [];
  });
  storage_need = λ p. ok tt;
  to_upper = λ s. if s == "postgresql" then "POSTGRESQL" else s;
  random_id = λ s. s ++ "-x1";
  random_password = λ dep user. "secret";
  connection_name = λ sql. "shop:eu:" ++ sql.name;
}

abbrev place : Place
place = record { project_id = "shop"; region = "europe-west1" }

abbrev shop_needs : List AppNeed
shop_needs =
    record { dependency = "db"; properties = "" }
    ∷ record { dependency = "files"; properties = "" }
    ∷ []

abbrev shop : NeedyApp
shop = record { address = 7; id = "app_shop"; needs = shop_needs }

abbrev deps : List Dependency
deps =
    record { id = "dep_db"; name = "db"; kind = "postgresql"; properties = "" }
    ∷ record { id = "dep_files"; name = "files"; kind = "storage"; properties = "shop-files" }
    ∷ []

abbrev db : Dependency
db = record { id = "dep_db"; name = "db"; kind = "postgresql"; properties = "" }

-- what the plan of the database makes: the app's id names its user and its database
abbrev planned_db : DatabaseDep
planned_db = record {
  cloud_sql = record {
    name = "dep_db-x1";
    project_id = "shop";
    region = "europe-west1";
    database_version = "POSTGRES_15";
    tier = "db-f1-micro";
    availability_zone = "ZONAL";
    database_flags = [];
  };
  cloud_sql_databases =
      ("app_shop", record { project_id = "shop"; instance_name = "dep_db-x1"; name = "app_shop" })
      ∷ [];
  cloud_sql_users =
      (
        "admin",
        record {
          project_id = "shop";
          instance_name = "dep_db-x1";
          name = "admin";
          password = "secret";
          hostname = none;
        },
      )
      ∷ (
        "app_shop",
        record {
          project_id = "shop";
          instance_name = "dep_db-x1";
          name = "app_shop";
          password = "pw";
          hostname = none;
        },
      )
      ∷ [];
  dep = db;
  opts = record {
    version = "15";
    tier = "db-f1-micro";
    ha = false;
    flags = [];
    users = ("admin", none) ∷ [];
    database_version = "POSTGRES_15";
  };
  needs =
      (shop, record { user = "app_shop"; password = "pw"; hostname = ""; database = "app_shop" })
      ∷ [];
}

planned_db_is :
    (plan_database_dep_deploy planner place db
      ((shop, record { dependency = "db"; properties = "" }) ∷ [])
      tt).0
    ≡ ok planned_db
unfolding plan_database_dep_deploy new_database_dep_options database_needs database_dep_plan
    register_databases register_users register_database register_user
planned_db_is = refl

-- a version that no database of the type has
unknown_version :
    new_database_dep_options planner
      (record { id = "d"; name = "db"; kind = "mysql"; properties = "" })
    ≡ err (text "unknown database version '15' and type 'mysql' combination")
unfolding new_database_dep_options
unknown_version = refl

abbrev planned_files : StorageDep
planned_files = record {
  bucket = record {
    name = "shop-files";
    location = "europe-west1";
    project_id = "shop";
    versioning = false;
    delete_in_days = 0;
    expire_versions_in_days = 0;
    max_versions = 0;
    is_public = false;
    cors = [];
    critical = true;
  };
  dep = record { id = "dep_files"; name = "files"; kind = "storage"; properties = "shop-files" };
  opts = record {
    name = "shop-files";
    location = "";
    versioning = false;
    delete_in_days = 0;
    expire_versions_days = 0;
    max_versions = 0;
    is_public = false;
    cors = [];
  };
  needs = (shop, tt) ∷ [];
}

abbrev planned_deps : DepsPlan
planned_deps = record {
  database_deps = ("db", planned_db) ∷ [];
  storage_deps = ("files", planned_files) ∷ [];
  dep_id_map =
      ("dep_db", db)
      ∷ (
        "dep_files",
        record { id = "dep_files"; name = "files"; kind = "storage"; properties = "shop-files" },
      )
      ∷ [];
}

planned_deps_are : (plan_dependencies planner place (shop ∷ []) deps [] tt).0 ≡ ok planned_deps
unfolding plan_dependencies plan_database_deps_deploy plan_storage_deps_deploy
    plan_database_dep_deploy plan_storage_dep_deploy new_database_dep_options database_needs
    storage_needs database_dep_plan storage_dep_plan register_databases register_users
    register_database register_user
planned_deps_are = refl

find_dependency_env_vars-planned_example :
    (n : DatabaseDepNeed) × (v : DatabaseVars) × (find_app shop planned_db.needs ≡ some n)
    × (find_dependency_env_vars planner planned_deps shop
          (record { dependency = "db"; properties = "" })
        ≡ ok (database_vars v))
    × (v.user ≡ n.user)
    × (v.database ≡ n.database)
    × (v.host ≡ "/cloudsql/" ++ planner.connection_name planned_db.cloud_sql)
find_dependency_env_vars-planned_example =
    find_dependency_env_vars-planned planner place (shop ∷ []) deps [] planned_deps tt
      planned_deps_are 0 shop refl 0 (record { dependency = "db"; properties = "" }) planned_db refl
      refl

find_dependencies_env_vars_cases_example :
    ((vars : Dict DepVars) × (find_dependencies_env_vars planner planned_deps shop ≡ ok vars)
      × All (λ (n : AppNeed). is_some (lookup n.dependency vars) ≡ true) shop.needs)
    ⊎ ((j : ℕ) × (need : AppNeed) × (get_elem? shop.needs j ≡ some need)
        × (lookup need.dependency planned_deps.database_deps ≡ none)
        × (lookup need.dependency planned_deps.storage_deps ≡ none)
        × (find_dependencies_env_vars planner planned_deps shop
            ≡ err (text ("unable to find dependency '" ++ need.dependency ++ "'"))))
find_dependencies_env_vars_cases_example =
    find_dependencies_env_vars_cases planner place (shop ∷ []) deps [] planned_deps tt
      planned_deps_are 0 shop refl
