-- ===== src/Dependencies.antt =====
-- deploy/dep_database.go, deploy/dep_storage.go and actions/plan_dependency.go: the dependencies that a
-- plan takes on, and the variables that an app gets from those that it needs. The registry, the decoding
-- of properties and the values that a resource has by the time of the apply are parameters: a lazy
-- field is its value. A *apiv1.App is its address with what stands there; a map from such pointers is a
-- list of pairs.
pub mod Database
pub mod Storage
pub mod Plan
pub mod Needed
pub mod Registered
pub mod Complete
pub mod Planned
pub mod Vars
mod Tests
use cli_plugin_gcp.Common.{
  ℕ, String, Bool, List, [], ◌∷◌, Option, none, some, if◌then◌else◌, ◌==◌, nat_eq, Dict,
}
use cli_plugin_gcp.Common.Action.{Action, Result}

-- structpb.Struct, by a text that stands for it
abbrev pub Properties : Type 0
Properties = String

-- apiv1.AppNeed
pub record AppNeed : Type 0 where
  pub dependency : String
  pub properties : Properties

-- apiv1.App, at its address
pub record NeedyApp : Type 0 where
  pub address : ℕ
  pub id : String
  pub needs : List AppNeed

-- apiv1.Dependency
pub record Dependency : Type 0 where
  pub id : String
  pub name : String
  pub kind : String
  pub properties : Properties

-- a map from pointers to apps
abbrev pub AppMap : Type 0 → Type 0
AppMap V = List (NeedyApp × V)

module _ {V : Type 0} where
  -- `m[app]`
  abbrev pub find_app : NeedyApp → AppMap V → Option V
  find_app app [] = none
  find_app app ((other, v) ∷ m) = if other.address == app.address then some v else find_app app m

  -- `m[app] = v`
  abbrev pub insert_app : NeedyApp → V → AppMap V → AppMap V
  insert_app app v [] = (app, v) ∷ []
  insert_app app v ((other, old) ∷ m) =
      if other.address == app.address then (other, v) ∷ m else (other, old) ∷ insert_app app v m

-- types.DatabaseDepNeed and types.DatabaseDepOptionUser
pub record DatabaseDepNeed : Type 0 where
  pub user : String
  pub password : String
  pub hostname : String
  pub database : String

pub record DatabaseDepOptionUser : Type 0 where
  pub password : String
  pub hostname : String

pub record DatabaseDepOptions : Type 0 where
  pub version : String
  pub tier : String
  pub ha : Bool
  pub flags : Dict String
  pub users : Dict (Option DatabaseDepOptionUser)
  pub database_version : String

-- the resources of gcp, as far as the plans set them
pub record PlannedSql : Type 0 where
  pub name : String
  pub project_id : String
  pub region : String
  pub database_version : String
  pub tier : String
  pub availability_zone : String
  pub database_flags : Dict String

pub record PlannedDatabase : Type 0 where
  pub project_id : String
  pub instance_name : String
  pub name : String

-- no hostname is a nil field
pub record PlannedUser : Type 0 where
  pub project_id : String
  pub instance_name : String
  pub name : String
  pub password : String
  pub hostname : Option String

-- storage.CORS; the age is in nanoseconds
pub record Cors : Type 0 where
  pub origins : List String
  pub methods : List String
  pub response_headers : List String
  pub max_age : ℕ

pub record PlannedBucket : Type 0 where
  pub name : String
  pub location : String
  pub project_id : String
  pub versioning : Bool
  pub delete_in_days : ℕ
  pub expire_versions_in_days : ℕ
  pub max_versions : ℕ
  pub is_public : Bool
  pub cors : List Cors
  pub critical : Bool

pub data DepResource : Type 0 where
  cloud_sql : PlannedSql → DepResource
  cloud_sql_database : PlannedDatabase → DepResource
  cloud_sql_user : PlannedUser → DepResource
  random_string : String → DepResource
  bucket : PlannedBucket → DepResource

-- types.StorageDepOptions, and the entries of its CORS
pub record CorsOption : Type 0 where
  pub origins : List String
  pub methods : List String
  pub response_headers : List String
  pub max_age_in_seconds : ℕ

pub record StorageDepOptions : Type 0 where
  pub name : String
  pub location : String
  pub versioning : Bool
  pub delete_in_days : ℕ
  pub expire_versions_days : ℕ
  pub max_versions : ℕ
  pub is_public : Bool
  pub cors : List CorsOption

-- `register` is RegisterDependencyResource, the decoders are MapstructureJSONDecode and the constructors
-- of types, `to_upper` is strings.ToUpper, `random_id` gcp.RandomIDField with the plugin's
-- environment, `random_password` the result of a RandomString of a dependency, and `connection_name` the
-- output of the instance.
pub record DepPlanner : Type 1 where
  pub World : Type 0
  pub register : Dependency → String → DepResource → Action World Bool
  pub database_options : Properties → Result DatabaseDepOptions
  pub database_need : Properties → Result DatabaseDepNeed
  pub storage_options : Properties → Result StorageDepOptions
  pub storage_need : Properties → Result (Unit {0})
  pub to_upper : String → String
  pub random_id : String → String
  pub random_password : Dependency → String → String
  pub connection_name : PlannedSql → String

-- the project and the region of the plugin's settings
pub record Place : Type 0 where
  pub project_id : String
  pub region : String
