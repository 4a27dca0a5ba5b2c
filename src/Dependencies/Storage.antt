-- ===== src/Dependencies/Storage.antt =====
-- deploy/dep_storage.go: `NewStorageDep` and `Plan`.
use cli_plugin_gcp.Common.{ℕ, ◌*◌, true, map, if◌then◌else◌, ◌==◌, string_eq, String}
use cli_plugin_gcp.Common.Action.{Action, pure, ◌>>◌}
use cli_plugin_gcp.Dependencies.{
  Dependency, AppMap, Cors, PlannedBucket, bucket, CorsOption, StorageDepOptions, DepPlanner, Place,
}

pub record StorageDep : Type 0 where
  pub bucket : PlannedBucket
  pub dep : Dependency
  pub opts : StorageDepOptions
  pub needs : AppMap (Unit {0})

-- time.Second, in nanoseconds
abbrev second : ℕ
second = 1000000000

abbrev pub cors_of : CorsOption → Cors
cors_of v = record {
  origins = v.origins;
  methods = v.methods;
  response_headers = v.response_headers;
  max_age = v.max_age_in_seconds * second;
}

abbrev pub location_of : Place → StorageDepOptions → String
location_of c o = if o.location == "" then c.region else o.location

abbrev pub bucket_of : Place → StorageDepOptions → PlannedBucket
bucket_of c o = record {
  name = o.name;
  location = location_of c o;
  project_id = c.project_id;
  versioning = o.versioning;
  delete_in_days = o.delete_in_days;
  expire_versions_in_days = o.expire_versions_days;
  max_versions = o.max_versions;
  is_public = o.is_public;
  cors = map cors_of o.cors;
  critical = true;
}

module _ (l : DepPlanner) where
  open l use {World, register}

  -- `NewStorageDep` decodes the options
  unfoldable pub storage_dep_plan :
      Place → Dependency → StorageDepOptions → AppMap (Unit {0}) → Action World StorageDep
  storage_dep_plan c dep opts needs =
      register dep "bucket" (bucket (bucket_of c opts))
      >> pure (record { bucket = bucket_of c opts; dep = dep; opts = opts; needs = needs })
