-- ===== src/Bucket.antt =====
-- gcp/bucket.go: `Create`, `Update` and `Delete` of a bucket. A field has the value that the state
-- holds and the one that the configuration asks for. The client of the service and its access
-- policies are parameters.
pub mod Rules
mod Tests
use cli_plugin_gcp.Common.{
  String, Bool, true, false, not, List, [], ◌∷◌, ◌++◌, Option, none, some, if◌then◌else◌,
}
use cli_plugin_gcp.Common.Int.{ℤ, pos, is_positive}
use cli_plugin_gcp.Common.Action.{
  Action, Result, ok, err, panic, Fault, wrap, try, pure, fail, crash, group, ◌>>=◌, ◌>>◌,
}
use cli_plugin_gcp.Gcs.{LifecycleRule, BucketAttrs}

pub record Field (A : Type 0) : Type 0 where
  pub current : A
  pub wanted : A
  pub is_changed : Bool

pub record Bucket : Type 0 where
  pub name : Field String
  pub location : Field String
  pub project_id : Field String
  pub versioning : Field Bool
  pub expire_versions_in_days : Field ℤ
  pub delete_in_days : Field ℤ
  pub max_versions : Field ℤ
  pub public : Field Bool
  pub cors : Field (List String)

-- storage.BucketAttrsToUpdate: no lifecycle leaves the rules as they are
pub record AttrsToUpdate : Type 0 where
  pub versioning_enabled : Bool
  pub cors : List String
  pub lifecycle : Option (List LifecycleRule)

pub record BucketService : Type 1 where
  pub World : Type 0
  pub Policy : Type 0
  pub client : Action World (Unit {0})
  pub create : String → String → BucketAttrs → Action World (Unit {0})
  pub update : String → AttrsToUpdate → Action World (Unit {0})
  pub delete : String → Action World (Unit {0})
  -- every version of every object, by its name and its generation
  pub objects : String → Action World (List (String × ℤ))
  pub delete_object : String → String → ℤ → Action World (Unit {0})
  pub policy : String → Action World Policy
  pub set_policy : String → Policy → Action World (Unit {0})
  pub add : Policy → String → String → Policy
  pub remove : Policy → String → String → Policy

abbrev no_condition : LifecycleRule
no_condition = record {
  days_since_noncurrent_time = pos 0;
  age_in_days = pos 0;
  num_newer_versions = pos 0;
  archived = false;
  action = "Delete";
}

abbrev pub expired : ℤ → LifecycleRule
expired days = record no_condition { days_since_noncurrent_time = days }

abbrev pub aged : ℤ → LifecycleRule
aged days = record no_condition { age_in_days = days }

abbrev pub outnumbered : ℤ → LifecycleRule
outnumbered versions = record no_condition { num_newer_versions = versions; archived = true }

abbrev pub rule_if : Bool → LifecycleRule → List LifecycleRule
rule_if test rule = if test then rule ∷ [] else []

-- The rules that `Create` and `Update` build in the same way, the number of versions from the value
-- that the state holds.
pub lifecycle_rules : Bucket → List LifecycleRule
lifecycle_rules o =
    rule_if (is_positive o.expire_versions_in_days.wanted)
      (expired o.expire_versions_in_days.wanted)
    ++ rule_if (is_positive o.delete_in_days.wanted) (aged o.delete_in_days.wanted)
    ++ rule_if (is_positive o.max_versions.wanted) (outnumbered o.max_versions.current)

-- a lifecycle is sent if it has a rule
abbrev pub lifecycle_update : List LifecycleRule → Option (List LifecycleRule)
lifecycle_update [] = none
lifecycle_update (r ∷ rs) = some (r ∷ rs)

abbrev acl_all_users : String
acl_all_users = "allUsers"

abbrev reader : String
reader = "roles/storage.legacyObjectReader"

module _ (service : BucketService) where
  open service use {
    World, Policy, client, update, delete, objects, delete_object, policy, set_policy,
  }

  abbrev wrapped_result : {A : Type 0} → String → Result A → Action World A
  wrapped_result what (ok a) = pure a
  wrapped_result what (err e) = fail (wrap what e)
  wrapped_result what panic = crash

  abbrev wrapped : {A : Type 0} → String → Action World A → Action World A
  wrapped what m = try m >>= wrapped_result what

  abbrev with_policy : String → (Policy → Policy) → Action World (Unit {0})
  with_policy b change = wrapped "error fetching bucket policy" (policy b) >>= λ p.
      wrapped "error setting bucket policy" (set_policy b (change p))

  pub create_bucket : Bucket → Action World (Unit {0})
  create_bucket o = do
    client
    wrapped "error creating bucket" (
        service.create o.name.wanted o.project_id.wanted (record {
          location = o.location.wanted;
          versioning_enabled = o.versioning.wanted;
          rules = lifecycle_rules o;
          cors = o.cors.wanted;
        }))
    if not o.public.wanted
        then pure tt
        else with_policy o.name.wanted (λ p. service.add p acl_all_users reader)

  pub update_bucket : Bucket → Action World (Unit {0})
  update_bucket o = do
    client
    wrapped "error updating bucket" (
        update o.name.wanted (record {
          versioning_enabled = o.versioning.wanted;
          cors = o.cors.wanted;
          lifecycle = lifecycle_update (lifecycle_rules o);
        }))
    if not o.public.is_changed
        then pure tt
        else with_policy o.name.wanted (λ p.
          if o.public.wanted
          then service.add p acl_all_users reader
          else service.remove p acl_all_users reader)

  pub delete_bucket : Bucket → Action World (Unit {0})
  delete_bucket o = do
    client
    todel ← objects o.name.current
    group (λ d. delete_object o.name.current d.0 d.1) todel
    delete o.name.current
