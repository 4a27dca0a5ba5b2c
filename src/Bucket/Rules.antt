-- ===== src/Bucket/Rules.antt =====
-- The limits that the lifecycle rules of gcp/bucket.go set.
use cli_plugin_gcp.Common.{◌≡◌, ◌≢◌, Bool, true, false, arith, All, All-append, ◌++◌}
use cli_plugin_gcp.Common.Int.{ℤ, pos, negsuc, is_positive}
use cli_plugin_gcp.Gcs.{LifecycleRule}
use cli_plugin_gcp.Bucket.{expired, aged, outnumbered, rule_if, Bucket, lifecycle_rules}

zero-ne-positive : (x : ℤ) → is_positive x ≡ true → pos 0 ≢ x
zero-ne-positive (pos n) h e = ground arith
zero-ne-positive (negsuc n) h e = ground arith

All-rule_if :
    (P : LifecycleRule → Type 0) (b : Bool) (r : LifecycleRule) → P r → All P (rule_if b r)
All-rule_if P true r p = (p, tt)
All-rule_if P false r p = tt

-- Where the configuration asks for a number of versions and the state holds another, no lifecycle
-- rule limits the versions of an object to the number that is asked for.
pub lifecycle_rules-ne-wanted :
    (o : Bucket)
    → is_positive o.max_versions.wanted ≡ true
    → o.max_versions.current ≢ o.max_versions.wanted
    → All (λ r. r.num_newer_versions ≢ o.max_versions.wanted) (lifecycle_rules o)
unfolding lifecycle_rules
lifecycle_rules-ne-wanted o h ne =
    let zero = zero-ne-positive o.max_versions.wanted h in
    let P : LifecycleRule → Type 0 = λ r. r.num_newer_versions ≢ o.max_versions.wanted in
    let old =
      rule_if (is_positive o.expire_versions_in_days.wanted)
        (expired o.expire_versions_in_days.wanted) in
    let aging = rule_if (is_positive o.delete_in_days.wanted) (aged o.delete_in_days.wanted) in
    let many = rule_if (is_positive o.max_versions.wanted) (outnumbered o.max_versions.current) in
    All-append P (old ++ aging) many
      (All-append P old aging (All-rule_if P _ (expired o.expire_versions_in_days.wanted) zero)
        (All-rule_if P _ (aged o.delete_in_days.wanted) zero))
      (All-rule_if P _ (outnumbered o.max_versions.current) ne)
