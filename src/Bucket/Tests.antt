-- ===== src/Bucket/Tests.antt =====
-- A new bucket that is to keep three versions.
use cli_plugin_gcp.Common.{◌≡◌, ◌≢◌, refl, true, false, [], ◌∷◌, arith}
use cli_plugin_gcp.Common.Int.{pos}
use cli_plugin_gcp.Bucket.{Field, Bucket, lifecycle_rules, outnumbered}

abbrev asked : {A : Type 0} → A → A → Field A
asked before now = record { current = before; wanted = now; is_changed = true }

abbrev assets : Bucket
assets = record {
  name = asked "" "assets";
  location = asked "" "us";
  project_id = asked "" "gcp-shop";
  versioning = asked false true;
  expire_versions_in_days = asked (pos 0) (pos 0);
  delete_in_days = asked (pos 0) (pos 0);
  max_versions = asked (pos 0) (pos 3);
  public = asked false false;
  cors = asked [] [];
}

-- the rule that is sent says 0 where 3 is asked for
one_rule : lifecycle_rules assets ≡ outnumbered (pos 0) ∷ []
unfolding lifecycle_rules
one_rule = refl

none_is_three : pos 0 ≢ pos 3
none_is_three e = ground arith
