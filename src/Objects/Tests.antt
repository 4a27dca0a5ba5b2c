-- ===== src/Objects/Tests.antt =====
-- Runs of the module on bucket objects on concrete inputs.
use cli_plugin_gcp.Common.{◌≡◌, refl, String, true, false, [], ◌∷◌, none, some}
use cli_plugin_gcp.Common.Action.{ok, pure}
use cli_plugin_gcp.Objects.{BucketObject, ObjectService, public_rule, read_attrs, read_object}

abbrev service : ObjectService
service = record {
  World = Unit {0};
  client = pure tt;
  list = λ bucket. pure (
      record {
        bucket = bucket;
        name = "index.html";
        content_type = "text/html";
        md5 = "0a1b";
        acl = public_rule ∷ [];
      }
      ∷ []);
  open_file = λ path. pure tt;
  copy = λ bucket name w path. pure tt;
  close = λ bucket name. pure tt;
  delete = λ bucket name. pure tt;
  any = λ f. f.wanted;
  current = λ f. f.wanted;
}

abbrev page : String → BucketObject
page name = record {
  bucket_name = record { current = none; wanted = "web" };
  content_type = record { current = none; wanted = "text/html" };
  name = record { current = none; wanted = name };
  hash = record { current = none; wanted = "ffff" };
  is_public = record { current = none; wanted = true };
  cache_control = record { current = none; wanted = "" };
  path = "dist";
}

page_found :
    (read_object service (page "index.html") tt).0
    ≡ ok (
      true,
      record (page "index.html") {
        bucket_name = record { current = some "web"; wanted = "web" };
        content_type = record { current = some "text/html"; wanted = "text/html" };
        name = record { current = some "index.html"; wanted = "index.html" };
        hash = record { current = some "0a1b"; wanted = "ffff" };
        is_public = record { current = some true; wanted = true };
      },
    )
unfolding read_object read_attrs
page_found = refl

page_missing : (read_object service (page "a.html") tt).0 ≡ ok (false, page "a.html")
unfolding read_object
page_missing = refl
