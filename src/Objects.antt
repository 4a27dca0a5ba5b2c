-- ===== src/Objects.antt =====
-- gcp/bucket_object.go: the resource `BucketObject`, and how an object is read, uploaded and deleted. The
-- storage service, the cache of the plugin's context, files and the accessors of the fields are
-- parameters.
mod Tests
use Prim.Native.String.{◌++◌}
use cli_plugin_gcp.Common.{
  ◌≡◌, refl, String, Bool, true, false, not, ◌&&◌, ◌||◌, List, [], ◌∷◌, Option, none, some,
  if◌then◌else◌, ◌==◌, string_eq, Dict, lookup, insert, any,
}
use cli_plugin_gcp.Common.Action.{
  Action, Result, ok, err, panic, Fault, errors_is, bucket_not_exist, wrap, try, pure, fail, crash,
  ◌>>=◌, ◌>>◌,
}
use cli_plugin_gcp.Fields.{Input, set_current}

pub record BucketObject : Type 0 where
  pub bucket_name : Input String
  pub content_type : Input String
  pub name : Input String
  pub hash : Input String
  pub is_public : Input Bool
  pub cache_control : Input String
  pub path : String

-- storage.ACLRule: the entity and the role
pub record AclRule : Type 0 where
  pub entity : String
  pub role : String

-- storage.ObjectAttrs, with the MD5 in hexadecimal digits
pub record ObjectAttrs : Type 0 where
  pub bucket : String
  pub name : String
  pub content_type : String
  pub md5 : String
  pub acl : List AclRule

-- storage.Writer: an empty text leaves a default of the service
pub record Writer : Type 0 where
  pub content_type : String
  pub cache_control : String
  pub acl : List AclRule

-- `list` is FuncCache with the loop over the objects of a bucket; `open` opens a file, `copy` writes it to
-- an object, and `close` ends the upload.
pub record ObjectService : Type 1 where
  pub World : Type 0
  pub client : Action World (Unit {0})
  pub list : String → Action World (List ObjectAttrs)
  pub open_file : String → Action World (Unit {0})
  pub copy : String → String → Writer → String → Action World (Unit {0})
  pub close : String → String → Action World (Unit {0})
  pub delete : String → String → Action World (Unit {0})
  pub any : Input String → String
  pub current : Input String → String

-- storage.AllUsers and storage.RoleReader
abbrev pub public_rule : AclRule
public_rule = record { entity = "allUsers"; role = "READER" }

abbrev pub is_public_rule : AclRule → Bool
is_public_rule r = (r.entity == "allUsers") && (r.role == "READER")

-- the map that the function of the cache makes of the objects
abbrev pub by_object_name : List ObjectAttrs → Dict ObjectAttrs → Dict ObjectAttrs
by_object_name [] m = m
by_object_name (a ∷ rest) m = by_object_name rest (insert a.name a m)

unfoldable pub read_attrs : ObjectAttrs → BucketObject → BucketObject
read_attrs a o = record o {
  bucket_name = set_current o.bucket_name a.bucket;
  name = set_current o.name a.name;
  content_type = set_current o.content_type a.content_type;
  hash = set_current o.hash a.md5;
  is_public = set_current o.is_public (any is_public_rule a.acl);
}

-- what the upload asks of the writer
unfoldable pub writer_of : BucketObject → Writer
writer_of o = record {
  content_type = o.content_type.wanted;
  cache_control = o.cache_control.wanted;
  acl = if o.is_public.wanted then public_rule ∷ [] else [];
}

module _ (s : ObjectService) where
  open s use {World}

  abbrev found_object : BucketObject → Option ObjectAttrs → Action World (Bool × BucketObject)
  found_object o none = pure (false, o)
  found_object o (some a) = pure (true, read_attrs a o)

  abbrev listed_objects :
      BucketObject → Result (List ObjectAttrs) → Action World (Bool × BucketObject)
  listed_objects o (ok attrs) = found_object o (lookup (s.any o.name) (by_object_name attrs []))
  listed_objects o (err e) =
      if errors_is bucket_not_exist e
      then pure (false, o)
      else fail (wrap "error fetching bucket object status" e)
  listed_objects o panic = crash

  -- `Read`; the test says whether the resource exists
  unfoldable pub read_object : BucketObject → Action World (Bool × BucketObject)
  read_object o = s.client >> try (s.list (s.any o.bucket_name)) >>= listed_objects o

  -- `uploadFile`; `Create` and `Update` are this call
  unfoldable pub upload_file : BucketObject → Action World (Unit {0})
  upload_file o =
      s.client
      >> s.open_file o.path
      >> s.copy o.bucket_name.wanted o.name.wanted (writer_of o) o.path
      >> s.close o.bucket_name.wanted o.name.wanted

  unfoldable pub delete_object : BucketObject → Action World (Unit {0})
  delete_object o = s.client >> s.delete (s.current o.bucket_name) (s.current o.name)
