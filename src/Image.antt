-- ===== src/Image.antt =====
-- gcp/image.go: the names of an image, and how it is read, pushed and deleted. Docker, the registry, the
-- credentials and the accessors of the fields are parameters. The waits for an operation have fuel:
-- `none` means that it ran out. A resource that a failed function leaves half changed is dropped.
pub mod Pushed
mod Tests
use Prim.Native.String.{◌++◌}
use cli_plugin_gcp.Common.{
  ℕ, zero, suc, List, [], ◌∷◌, String, Bool, true, false, not, ◌&&◌, ◌||◌, Option, none, some,
  if◌then◌else◌, ◌==◌, string_eq,
}
use cli_plugin_gcp.Common.Texts.{split_second, before_first}
use cli_plugin_gcp.Common.Action.{
  Action, Result, ok, err, panic, Fault, text, wrap, try, pure, fail, crash, ◌>>=◌, ◌>>◌,
}
use cli_plugin_gcp.ApiErrors.{err_is_404, err_is_409}
use cli_plugin_gcp.Fields.{Input, set_current}
use cli_plugin_gcp.Operations.{Operation, wait_for_artifact_registry_operation}

pub record Image : Type 0 where
  pub name : Input String
  pub tag : Input String
  pub project_id : Input String
  pub region : Input String
  pub digest : Option String
  pub source : Input String
  pub source_hash : Input String
  pub pull : Bool
  pub pull_auth : Bool

-- `auth` is the credentials for a token in JSON and base64; `drain` reads a reader to its end and
-- `close` closes it. A tag has the name of its version, and `create_repository` may give no operation.
pub record ImageService : Type 1 where
  pub World : Type 0
  pub registry : Action World (Unit {0})
  pub token : Action World String
  pub auth : String → String
  pub docker : Action World (Unit {0})
  pub ping : Action World (Unit {0})
  pub image_pull : String → String → Action World (Unit {0})
  pub drain : Action World (Unit {0})
  pub close : Action World (Unit {0})
  pub image_tag : String → String → Action World (Unit {0})
  pub image_push : String → String → Action World (Unit {0})
  pub image_inspect : String → Action World (List String)
  pub sleep : Action World (Unit {0})
  pub get_docker_image : String → Action World (Unit {0})
  pub create_repository : String → String → String → Action World (Option Operation)
  pub get_operation : String → Action World Operation
  pub tick : Action World (Unit {0})
  pub get_tag : String → Action World String
  pub delete_tag : String → Action World (Unit {0})
  pub delete_version : String → Action World Operation
  pub any : Input String → String
  pub current : Input String → String
  pub is_changed : Input String → Bool

abbrev pub image_name : String → String → String → String
image_name region project name = region ++ "-docker.pkg.dev/" ++ project ++ "/" ++ name

-- the repository and the name in it, from strings.Split(name, "/")
abbrev pub repo_and_name : String → String × String
repo_and_name name = elim (split_second "/" name) [
  | none ↦ ("", name)
  | some second ↦ (before_first "/" name, second)
]

abbrev pub repository_path : String → String → String → String
repository_path project region repo =
    "projects/" ++ project ++ "/locations/" ++ region ++ "/repositories/" ++ repo

abbrev pub package_path : String → String → String × String → String
package_path project region (repo, name) =
    repository_path project region repo ++ "/packages/" ++ name

abbrev or_latest : String → String
or_latest tag = if tag == "" then "latest" else tag

-- Current of an output
abbrev pub digest_or_nil : Option String → String
digest_or_nil none = ""
digest_or_nil (some d) = d

abbrev wrapped : {W A : Type 0} → String → Result A → Action W A
wrapped what (ok a) = pure a
wrapped what (err e) = fail (wrap what e)
wrapped what panic = crash

module _ (s : ImageService) where
  open s use {World}

  abbrev part_of : Option String → Action World String
  part_of none = crash
  part_of (some d) = pure d

  unfoldable pub read_image : Image → Action World String
  read_image o =
      s.registry
      >> s.get_tag (
          package_path (s.any o.project_id) (s.any o.region) (repo_and_name (s.any o.name))
          ++ "/tags/"
          ++ or_latest (s.any o.tag))
      >>= λ version. part_of (split_second "versions/" version)

  abbrev read_found : Image → Result String → Action World (Bool × Image)
  read_found o (ok digest) = pure (
    true,
    record o {
      name = set_current o.name (s.any o.name);
      tag = set_current o.tag (s.any o.tag);
      digest = some digest;
      region = set_current o.region (s.any o.region);
      project_id = set_current o.project_id (s.any o.project_id);
      source = set_current o.source (s.any o.source);
    },
  )
  read_found o (err e) =
      if err_is_404 (some e)
      then pure (false, record o { digest = none })
      else fail (wrap "error fetching image status" e)
  read_found o panic = crash

  -- `Read`; the test says whether the resource exists
  unfoldable pub read_image_resource : Image → Action World (Bool × Image)
  unfolding read_image
  read_image_resource o = try (read_image o) >>= read_found o

  unfoldable pub before_diff : Image → Image
  before_diff o =
      if s.is_changed o.source || s.is_changed o.source_hash then record o { digest = none } else o

  -- the wait for an operation, if there is one
  abbrev waited : ℕ → Option Operation → Action World (Option (Unit {0}))
  waited fuel none = pure (some tt)
  waited fuel (some op) =
      try (wait_for_artifact_registry_operation fuel s.tick s.get_operation op)
      >>= wrapped "error waiting for repository creation"

  -- a repository that is there already is no error
  abbrev created : Result (Option Operation) → Action World (Option Operation)
  created (ok op) = pure op
  created (err e) =
      if err_is_409 (some e) then pure none else fail (wrap "error creating repository" e)
  created panic = crash

  abbrev make_repository : ℕ → String → String → String → Action World (Option (Unit {0}))
  make_repository fuel project region repo =
      try (
        s.create_repository ("projects/" ++ project ++ "/locations/" ++ region) repo
          (repository_path project region repo))
      >>= created
      >>= waited fuel

  abbrev found_or_made :
      Action World (Option (Unit {0})) → Result (Unit {0}) → Action World (Option (Unit {0}))
  found_or_made make (ok u) = pure (some tt)
  found_or_made make (err e) = if err_is_404 (some e) then make else fail e
  found_or_made make panic = crash

  unfoldable pub ensure_repository : ℕ → String → String → String → Action World (Option (Unit {0}))
  ensure_repository fuel project region name =
      try (s.get_docker_image (package_path project region (repo_and_name name)))
      >>= found_or_made (make_repository fuel project region (repo_and_name name).0)

  -- the loop over the attempts: the digests that the last one has found
  abbrev pub enough : Action World (List String) → List String → Action World (List String)
  enough rest [] = s.sleep >> rest
  enough rest (d ∷ ds) = pure (d ∷ ds)

  unfoldable pub push_loop : ℕ → String → String → Action World (List String)
  push_loop zero image auth = pure []
  push_loop (suc n) image auth =
      s.image_push image auth
      >> s.drain
      >> s.close
      >> s.image_inspect image
      >>= enough (push_loop n image auth)

  abbrev pub digested : Image → List String → Action World (Option Image)
  digested o [] = fail (text "error getting image digest")
  digested o (d ∷ ds) =
      part_of (split_second "@" d) >>= λ digest. pure (some (record o { digest = some digest }))

  abbrev pub pushed_name : Image → String
  pushed_name o =
      let name = image_name o.region.wanted o.project_id.wanted o.name.wanted in
      if o.tag.wanted == "" then name else name ++ ":" ++ o.tag.wanted

  abbrev pulled : Image → String → Action World (Unit {0})
  pulled o auth =
      if o.pull
      then s.image_pull o.source.wanted (if o.pull_auth then auth else "") >> s.drain >> s.close
      else pure tt

  -- what `push` does before its loop: the credentials
  abbrev pub prepared : ℕ → Image → Action World (String × Option (Unit {0}))
  prepared fuel o = try s.token >>= wrapped "error getting google credentials token" >>= λ token.
      s.docker
      >> (try s.ping >>= wrapped "docker is required for GCR image upload!")
      >> pulled o (s.auth token)
      >> s.image_tag o.source.wanted (pushed_name o)
      >> s.registry
      >> ensure_repository fuel o.project_id.wanted o.region.wanted o.name.wanted
      >>= λ ready. pure (s.auth token, ready)

  abbrev pub attempt : Image → String × Option (Unit {0}) → Action World (Option Image)
  attempt o (auth, none) = pure none
  attempt o (auth, some u) = push_loop 3 (pushed_name o) auth >>= digested o

  unfoldable pub push : ℕ → Image → Action World (Option Image)
  push fuel o = prepared fuel o >>= attempt o

  abbrev delete_tag_if : Bool → String → String → Action World (Unit {0})
  delete_tag_if delete_tag path tag =
      if delete_tag then s.delete_tag (path ++ "/tags/" ++ or_latest tag) else pure tt

  abbrev delete_digest_if : ℕ → String → String → Action World (Option (Unit {0}))
  delete_digest_if fuel path digest =
      if digest == ""
      then pure (some tt)
      else (s.delete_version (path ++ "/versions/" ++ digest)
          >>= wait_for_artifact_registry_operation fuel s.tick s.get_operation)

  unfoldable pub delete_image : ℕ → Image → Bool → String → Action World (Option (Unit {0}))
  delete_image fuel o delete_tag digest =
      if ((digest == "") && not delete_tag) || (s.current o.region == "")
      then pure (some tt)
      else (s.registry
          >> (let parts = repo_and_name (s.current o.name) in
              let path = package_path (s.current o.project_id) (s.current o.region) parts in
              if parts.1 == ""
              then pure (some tt)
              else (delete_tag_if delete_tag path (s.current o.tag)
                  >> delete_digest_if fuel path digest)))

  -- `Update` after the push; the outcome of the clean-up is not looked at
  abbrev cleaned : ℕ → Image → Option Image → Action World (Option Image)
  cleaned fuel o none = pure none
  cleaned fuel o (some o') =
      if s.is_changed o.tag || not (digest_or_nil o.digest == digest_or_nil o'.digest)
      then (try (
            delete_image fuel o' (s.is_changed o.tag && not (s.current o.tag == ""))
              (digest_or_nil o.digest))
          >> pure (some o'))
      else pure (some o')

  unfoldable pub create_image : ℕ → Image → Action World (Option Image)
  create_image fuel o = push fuel o

  unfoldable pub update_image : ℕ → Image → Action World (Option Image)
  update_image fuel o = push fuel o >>= cleaned fuel o

  unfoldable pub delete_image_resource : ℕ → Image → Action World (Option (Unit {0}))
  delete_image_resource fuel o = delete_image fuel o true (digest_or_nil o.digest)
