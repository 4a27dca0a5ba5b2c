-- ===== src/Secrets.antt =====
-- plugin/secrets.go: the secrets of a project in Secret Manager. The client of the service, base64,
-- RFC 3339 times, SanitizeName and `runAndEnsureAPI` (EnsureApi.antt, where its world is that of the
-- client) are parameters. A nil slice and an empty one are the same list; a map is a list of pairs,
-- and the tasks of an errgroup run one after the other.
pub mod Handlers
pub mod Keys
pub mod Cleanup
pub mod Replace
mod Tests
use Prim.Native.String.{◌++◌}
use cli_plugin_gcp.Common.{
  ℕ, String, Bool, true, false, not, ◌||◌, List, [], ◌∷◌, none, some, ltb, if◌then◌else◌, ◌==◌,
  string_eq, Dict,
}
use cli_plugin_gcp.Common.Texts.{has_prefix, after_slashes}
use cli_plugin_gcp.Common.Action.{
  Action, Result, ok, err, panic, wrap, pure, fail, crash, try, of_result, ◌>>=◌, ◌>>◌,
}
use cli_plugin_gcp.ApiErrors.{err_is_400, err_is_404}
use cli_plugin_gcp.Naming.{Env}

-- secretmanager.SecretVersion
pub record SecretVersion : Type 0 where
  pub name : String
  pub create_time : String
  pub state : String

pub record SecretManager : Type 1 where
  pub World : Type 0
  -- Projects.Secrets: the paths are the texts that the code makes
  pub get : String → Action World (Unit {0})
  pub create : String → String → Dict String → Action World (Unit {0})
  pub list : String → ℕ → String → Action World (List String)
  pub delete : String → Action World (Unit {0})
  pub add_version : String → String → Action World SecretVersion
  -- Projects.Secrets.Versions
  pub access : String → Action World String
  pub list_versions : String → Action World (List SecretVersion)
  pub destroy : String → Action World (Unit {0})
  pub now : World → ℕ
  -- time.Parse with time.RFC3339, the error left aside
  pub parse_time : String → ℕ
  pub encode : String → String
  pub decode : String → String
  -- config.NewGCPSecretManagerClient
  pub client : Action World (Unit {0})

abbrev keep_prefixed : String → String → Result (List String) → Result (List String)
keep_prefixed prefix name (ok ns) = if has_prefix name prefix then ok (name ∷ ns) else ok ns
keep_prefixed prefix name (err e) = err e
keep_prefixed prefix name panic = panic

-- the loop of `listSecrets`: parts[3] of a shorter name is a panic
pub names_of : String → List String → Result (List String)
names_of prefix [] = ok []
names_of prefix (full ∷ rest) =
    let more = names_of prefix rest in
    elim (after_slashes 3 full) [ none ↦ panic | some name ↦ keep_prefixed prefix name more ]

module _ (m : SecretManager) where
  open m use {World, get, create, list, delete, add_version, access, list_versions, destroy, now}

  abbrev pub secret_path : String → String → String
  secret_path project name = "projects/" ++ project ++ "/secrets/" ++ name

  abbrev found : Result (Unit {0}) → Action World Bool
  found (ok _) = pure true
  found (err e) = if err_is_404 (some e) then pure false else fail e
  found panic = crash

  pub get_secret : String → String → Action World Bool
  get_secret project name = try (get (secret_path project name)) >>= found

  abbrev labels : Env → Dict String
  labels e = ("creator", "outblocks") ∷ ("env", e.env) ∷ ("project", e.project_name) ∷ []

  abbrev created : String → Result (Unit {0}) → Action World (Unit {0})
  created key (ok _) = pure tt
  created key (err e) = fail (wrap ("error creating secret '" ++ key ++ "'") e)
  created key panic = crash

  pub create_secret : Env → String → String → Action World (Unit {0})
  create_secret e project key = try (create ("projects/" ++ project) key (labels e)) >>= created key

  abbrev accessed : String → Result String → Action World (String × Bool)
  accessed name (ok bytes) = pure (m.decode bytes, true)
  accessed name (err e) =
      if err_is_404 (some e)
      then pure ("", false)
      else if err_is_400 (some e)
      then pure ("", true)
      else fail (wrap ("error accessing secret '" ++ name ++ "' value") e)
  accessed name panic = crash

  -- the value, and whether there is a secret
  pub access_secret_value : String → String → Action World (String × Bool)
  access_secret_value project name =
      try (access (secret_path project name ++ "/versions/latest")) >>= accessed name

  abbrev listed : String → Result (List String) → Action World (List String)
  listed prefix (ok names) = of_result (names_of prefix names)
  listed prefix (err e) = fail (wrap "error listing secrets" e)
  listed prefix panic = crash

  pub list_secrets : String → String → Action World (List String)
  list_secrets project prefix = try (list ("projects/" ++ project) 25000 prefix) >>= listed prefix

  -- whether a version outlives a clean-up at this time
  abbrev pub is_kept : ℕ → SecretVersion → Bool
  is_kept time v = not (ltb (m.parse_time v.create_time) time) || not (v.state == "ENABLED")

  abbrev pub destroyed : String → Result (Unit {0}) → Action World (Unit {0})
  destroyed name (ok _) = pure tt
  destroyed name (err e) = fail (wrap ("error deleting old secret '" ++ name ++ "' version") e)
  destroyed name panic = crash

  -- the loop of `setSecretValue`
  pub destroy_old : String → ℕ → List SecretVersion → Action World (Unit {0})
  destroy_old name time [] w = (ok tt, w)
  destroy_old name time (v ∷ vs) w =
      let rest = destroy_old name time vs in
      if is_kept time v then rest w else (try (destroy v.name) >>= destroyed name >> rest) w

  abbrev versions_of : String → Result (List SecretVersion) → Action World (List SecretVersion)
  versions_of name (ok vs) = pure vs
  versions_of name (err e) = fail (wrap ("error listing secret '" ++ name ++ "' versions") e)
  versions_of name panic = crash

  abbrev added : String → Result SecretVersion → Action World ℕ
  added name (ok v) = pure (m.parse_time v.create_time)
  added name (err e) = fail (wrap ("error setting secret '" ++ name ++ "' value") e)
  added name panic = crash

  -- the time of the new version, or the time now if there is none
  abbrev add_value : String → String → String → Action World ℕ
  add_value project name value =
      if value == ""
      then (λ w. (ok (now w), w))
      else (try (add_version (secret_path project name) (m.encode value)) >>= added name)

  abbrev clean : String → String → Bool → ℕ → Action World (Unit {0})
  clean project name cleanup time =
      if not cleanup
      then pure tt
      else (try (list_versions (secret_path project name))
          >>= versions_of name
          >>= destroy_old name time)

  pub set_secret_value : String → String → String → Bool → Action World (Unit {0})
  set_secret_value project name value cleanup =
      add_value project name value >>= clean project name cleanup

  abbrev deleted : String → Result (Unit {0}) → Action World Bool
  deleted name (ok _) = pure true
  deleted name (err e) =
      if err_is_404 (some e)
      then pure false
      else fail (wrap ("error deleting secret '" ++ name ++ "'") e)
  deleted name panic = crash

  pub delete_secret : String → String → Action World Bool
  delete_secret project name = try (delete (secret_path project name)) >>= deleted name
