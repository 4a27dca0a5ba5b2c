-- ===== src/Naming.antt =====
-- The names of cloud objects: `defaultBucket`, `statefile`, `stateLockfile` and
-- `defaultStateBucket` of plugin/state.go, `defaultLocksBucket` and `lockfile` of
-- plugin/locking.go, `ID`, `ImageID`, `GlobalID`, `GenericID` and `ShortShaID` of gcp/util.go.
-- SanitizeName, LimitString and SHAString are code of outblocks-plugin-go: a parameter.
-- Lengths are in bytes, as Go's `len`.
pub mod Bounds
use Prim.Native.String.{◌++◌}
use cli_plugin_gcp.Common.{ℕ, ◌≤◌, ◌≡◌, String, Bool, true, false, len, ltb, if◌then◌else◌}

pub record Util : Type 0 where
  pub sanitize_name : String → Bool → Bool → String
  pub limit_string : String → ℕ → String
  pub sha_string : String → String

-- LimitString cuts a text that is longer than the limit, and no other.
pub record IsUtil (u : Util) : Type 0 where
  pub limit_len : (s : String) (n : ℕ) → len (u.limit_string s n) ≤ n
  pub limit_short : (s : String) (n : ℕ) → len s ≤ n → u.limit_string s n ≡ s

-- env.Enver
pub record Env : Type 0 where
  pub env : String
  pub project_name : String
  pub project_id : String

module _ (u : Util) (e : Env) where
  open u use {sanitize_name, limit_string, sha_string}
  open e use {env, project_name, project_id}

  unfoldable pub default_bucket : String → String → String
  default_bucket gcp_project suffix =
      limit_string (sanitize_name project_name false false) 51
      ++ suffix
      ++ "-"
      ++ limit_string (sha_string gcp_project) 8

  unfoldable pub default_state_bucket : String → String
  default_state_bucket project = default_bucket project ""

  unfoldable pub default_locks_bucket : String → String
  default_locks_bucket project = default_bucket project "-locks"

  unfoldable pub statefile : String
  statefile = env ++ "/" ++ project_name ++ "/state"

  unfoldable pub state_lockfile : String
  state_lockfile = env ++ "/" ++ project_name ++ "/lock"

  -- the last part of a lock's file name
  unfoldable pub lock_part : String → String
  lock_part name =
      if ltb 44 (len name)
      then limit_string name 40 ++ "-" ++ limit_string (sha_string name) 4
      else name

  unfoldable pub lockfile : String → String
  lockfile name = env ++ "/" ++ project_name ++ "/" ++ lock_part (sanitize_name name true true)

  pub short_sha_id : String → String
  short_sha_id id = limit_string (sha_string id) 4

  pub sanitized_id : String → String
  sanitized_id id = if ltb 44 (len id) then limit_string id 40 ++ short_sha_id id else id

  pub sanitized_env : String
  sanitized_env = limit_string (sanitize_name env false false) 4

  pub id : String → String
  id resource_id =
      sanitized_id (sanitize_name resource_id false false)
      ++ "-"
      ++ sanitized_env
      ++ "-"
      ++ short_sha_id project_id

  pub image_id : String → String
  image_id i =
      sanitized_env
      ++ "-"
      ++ short_sha_id project_id
      ++ "/"
      ++ sanitized_id (sanitize_name i false false)

  pub global_id : String → String → String
  global_id gcp_project i = id i ++ short_sha_id gcp_project

  -- the suffixes as strings.Join has them
  pub generic_id : String → String → String
  generic_id i suffixes = sanitize_name i false false ++ "-" ++ short_sha_id suffixes
