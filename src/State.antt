-- ===== src/State.antt =====
-- plugin/state.go, the handlers: `getBucket`, `lockState`, `GetState`, `SaveState` and
-- `ReleaseStateLock`. Times and waits are numbers in one unit. `lockState` waits in a loop, on fuel
-- here: `none` means that the fuel ran out.
pub mod Waiting
pub mod Handlers
pub mod Leak
mod Tests
use cli_plugin_gcp.Common.{
  ℕ, zero, suc, ◌-◌, String, Bool, true, false, not, ◌&&◌, ◌||◌, List, [], ◌∷◌, Option, none, some,
  ltb, nat_beq, if◌then◌else◌,
}
use cli_plugin_gcp.Common.Int.{ℤ, pos}
use cli_plugin_gcp.Common.Action.{
  Action, Result, ok, err, panic, Fault, wrap, locked, errors_is, bucket_not_exist,
  object_not_exist, acquire_lock_failed, pure, fail, crash, try, of_result, ◌>>=◌, ◌>>◌,
}
use cli_plugin_gcp.Gcs.{Gcs, BucketAttrs, LifecycleRule}
use cli_plugin_gcp.Lock.{LockInfo, acquire_lock, release_lock}
use cli_plugin_gcp.Naming.{
  Util, Env, default_state_bucket, default_locks_bucket, statefile, state_lockfile,
}

-- apiv1.GetStateResponse_State
pub record StateResponse : Type 0 where
  pub state : Option String
  pub lock_info : String
  pub state_created : Bool
  pub state_name : String

-- What the plugin's process runs in: the storage service, the helpers of outblocks-plugin-go
-- (`validate.OptionalString` on a request's properties), the making of the storage client, and the
-- stream to the host.
pub record Host : Type 1 where
  pub gcs : Gcs
  pub util : Util
  pub Fields : Type 0
  pub optional_string : String → Fields → String → String → Result String
  pub storage_client : Action gcs.World (Unit {0})
  pub send_state : StateResponse → Action gcs.World (Unit {0})

-- The part of `Plugin` that these handlers read.
pub record Plugin : Type 0 where
  pub env : Env
  pub project_id : String
  pub region : String

module _ (g : Gcs) where
  open g use {World, bucket_attrs, bucket_create, now, tick, send_waiting}

  abbrev bucket_made : Result (Unit {0}) → Action World (Bool × Bool)
  bucket_made (ok _) = pure (true, true)
  bucket_made (err e) = fail (wrap "error creating GCS bucket" e)
  bucket_made panic = crash

  abbrev bucket_found :
      String → String → BucketAttrs → Bool → Result BucketAttrs → Action World (Bool × Bool)
  bucket_found b project attrs create (ok _) = pure (false, true)
  bucket_found b project attrs create (err e) =
      if errors_is bucket_not_exist e
      then (if not create
          then pure (false, false)
          else try (bucket_create b project attrs) >>= bucket_made)
      else fail e
  bucket_found b project attrs create panic = crash

  -- created and exists
  unfoldable pub get_bucket : String → String → BucketAttrs → Bool → Action World (Bool × Bool)
  get_bucket b project attrs create = try (bucket_attrs b) >>= bucket_found b project attrs create

  abbrev pub lock_timeout : LockInfo → Fault → Fault
  lock_timeout i e =
      if errors_is acquire_lock_failed e then locked (("", i.info, i.owner) ∷ []) else e

  abbrev pub send_first : Bool → Action World (Unit {0})
  send_first first = if first then send_waiting else pure tt

  -- one round of the `for` of `lockState` after its call of `acquireLock`; `rest` is the next round
  unfoldable pub attempted :
      ℕ
      → ℕ
      → Bool
      → Action World (Option String)
      → LockInfo × Option Fault
      → Action World (Option String)
  attempted lock_wait start first rest (i, none) w = (ok (some i.info), w)
  attempted lock_wait start first rest (i, some e) w =
      if nat_beq lock_wait 0 || ltb lock_wait (now w - start)
      then (err (lock_timeout i e), w)
      else (send_first first >> tick >> rest) w

  -- the `for` of `lockState`
  unfoldable pub lock_loop : ℕ → String → String → ℕ → ℕ → Bool → Action World (Option String)
  lock_loop zero b o lock_wait start first = pure none
  lock_loop (suc fuel) b o lock_wait start first =
      acquire_lock g b o
      >>= attempted lock_wait start first (λ w. lock_loop fuel b o lock_wait start false w)

module _ (h : Host) (p : Plugin) where
  open h use {gcs, util, Fields, optional_string, storage_client, send_state}

  abbrev pub locks_attrs : BucketAttrs
  locks_attrs = record { location = p.region; versioning_enabled = false; rules = []; cors = [] }

  abbrev pub state_attrs : BucketAttrs
  state_attrs = record {
    location = p.region;
    versioning_enabled = true;
    rules =
        record {
          days_since_noncurrent_time = pos 14;
          age_in_days = pos 0;
          num_newer_versions = pos 0;
          archived = false;
          action = "Delete";
        }
        ∷ record {
          days_since_noncurrent_time = pos 0;
          age_in_days = pos 0;
          num_newer_versions = pos 100;
          archived = true;
          action = "Delete";
        }
        ∷ [];
    cors = [];
  }

  pub lock_state : ℕ → String → String → ℕ → Action gcs.World (Option String)
  lock_state fuel project locking_bucket lock_wait =
      get_bucket gcs locking_bucket project locks_attrs true >>= λ _ w.
      lock_loop gcs fuel locking_bucket (state_lockfile util p.env) lock_wait (gcs.now w) true w

  abbrev pub project_of : Fields → Result String
  project_of f = optional_string p.project_id f "project" "GCP project must be a string"

  abbrev pub locks_bucket_of : String → Fields → Result String
  locks_bucket_of project f =
      optional_string (default_locks_bucket util p.env project) f "locks_bucket"
        "locks bucket must be a string"

  abbrev pub bucket_of : String → Fields → Result String
  bucket_of project f =
      optional_string (default_state_bucket util p.env project) f "bucket" "bucket must be a string"

  abbrev reply : StateResponse → Action gcs.World (Option StateResponse)
  reply r = send_state r >> pure (some r)

  -- the answer where there is no state and none is to be made
  abbrev pub absent : String → StateResponse
  absent bucket = record {
    state = none;
    lock_info = "";
    state_created = false;
    state_name = bucket;
  }

  -- the end of `GetState`, from how the read of the state file ended
  abbrev state_read :
      Bool → Bool → String → String → Result String → Action gcs.World (Option StateResponse)
  state_read skip_create created bucket lock_info (ok s) = reply (record {
    state = some s;
    lock_info = lock_info;
    state_created = created;
    state_name = bucket;
  })
  state_read skip_create created bucket lock_info (err e) =
      if not (errors_is object_not_exist e)
      then fail e
      else if skip_create
      then reply (absent bucket)
      else reply (record {
        state = none;
        lock_info = lock_info;
        state_created = true;
        state_name = bucket;
      })
  state_read skip_create created bucket lock_info panic = crash

  -- the middle of `GetState`, once the lock is taken
  abbrev pub read_state :
      Bool → Bool → String → Option String → Action gcs.World (Option StateResponse)
  read_state skip_create created bucket none = pure none
  read_state skip_create created bucket (some lock_info) =
      try (gcs.read bucket (statefile util p.env))
      >>= state_read skip_create created bucket lock_info

  abbrev maybe_lock : Bool → Action gcs.World (Option String) → Action gcs.World (Option String)
  maybe_lock lock m = if lock then m else pure (some "")

  -- `GetState`, from the bucket on
  abbrev bucket_ready :
      ℕ
      → Bool
      → Bool
      → ℕ
      → String
      → String
      → String
      → Bool × Bool
      → Action gcs.World (Option StateResponse)
  bucket_ready fuel skip_create lock lock_wait project bucket locking (created, exists) =
      if not exists && skip_create
      then reply (absent bucket)
      else (maybe_lock lock (lock_state fuel project locking lock_wait)
          >>= read_state skip_create created bucket)

  pub get_state : ℕ → Fields → Bool → Bool → ℕ → Action gcs.World (Option StateResponse)
  get_state fuel f skip_create lock lock_wait = do
    project ← of_result (project_of f)
    bucket ← of_result (bucket_of project f)
    locking ← of_result (locks_bucket_of project f)
    storage_client
    found ← get_bucket gcs bucket project state_attrs (not skip_create)
    bucket_ready fuel skip_create lock lock_wait project bucket locking found

  pub save_state : Fields → String → Action gcs.World (Unit {0})
  save_state f state = do
    project ← of_result (project_of f)
    bucket ← of_result (bucket_of project f)
    storage_client
    gcs.write bucket (statefile util p.env) state
    pure tt

  pub release_state_lock : Fields → String → Action gcs.World (Unit {0})
  release_state_lock f lock_info = do
    project ← of_result (project_of f)
    bucket ← of_result (locks_bucket_of project f)
    storage_client
    release_lock gcs bucket (state_lockfile util p.env) lock_info
