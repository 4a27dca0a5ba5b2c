-- ===== src/Lock.antt =====
-- plugin/state.go, the lock: `lockdata`, `acquireLock`, `checkLock` and `releaseLock`. A lock is an
-- object in a bucket; its id is the object's generation in base 36 and its content names the owner.
-- A result that Go returns beside a non-nil error is a pair with an `Option Fault`.
pub mod Laws
pub mod Exclusion
pub mod Clock
mod Tests
use Prim.Native.String.{◌++◌}
use cli_plugin_gcp.Common.{ℕ, String, Bool, false, Option, none, some, nat_beq, if◌then◌else◌}
use cli_plugin_gcp.Common.Int.{ℤ}
use cli_plugin_gcp.Common.Action.{
  try, crash, Action, Result, ok, err, panic, Fault, sentinel, api, text, wrap, errors_is,
  object_not_exist, acquire_lock_failed, release_lock_failed, release_lock_mismatch, pure, fail,
  ◌>>=◌,
}
use cli_plugin_gcp.Strconv.{format_int, parse_int}
use cli_plugin_gcp.Gcs.{Gcs, ObjectAttrs}

-- The three results of `acquireLock` and `checkLock` beside the error.
pub record LockInfo : Type 0 where
  pub info : String
  pub owner : String
  pub created_at : ℕ

abbrev pub no_info : LockInfo
no_info = record { info = ""; owner = ""; created_at = 0 }

-- A *googleapi.Error with this code: a type assertion, so nothing is unwrapped.
abbrev pub is_api_code : ℕ → Fault → Bool
is_api_code c (api d _) = nat_beq d c
is_api_code c _ = false

module _ (g : Gcs) where
  open g use {World, read, object_attrs, write_new, delete_generation, username, hostname}

  abbrev or_empty : Option String → String
  or_empty none = ""
  or_empty (some s) = s

  unfoldable pub lockdata : World → String
  lockdata w = or_empty (username w) ++ "@" ++ hostname w

  unfoldable pub check_lock : String → String → Action World LockInfo
  check_lock b o = do
    content ← read b o
    attrs ← object_attrs b o
    pure
        (record { info = format_int attrs.generation; owner = content; created_at = attrs.created })

  abbrev unable : Fault → LockInfo × Option Fault
  unable e = (no_info, some (wrap "unable to acquire lock" e))

  -- after a 412: the lock that is in the way, or why it could not be read
  abbrev held_by : Result LockInfo → Action World (LockInfo × Option Fault)
  held_by (ok i) = pure (i, some (sentinel acquire_lock_failed))
  held_by (err e) = pure (unable e)
  held_by panic = crash

  abbrev acquired :
      String → String → String → Result ObjectAttrs → Action World (LockInfo × Option Fault)
  acquired b o owner (ok a) =
      pure (record { info = format_int a.generation; owner = owner; created_at = a.created }, none)
  acquired b o owner (err e) =
      if is_api_code 412 e then try (check_lock b o) >>= held_by else pure (unable e)
  acquired b o owner panic = crash

  unfoldable pub acquire_lock : String → String → Action World (LockInfo × Option Fault)
  acquire_lock b o w = (try (write_new b o (lockdata w)) >>= acquired b o (lockdata w)) w

  abbrev released : Result (Unit {0}) → Action World (Unit {0})
  released (ok _) = pure tt
  released (err e) =
      if errors_is object_not_exist e
      then fail (sentinel release_lock_failed)
      else if is_api_code 412 e
      then fail (sentinel release_lock_mismatch)
      else fail e
  released panic = crash

  abbrev release_generation : String → String → Option ℤ → Action World (Unit {0})
  release_generation b o none = fail (text "invalid lock id")
  release_generation b o (some n) = try (delete_generation b o n) >>= released

  unfoldable pub release_lock : String → String → String → Action World (Unit {0})
  release_lock b o id = release_generation b o (parse_int id)
