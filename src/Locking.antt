-- ===== src/Locking.antt =====
-- plugin/locking.go: `acquireLocks`, `AcquireLocks` and `ReleaseLocks`. The inner loop waits, on
-- fuel here; a result of `none` means that the fuel ran out. The tasks of an errgroup run one after
-- the other, in the order in which they are started.
pub mod Owned
pub mod Taking
pub mod Rollback
pub mod Handler
pub mod Leak
pub mod Waiting
mod Tests
use cli_plugin_gcp.Common.{
  ℕ, zero, suc, ◌-◌, String, Bool, true, false, not, ◌||◌, List, [], ◌∷◌, ◌++◌, map, Option, none,
  some, ltb, nat_beq, if◌then◌else◌, Dict, lookup, insert,
}
use cli_plugin_gcp.Common.Action.{
  Action, Result, ok, err, panic, Fault, locked, errors_is, object_not_exist, acquire_lock_failed,
  pure, fail, crash, try, of_result, group, first_fault, ◌>>=◌, ◌>>◌,
}
use cli_plugin_gcp.Gcs.{Gcs}
use cli_plugin_gcp.Lock.{LockInfo, acquire_lock, check_lock, release_lock}
use cli_plugin_gcp.Naming.{lockfile}
use cli_plugin_gcp.State.{
  Host, Plugin, get_bucket, send_first, locks_attrs, project_of, locks_bucket_of,
}
use text.Mathlib.Text.{is_le}
use Prim.Native.String.{compare}

-- types.LockError: the lock's name, its id and its owner
abbrev pub LockError : Type 0
LockError = String × String × String

-- The locks taken, the locks that stood in the way, and an error of the checks.
abbrev pub Locks : Type 0
Locks = Dict String × List LockError × Option Fault

-- sort.Strings
abbrev pub insert_string : String → List String → List String
insert_string s [] = s ∷ []
insert_string s (t ∷ ts) = if is_le (compare s t) then s ∷ t ∷ ts else t ∷ insert_string s ts

abbrev pub sort_strings : List String → List String
sort_strings [] = []
sort_strings (s ∷ ss) = insert_string s (sort_strings ss)

-- How the inner loop ends for one lock.
pub data Taken : Type 0 where
  got : String → Taken
  contended : LockInfo → Taken
  out_of_fuel : Taken

-- Go reads "" where a key is missing.
abbrev pub name_of : Dict String → String → String
name_of names f = elim (lookup f names) [ none ↦ "" | some n ↦ n ]

module _ (g : Gcs) (b : String) where
  open g use {World, now, tick}

  -- one round of the inner `for` after its call of `acquireLock`; `rest` is the next round
  unfoldable pub round :
      ℕ
      → ℕ
      → Bool
      → Action World (Taken × Bool)
      → LockInfo × Option Fault
      → Action World (Taken × Bool)
  round lock_wait start first rest (i, none) w = (ok (got i.info, first), w)
  round lock_wait start first rest (i, some e) w =
      if nat_beq lock_wait 0 || ltb lock_wait (now w - start)
      then (if not (errors_is acquire_lock_failed e)
          then (err e, w)
          else (ok (contended i, first), w))
      else (send_first g first >> tick >> rest) w

  -- the inner `for`; the flag says whether the host is still to be told that the plugin waits
  pub take_lock : ℕ → String → ℕ → ℕ → Bool → Action World (Taken × Bool)
  take_lock zero f lock_wait start first = pure (out_of_fuel, first)
  take_lock (suc fuel) f lock_wait start first =
      acquire_lock g b f
      >>= round lock_wait start first (λ w. take_lock fuel f lock_wait start false w)

  abbrev pub lock_error : String → LockInfo → LockError
  lock_error name i = (name, i.info, i.owner)

  -- what one of the checks of the remaining locks adds
  abbrev checked :
      String → List LockError → Option Fault → Result LockInfo → List LockError × Option Fault
  checked name failed e (ok i) = (failed ++ lock_error name i ∷ [], e)
  checked name failed e (err x) =
      (failed, if errors_is object_not_exist x then e else first_fault {A = LockInfo} e (err x))
  checked name failed e panic = (failed, e)

  pub check_rest :
      Dict String
      → List String
      → List LockError
      → Option Fault
      → Action World (List LockError × Option Fault)
  check_rest names [] failed e = pure (failed, e)
  check_rest names (f ∷ fs) failed e = try (check_lock g b f) >>= λ r.
      let out = checked (name_of names f) failed e r in check_rest names fs out.0 out.1

  -- the outer `for` after one inner loop; `rest` goes on with the next lock
  pub after_take :
      Dict String
      → List String
      → String
      → Dict String
      → (Dict String → Bool → Action World (Option Locks))
      → Taken × Bool
      → Action World (Option Locks)
  after_take names fs f acquired rest (got id, first) =
      rest (insert (name_of names f) id acquired) first
  after_take names fs f acquired rest (contended i, first) =
      check_rest names fs (lock_error (name_of names f) i ∷ []) none >>= λ out.
      pure (some (acquired, out.0, out.1))
  after_take names fs f acquired rest (out_of_fuel, first) = pure none

  -- the outer `for`, from the locks that are left and those that are taken
  pub acquire_locks :
      ℕ → Dict String → ℕ → ℕ → List String → Dict String → Bool → Action World (Option Locks)
  acquire_locks fuel names lock_wait start [] acquired first = pure (some (acquired, [], none))
  acquire_locks fuel names lock_wait start (f ∷ fs) acquired first =
      take_lock fuel f lock_wait start first
      >>= after_take names fs f acquired
          (λ acquired' first' w. acquire_locks fuel names lock_wait start fs acquired' first' w)

module _ (h : Host) (p : Plugin) where
  open h use {gcs, util, Fields, storage_client}

  abbrev pub release_entry : String → String × String → Action gcs.World (Unit {0})
  release_entry b (name, info) = release_lock gcs b (lockfile util p.env name) info

  pub release_locks : Fields → Dict String → Action gcs.World (Unit {0})
  release_locks f locks = do
    project ← of_result (project_of h p f)
    bucket ← of_result (locks_bucket_of h p project f)
    storage_client
    group (release_entry bucket) locks

  abbrev pub name_locks : List String → Dict String → Dict String
  name_locks [] names = names
  name_locks (n ∷ ns) names = name_locks ns (insert (lockfile util p.env n) n names)

  -- after `acquireLocks`: what was taken is given back if a lock stood in the way
  abbrev pub settle : Fields → Option (Locks) → Action gcs.World (Option (Dict String))
  settle f none = pure none
  settle f (some (acquired, [], none)) = pure (some acquired)
  settle f (some (acquired, [], some e)) = fail e
  settle f (some ([], failed, e)) = fail (locked failed)
  settle f (some (acquired, failed, e)) =
      try (release_locks f acquired) >>= λ _. fail (locked failed)

  -- `AcquireLocks`; the locks that the last message to the host holds
  pub acquire_locks_handler :
      (Dict String → Action gcs.World (Unit {0}))
      → ℕ
      → Fields
      → List String
      → ℕ
      → Action gcs.World (Option (Dict String))
  acquire_locks_handler send fuel f lock_names lock_wait = do
    project ← of_result (project_of h p f)
    bucket ← of_result (locks_bucket_of h p project f)
    storage_client
    get_bucket gcs bucket project (locks_attrs h p) true
    let files = sort_strings (map (lockfile util p.env) lock_names)
    taken ← λ w.
        acquire_locks gcs bucket fuel (name_locks lock_names []) lock_wait (gcs.now w) files [] true
          w
    locks ← settle f taken
    elim locks [ none ↦ pure none | some ls ↦ send ls >> pure (some ls) ]
