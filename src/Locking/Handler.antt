-- ===== src/Locking/Handler.antt =====
-- `AcquireLocks` of plugin/locking.go: its names, its success, its failures.
use text.Mathlib.TextEquality.{eq_iff}
use text.Mathlib.Text.{is_le}
use Prim.Native.String.{compare}
use cli_plugin_gcp.Common.{
  ℕ, ◌≡◌, refl, String, string_eq, ◌==◌, true, List, [], ◌∷◌, map, Option, some, arith, Bool-cases,
  inl, inr, Dict, lookup, insert, lookup-insert, lookup-insert_self, All,
}
use cli_plugin_gcp.Common.Action.{Result, ok, err, Fault, locked}
use cli_plugin_gcp.Gcs.{IsStorage, SameObjects}
use cli_plugin_gcp.Naming.{lockfile}
use cli_plugin_gcp.State.{Host, Plugin, project_of, locks_bucket_of}
use cli_plugin_gcp.Locking.{
  LockError, Locks, insert_string, sort_strings, acquire_locks, name_of, name_locks, settle,
}
use cli_plugin_gcp.Locking.Owned.{SameStore, Owned}
use cli_plugin_gcp.Locking.Taking.{IsClean, view}
use cli_plugin_gcp.Locking.Rollback.{DeletesWork, acquire_locks-Keeps, release_locks-undoes}

module _ (P : String → Type 0) where
  All-insert_string : (s : String) (ts : List String) → P s → All P ts → All P (insert_string s ts)
  All-insert_string s [] p all = (p, tt)
  All-insert_string s (t ∷ ts) p (q, all) = elim (Bool-cases (is_le (compare s t))) [
    | inl first ↦ rw first (p, (q, all))
    | inr later ↦ rw later (q, All-insert_string s ts p all)
  ]

  All-sort_strings : (ss : List String) → All P ss → All P (sort_strings ss)
  All-sort_strings [] all = tt
  All-sort_strings (s ∷ ss) (p, all) =
      All-insert_string s (sort_strings ss) p (All-sort_strings ss all)

module _ (h : Host) (p : Plugin) where
  open h use {gcs, util, Fields, storage_client}

  -- The map gives a file a name whose file it is.
  abbrev IsNamed : Dict String → String → Type 0
  IsNamed names f = (n : String) × (lookup f names ≡ some n) × (lockfile util p.env n ≡ f)

  insert-IsNamed :
      (names : Dict String) (k f : String)
      → IsNamed names f
      → IsNamed (insert (lockfile util p.env k) k names) f
  insert-IsNamed names k f (n, at, named) = elim (Bool-cases (lockfile util p.env k == f)) [
    | inl same ↦ (k, rw (lookup-insert, same) refl, (eq_iff _ f).0 same)
    | inr other ↦ (n, rw (lookup-insert, other) at, named)
  ]

  name_locks-IsNamed :
      (ns : List String) (names : Dict String) (f : String)
      → IsNamed names f
      → IsNamed (name_locks h p ns names) f
  name_locks-IsNamed [] names f named = named
  name_locks-IsNamed (n ∷ ns) names f named =
      name_locks-IsNamed ns _ f (insert-IsNamed names n f named)

  All-name_locks :
      (ns : List String) (names : Dict String)
      → All (IsNamed (name_locks h p ns names)) (map (lockfile util p.env) ns)
  All-name_locks [] names = tt
  All-name_locks (n ∷ ns) names =
      (name_locks-IsNamed ns _ _ (n, lookup-insert_self _ n names, refl), All-name_locks ns _)

  name_of-lockfile :
      (names : Dict String) (fs : List String)
      → All (IsNamed names) fs
      → All (λ f. lockfile util p.env (name_of names f) ≡ f) fs
  name_of-lockfile names [] all = tt
  name_of-lockfile names (f ∷ fs) ((n, at, named), all) =
      (rw (at, name_of) named, name_of-lockfile names fs all)

  module _ (st : IsStorage gcs) (b : String) (clean : IsClean gcs b) where
    abbrev run : ℕ → List String → ℕ → gcs.World → Result (Option Locks) × gcs.World
    run fuel lock_names lock_wait w =
        acquire_locks gcs b fuel (name_locks h p lock_names []) lock_wait (gcs.now w)
          (sort_strings (map (lockfile util p.env) lock_names)) [] true w

    -- The locks that `acquireLocks` lists when it is done stand in the bucket, each under the id
    -- that is listed for its name, and nothing else in the bucket has changed: also when a lock
    -- stood in the way. A conditional write that fails is to write nothing.
    pub acquire_locks-Owned :
        (fuel lock_wait : ℕ) (lock_names : List String) (w : gcs.World) (acquired : Dict String)
        (failed : List LockError) (e : Option Fault)
        → (run fuel lock_names lock_wait w).0 ≡ ok (some (acquired, failed, e))
        → Owned
            (lockfile util p.env)
            (view gcs b w)
            (view gcs b (run fuel lock_names lock_wait w).1)
            acquired
    acquire_locks-Owned fuel lock_wait lock_names w acquired failed e q =
        acquire_locks-Keeps gcs st b clean (lockfile util p.env) (name_locks h p lock_names []) w
          fuel lock_wait (gcs.now w) _ [] true w
          (name_of-lockfile _ _ (All-sort_strings _ _ (All-name_locks lock_names []))) (λ o. refl)
          acquired failed e q

    -- All or nothing: when a lock stands in the way, the request ends with the error that names
    -- the locks in the way, and every object of the bucket is as it was before the first lock was
    -- taken. The conditions: a conditional write that fails writes nothing, the service carries
    -- out the deletes, and a client can be made, which changes no object.
    pub settle-restores :
        (works : DeletesWork h p st b) (fuel lock_wait : ℕ) (f : Fields) (project : String)
        (lock_names : List String) (w : gcs.World) (acquired : Dict String) (l : LockError)
        (failed : List LockError) (e : Option Fault)
        → project_of h p f ≡ ok project
        → locks_bucket_of h p project f ≡ ok b
        → ((w' : gcs.World)
            → ((storage_client w').0 ≡ ok tt) × SameObjects gcs w' (storage_client w').1)
        → (run fuel lock_names lock_wait w).0 ≡ ok (some (acquired, l ∷ failed, e))
        → let out =
            settle h p f (some (acquired, l ∷ failed, e)) (run fuel lock_names lock_wait w).1 in
          (out.0 ≡ err (locked (l ∷ failed))) × SameStore (view gcs b w) (view gcs b out.1)
    settle-restores works fuel lock_wait f project lock_names w [] l failed e pe be client q =
        (refl, acquire_locks-Owned fuel lock_wait lock_names w [] (l ∷ failed) e q)
    settle-restores works fuel lock_wait f project lock_names w (x ∷ ls) l failed e pe be client q =
        let w' = (run fuel lock_names lock_wait w).1 in
        let owned = acquire_locks-Owned fuel lock_wait lock_names w (x ∷ ls) (l ∷ failed) e q in
        let (went, undone) =
          release_locks-undoes h p st b works (view gcs b w) f project (x ∷ ls) w' pe be
            (client w').0 (client w').1 owned in
        (ground arith, λ o. ground (arith, undone o))
