-- ===== src/Locking/Rollback.antt =====
-- `acquireLocks` and the handler that gives the locks back: all of the locks, or none.
use text.Mathlib.TextEquality.{eq_iff}
use cli_plugin_gcp.Common.{
  string_eq, sym, ◌==◌, ℕ, ◌≡◌, ◌≢◌, refl, sym, ◌∙◌, ap, String, Bool, List, [], ◌∷◌, Option, none,
  some, arith, subst, Bool-cases, inl, inr, Dict, All,
}
use cli_plugin_gcp.Common.Action.{Action, Result, ok, Fault, bind_rule, group_from, try}
use cli_plugin_gcp.Gcs.{Gcs, Object, IsStorage, SameObjects}
use cli_plugin_gcp.Lock.{LockInfo, check_lock}
use cli_plugin_gcp.Lock.Laws.{
  check_lock-SameObjects, release_lock_lem, release_lock-runs, release_lock-others,
}
use cli_plugin_gcp.Naming.{lockfile}
use cli_plugin_gcp.State.{Host, Plugin, project_of, locks_bucket_of}
use cli_plugin_gcp.Locking.{
  LockError, Locks, Taken, got, contended, out_of_fuel, take_lock, checked, check_rest, after_take,
  acquire_locks, name_of, lock_error, release_entry, release_locks,
}
use cli_plugin_gcp.Locking.Owned.{Store, SameStore, Stands, Owned, Owned-same, Owned-insert, drop}
use cli_plugin_gcp.Locking.Taking.{IsClean, view, take_lock-Takes}

module _ (g : Gcs) (st : IsStorage g) (b : String) where
  open g use {World}

  pub check_rest-same :
      (names : Dict String) (fs : List String) (failed : List LockError) (e : Option Fault)
      (w : World)
      → SameObjects g w (check_rest g b names fs failed e w).1
  unfolding check_rest
  check_rest-same names [] failed e w b' o' = refl
  check_rest-same names (f ∷ fs) failed e w b' o' =
      let w' = (check_lock g b f w).1 in
      let kept = check_lock-SameObjects g st b f w b' o' in
      bind_rule (λ out. g.object out.1 b' o' ≡ g.object w b' o') _ (try (check_lock g b f)) w
        (λ _ _. kept) (λ _. kept)
        (λ r _.
          let out = checked g b (name_of names f) failed e r in
          check_rest-same names fs out.0 out.1 w' b' o' ∙ kept)

  module _ (clean : IsClean g b) (file : String → String) (names : Dict String) (w₀ : World) where
    -- The locks that an outcome of `acquireLocks` lists are owned.
    abbrev pub Keeps : Result (Option Locks) × World → Type 0
    Keeps out =
        (acquired : Dict String) (failed : List LockError) (e : Option Fault)
        → out.0 ≡ ok (some (acquired, failed, e))
        → Owned file (view g b w₀) (view g b out.1) acquired

    after_take-Keeps :
        (fs : List String) (f : String) (acquired : Dict String)
        (rest : Dict String → Bool → Action World (Option Locks)) (w : World) (t : Taken × Bool)
        (w' : World)
        → file (name_of names f) ≡ f
        → Owned file (view g b w₀) (view g b w) acquired
        → ((id : String)
            → t.0 ≡ got id
            → (view g b w f ≡ none)
              × Stands (view g b w') f id
              × ((o : String) → o ≢ f → view g b w' o ≡ view g b w o))
        → ((i : LockInfo) → t.0 ≡ contended i → SameStore (view g b w) (view g b w'))
        → ((ls : Dict String) (fl : Bool)
            → Owned file (view g b w₀) (view g b w') ls
            → Keeps (rest ls fl w'))
        → Keeps (after_take g b names fs f acquired rest t w')
    unfolding after_take
    after_take-Keeps fs f acquired rest w (got id, fl) w' named owned taken other later =
        let (free, new, others) = taken id refl in
        later _ fl (
          Owned-insert file (view g b w₀) acquired (view g b w) (view g b w') (name_of names f) id
            owned (ap (view g b w) named ∙ free)
            (subst (λ (k : String). Stands (view g b w') k id) (sym named) new)
            (λ o ne. others o (λ q. ne (q ∙ sym named))))
    after_take-Keeps fs f acquired rest w (contended i, fl) w' named owned taken other later =
        let found = lock_error g b (name_of names f) i ∷ [] in
        let v = (check_rest g b names fs found none w').1 in
        let kept =
          Owned-same file (view g b w₀) acquired (view g b w) (view g b v)
            (λ o. check_rest-same names fs found none w' b o ∙ other i refl o) owned in
        bind_rule Keeps _ (check_rest g b names fs found none) w'
          (λ _ _. λ ls failed e q. absurd (ground arith))
          (λ _. λ ls failed e q. absurd (ground arith))
          (λ out _ ls failed e q.
            let same : acquired ≡ ls = ground arith in
            subst (λ (m : Dict String). Owned file (view g b w₀) (view g b v) m) same kept)
    after_take-Keeps fs f acquired rest w (out_of_fuel, fl) w' named owned taken other later =
        λ ls failed e q. absurd (ground arith)

    -- Whatever the locks that are asked for, those that `acquireLocks` lists at its end stand under
    -- their ids, and the rest of the bucket is as it was.
    pub acquire_locks-Keeps :
        (fuel lock_wait start : ℕ) (fs : List String) (acquired : Dict String) (first : Bool)
        (w : World)
        → All (λ f. file (name_of names f) ≡ f) fs
        → Owned file (view g b w₀) (view g b w) acquired
        → Keeps (acquire_locks g b fuel names lock_wait start fs acquired first w)
    unfolding acquire_locks
    acquire_locks-Keeps fuel lock_wait start [] acquired first w all owned = λ ls failed e q.
        let same : acquired ≡ ls = ground arith in
        subst (λ (m : Dict String). Owned file (view g b w₀) (view g b w) m) same owned
    acquire_locks-Keeps fuel lock_wait start (f ∷ fs) acquired first w (named, all) owned =
        let w' = (take_lock g b fuel f lock_wait start first w).1 in
        let (took, left) = take_lock-Takes g st b clean fuel f lock_wait start first w in
        bind_rule Keeps _ (take_lock g b fuel f lock_wait start first) w
          (λ _ _. λ ls failed e q. absurd (ground arith))
          (λ _. λ ls failed e q. absurd (ground arith))
          (λ t at.
            after_take-Keeps fs f acquired _ w t w' named owned
              (λ id is. took id t.1 (at ∙ ground arith)) (λ i is. left i t.1 (at ∙ ground arith))
              (λ ls fl held. acquire_locks-Keeps fuel lock_wait start fs ls fl w' all held))

module _ (h : Host) (p : Plugin) (st : IsStorage h.gcs) (b : String) where
  open h use {gcs, util, Fields, storage_client}

  -- Every delete of a lock that stands goes through.
  abbrev pub DeletesWork : Type 0
  DeletesWork =
      (o : String) (w : gcs.World) (x : Object)
      → gcs.object w b o ≡ some x
      → (gcs.delete_generation b o x.attrs.generation w).0 ≡ ok tt

  module _ (works : DeletesWork) (start : Store) where
    release_entry-lem :
        (n id : String) (w : gcs.World)
        → Stands (view gcs b w) (lockfile util p.env n) id
        → ((release_entry h p b (n, id) w).0 ≡ ok tt)
          × SameStore
              (drop (lockfile util p.env n) (view gcs b w))
              (view gcs b (release_entry h p b (n, id) w).1)
    release_entry-lem n id w (x, held, named) =
        let f = lockfile util p.env n in
        let done = release_lock-runs gcs st b f id w x.attrs.generation named (works f w x held) in
        let gone = (release_lock_lem gcs st b f id w done).0 in
        (
          done,
          λ o. elim (Bool-cases (f == o)) [
            | inl same ↦ rw (same, ← (eq_iff f o).0 same) gone
            | inr other ↦
                rw other (release_lock-others gcs st b f id w b o (λ q. ground (arith, eq_iff f o)))
          ],
        )

    release_all :
        (ls : Dict String) (w : gcs.World)
        → Owned (lockfile util p.env) start (view gcs b w) ls
        → ((group_from (release_entry h p b) ls none w).0 ≡ ok tt)
          × SameStore start (view gcs b (group_from (release_entry h p b) ls none w).1)
    release_all [] w owned = (refl, owned)
    release_all ((n, id) ∷ ls) w (held, owned) =
        let (done, dropped) = release_entry-lem n id w held in
        let w' = (release_entry h p b (n, id) w).1 in
        let (went, same) =
          release_all ls w'
            (Owned-same (lockfile util p.env) start ls _ (view gcs b w') dropped owned) in
        (ground arith, λ o. ground (arith, same o))

    pub release_locks-undoes :
        (f : Fields) (project : String) (ls : Dict String) (w : gcs.World)
        → project_of h p f ≡ ok project
        → locks_bucket_of h p project f ≡ ok b
        → (storage_client w).0 ≡ ok tt
        → SameObjects gcs w (storage_client w).1
        → Owned (lockfile util p.env) start (view gcs b w) ls
        → ((release_locks h p f ls w).0 ≡ ok tt)
          × SameStore start (view gcs b (release_locks h p f ls w).1)
    unfolding release_locks
    release_locks-undoes f project ls w pe be made same owned =
        let w' = (storage_client w).1 in
        let (went, undone) = release_all ls w' (
          Owned-same (lockfile util p.env) start ls (view gcs b w) (view gcs b w') (same b)
            owned) in
        (ground arith, λ o. ground (arith, undone o))
