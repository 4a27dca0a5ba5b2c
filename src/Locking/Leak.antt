-- ===== src/Locking/Leak.antt =====
-- What `acquireLocks` of plugin/locking.go leaves behind when it ends with an error.
use text.Mathlib.TextEquality.{eq_iff}
use cli_plugin_gcp.Common.{
  ap, string_eq, ◌==◌, ℕ, zero, suc, ◌-◌, ◌≡◌, ◌∙◌, String, Bool, false, ◌||◌, List, [], ◌∷◌,
  Option, none, some, arith, Bool-cases, inl, inr, Dict, insert, ltb, nat_beq,
}
use cli_plugin_gcp.Common.Action.{
  pure, Action, ok, err, Fault, bind_rule, ◌>>◌, errors_is, acquire_lock_failed,
}
use cli_plugin_gcp.Gcs.{Gcs, Object, IsStorage}
use cli_plugin_gcp.Lock.{LockInfo, acquire_lock}
use cli_plugin_gcp.Lock.Laws.{acquire_lock-others, acquire_lock-keeps}
use cli_plugin_gcp.State.{send_first}
use cli_plugin_gcp.Locking.{
  lock_error, Locks, Taken, got, contended, out_of_fuel, round, take_lock, check_rest, after_take,
  acquire_locks, name_of,
}
use cli_plugin_gcp.Locking.Taking.{pause-same}
use cli_plugin_gcp.Locking.Rollback.{check_rest-same}

module _ (g : Gcs) (st : IsStorage g) (b f : String) (x : Object) where
  open g use {World, object, tick}

  -- The lock is still held by the same object.
  abbrev Held : {A : Type 0} → A × World → Type 0
  Held out = object out.1 b f ≡ some x

  round-Held :
      (lock_wait start : ℕ) (first : Bool) (rest : Action World (Taken × Bool))
      (r : LockInfo × Option Fault) (w : World)
      → object w b f ≡ some x
      → ((v : World) → object v b f ≡ some x → Held (rest v))
      → Held (round g b lock_wait start first rest r w)
  unfolding round
  round-Held lock_wait start first rest (i, none) w h later = h
  round-Held lock_wait start first rest (i, some e) w h later =
      elim (Bool-cases (nat_beq lock_wait 0 || ltb lock_wait (g.now w - start))) [
        | inl over ↦ elim (Bool-cases (errors_is acquire_lock_failed e)) [
          | inl held ↦ rw (over, held) h
          | inr other ↦ rw (over, other) h
        ]
        | inr more ↦ rw more (
            let kept = pause-same g st b first w b f ∙ h in
            bind_rule Held (λ _. rest) (send_first g first >> tick) w (λ _ _. kept) (λ _. kept)
              (λ _ _. later _ kept))
      ]

  take_lock-Held :
      (fuel : ℕ) (o : String) (lock_wait start : ℕ) (first : Bool) (w : World)
      → object w b f ≡ some x
      → ((v : World) → object v b f ≡ some x → object (acquire_lock g b o v).1 b f ≡ some x)
      → Held (take_lock g b fuel o lock_wait start first w)
  unfolding take_lock
  take_lock-Held zero o lock_wait start first w h keeps = h
  take_lock-Held (suc fuel) o lock_wait start first w h keeps =
      bind_rule Held _ (acquire_lock g b o) w (λ _ _. keeps w h) (λ _. keeps w h)
        (λ r _.
          round-Held lock_wait start first _ r _ (keeps w h)
            (λ v k. take_lock-Held fuel o lock_wait start false v k keeps))

  acquire_lock-Held :
      (o : String) (w : World)
      → object w b f ≡ some x
      → object (acquire_lock g b o w).1 b f ≡ some x
  acquire_lock-Held o w h = elim (Bool-cases (o == f)) [
    | inl same ↦ let e : o ≡ f = (eq_iff o f).0 same in rw e (acquire_lock-keeps g st b f w x h)
    | inr other ↦ acquire_lock-others g st b o w b f (λ q. ground (arith, eq_iff o f)) ∙ h
  ]

  after_take-Held :
      (names : Dict String) (fs : List String) (o : String) (acquired : Dict String)
      (rest : Dict String → Bool → Action World (Option Locks)) (t : Taken × Bool) (w : World)
      → object w b f ≡ some x
      → ((ls : Dict String) (fl : Bool) → Held (rest ls fl w))
      → Held (after_take g b names fs o acquired rest t w)
  unfolding after_take
  after_take-Held names fs o acquired rest (got id, fl) w h later = later _ fl
  after_take-Held names fs o acquired rest (contended i, fl) w h later =
      let kept =
        check_rest-same g st b names fs (lock_error g b (name_of names o) i ∷ []) none w b f ∙ h in
      bind_rule Held (λ out. pure (some (acquired, out.0, out.1)))
        (check_rest g b names fs (lock_error g b (name_of names o) i ∷ []) none) w (λ _ _. kept)
        (λ _. kept) (λ _ _. kept)
  after_take-Held names fs o acquired rest (out_of_fuel, fl) w h later = h

  acquire_locks-Held :
      (fuel : ℕ) (names : Dict String) (lock_wait start : ℕ) (fs : List String)
      (acquired : Dict String) (first : Bool) (w : World)
      → object w b f ≡ some x
      → Held (acquire_locks g b fuel names lock_wait start fs acquired first w)
  unfolding acquire_locks
  acquire_locks-Held fuel names lock_wait start [] acquired first w h = h
  acquire_locks-Held fuel names lock_wait start (o ∷ fs) acquired first w h =
      let w' = (take_lock g b fuel o lock_wait start first w).1 in
      let kept = take_lock-Held fuel o lock_wait start first w h (acquire_lock-Held o) in
      bind_rule Held _ (take_lock g b fuel o lock_wait start first) w (λ _ _. kept) (λ _. kept)
        (λ t _.
          after_take-Held names fs o acquired _ t w' kept
            (λ ls fl. acquire_locks-Held fuel names lock_wait start fs ls fl w' kept))

  acquire_locks-cons :
      (fuel : ℕ) (names : Dict String) (lock_wait start : ℕ) (fs : List String)
      (acquired : Dict String) (first first' : Bool) (w : World) (id : String)
      → (take_lock g b fuel f lock_wait start first w).0 ≡ ok (got id, first')
      → acquire_locks g b fuel names lock_wait start (f ∷ fs) acquired first w
        ≡ acquire_locks g b fuel names lock_wait start fs
            (insert (name_of names f) id acquired)
            first'
            (take_lock g b fuel f lock_wait start first w).1
  unfolding acquire_locks after_take
  acquire_locks-cons fuel names lock_wait start [] acquired first first' w id took = ground arith
  acquire_locks-cons fuel names lock_wait start (k ∷ fs) acquired first first' w id took =
      ground arith

  -- Where `acquireLocks` has taken the next lock of its list, the object of that lock stands, and what
  -- follows ends with an error, the call returns that error, and no list of locks that its caller
  -- could release, and the object still stands.
  pub acquire_locks-leaks :
      (fuel : ℕ) (names : Dict String) (lock_wait start : ℕ) (fs : List String)
      (acquired : Dict String) (first first' : Bool) (w w' : World) (id : String) (e : Fault)
      → take_lock g b fuel f lock_wait start first w ≡ (ok (got id, first'), w')
      → object w' b f ≡ some x
      → (acquire_locks g b fuel names lock_wait start fs
          (insert (name_of names f) id acquired)
          first'
          w').0
        ≡ err e
      → let out = acquire_locks g b fuel names lock_wait start (f ∷ fs) acquired first w in
        (out.0 ≡ err e) × (object out.1 b f ≡ some x)
  acquire_locks-leaks fuel names lock_wait start fs acquired first first' w w' id e took held
        failed =
      let step =
        acquire_locks-cons fuel names lock_wait start fs acquired first first' w id
          (ap (λ o. o.0) took) in
      let kept =
        acquire_locks-Held fuel names lock_wait start fs (insert (name_of names f) id acquired)
          first' w' held in
      rw (step, took) (failed, kept)
