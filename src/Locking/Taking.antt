-- ===== src/Locking/Taking.antt =====
-- What `acquireLocks` of plugin/locking.go does to the bucket of locks.
use cli_plugin_gcp.Common.{
  ℕ, zero, suc, ◌-◌, ◌≡◌, ◌≢◌, sym, ◌∙◌, ap, String, Bool, true, false, ◌||◌, Option, none, some,
  arith, Bool-cases, inl, inr, ltb, nat_beq,
}
use cli_plugin_gcp.Common.Action.{
  Action, Result, ok, err, Fault, Result-cases, bind_rule, ◌>>◌, errors_is, acquire_lock_failed,
}
use cli_plugin_gcp.Strconv.{parse_int}
use cli_plugin_gcp.Strconv.Roundtrip.{parse_int-format_int}
use cli_plugin_gcp.Gcs.{Gcs, IsStorage, SameObjects}
use cli_plugin_gcp.Lock.{LockInfo, acquire_lock}
use cli_plugin_gcp.Lock.Laws.{acquire_lock-free, acquire_lock-clean, acquire_lock-others}
use cli_plugin_gcp.State.{send_first}
use cli_plugin_gcp.Locking.{Taken, got, contended, round, take_lock}
use cli_plugin_gcp.Locking.Owned.{Store, SameStore, Stands}

module _ (g : Gcs) (b : String) where
  open g use {World, object}

  -- A conditional write into the bucket that fails has written nothing.
  abbrev pub IsClean : Type 0
  IsClean =
      (o : String) (w : World) (c : String) (f : Fault)
      → (g.write_new b o c w).0 ≡ err f
      → SameObjects g w (g.write_new b o c w).1

  abbrev pub view : World → Store
  view w o = object w b o

module _ (g : Gcs) (st : IsStorage g) (b : String) where
  open g use {World, tick, send_waiting}

  pub pause-same : (first : Bool) (w : World) → SameObjects g w ((send_first g first >> tick) w).1
  pause-same true w b' o' = elim (Result-cases (send_waiting w).0) [
    | inl (u, r) ↦
        ground (arith, st.send_waiting_same w b' o', st.tick_same (send_waiting w).1 b' o')
    | inr (inl (e, r)) ↦ ground (arith, st.send_waiting_same w b' o')
    | inr (inr r) ↦ ground (arith, st.send_waiting_same w b' o')
  ]
  pause-same false w b' o' = st.tick_same w b' o'

  module _ (clean : IsClean g b) where
    -- A lock that was got stands under its id where nothing stood, and is all that differs; a lock
    -- that was contended leaves everything as it was.
    abbrev Takes : String → World → Result (Taken × Bool) × World → Type 0
    Takes f w (r, w') =
        ((id : String) (fl : Bool)
          → r ≡ ok (got id, fl)
          → (view g b w f ≡ none)
            × Stands (view g b w') f id
            × ((o : String) → o ≢ f → view g b w' o ≡ view g b w o))
        × ((i : LockInfo) (fl : Bool)
            → r ≡ ok (contended i, fl)
            → SameStore (view g b w) (view g b w'))

    Takes-from :
        (f : String) (w v : World) (out : Result (Taken × Bool) × World)
        → SameStore (view g b w) (view g b v)
        → Takes f v out
        → Takes f w out
    Takes-from f w v (r, w') same (h, k) = (
      λ id fl e.
          let (free, new, others) = h id fl e in
          (sym (same f) ∙ free, new, λ o ne. others o ne ∙ same o),
      λ i fl e o. k i fl e o ∙ same o,
    )

    round-Takes :
        (f : String) (lock_wait start : ℕ) (first : Bool) (rest : Action World (Taken × Bool))
        (w : World) (r : LockInfo × Option Fault)
        → (acquire_lock g b f w).0 ≡ ok r
        → ((v : World) → Takes f v (rest v))
        → Takes f w (round g b lock_wait start first rest r (acquire_lock g b f w).1)
    unfolding round
    round-Takes f lock_wait start first rest w (i, none) e later =
        let w' = (acquire_lock g b f w).1 in
        let (free, x, held, (named, _, _), _) = acquire_lock-free g st b f w i e in
        (
          λ id fl same. (
            free,
            (
              x,
              held,
              ap parse_int (ground arith)
                  ∙ ap parse_int named
                  ∙ parse_int-format_int _ (st.generation_int64 b f w' x held),
            ),
            λ o ne. acquire_lock-others g st b f w b o (λ p. ne (sym p.1)),
          ),
          λ j fl same. absurd (ground arith),
        )
    round-Takes f lock_wait start first rest w (i, some e) h later =
        let w' = (acquire_lock g b f w).1 in
        let same = acquire_lock-clean g st b f w i e (clean f w) h b in
        elim (Bool-cases (nat_beq lock_wait 0 || ltb lock_wait (g.now w' - start))) [
          | inl over ↦ elim (Bool-cases (errors_is acquire_lock_failed e)) [
            | inl held ↦ rw (over, held) (λ id fl q. absurd (ground arith), λ j fl q. same)
            | inr other ↦
                rw (over, other) (λ id fl q. absurd (ground arith), λ j fl q. absurd (ground arith))
          ]
          | inr more ↦ rw more (
              bind_rule (Takes f w) (λ _. rest) (send_first g first >> tick) w'
                (λ _ _. (λ id fl q. absurd (ground arith), λ j fl q. absurd (ground arith)))
                (λ _. (λ id fl q. absurd (ground arith), λ j fl q. absurd (ground arith)))
                (λ _ _. Takes-from f w _ _ (λ o. pause-same first w' b o ∙ same o) (later _)))
        ]

    pub take_lock-Takes :
        (fuel : ℕ) (f : String) (lock_wait start : ℕ) (first : Bool) (w : World)
        → Takes f w (take_lock g b fuel f lock_wait start first w)
    unfolding take_lock
    take_lock-Takes zero f lock_wait start first w =
        (λ id fl q. absurd (ground arith), λ j fl q. absurd (ground arith))
    take_lock-Takes (suc fuel) f lock_wait start first w =
        bind_rule (Takes f w) _ (acquire_lock g b f) w
          (λ _ _. (λ id fl q. absurd (ground arith), λ j fl q. absurd (ground arith)))
          (λ _. (λ id fl q. absurd (ground arith), λ j fl q. absurd (ground arith)))
          (λ r e.
            round-Takes f lock_wait start first _ w r e
              (λ v. take_lock-Takes fuel f lock_wait start false v))
