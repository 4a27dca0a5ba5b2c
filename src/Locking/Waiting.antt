-- ===== src/Locking/Waiting.antt =====
-- The inner loop of `acquireLocks` in plugin/locking.go comes to an end.
use cli_plugin_gcp.Common.{
  ℕ, zero, suc, ◌+◌, ◌-◌, ◌≤◌, ◌<◌, ◌≡◌, ◌≢◌, String, Bool, true, false, ◌||◌, none, some, arith,
  ltb, nat_beq, inl, inr, Bool-cases, Option,
}
use cli_plugin_gcp.Common.Action.{
  Action, Result, ok, Fault, bind_rule, ◌>>◌, Result-cases, errors_is, acquire_lock_failed,
}
use cli_plugin_gcp.Gcs.{Gcs, IsClock}
use cli_plugin_gcp.Lock.{LockInfo, acquire_lock}
use cli_plugin_gcp.Lock.Clock.{acquire_lock-now}
use cli_plugin_gcp.State.{send_first}
use cli_plugin_gcp.Locking.{Taken, out_of_fuel, round, take_lock}

module _ (g : Gcs) (c : IsClock g) (b : String) where
  open g use {World, now, tick, send_waiting}

  -- The outcome is not that the fuel ran out.
  abbrev Ends : Result (Taken × Bool) × World → Type 0
  Ends out = (told : Bool) → out.0 ≢ ok (out_of_fuel, told)

  pause-later :
      (first : Bool) (w : World) (u : Unit {0})
      → ((send_first g first >> tick) w).0 ≡ ok u
      → now w < now ((send_first g first >> tick) w).1
  pause-later true w u e = elim (Result-cases (send_waiting w).0) [
    | inl (v, sent) ↦ ground (arith, c.tick_now (send_waiting w).1, c.send_waiting_now w)
    | inr (inl (f, sent)) ↦ absurd (ground arith)
    | inr (inr sent) ↦ absurd (ground arith)
  ]
  pause-later false w u e = c.tick_now w

  round-Ends :
      (lock_wait start : ℕ) (first : Bool) (rest : Action World (Taken × Bool))
      (r : LockInfo × Option Fault) (w : World)
      → (now w ≤ start + lock_wait → (w' : World) → now w < now w' → Ends (rest w'))
      → Ends (round g b lock_wait start first rest r w)
  unfolding round
  round-Ends lock_wait start first rest (i, none) w later = λ told. ground arith
  round-Ends lock_wait start first rest (i, some e) w later =
      elim (Bool-cases (nat_beq lock_wait 0 || ltb lock_wait (now w - start))) [
        | inl over ↦ elim (Bool-cases (errors_is acquire_lock_failed e)) [
          | inl held ↦ rw over (rw held (λ told. ground arith))
          | inr other ↦ rw over (rw other (λ told. ground arith))
        ]
        | inr more ↦ rw more (
            bind_rule Ends (λ _. rest) (send_first g first >> tick) w (λ _ _ told. ground arith)
              (λ _ told. ground arith) (λ u e'. later (ground arith) _ (pause-later first w u e')))
      ]

  -- By a clock that does not run backwards, the inner loop of `acquireLocks` ends with a lock that is
  -- taken, a lock in the way, an error or a panic, and not for lack of fuel, once the fuel exceeds the
  -- time that is left to wait by two.
  pub take_lock-ne-out_of_fuel :
      (fuel : ℕ) (f : String) (lock_wait start : ℕ) (first : Bool) (w : World) (told : Bool)
      → start + lock_wait + 1 < now w + suc fuel
      → (take_lock g b (suc fuel) f lock_wait start first w).0 ≢ ok (out_of_fuel, told)
  unfolding take_lock
  take_lock-ne-out_of_fuel zero f lock_wait start first w told enough =
      bind_rule Ends _ (acquire_lock g b f) w (λ _ _ t. ground arith) (λ _ t. ground arith)
        (λ r _.
          round-Ends lock_wait start first _ r _
            (λ early. absurd (omega (arith, acquire_lock-now g c b f w))))
        told
  take_lock-ne-out_of_fuel (suc fuel) f lock_wait start first w told enough =
      bind_rule Ends _ (acquire_lock g b f) w (λ _ _ t. ground arith) (λ _ t. ground arith)
        (λ r _. round-Ends lock_wait start first _ r _ (λ early w' later t.
          take_lock-ne-out_of_fuel fuel f lock_wait start false w' t
            (omega (arith, acquire_lock-now g c b f w))))
        told
