-- ===== src/State/Waiting.antt =====
-- The waiting loop of `lockState` in plugin/state.go.
use cli_plugin_gcp.Common.{
  ℕ, zero, suc, ◌+◌, ◌-◌, ◌≤◌, ◌<◌, ◌≡◌, ◌≢◌, refl, String, Bool, true, false, ◌||◌, Option, none,
  some, arith, ltb, nat_beq, inl, inr, Bool-cases,
}
use cli_plugin_gcp.Common.Action.{Action, ok, Fault, Result-cases, ◌>>=◌, ◌>>◌}
use cli_plugin_gcp.Gcs.{Gcs, IsClock}
use cli_plugin_gcp.Lock.{LockInfo, acquire_lock}
use cli_plugin_gcp.Lock.Clock.{acquire_lock-now}
use cli_plugin_gcp.State.{attempted, lock_loop, send_first}

module _ (g : Gcs) (c : IsClock g) where
  open g use {World, now, tick, send_waiting}

  -- The rest of a round ends with a value if the next round does, at every later time.
  round-ne-none :
      (first : Bool) (rest : Action World (Option String)) (w : World)
      → ((w' : World) → now w < now w' → (rest w').0 ≢ ok none)
      → ((send_first g first >> tick >> rest) w).0 ≢ ok none
  round-ne-none false rest w ends = elim (Result-cases (tick w).0) [
    | inl (u, t) ↦ ground (arith, ends (tick w).1 (c.tick_now w))
    | inr (inl (f, t)) ↦ ground arith
    | inr (inr t) ↦ ground arith
  ]
  round-ne-none true rest w ends = elim (Result-cases (send_waiting w).0) [
    | inl (v, sent) ↦
        let w' = (send_waiting w).1 in
        elim (Result-cases (tick w').0) [
          | inl (u, t) ↦
              ground (arith, ends (tick w').1 (omega (arith, c.tick_now w', c.send_waiting_now w)))
          | inr (inl (f, t)) ↦ ground arith
          | inr (inr t) ↦ ground arith
        ]
    | inr (inl (f, sent)) ↦ ground arith
    | inr (inr sent) ↦ ground arith
  ]

  attempted-ne-none :
      (lock_wait start : ℕ) (first : Bool) (rest : Action World (Option String)) (i : LockInfo)
      (e : Fault) (w : World)
      → (now w ≤ start + lock_wait → (w' : World) → now w < now w' → (rest w').0 ≢ ok none)
      → (attempted g lock_wait start first rest (i, some e) w).0 ≢ ok none
  unfolding attempted
  attempted-ne-none lock_wait start first rest i e w ends =
      elim (Bool-cases (nat_beq lock_wait 0 || ltb lock_wait (now w - start))) [
        | inl over ↦ rw over (ground arith)
        | inr more ↦ rw more (round-ne-none first rest w (ends (ground arith)))
      ]

  attempted-done :
      (lock_wait start : ℕ) (first : Bool) (rest : Action World (Option String)) (i : LockInfo)
      (w : World)
      → attempted g lock_wait start first rest (i, none) w ≡ (ok (some i.info), w)
  unfolding attempted
  attempted-done lock_wait start first rest i w = refl

  round_ends :
      (b o : String) (lock_wait start : ℕ) (first : Bool) (rest : Action World (Option String))
      (w : World)
      → (now w ≤ start + lock_wait → (w' : World) → now w < now w' → (rest w').0 ≢ ok none)
      → ((acquire_lock g b o >>= attempted g lock_wait start first rest) w).0 ≢ ok none
  round_ends b o lock_wait start first rest w ends =
      let w' = (acquire_lock g b o w).1 in
      elim (Result-cases (acquire_lock g b o w).0) [
        | inl ((i, none), r) ↦ ground (arith, attempted-done lock_wait start first rest i w')
        | inl ((i, some e), r) ↦ ground (
          arith,
          attempted-ne-none lock_wait start first rest i e w' (λ early w'' later.
              ends (omega (arith, acquire_lock-now g c b o w)) w''
                (omega (arith, acquire_lock-now g c b o w))),
        )
        | inr (inl (f, r)) ↦ ground arith
        | inr (inr r) ↦ ground arith
      ]

  -- By a clock that does not run backwards, the loop ends with a lock, an error or a panic, and not
  -- for lack of fuel, once the fuel exceeds the time that is left to wait by two.
  pub lock_loop-ne-none :
      (fuel : ℕ) (b o : String) (lock_wait start : ℕ) (first : Bool) (w : World)
      → start + lock_wait + 1 < now w + suc fuel
      → (lock_loop g (suc fuel) b o lock_wait start first w).0 ≢ ok none
  unfolding lock_loop
  lock_loop-ne-none zero b o lock_wait start first w enough =
      round_ends b o lock_wait start first _ w (λ early. absurd (omega arith))
  lock_loop-ne-none (suc fuel) b o lock_wait start first w enough =
      round_ends b o lock_wait start first _ w
        (λ early w' later. lock_loop-ne-none fuel b o lock_wait start false w' (omega arith))
