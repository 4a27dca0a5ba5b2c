-- ===== src/Operations/Waits.antt =====
-- What a wait for an operation says of it, and that the wait ends.
use cli_plugin_gcp.Common.{
  ℕ, zero, suc, ◌<◌, ◌≤◌, ◌≡◌, ◌≢◌, ◌⊎◌, refl, sym, ap, subst, ◌∙◌, String, true, false, Option,
  none, some, arith, Bool-cases, Option-cases, inl, inr,
}
use cli_plugin_gcp.Common.Action.{Action, Result, ok, Result-cases}
use cli_plugin_gcp.Operations.{Operation, poll_operation, polled, wait_for_service_usage_operation}

module _ {W : Type 0} (tick : Action W (Unit {0})) (get : String → Action W Operation) where
  -- The looks of one wait: from an operation and a world, by calls of `get` with the name of the operation that
  -- the look before gave, each followed by a tick, to the operation that the last one gave and the
  -- world after it. Every operation before the last is unfinished.
  pub data Looks : Operation → W → Operation → W → Type 0 where
    last_look :
        {op next : Operation} {w : W}
        → (get op.name w).0 ≡ ok next
        → (tick (get op.name w).1).0 ≡ ok tt
        → Looks op w next (tick (get op.name w).1).1
    look_on :
        {op next last : Operation} {w v : W}
        → (get op.name w).0 ≡ ok next
        → (tick (get op.name w).1).0 ≡ ok tt
        → next.done ≡ false
        → Looks next (tick (get op.name w).1).1 last v
        → Looks op w last v

  -- The looks of the wait end with an operation that is done without an error, in this world.
  abbrev pub IsSeenDone : Operation → W → W → Type 0
  IsSeenDone op w v =
      (last : Operation) × Looks op w last v × (last.done ≡ true) × (last.error ≡ none)

  pub poll_operation-seen :
      (fuel : ℕ) (op : Operation) (w : W)
      → (poll_operation fuel tick get op w).0 ≡ ok (some tt)
      → IsSeenDone op w (poll_operation fuel tick get op w).1
  unfolding poll_operation
  poll_operation-seen zero op w e = absurd (ground arith)
  poll_operation-seen (suc fuel) op w e = elim (Result-cases (get op.name w).0) [
    | inl (next, got) ↦ elim (Result-cases (tick (get op.name w).1).0) [
      | inl (u, t) ↦ elim (Bool-cases next.done) [
        | inl done ↦ elim (Option-cases next.error) [
          | inl fine ↦ rw (got, t, done, fine) (next, last_look got t, done, fine)
          | inr (m, bad) ↦ absurd (ground arith)
        ]
        | inr going ↦
            let (last, looks, done, fine) =
              poll_operation-seen fuel next (tick (get op.name w).1).1 (ground arith) in
            let same : poll_operation (suc fuel) tick get op w
                ≡ poll_operation fuel tick get next (tick (get op.name w).1).1 =
              ground arith in
            subst (λ (out : Result (Option (Unit {0})) × W). IsSeenDone op w out.1) (sym same)
              (last, look_on got t going looks, done, fine)
      ]
      | inr (inl (f, t)) ↦ absurd (ground arith)
      | inr (inr t) ↦ absurd (ground arith)
    ]
    | inr (inl (f, got)) ↦ absurd (ground arith)
    | inr (inr got) ↦ absurd (ground arith)
  ]

  -- When a wait returns no error, the operation that it was given was done already and nothing was called, or its
  -- looks, which follow the names that the operations give, end in the world of the return with one
  -- that is done without an error.
  pub wait_for_service_usage_operation-seen :
      (fuel : ℕ) (op : Operation) (w : W)
      → (wait_for_service_usage_operation fuel tick get op w).0 ≡ ok (some tt)
      → ((op.done ≡ true) × ((wait_for_service_usage_operation fuel tick get op w).1 ≡ w))
        ⊎ ((op.done ≡ false)
            × IsSeenDone op w (wait_for_service_usage_operation fuel tick get op w).1)
  unfolding wait_for_service_usage_operation
  wait_for_service_usage_operation-seen fuel op w e = elim (Bool-cases op.done) [
    | inl done ↦ inl (done, rw done refl)
    | inr going ↦
        let same : wait_for_service_usage_operation fuel tick get op w
            ≡ poll_operation fuel tick get op w =
          ground arith in
        inr (
          going,
          subst (λ (out : Result (Option (Unit {0})) × W). IsSeenDone op w out.1) (sym same)
              (poll_operation-seen fuel op w
                (ap (λ (out : Result (Option (Unit {0})) × W). out.0) (sym same) ∙ e)),
        )
  ]

  module _ (left : W → ℕ)
      (get_left : (name : String) (w : W) (op : Operation)
        → (get name w).0 ≡ ok op
        → op.done ≡ false
        → left (get name w).1 < left w)
      (tick_left : (w : W) → left (tick w).1 ≤ left w) where
    polled-ne-none :
        (w : W) (op : Operation) (rest : Operation → Action W (Option (Unit {0})))
        → (op.done ≡ false → (rest op w).0 ≢ ok none)
        → (polled rest op w).0 ≢ ok none
    polled-ne-none w op rest more = elim (Bool-cases op.done) [
      | inl done ↦ elim (Option-cases op.error) [
        | inl fine ↦ ground arith
        | inr (m, bad) ↦ ground arith
      ]
      | inr going ↦ ground (arith, more)
    ]

    poll_operation-ne-none :
        (fuel : ℕ) (op : Operation) (w : W)
        → left w < fuel
        → (poll_operation fuel tick get op w).0 ≢ ok none
    unfolding poll_operation
    poll_operation-ne-none zero op w enough = absurd (omega arith)
    poll_operation-ne-none (suc fuel) op w enough = elim (Result-cases (get op.name w).0) [
      | inl (next, got) ↦
          let w' = (get op.name w).1 in
          elim (Result-cases (tick w').0) [
            | inl (u, t) ↦
                let ends =
                  polled-ne-none (tick w').1 next (λ o v. poll_operation fuel tick get o v)
                    (λ going.
                      poll_operation-ne-none fuel next (tick w').1
                        (omega (arith, tick_left w', get_left op.name w next got going))) in
                ground (arith, ends)
            | inr (inl (f, t)) ↦ ground arith
            | inr (inr t) ↦ ground arith
          ]
      | inr (inl (f, got)) ↦ ground arith
      | inr (inr got) ↦ ground arith
    ]

    -- The wait for a Service Usage operation ends, with more fuel than there are rounds to go: a call of
    -- `get` that finds the operation unfinished leaves it fewer rounds, and a tick adds none.
    pub wait_for_service_usage_operation-ne-none :
        (fuel : ℕ) (op : Operation) (w : W)
        → left w < fuel
        → (wait_for_service_usage_operation fuel tick get op w).0 ≢ ok none
    unfolding wait_for_service_usage_operation
    wait_for_service_usage_operation-ne-none fuel op w enough =
        ground (arith, poll_operation-ne-none fuel op w enough)
