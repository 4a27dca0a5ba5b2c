-- ===== src/Operations/Tests.antt =====
-- An operation that is done after two more looks at it; the world counts the looks that are left.
use cli_plugin_gcp.Common.{
  ℕ, zero, suc, ◌<◌, ◌≡◌, ◌≢◌, ◌⊎◌, refl, String, true, false, none, some, arith,
}
use cli_plugin_gcp.Common.Action.{Action, ok}
use cli_plugin_gcp.Operations.{Operation, poll_operation, wait_for_service_usage_operation}
use cli_plugin_gcp.Operations.Waits.{
  IsSeenDone, wait_for_service_usage_operation-seen, wait_for_service_usage_operation-ne-none,
}

abbrev tick : Action ℕ (Unit {0})
tick w = (ok tt, w)

abbrev look : String → Action ℕ Operation
look name zero = (ok (record { name = name; done = true; error = none }), 0)
look name (suc w) = (ok (record { name = name; done = false; error = none }), w)

abbrev started : Operation
started = record { name = "operations/acf.1"; done = false; error = none }

abbrev failed : Operation
failed = record { name = "operations/acf.2"; done = true; error = some "denied" }

finishes : (wait_for_service_usage_operation 9 tick look started 2).0 ≡ ok (some tt)
unfolding wait_for_service_usage_operation poll_operation
finishes = refl

-- the error of an operation that is done at the start is lost
swallowed : (wait_for_service_usage_operation 9 tick look failed 2).0 ≡ ok (some tt)
unfolding wait_for_service_usage_operation
swallowed = refl

look_left :
    (name : String) (w : ℕ) (op : Operation)
    → (look name w).0 ≡ ok op
    → op.done ≡ false
    → (look name w).1 < w
look_left name zero op got going = absurd (ground arith)
look_left name (suc w) op got going = omega arith

wait_for_service_usage_operation-seen_example :
    ((started.done ≡ true) × ((wait_for_service_usage_operation 9 tick look started 2).1 ≡ 2))
    ⊎ ((started.done ≡ false)
        × IsSeenDone tick look started 2 (wait_for_service_usage_operation 9 tick look started 2).1)
wait_for_service_usage_operation-seen_example =
    wait_for_service_usage_operation-seen tick look 9 started 2 finishes

wait_for_service_usage_operation-ne-none_example :
    (wait_for_service_usage_operation 9 tick look started 2).0 ≢ ok none
wait_for_service_usage_operation-ne-none_example =
    wait_for_service_usage_operation-ne-none tick look (λ w. w) look_left (λ w. omega arith) 9
      started 2 (omega arith)
