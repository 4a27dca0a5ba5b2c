-- ===== src/Operations.antt =====
-- gcp/util.go, the loops that wait for a long-running operation, and the errors of one that is done.
-- The clients are parameters. Each loop has fuel here: `none` means that it ran out.
pub mod Waits
mod Tests
use Prim.Native.String.{◌++◌}
use cli_plugin_gcp.Common.{
  ℕ, zero, suc, String, Bool, true, false, List, [], ◌∷◌, Option, none, some, if◌then◌else◌, ◌==◌,
  string_eq,
}
use cli_plugin_gcp.Common.Action.{
  Action, Result, ok, err, panic, Fault, text, pure, fail, ◌>>=◌, ◌>>◌,
}

-- An operation of Compute Engine or Cloud SQL: its status, and the messages of its errors if it failed.
pub record StatusOperation : Type 0 where
  pub status : String
  pub error : Option (List String)

-- An operation of the other services: its name, whether it is done, and the message of its error.
pub record Operation : Type 0 where
  pub name : String
  pub done : Bool
  pub error : Option String

-- OperationDone of gcp/consts.go
abbrev pub operation_done : String
operation_done = "DONE"

-- the messages, each on a line
abbrev pub messages : List String → String
messages [] = ""
messages (m ∷ ms) = m ++ "\n" ++ messages ms

-- `ComputeOperationError`; `SQLOperationError` has the same body
abbrev pub compute_operation_error : Option (List String) → Option Fault
compute_operation_error none = none
compute_operation_error (some ms) = some (text (messages ms))

abbrev pub sql_operation_error : Option (List String) → Option Fault
sql_operation_error none = none
sql_operation_error (some ms) = some (text (messages ms))

abbrev of_error : {W : Type 0} → Option Fault → Action W (Option (Unit {0}))
of_error none = pure (some tt)
of_error (some e) = fail e

abbrev of_message : {W : Type 0} → Option String → Action W (Option (Unit {0}))
of_message none = pure (some tt)
of_message (some m) = fail (text m)

module _ {W : Type 0} where
  -- the rest of a round of the two loops on Compute Engine operations
  abbrev status_round :
      (Option (List String) → Option Fault)
      → Action W (Option (Unit {0}))
      → StatusOperation
      → Action W (Option (Unit {0}))
  status_round error rest op =
      if op.status == operation_done then of_error (error op.error) else rest

  -- `wait` is the call of GlobalOperations.Wait with the project and the name
  pub wait_for_global_compute_operation :
      ℕ → Action W StatusOperation → Action W (Option (Unit {0}))
  wait_for_global_compute_operation zero wait = pure none
  wait_for_global_compute_operation (suc fuel) wait =
      wait >>= status_round compute_operation_error (wait_for_global_compute_operation fuel wait)

  -- the same for RegionOperations.Wait
  pub wait_for_region_compute_operation :
      ℕ → Action W StatusOperation → Action W (Option (Unit {0}))
  wait_for_region_compute_operation zero wait = pure none
  wait_for_region_compute_operation (suc fuel) wait =
      wait >>= status_round compute_operation_error (wait_for_region_compute_operation fuel wait)

  -- `tick` is the select on ctx.Done() and on the ticker
  pub wait_for_sql_operation :
      ℕ → Action W (Unit {0}) → Action W StatusOperation → Action W (Option (Unit {0}))
  wait_for_sql_operation zero tick get = pure none
  wait_for_sql_operation (suc fuel) tick get =
      tick >> get >>= status_round sql_operation_error (wait_for_sql_operation fuel tick get)

  abbrev polled :
      (Operation → Action W (Option (Unit {0}))) → Operation → Action W (Option (Unit {0}))
  polled rest op = if op.done then of_message op.error else rest op

  -- the loop that the three functions below share, after their test of the operation they are given
  pub poll_operation :
      ℕ
      → Action W (Unit {0})
      → (String → Action W Operation)
      → Operation
      → Action W (Option (Unit {0}))
  poll_operation zero tick get op = pure none
  poll_operation (suc fuel) tick get op =
      get op.name >>= λ next. tick >> polled (λ o w. poll_operation fuel tick get o w) next

  pub wait_for_service_usage_operation :
      ℕ
      → Action W (Unit {0})
      → (String → Action W Operation)
      → Operation
      → Action W (Option (Unit {0}))
  wait_for_service_usage_operation fuel tick get op =
      if op.done then pure (some tt) else poll_operation fuel tick get op

  unfoldable pub wait_for_cloud_resource_manager_operation :
      ℕ
      → Action W (Unit {0})
      → (String → Action W Operation)
      → Operation
      → Action W (Option (Unit {0}))
  wait_for_cloud_resource_manager_operation fuel tick get op =
      if op.done then pure (some tt) else poll_operation fuel tick get op

  pub wait_for_artifact_registry_operation :
      ℕ
      → Action W (Unit {0})
      → (String → Action W Operation)
      → Operation
      → Action W (Option (Unit {0}))
  wait_for_artifact_registry_operation fuel tick get op =
      if op.done then pure (some tt) else poll_operation fuel tick get op
