-- ===== src/PluginContext.antt =====
-- internal/config/pluginctx.go: the clients that are made once, the run clients by region, and
-- `FuncCache`. The constructors of the clients are parameters; `none` is a nil client. The mutexes
-- leave one call at a time.
pub mod Once
mod Tests
use Prim.Native.String.{◌++◌}
use cli_plugin_gcp.Common.{
  String, Bool, true, false, List, [], ◌∷◌, Option, none, some, if◌then◌else◌, Dict, lookup, insert,
}
use cli_plugin_gcp.Common.Action.{
  Action, Result, ok, err, panic, Fault, wrap, try, pure, fail, crash, ◌>>=◌,
}

-- One client and its sync.Once, beside the world.
pub record Slot (W C : Type 0) : Type 0 where
  pub world : W
  pub is_done : Bool
  pub client : Option C

-- A map of the context, beside the world.
pub record Cached (W V : Type 0) : Type 0 where
  pub world : W
  pub entries : Dict V

module _ {W C : Type 0} where
  abbrev made : String → Slot W C → Result C × W → Result (Option C) × Slot W C
  made what s (ok c, w) = (ok (some c), record { world = w; is_done = true; client = some c })
  made what s (err e, w) = (
    err (wrap ("error creating " ++ what) e),
    record { world = w; is_done = true; client = none },
  )
  made what s (panic, w) = (panic, record { world = w; is_done = true; client = s.client })

  -- the body that the functions below share: the error lives in the call that runs the constructor
  pub once_client : String → Action W C → Action (Slot W C) (Option C)
  once_client what new s = if s.is_done then (ok s.client, s) else made what s (new s.world)

  pub gcp_storage_client : Action W C → Action (Slot W C) (Option C)
  gcp_storage_client = once_client "gcp storage client"

  pub gcp_compute_client : Action W C → Action (Slot W C) (Option C)
  gcp_compute_client = once_client "gcp compute client"

  pub gcp_service_usage_client : Action W C → Action (Slot W C) (Option C)
  gcp_service_usage_client = once_client "gcp service usage client"

  pub gcp_sql_admin_client : Action W C → Action (Slot W C) (Option C)
  gcp_sql_admin_client = once_client "gcp sqladmin client"

  pub gcp_cloud_functions_client : Action W C → Action (Slot W C) (Option C)
  gcp_cloud_functions_client = once_client "gcp cloud functions client"

  pub gcp_monitoring_alert_policy_client : Action W C → Action (Slot W C) (Option C)
  gcp_monitoring_alert_policy_client = once_client "gcp monitoring alert policy client"

  pub gcp_monitoring_uptime_check_client : Action W C → Action (Slot W C) (Option C)
  gcp_monitoring_uptime_check_client = once_client "gcp monitoring uptime check client"

  pub gcp_monitoring_notification_channel_client : Action W C → Action (Slot W C) (Option C)
  gcp_monitoring_notification_channel_client =
      once_client "gcp monitoring notification channel client"

  pub gcp_cloud_scheduler_client : Action W C → Action (Slot W C) (Option C)
  gcp_cloud_scheduler_client = once_client "gcp cloud scheduler client"

  pub gcp_artifact_registry_client : Action W C → Action (Slot W C) (Option C)
  gcp_artifact_registry_client = once_client "gcp artifact registry client"

  pub docker_client : Action W C → Action (Slot W C) (Option C)
  docker_client = once_client "docker client"

  abbrev kept : String → Cached W C → Result C × W → Result C × Cached W C
  kept region s (ok c, w) = (ok c, record { world = w; entries = insert region c s.entries })
  kept region s (err e, w) = (err (wrap "error creating gcp run client" e), record s { world = w })
  kept region s (panic, w) = (panic, record s { world = w })

  -- a client that is found is put back under its region
  pub gcp_run_client : (String → Action W C) → String → Action (Cached W C) C
  gcp_run_client new region s = elim (lookup region s.entries) [
    | none ↦ kept region s (new region s.world)
    | some c ↦ (ok c, record s { entries = insert region c s.entries })
  ]

  -- funcCacheData: the value or the error of the function
  abbrev remembered : String → Cached W (Result C) → Result C × W → Result C × Cached W (Result C)
  remembered key s (ok a, w) = (ok a, record { world = w; entries = insert key (ok a) s.entries })
  remembered key s (err e, w) =
      (err e, record { world = w; entries = insert key (err e) s.entries })
  remembered key s (panic, w) = (panic, record s { world = w })

  pub func_cache : String → Action W C → Action (Cached W (Result C)) C
  func_cache key f s = elim (lookup key s.entries) [
    | none ↦ remembered key s (f s.world)
    | some r ↦ (r, s)
  ]
