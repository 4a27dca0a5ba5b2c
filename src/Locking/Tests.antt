-- ===== src/Locking/Tests.antt =====
-- Runs of plugin/locking.go on the storage service in memory.
use cli_plugin_gcp.Common.{
  false, arith, ℕ, suc, ◌+◌, ◌<◌, ◌≢◌, ◌≡◌, refl, String, true, List, [], ◌∷◌, Option, none, some,
  Dict, insert, map,
}
use cli_plugin_gcp.Common.Action.{ok, err, locked, canceled, Result}
use cli_plugin_gcp.Strconv.{format_int, format_uint, format_digits, digit}
use cli_plugin_gcp.Gcs.{written}
use cli_plugin_gcp.Gcs.Memory.{Memory, memory, as_attrs}
use cli_plugin_gcp.Gcs.Memory.Laws.{
  memory-IsClock, memory-IsStorage, memory-write_new_clean, memory-delete_works,
}
use cli_plugin_gcp.Lock.{acquire_lock, lockdata, check_lock}
use cli_plugin_gcp.Naming.{lockfile, lock_part, default_locks_bucket, default_bucket}
use cli_plugin_gcp.State.{locks_bucket_of}
use cli_plugin_gcp.Locking.{
  Locks, got, out_of_fuel, round, take_lock, check_rest, after_take, acquire_locks, name_locks,
  name_of, settle, sort_strings,
}
use cli_plugin_gcp.Locking.Owned.{Owned, SameStore}
use cli_plugin_gcp.Locking.Taking.{view}
use cli_plugin_gcp.Locking.Handler.{acquire_locks-Owned, settle-restores}
use cli_plugin_gcp.Locking.Waiting.{take_lock-ne-out_of_fuel}
use cli_plugin_gcp.Locking.Leak.{acquire_locks-leaks}
use cli_plugin_gcp.Examples.{empty, util, host, plugin}

abbrev locks : String
locks = "shop-locks-0a1b2c3d"

-- somebody holds the lock "web"
abbrev contested : Memory
contested = (acquire_lock memory locks "dev/shop/web" empty).1

abbrev request : List String
request = "web" ∷ "api" ∷ []

abbrev outcome : ℕ → Memory → Result (Option Locks) × Memory
outcome lock_wait m =
    acquire_locks memory locks 5 (name_locks host plugin request []) lock_wait (memory.now m)
      (sort_strings (map (lockfile util plugin.env) request)) [] true m

abbrev taken : Dict String
taken = ("api", "6") ∷ []

-- "api" is taken first, and "web" stands in the way
stopped : (outcome 0 contested).0 ≡ ok (some (taken, ("web", "5", "ci@runner") ∷ [], none))
unfolding acquire_locks take_lock round after_take check_rest acquire_lock lockdata check_lock
    lockfile lock_part format_int format_uint format_digits digit
stopped = refl

acquire_locks-Owned_example :
    Owned
      (lockfile util plugin.env)
      (view memory locks contested)
      (view memory locks (outcome 0 contested).1)
      taken
acquire_locks-Owned_example =
    acquire_locks-Owned host plugin memory-IsStorage locks (memory-write_new_clean locks) 5 0
      request contested taken (("web", "5", "ci@runner") ∷ []) none stopped

locks_bucket_name : locks_bucket_of host plugin "gcp-shop" tt ≡ ok locks
unfolding default_locks_bucket default_bucket
locks_bucket_name = refl

abbrev settled : Result (Option (Dict String)) × Memory
settled =
    settle host plugin tt (some (taken, ("web", "5", "ci@runner") ∷ [], none))
      (outcome 0 contested).1

settle-restores_example :
    (settled.0 ≡ err (locked (("web", "5", "ci@runner") ∷ [])))
    × SameStore (view memory locks contested) (view memory locks settled.1)
settle-restores_example =
    settle-restores host plugin memory-IsStorage locks (memory-write_new_clean locks)
      (memory-delete_works locks) 5 0 tt "gcp-shop" request contested taken
      ("web", "5", "ci@runner") [] none refl locks_bucket_name (λ w. (refl, λ b o. refl)) stopped

-- the caller's context is done while "web" is waited for
abbrev hurried : Memory
hurried = record contested { canceled = true }

abbrev after_api : Memory
after_api = (acquire_lock memory locks "dev/shop/api" hurried).1

abbrev names : Dict String
names = ("dev/shop/web", "web") ∷ ("dev/shop/api", "api") ∷ []

took_api :
    take_lock memory locks 5 "dev/shop/api" 9 6 true hurried ≡ (ok (got "6", true), after_api)
unfolding take_lock round acquire_lock lockdata check_lock format_int format_uint format_digits
    digit
took_api = refl

api_held : memory.object after_api locks "dev/shop/api" ≡ some (written "ci@runner" (as_attrs 6))
unfolding acquire_lock lockdata
api_held = refl

interrupted :
    (acquire_locks memory locks 5 names 9 6
      ("dev/shop/web" ∷ [])
      (insert (name_of names "dev/shop/api") "6" [])
      true
      after_api).0
    ≡ err canceled
unfolding acquire_locks take_lock round after_take acquire_lock lockdata check_lock format_int
    format_uint format_digits digit
interrupted = refl

abbrev leaky : Result (Option Locks) × Memory
leaky =
    acquire_locks memory locks 5 names 9 6 ("dev/shop/api" ∷ "dev/shop/web" ∷ []) [] true hurried

acquire_locks-leaks_example :
    (leaky.0 ≡ err canceled)
    × (memory.object leaky.1 locks "dev/shop/api" ≡ some (written "ci@runner" (as_attrs 6)))
acquire_locks-leaks_example =
    acquire_locks-leaks memory memory-IsStorage locks "dev/shop/api"
      (written "ci@runner" (as_attrs 6)) 5 names 9 6 ("dev/shop/web" ∷ []) [] true true hurried
      after_api "6" canceled took_api api_held interrupted

late : 6 + 2 + 1 < memory.now contested + suc 19
unfolding acquire_lock
late = omega arith

take_lock-ne-out_of_fuel_example :
    (take_lock memory locks 20 "dev/shop/web" 2 6 true contested).0 ≢ ok (out_of_fuel, false)
take_lock-ne-out_of_fuel_example =
    take_lock-ne-out_of_fuel memory memory-IsClock locks 19 "dev/shop/web" 2 6 true contested false
      late
