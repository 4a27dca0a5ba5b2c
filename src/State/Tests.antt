-- ===== src/State/Tests.antt =====
-- Runs of plugin/state.go's handlers on the storage service in memory.
use cli_plugin_gcp.Common.{
  String, suc, ◌<◌, ◌+◌, suc, ◌+◌, ◌<◌, ◌≡◌, ◌≢◌, refl, true, false, [], ◌∷◌, Option, none, some,
  arith,
}
use cli_plugin_gcp.Common.Action.{ok, err, locked}
use cli_plugin_gcp.Strconv.{format_int, format_uint, format_digits, digit}
use cli_plugin_gcp.Gcs.{Object}
use cli_plugin_gcp.Gcs.Memory.{Memory, memory}
use cli_plugin_gcp.Gcs.Memory.Laws.{memory-IsStorage, memory-IsClock}
use cli_plugin_gcp.Lock.{acquire_lock, lockdata, check_lock}
use cli_plugin_gcp.Naming.{
  default_bucket, statefile, state_lockfile, default_state_bucket, default_locks_bucket,
}
use cli_plugin_gcp.State.{
  StateResponse, lock_state, state_attrs, get_bucket, attempted, lock_loop, get_state, save_state,
  absent, locks_bucket_of, bucket_of,
}
use cli_plugin_gcp.State.Waiting.{lock_loop-ne-none}
use cli_plugin_gcp.State.Handlers.{lock_loop-holds, get_state-save_state}
use cli_plugin_gcp.State.Leak.{get_state-leaks}
use cli_plugin_gcp.Examples.{util, empty, host, plugin}

-- the lock of the state, held since time 5
abbrev held : Memory
held = (acquire_lock memory "locks" "dev/shop/lock" empty).1

took : (lock_loop memory 3 "locks" "dev/shop/lock" 10 5 true empty).0 ≡ ok (some "5")
unfolding lock_loop attempted acquire_lock lockdata format_int format_uint format_digits digit
took = refl

-- the lock is held for as long as the caller waits
gave_up :
    (lock_loop memory 20 "locks" "dev/shop/lock" 2 6 true held).0
    ≡ err (locked (("", "5", "ci@runner") ∷ []))
unfolding lock_loop attempted acquire_lock lockdata check_lock format_int format_uint format_digits
    digit
gave_up = refl

lock_loop-holds_example :
    (x : Object) × (memory.object
        (lock_loop memory 3 "locks" "dev/shop/lock" 10 5 true empty).1
        "locks"
        "dev/shop/lock"
      ≡ some x)
    × ("5" ≡ format_int x.attrs.generation)
lock_loop-holds_example =
    lock_loop-holds memory memory-IsStorage 3 "locks" "dev/shop/lock" 10 5 true empty "5" took

late : 6 + 2 + 1 < memory.now held + suc 19
unfolding acquire_lock
late = omega arith

lock_loop-ne-none_example : (lock_loop memory 20 "locks" "dev/shop/lock" 2 6 true held).0 ≢ ok none
lock_loop-ne-none_example =
    lock_loop-ne-none memory memory-IsClock 19 "locks" "dev/shop/lock" 2 6 true held late

abbrev saved : Memory
saved = (save_state host plugin tt "{}" empty).1

abbrev answer : StateResponse
answer = record {
  state = some "{}";
  lock_info = "";
  state_created = false;
  state_name = "shop-0a1b2c3d";
}

saves : (save_state host plugin tt "{}" empty).0 ≡ ok tt
unfolding save_state default_state_bucket default_bucket statefile
saves = refl

reads : (get_state host plugin 3 tt false false 10 saved).0 ≡ ok (some answer)
unfolding save_state get_state get_bucket default_state_bucket default_bucket statefile
reads = refl

bucket_name : bucket_of host plugin "gcp-shop" tt ≡ ok "shop-0a1b2c3d"
unfolding default_state_bucket default_bucket
bucket_name = refl

locks_bucket_name : locks_bucket_of host plugin "gcp-shop" tt ≡ ok "shop-locks-0a1b2c3d"
unfolding default_locks_bucket default_bucket
locks_bucket_name = refl

get_state-save_state_example : ◌≡◌ {A = Option StateResponse} (some answer) (some answer)
get_state-save_state_example =
    get_state-save_state host plugin memory-IsStorage tt 3 10 false "{}" "gcp-shop" "shop-0a1b2c3d"
      "shop-locks-0a1b2c3d" empty (some answer) refl bucket_name locks_bucket_name (λ w b o. refl)
      saves reads

-- the bucket of the state is there, and the state is not
abbrev stateless : Memory
stateless = (get_bucket memory "shop-0a1b2c3d" "gcp-shop" (state_attrs host plugin) true empty).1

exists :
    (get_bucket memory "shop-0a1b2c3d" "gcp-shop" (state_attrs host plugin) false stateless).0
    ≡ ok (false, true)
unfolding get_bucket
exists = refl

no_state :
    (get_state host plugin 3 tt true true 10 stateless).0
    ≡ ok (some (absent host plugin "shop-0a1b2c3d"))
unfolding get_state get_bucket default_state_bucket default_locks_bucket default_bucket statefile
    lock_state lock_loop attempted acquire_lock lockdata state_lockfile format_int format_uint
    format_digits digit
no_state = refl

get_state-leaks_example :
    ((absent host plugin "shop-0a1b2c3d").lock_info ≡ "")
    × ((id : String) × (x : Object) × ((lock_state host plugin 3 "gcp-shop" "shop-locks-0a1b2c3d" 10
            (get_bucket memory "shop-0a1b2c3d" "gcp-shop"
              (state_attrs host plugin)
              false
              stateless).1).0
          ≡ ok (some id))
        × (memory.object
              (get_state host plugin 3 tt true true 10 stateless).1
              "shop-locks-0a1b2c3d"
              (state_lockfile util plugin.env)
            ≡ some x)
        × (id ≡ format_int x.attrs.generation))
get_state-leaks_example =
    get_state-leaks host plugin memory-IsStorage tt 3 10 "gcp-shop" "shop-0a1b2c3d"
      "shop-locks-0a1b2c3d" false stateless (absent host plugin "shop-0a1b2c3d") (λ r w b o. refl)
      refl bucket_name locks_bucket_name exists no_state refl
