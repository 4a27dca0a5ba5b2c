-- ===== src/Lock/Tests.antt =====
-- Runs of plugin/state.go's lock on the storage service in memory.
use cli_plugin_gcp.Common.{◌≡◌, ◌≢◌, refl, false, [], ◌∷◌, none, some, arith}
use cli_plugin_gcp.Common.Action.{ok, sentinel, acquire_lock_failed}
use cli_plugin_gcp.Common.Int.{pos}
use cli_plugin_gcp.Strconv.{
  digit_value, parse_digits, digit, parse_uint, format_digits, parse_int, format_int, format_uint,
  format_digits, digit, parse_uint, parse_digits, digit_value, to_int64,
}
use cli_plugin_gcp.Gcs.{BucketAttrs, Object, written}
use cli_plugin_gcp.Gcs.Memory.{Memory, memory, blank, as_attrs}
use cli_plugin_gcp.Gcs.Memory.Laws.{memory-IsStorage, memory-delete_works}
use cli_plugin_gcp.Lock.{LockInfo, lockdata, check_lock, acquire_lock, release_lock}
use cli_plugin_gcp.Lock.Laws.{
  Names, acquire_lock-free, acquire_lock-held, acquire_lock-keeps, release_lock-keeps,
  release_lock-acquire_lock,
}
use cli_plugin_gcp.Lock.Exclusion.{State, Step, Reach, IsExclusive, Reach-IsExclusive}

abbrev plain : BucketAttrs
plain = record { location = "us"; versioning_enabled = false; rules = []; cors = [] }

-- a bucket of locks with no lock in it
abbrev empty : Memory
empty = record blank { buckets = ("locks", plain) ∷ [] }

abbrev ours : LockInfo
ours = record { info = "5"; owner = "ci@runner"; created_at = 5 }

abbrev our_object : Object
our_object = written "ci@runner" (as_attrs 5)

abbrev taken : Memory
taken = (acquire_lock memory "locks" "dev/lock" empty).1

format_5 : format_int (pos 5) ≡ "5"
unfolding format_int format_uint format_digits digit
format_5 = refl

parse_5 : parse_int "5" ≡ some (pos 5)
unfolding to_int64 parse_int parse_uint parse_digits digit_value
parse_5 = refl

took : (acquire_lock memory "locks" "dev/lock" empty).0 ≡ ok (ours, none)
unfolding acquire_lock lockdata format_int format_uint format_digits digit
took = refl

stands : memory.object taken "locks" "dev/lock" ≡ some our_object
unfolding acquire_lock lockdata
stands = refl

refused :
    (acquire_lock memory "locks" "dev/lock" taken).0
    ≡ ok (ours, some (sentinel acquire_lock_failed))
unfolding acquire_lock lockdata check_lock format_int format_uint format_digits digit
refused = refl

gave_back : (release_lock memory "locks" "dev/lock" "5" taken).0 ≡ ok tt
unfolding acquire_lock lockdata release_lock to_int64 parse_int parse_uint parse_digits digit_value
gave_back = refl

parse_6 : parse_int "6" ≡ some (pos 6)
unfolding to_int64 parse_int parse_uint parse_digits digit_value
parse_6 = refl

other_id : parse_int "6" ≢ some our_object.attrs.generation
other_id e = ground (arith, parse_6)

acquire_lock-free_example :
    (memory.object empty "locks" "dev/lock" ≡ none)
    × (x : Object) × (memory.object taken "locks" "dev/lock" ≡ some x)
    × Names ours x
    × (x.content ≡ lockdata memory empty)
acquire_lock-free_example =
    acquire_lock-free memory memory-IsStorage "locks" "dev/lock" empty ours took

acquire_lock-held_example :
    (x : Object) × (memory.object taken "locks" "dev/lock" ≡ some x)
    × (memory.object (acquire_lock memory "locks" "dev/lock" taken).1 "locks" "dev/lock" ≡ some x)
    × Names ours x
acquire_lock-held_example =
    acquire_lock-held memory memory-IsStorage "locks" "dev/lock" taken ours refused

acquire_lock-keeps_example :
    memory.object (acquire_lock memory "locks" "dev/lock" taken).1 "locks" "dev/lock"
    ≡ some our_object
acquire_lock-keeps_example =
    acquire_lock-keeps memory memory-IsStorage "locks" "dev/lock" taken our_object stands

release_lock-keeps_example :
    (memory.object (release_lock memory "locks" "dev/lock" "6" taken).1 "locks" "dev/lock"
      ≡ some our_object)
    × ((release_lock memory "locks" "dev/lock" "6" taken).0 ≢ ok tt)
release_lock-keeps_example =
    release_lock-keeps memory memory-IsStorage "locks" "dev/lock" "6" taken our_object stands
      other_id

release_lock-acquire_lock_example :
    ((release_lock memory "locks" "dev/lock" "5" taken).0 ≡ ok tt)
    × (memory.object (release_lock memory "locks" "dev/lock" "5" taken).1 "locks" "dev/lock" ≡ none)
release_lock-acquire_lock_example =
    release_lock-acquire_lock memory memory-IsStorage "locks" "dev/lock" empty ours
      (λ w x h. memory-delete_works "locks" "dev/lock" w x h) took

-- one client takes the lock, a second one is refused, and the first gives it back
abbrev nobody : State memory "locks" "dev/lock"
nobody = record { world = empty; holders = [] }

abbrev first_holds : State memory "locks" "dev/lock"
first_holds = record { world = taken; holders = record { client = 1; id = "5" } ∷ [] }

abbrev second_tried : State memory "locks" "dev/lock"
second_tried = record {
  world = (acquire_lock memory "locks" "dev/lock" taken).1;
  holders = record { client = 1; id = "5" } ∷ [];
}

run : Reach memory "locks" "dev/lock" nobody second_tried
run =
    Reach.next (Reach.next Reach.here (Step.acquire 1 ours took refl))
      (Step.refused ours (sentinel acquire_lock_failed) refused refl)

Reach-IsExclusive_example : IsExclusive memory "locks" "dev/lock" second_tried
Reach-IsExclusive_example =
    Reach-IsExclusive memory memory-IsStorage "locks" "dev/lock" {s = nobody} {t = second_tried}
      refl run
