-- ===== src/Gcs.antt =====
-- The Cloud Storage client (cloud.google.com/go/storage) and the clock, as plugin/state.go,
-- plugin/locking.go and gcp/bucket.go use them. The client is not code of the repository: it is a
-- parameter, and the laws below are what its documentation says of preconditions and reads.
pub mod Memory
use cli_plugin_gcp.Common.{ℕ, ◌<◌, ◌≤◌, ◌≡◌, ◌≢◌, String, Bool, List, Option, none, some}
use cli_plugin_gcp.Common.Int.{ℤ}
use cli_plugin_gcp.Common.{false}
use cli_plugin_gcp.Common.Action.{
  Fault, errors_is, bucket_not_exist, object_not_exist, Action, ok, err, api, Detail,
}
use cli_plugin_gcp.Strconv.Roundtrip.{IsInt64}

-- storage.LifecycleRule: a zero count is a condition that is not set.
pub record LifecycleRule : Type 0 where
  pub days_since_noncurrent_time : ℤ
  pub age_in_days : ℤ
  pub num_newer_versions : ℤ
  pub archived : Bool
  pub action : String

-- storage.BucketAttrs
pub record BucketAttrs : Type 0 where
  pub location : String
  pub versioning_enabled : Bool
  pub rules : List LifecycleRule
  pub cors : List String

-- storage.ObjectAttrs
pub record ObjectAttrs : Type 0 where
  pub generation : ℤ
  pub created : ℕ

-- A live object, as an observer of the service sees it.
pub record Object : Type 0 where
  pub content : String
  pub attrs : ObjectAttrs

-- The calls; `World` is all that lies outside the plugin's process.
pub record Gcs : Type 1 where
  pub World : Type 0
  pub object : World → String → String → Option Object
  pub bucket_attrs : String → Action World BucketAttrs
  pub bucket_create : String → String → BucketAttrs → Action World (Unit {0})
  pub read : String → String → Action World String
  pub object_attrs : String → String → Action World ObjectAttrs
  -- a Writer, written and closed
  pub write : String → String → String → Action World ObjectAttrs
  -- the same under Conditions{DoesNotExist: true}
  pub write_new : String → String → String → Action World ObjectAttrs
  -- Delete under Conditions{GenerationMatch: gen}
  pub delete_generation : String → String → ℤ → Action World (Unit {0})
  -- user.Current() and os.Hostname()
  pub username : World → Option String
  pub hostname : World → String
  pub now : World → ℕ
  -- select on ctx.Done() and on the ticker
  pub tick : Action World (Unit {0})
  -- stream.Send of a response that says `Waiting`
  pub send_waiting : Action World (Unit {0})

abbrev pub written : String → ObjectAttrs → Object
written c a = record { content = c; attrs = a }

module _ (g : Gcs) where
  open g use {
    World, object, write, bucket_attrs, read, object_attrs, write_new, delete_generation, now, tick,
    send_waiting,
  }

  -- No object differs.
  abbrev pub SameObjects : World → World → Type 0
  SameObjects w w' = (b o : String) → object w' b o ≡ object w b o

  abbrev pub Elsewhere : String → String → String → String → Type 0
  Elsewhere b o b' o' = ¬ ((b ≡ b') × (o ≡ o'))

  -- No object but this one differs.
  abbrev pub SameOthers : String → String → World → World → Type 0
  SameOthers b o w w' = (b' o' : String) → Elsewhere b o b' o' → object w' b' o' ≡ object w b' o'

  -- What the documentation says of the calls that the lock uses.
  pub record IsStorage : Type 0 where
    -- A conditional write that succeeds found no object, and has created one.
    pub write_new_free :
        (b o c : String) (w : World) (a : ObjectAttrs)
        → (write_new b o c w).0 ≡ ok a
        → object w b o ≡ none
    pub write_new_written :
        (b o c : String) (w : World) (a : ObjectAttrs)
        → (write_new b o c w).0 ≡ ok a
        → object (write_new b o c w).1 b o ≡ some (written c a)
    -- However it ends, it overwrites nothing, and touches no other object.
    pub write_new_keeps :
        (b o c : String) (w : World) (x : Object)
        → object w b o ≡ some x
        → object (write_new b o c w).1 b o ≡ some x
    pub write_new_others : (b o c : String) (w : World) → SameOthers b o w (write_new b o c w).1
    -- 412 is its answer only where an object stands.
    pub write_new_taken :
        (b o c : String) (w : World) (d : List Detail)
        → (write_new b o c w).0 ≡ err (api 412 d)
        → (x : Object) × (object w b o ≡ some x)
    -- Reads give what is there, and change nothing.
    pub read_ok :
        (b o c : String) (w : World) (x : Object)
        → object w b o ≡ some x
        → (read b o w).0 ≡ ok c
        → x.content ≡ c
    pub read_same : (b o : String) (w : World) → SameObjects w (read b o w).1
    pub object_attrs_ok :
        (b o : String) (w : World) (x : Object) (a : ObjectAttrs)
        → object w b o ≡ some x
        → (object_attrs b o w).0 ≡ ok a
        → x.attrs ≡ a
    pub object_attrs_same : (b o : String) (w : World) → SameObjects w (object_attrs b o w).1
    -- A write that succeeds has replaced the object.
    pub write_written :
        (b o c : String) (w : World) (a : ObjectAttrs)
        → (write b o c w).0 ≡ ok a
        → object (write b o c w).1 b o ≡ some (written c a)
    -- Looking at a bucket changes no object.
    pub bucket_attrs_same : (b : String) (w : World) → SameObjects w (bucket_attrs b w).1
    -- A bucket with an object exists, and an object that stands is not reported as missing.
    pub bucket_stands :
        (b o : String) (w : World) (x : Object) (e : Fault)
        → object w b o ≡ some x
        → (bucket_attrs b w).0 ≡ err e
        → errors_is bucket_not_exist e ≡ false
    pub read_stands :
        (b o : String) (w : World) (x : Object) (e : Fault)
        → object w b o ≡ some x
        → (read b o w).0 ≡ err e
        → errors_is object_not_exist e ≡ false
    -- A delete under a generation removes the object of that generation alone.
    pub delete_gone :
        (b o : String) (n : ℤ) (w : World)
        → (delete_generation b o n w).0 ≡ ok tt
        → object (delete_generation b o n w).1 b o ≡ none
    pub delete_matched :
        (b o : String) (n : ℤ) (w : World)
        → (delete_generation b o n w).0 ≡ ok tt
        → (x : Object) × (object w b o ≡ some x) × (x.attrs.generation ≡ n)
    pub delete_keeps :
        (b o : String) (n : ℤ) (w : World) (x : Object)
        → object w b o ≡ some x
        → x.attrs.generation ≢ n
        → object (delete_generation b o n w).1 b o ≡ some x
    pub delete_others :
        (b o : String) (n : ℤ) (w : World) → SameOthers b o w (delete_generation b o n w).1
    -- Waiting and telling the host so change no object.
    pub tick_same : (w : World) → SameObjects w (tick w).1
    pub send_waiting_same : (w : World) → SameObjects w (send_waiting w).1
    -- A generation is an int64.
    pub generation_int64 :
        (b o : String) (w : World) (x : Object) → object w b o ≡ some x → IsInt64 x.attrs.generation

  -- The clock does not run backwards, and a tick comes at a later time than it was waited for.
  pub record IsClock : Type 0 where
    pub write_new_now : (b o c : String) (w : World) → now w ≤ now (write_new b o c w).1
    pub read_now : (b o : String) (w : World) → now w ≤ now (read b o w).1
    pub object_attrs_now : (b o : String) (w : World) → now w ≤ now (object_attrs b o w).1
    pub send_waiting_now : (w : World) → now w ≤ now (send_waiting w).1
    pub tick_now : (w : World) → now w < now (tick w).1
