-- ===== src/Gcs/Memory.antt =====
-- A storage service in memory, which meets the laws of Gcs.antt: the inputs of the tests and the
-- examples stand in it. It is no part of the program.
pub mod Laws
use cli_plugin_gcp.Common.Action.{errors_is, Fault, Detail}
use cli_plugin_gcp.Strconv.Roundtrip.{IsInt64}
use cli_plugin_gcp.Common.{
  nat_beq_iff, Bool-cases, subst, ◌≤◌, ℕ, ◌+◌, ◌%◌, ◌^◌, ◌<◌, ◌≡◌, ◌≢◌, String, Bool, true, false,
  List, [], Option, none, some, arith, nat_beq, ◌==◌, if◌then◌else◌, Option-cases, inl, inr,
  beq_refl, string_eq, Dict, lookup, insert,
}
use cli_plugin_gcp.Common.Int.{ℤ, pos, negsuc}
use cli_plugin_gcp.Common.Action.{
  Action, ok, err, api, canceled, sentinel, bucket_not_exist, object_not_exist,
}
use cli_plugin_gcp.Gcs.{
  Gcs, Object, ObjectAttrs, BucketAttrs, written, IsStorage, IsClock, SameObjects, SameOthers,
}
use text.Mathlib.TextEquality.{eq_iff}

pub record Memory : Type 0 where
  pub buckets : Dict BucketAttrs
  -- the content and the number of a live object
  pub cell : String → String → Option (String × ℕ)
  pub clock : ℕ
  -- whether the caller's context is done
  pub canceled : Bool

abbrev pub as_attrs : ℕ → ObjectAttrs
as_attrs n = record { generation = pos (n % 2 ^ 63); created = n }

abbrev pub as_object : Option (String × ℕ) → Option Object
as_object none = none
as_object (some (c, n)) = some (written c (as_attrs n))

abbrev pub update :
    (String → String → Option (String × ℕ))
    → String
    → String
    → Option (String × ℕ)
    → String
    → String
    → Option (String × ℕ)
update f b o v b' o' = if b == b' then (if o == o' then v else f b' o') else f b' o'

-- what the service shows of an object: nothing outside a bucket
abbrev pub shown : Option BucketAttrs → Option (String × ℕ) → Option (String × ℕ)
shown none v = none
shown (some _) v = v

abbrev pub find : Memory → String → String → Option (String × ℕ)
find m b o = shown (lookup b m.buckets) (m.cell b o)

abbrev pub later : Memory → Memory
later m = record m { clock = m.clock + 1 }

abbrev pub put : Memory → String → String → String → Memory
put m b o c = record m { cell = update m.cell b o (some (c, m.clock)); clock = m.clock + 1 }

abbrev pub remove : Memory → String → String → Memory
remove m b o = record m { cell = update m.cell b o none; clock = m.clock + 1 }

abbrev pub generation_beq : ℤ → ℤ → Bool
generation_beq (pos a) (pos b) = nat_beq a b
generation_beq _ _ = false

abbrev pub memory_write : String → String → String → Action Memory ObjectAttrs
memory_write b o c m = elim (lookup b m.buckets) [
  | none ↦ (err (sentinel bucket_not_exist), later m)
  | some _ ↦ (ok (as_attrs m.clock), put m b o c)
]

abbrev pub memory_write_new : String → String → String → Action Memory ObjectAttrs
memory_write_new b o c m = elim (find m b o) [
  | none ↦ memory_write b o c m
  | some _ ↦ (err (api 412 []), later m)
]

abbrev pub memory_read : String → String → Action Memory String
memory_read b o m = elim (find m b o) [
  | none ↦ (err (sentinel object_not_exist), later m)
  | some (c, _) ↦ (ok c, later m)
]

abbrev pub memory_object_attrs : String → String → Action Memory ObjectAttrs
memory_object_attrs b o m = elim (find m b o) [
  | none ↦ (err (sentinel object_not_exist), later m)
  | some (_, n) ↦ (ok (as_attrs n), later m)
]

abbrev pub memory_delete_generation : String → String → ℤ → Action Memory (Unit {0})
memory_delete_generation b o n m = elim (find m b o) [
  | none ↦ (err (sentinel object_not_exist), later m)
  | some (_, k) ↦
      if generation_beq (pos (k % 2 ^ 63)) n
      then (ok tt, remove m b o)
      else (err (api 412 []), later m)
]

abbrev pub memory_bucket_attrs : String → Action Memory BucketAttrs
memory_bucket_attrs b m = elim (lookup b m.buckets) [
  | none ↦ (err (sentinel bucket_not_exist), later m)
  | some a ↦ (ok a, later m)
]

abbrev pub memory : Gcs
memory = record {
  World = Memory;
  object = λ m b o. as_object (find m b o);
  bucket_attrs = memory_bucket_attrs;
  bucket_create = λ b project a m. (ok tt, record m { buckets = insert b a m.buckets });
  read = memory_read;
  object_attrs = memory_object_attrs;
  write = memory_write;
  write_new = memory_write_new;
  delete_generation = memory_delete_generation;
  username = λ m. some "ci";
  hostname = λ m. "runner";
  now = λ m. m.clock;
  tick = λ m. (if m.canceled then err canceled else ok tt, later m);
  send_waiting = λ m. (ok tt, later m);
}

abbrev pub blank : Memory
blank = record { buckets = []; cell = λ b o. none; clock = 5; canceled = false }
