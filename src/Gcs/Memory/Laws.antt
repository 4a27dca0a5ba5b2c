-- ===== src/Gcs/Memory/Laws.antt =====
-- The service in memory meets the laws of Gcs.antt.
use cli_plugin_gcp.Common.Action.{errors_is, Fault, Detail}
use cli_plugin_gcp.Strconv.Roundtrip.{IsInt64}
use cli_plugin_gcp.Common.{
  nat_beq_iff, Bool-cases, subst, ◌≤◌, ℕ, ◌%◌, ◌^◌, ◌<◌, ◌≡◌, ◌≢◌, String, true, false, List,
  Option, none, some, arith, Option-cases, inl, inr, beq_refl, string_eq,
}
use cli_plugin_gcp.Common.Int.{ℤ, pos, negsuc}
use cli_plugin_gcp.Common.Action.{ok, err, api, bucket_not_exist, object_not_exist}
use cli_plugin_gcp.Gcs.{Object, ObjectAttrs, written, IsStorage, IsClock, SameObjects, SameOthers}
use text.Mathlib.TextEquality.{eq_iff}
use cli_plugin_gcp.Gcs.Memory.{
  as_attrs, as_object, update, find, generation_beq, memory_write, memory_write_new, memory_read,
  memory_object_attrs, memory_delete_generation, memory_bucket_attrs, memory, Memory,
}

write_new_free :
    (b o c : String) (m : Memory) (a : ObjectAttrs)
    → (memory_write_new b o c m).0 ≡ ok a
    → as_object (find m b o) ≡ none
write_new_free b o c m a h = ground arith

write_new_written :
    (b o c : String) (m : Memory) (a : ObjectAttrs)
    → (memory_write_new b o c m).0 ≡ ok a
    → as_object (find (memory_write_new b o c m).1 b o) ≡ some (written c a)
write_new_written b o c m a h = ground (arith, beq_refl b, beq_refl o)

write_new_keeps :
    (b o c : String) (m : Memory) (x : Object)
    → as_object (find m b o) ≡ some x
    → as_object (find (memory_write_new b o c m).1 b o) ≡ some x
write_new_keeps b o c m x h = ground arith

update_elsewhere :
    (f : String → String → Option (String × ℕ)) (b o : String) (v : Option (String × ℕ))
    (b' o' : String)
    → ¬ ((b ≡ b') × (o ≡ o'))
    → update f b o v b' o' ≡ f b' o'
update_elsewhere f b o v b' o' ne = ground (arith, eq_iff b b', eq_iff o o')

write_new_others :
    (b o c : String) (m : Memory) → SameOthers memory b o m (memory_write_new b o c m).1
write_new_others b o c m b' o' ne =
    ground (arith, update_elsewhere m.cell b o (some (c, m.clock)) b' o' ne)

write_new_taken :
    (b o c : String) (m : Memory) (d : List Detail)
    → (memory_write_new b o c m).0 ≡ err (api 412 d)
    → (x : Object) × (as_object (find m b o) ≡ some x)
write_new_taken b o c m d h = elim (Option-cases (find m b o)) [
  | inl e ↦ absurd (ground arith)
  | inr (v, e) ↦ (written v.0 (as_attrs v.1), ground arith)
]

read_ok :
    (b o c : String) (m : Memory) (x : Object)
    → as_object (find m b o) ≡ some x
    → (memory_read b o m).0 ≡ ok c
    → x.content ≡ c
read_ok b o c m x h k = ground arith

read_same : (b o : String) (m : Memory) → SameObjects memory m (memory_read b o m).1
read_same b o m b' o' = ground arith

object_attrs_ok :
    (b o : String) (m : Memory) (x : Object) (a : ObjectAttrs)
    → as_object (find m b o) ≡ some x
    → (memory_object_attrs b o m).0 ≡ ok a
    → x.attrs ≡ a
object_attrs_ok b o m x a h k = ground arith

object_attrs_same : (b o : String) (m : Memory) → SameObjects memory m (memory_object_attrs b o m).1
object_attrs_same b o m b' o' = ground arith

generation_beq_iff : (x y : ℤ) → generation_beq x y ≡ true → x ≡ y
generation_beq_iff (pos a) (pos b) h = ground arith
generation_beq_iff (pos a) (negsuc b) h = cc
generation_beq_iff (negsuc a) (pos b) h = cc
generation_beq_iff (negsuc a) (negsuc b) h = cc

delete_gone :
    (b o : String) (n : ℤ) (m : Memory)
    → (memory_delete_generation b o n m).0 ≡ ok tt
    → as_object (find (memory_delete_generation b o n m).1 b o) ≡ none
delete_gone b o n m h = ground (arith, beq_refl b, beq_refl o)

delete_matched :
    (b o : String) (n : ℤ) (m : Memory)
    → (memory_delete_generation b o n m).0 ≡ ok tt
    → (x : Object) × (as_object (find m b o) ≡ some x) × (x.attrs.generation ≡ n)
delete_matched b o n m h = elim (Option-cases (find m b o)) [
  | inl e ↦ absurd (ground arith)
  | inr (v, e) ↦ (
    written v.0 (as_attrs v.1),
    ground arith,
    generation_beq_iff (pos (v.1 % 2 ^ 63)) n (ground arith),
  )
]

delete_keeps :
    (b o : String) (n : ℤ) (m : Memory) (x : Object)
    → as_object (find m b o) ≡ some x
    → x.attrs.generation ≢ n
    → as_object (find (memory_delete_generation b o n m).1 b o) ≡ some x
delete_keeps b o n m x h ne = elim (Bool-cases (generation_beq x.attrs.generation n)) [
  | inl same ↦ absurd (ne (generation_beq_iff x.attrs.generation n same))
  | inr other ↦ ground arith
]

delete_others :
    (b o : String) (n : ℤ) (m : Memory)
    → SameOthers memory b o m (memory_delete_generation b o n m).1
delete_others b o n m b' o' ne = ground (arith, update_elsewhere m.cell b o none b' o' ne)

generation-IsInt64 :
    (b o : String) (m : Memory) (x : Object)
    → as_object (find m b o) ≡ some x
    → IsInt64 x.attrs.generation
generation-IsInt64 b o m x h = elim (Option-cases (find m b o)) [
  | inl e ↦ absurd (ground arith)
  | inr (v, e) ↦
      let bound : v.1 % 2 ^ 63 < 2 ^ 63 = omega arith in
      let same : written v.0 (as_attrs v.1) ≡ x = ground arith in
      subst (λ (y : Object). IsInt64 y.attrs.generation) same bound
]

write_written :
    (b o c : String) (m : Memory) (a : ObjectAttrs)
    → (memory_write b o c m).0 ≡ ok a
    → as_object (find (memory_write b o c m).1 b o) ≡ some (written c a)
write_written b o c m a h = ground (arith, beq_refl b, beq_refl o)

bucket_attrs_same : (b : String) (m : Memory) → SameObjects memory m (memory_bucket_attrs b m).1
bucket_attrs_same b m b' o' = ground arith

bucket_stands :
    (b o : String) (m : Memory) (x : Object) (e : Fault)
    → as_object (find m b o) ≡ some x
    → (memory_bucket_attrs b m).0 ≡ err e
    → errors_is bucket_not_exist e ≡ false
bucket_stands b o m x e h k = ground arith

read_stands :
    (b o : String) (m : Memory) (x : Object) (e : Fault)
    → as_object (find m b o) ≡ some x
    → (memory_read b o m).0 ≡ err e
    → errors_is object_not_exist e ≡ false
read_stands b o m x e h k = ground arith

-- The service in memory meets the laws.
pub memory-IsStorage : IsStorage memory
memory-IsStorage = record {
  write_new_free = write_new_free;
  write_new_written = write_new_written;
  write_new_keeps = write_new_keeps;
  write_new_others = write_new_others;
  write_new_taken = write_new_taken;
  read_ok = read_ok;
  read_same = read_same;
  object_attrs_ok = object_attrs_ok;
  object_attrs_same = object_attrs_same;
  write_written = write_written;
  bucket_attrs_same = bucket_attrs_same;
  bucket_stands = bucket_stands;
  read_stands = read_stands;
  delete_gone = delete_gone;
  delete_matched = delete_matched;
  delete_keeps = delete_keeps;
  delete_others = delete_others;
  tick_same = λ m b o. ground arith;
  send_waiting_same = λ m b o. ground arith;
  generation_int64 = generation-IsInt64;
}

write_new_now : (b o c : String) (m : Memory) → m.clock ≤ (memory_write_new b o c m).1.clock
write_new_now b o c m = ground arith

read_now : (b o : String) (m : Memory) → m.clock ≤ (memory_read b o m).1.clock
read_now b o m = ground arith

object_attrs_now : (b o : String) (m : Memory) → m.clock ≤ (memory_object_attrs b o m).1.clock
object_attrs_now b o m = ground arith

pub memory-IsClock : IsClock memory
memory-IsClock = record {
  write_new_now = write_new_now;
  read_now = read_now;
  object_attrs_now = object_attrs_now;
  send_waiting_now = λ m. omega arith;
  tick_now = λ m. omega arith;
}

-- A conditional write that fails writes nothing, and a delete of a generation that stands succeeds.
pub memory-write_new_clean :
    (b o : String) (m : Memory) (c : String) (f : Fault)
    → (memory_write_new b o c m).0 ≡ err f
    → SameObjects memory m (memory_write_new b o c m).1
memory-write_new_clean b o m c f h b' o' = ground arith

pub memory-delete_works :
    (b o : String) (m : Memory) (x : Object)
    → as_object (find m b o) ≡ some x
    → (memory_delete_generation b o x.attrs.generation m).0 ≡ ok tt
memory-delete_works b o m x h = elim (Option-cases (find m b o)) [
  | inl e ↦ absurd (ground arith)
  | inr (v, e) ↦ ground (arith, nat_beq_iff (v.1 % 2 ^ 63) (v.1 % 2 ^ 63))
]
