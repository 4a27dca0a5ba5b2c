-- ===== src/Lock/Clock.antt =====
-- The calls on a lock do not turn the clock back.
use cli_plugin_gcp.Common.{◌≤◌, String, arith, inl, inr}
use cli_plugin_gcp.Common.Action.{Result-cases}
use cli_plugin_gcp.Gcs.{Gcs, IsClock}
use cli_plugin_gcp.Lock.{lockdata, check_lock, acquire_lock}

module _ (g : Gcs) (c : IsClock g) where
  open g use {World, now}

  check_lock-now : (b o : String) (w : World) → now w ≤ now (check_lock g b o w).1
  unfolding check_lock
  check_lock-now b o w = elim (Result-cases (g.read b o w).0) [
    | inl (s, r) ↦ elim (Result-cases (g.object_attrs b o (g.read b o w).1).0) [
      | inl (a, q) ↦ ground (arith, c.read_now b o w, c.object_attrs_now b o (g.read b o w).1)
      | inr (inl (f, q)) ↦ ground (arith, c.read_now b o w, c.object_attrs_now b o (g.read b o w).1)
      | inr (inr q) ↦ ground (arith, c.read_now b o w, c.object_attrs_now b o (g.read b o w).1)
    ]
    | inr (inl (f, r)) ↦ ground (arith, c.read_now b o w)
    | inr (inr r) ↦ ground (arith, c.read_now b o w)
  ]

  pub acquire_lock-now : (b o : String) (w : World) → now w ≤ now (acquire_lock g b o w).1
  unfolding acquire_lock
  acquire_lock-now b o w = ground (
    arith,
    c.write_new_now b o (lockdata g w) w,
    check_lock-now b o (g.write_new b o (lockdata g w) w).1,
  )
