-- ===== src/PluginContext/Once.antt =====
-- What a second call of a cached function of internal/config/pluginctx.go gives.
use cli_plugin_gcp.Common.{
  ◌≡◌, ◌≢◌, string_eq, refl, some, List, [], ◌∷◌, String, false, none, arith, lookup, lookup-insert,
  lookup-insert_self, Option-cases, inl, inr,
}
use text.Mathlib.TextEquality.{eq_iff}
use cli_plugin_gcp.Common.Action.{Action, Result, ok, err, panic, Fault, Result-cases}
use cli_plugin_gcp.PluginContext.{Slot, Cached, once_client, gcp_storage_client, func_cache}

module _ {W C : Type 0} where
  -- The cache after a sequence of calls, each with its key and its function, whatever they give.
  abbrev pub after_calls : List (String × Action W C) → Cached W (Result C) → Cached W (Result C)
  after_calls [] s = s
  after_calls ((key, f) ∷ calls) s = after_calls calls (func_cache key f s).1

  func_cache-keeps :
      (key other : String) (f : Action W C) (s : Cached W (Result C)) (r : Result C)
      → lookup key s.entries ≡ some r
      → lookup key (func_cache other f s).1.entries ≡ some r
  unfolding func_cache
  func_cache-keeps key other f s r has = elim (Option-cases (lookup other s.entries)) [
    | inl new ↦ elim (Result-cases (f s.world).0) [
      | inl (a, e) ↦ ground (arith, eq_iff other key, lookup-insert other key (ok a) s.entries)
      | inr (inl (x, e)) ↦
          ground (arith, eq_iff other key, lookup-insert {V = Result C} other key (err x) s.entries)
      | inr (inr e) ↦ ground arith
    ]
    | inr (r', old) ↦ ground arith
  ]

  after_calls-keeps :
      (key : String) (calls : List (String × Action W C)) (s : Cached W (Result C)) (r : Result C)
      → lookup key s.entries ≡ some r
      → lookup key (after_calls calls s).entries ≡ some r
  after_calls-keeps key [] s r has = has
  after_calls-keeps key ((other, f) ∷ calls) s r has =
      after_calls-keeps key calls (func_cache other f s).1 r (func_cache-keeps key other f s r has)

  func_cache-enters :
      (key : String) (f : Action W C) (s : Cached W (Result C))
      → (func_cache key f s).0 ≢ panic
      → lookup key (func_cache key f s).1.entries ≡ some (func_cache key f s).0
  unfolding func_cache
  func_cache-enters key f s h = elim (Option-cases (lookup key s.entries)) [
    | inl new ↦ elim (Result-cases (f s.world).0) [
      | inl (a, e) ↦ ground (arith, lookup-insert_self key (ok a) s.entries)
      | inr (inl (x, e)) ↦ ground (arith, lookup-insert_self {V = Result C} key (err x) s.entries)
      | inr (inr e) ↦ absurd (h (ground arith))
    ]
    | inr (r, old) ↦ ground arith
  ]

  -- `FuncCache` runs the function of a key once: after a call that did not panic, and any calls with any keys
  -- after that, a call with the same key gives what that one gave, value or error, whatever function
  -- it is handed, and changes nothing.
  pub func_cache-again :
      (key : String) (f f' : Action W C) (calls : List (String × Action W C))
      (s : Cached W (Result C))
      → (func_cache key f s).0 ≢ panic
      → let s' = after_calls calls (func_cache key f s).1 in
        func_cache key f' s' ≡ ((func_cache key f s).0, s')
  unfolding func_cache
  func_cache-again key f f' calls s h =
      let has =
        after_calls-keeps key calls (func_cache key f s).1 (func_cache key f s).0
          (func_cache-enters key f s h) in
      rw (func_cache, has) refl

  -- After a first call in which the client of Cloud Storage could not be made, the next call gives
  -- a nil client and no error, whatever its own constructor would do.
  pub gcp_storage_client-nil :
      (new new' : Action W C) (s : Slot W C) (e : Fault)
      → s.is_done ≡ false
      → (new s.world).0 ≡ err e
      → (gcp_storage_client new' (gcp_storage_client new s).1).0 ≡ ok none
  unfolding gcp_storage_client once_client
  gcp_storage_client-nil new new' s e h r = ground arith
