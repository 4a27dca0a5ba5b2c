-- ===== src/Planning/Saved.antt =====
-- What `Apply` of actions/plan.go leaves of the state, and prepareCloudRunURL on a new one.
use cli_plugin_gcp.Common.{
  ◌≡◌, ◌≢◌, ◌==◌, string_eq, refl, String, Bool, true, false, none, some, arith, inl, inr,
}
use cli_plugin_gcp.Common.Action.{Result, ok, err, panic, Fault, Result-cases}
use cli_plugin_gcp.Planning.{
  prepare_cloud_run_url, Runner, PlanSession, save, process, apply_action,
}

module _ (l : Runner) where
  abbrev Saves : Result (Unit {0}) × PlanSession l → PlanSession l → String → Type 0
  Saves out s registry =
      (out.0 ≢ panic) × (out.1.state.registry ≡ registry) × (out.1.state.other ≡ s.state.other)

  save-Saves :
      (destroy : Bool) (s : PlanSession l) (registry : String)
      → (l.dump s.world).0 ≡ ok registry
      → (l.report (l.dump s.world).1).0 ≢ panic
      → Saves (save l destroy s) s registry
  unfolding save
  save-Saves true s registry dumped reported = rw (dumped) (λ e. ground arith, refl, refl)
  save-Saves false s registry dumped reported = rw (dumped) (reported, refl, refl)

  -- An apply that fails on the way loses nothing: the registry, which knows the resources that were made by
  -- then, is dumped into the state, and the error is that of the apply, also where the report of the states
  -- fails as well.
  pub apply_action-saves :
      (apps destroy : Bool) (s s1 : PlanSession l) (diff : l.Diff) (e : Fault) (registry : String)
      → process l apps destroy true s ≡ (ok (some diff), s1)
      → (l.apply_diff diff s1.world).0 ≡ err e
      → (l.dump (l.apply_diff diff s1.world).1).0 ≡ ok registry
      → (l.report (l.dump (l.apply_diff diff s1.world).1).1).0 ≢ panic
      → ((apply_action l apps destroy s).0 ≡ err e)
        × ((apply_action l apps destroy s).1.state.registry ≡ registry)
        × ((apply_action l apps destroy s).1.state.other ≡ s1.state.other)
  unfolding apply_action
  apply_action-saves apps destroy s s1 diff e registry done failed dumped reported =
      let s2 = record s1 { world = (l.apply_diff diff s1.world).1 } in
      let saved = save-Saves destroy s2 registry dumped reported in
      elim (Result-cases (save l destroy s2).0) [
        | inl (u, r) ↦ rw (done, failed, r) (refl, saved.1, saved.2)
        | inr (inl (e', r)) ↦ rw (done, failed, r) (refl, saved.1, saved.2)
        | inr (inr r) ↦ absurd (saved.0 r)
      ]

  -- A first apply of apps in a region whose suffix is not known yet, with a state whose map of other values
  -- is nil: it ends in a panic, with the temporary service made and deleted and nothing done after that, the
  -- settings of Cloud Run kept in memory, and the state as it was. The region is not the empty one, and
  -- each call up to there succeeds.
  pub apply_action-panic :
      (s : PlanSession l) (url hash code bytes : String)
      → s.state.other ≡ none
      → ("" == l.region) ≡ false
      → (l.register_temporary s.world).0 ≡ ok tt
      → (l.create_temporary (l.register_temporary s.world).1).0 ≡ ok (some url)
      → (l.delete_temporary (l.create_temporary (l.register_temporary s.world).1).1).0
        ≡ ok (some tt)
      → l.suffix url ≡ some (hash, code)
      → l.marshal (record { region = l.region; project_hash = hash; region_code = code }) ≡ ok bytes
      → apply_action l true false s ≡ (
        panic,
        record s {
          world = (l.delete_temporary (l.create_temporary (l.register_temporary s.world).1).1).1;
          cloud_run_settings =
              some (record { region = l.region; project_hash = hash; region_code = code });
        },
      )
  unfolding apply_action process prepare_cloud_run_url
  apply_action-panic s url hash code bytes nil other_region registered made deleted known text =
      rw (nil, other_region, registered, made, deleted, known, text) refl
