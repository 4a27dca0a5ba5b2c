-- ===== src/Dependencies/Planned.antt =====
-- The databases that `planDependencies` of actions/plan.go plans: each complete, with its needs.
use cli_plugin_gcp.Common.{
  ◌≡◌, sym, ◌∙◌, subst, ap, String, true, ◌||◌, List, [], ◌∷◌, string_eq, nat_eq, Dict, lookup,
  insert, All, All-insert, arith,
}
use cli_plugin_gcp.Common.Action.{pure, ok, >>=-eq-ok, of_result, ◌>>=◌}
use cli_plugin_gcp.Dependencies.{
  NeedyApp, AppNeed, Dependency, AppMap, find_app, insert_app, DatabaseDepNeed, DepPlanner, Place,
}
use cli_plugin_gcp.Dependencies.Database.{DatabaseDep, new_database_dep_options, database_dep_plan}
use cli_plugin_gcp.Dependencies.Registered.{database_dep_plan-planned}
use cli_plugin_gcp.Dependencies.Complete.{IsComplete, planned-IsComplete}
use cli_plugin_gcp.Dependencies.Needed.{is_some, find_app-insert_app, has_need}
use cli_plugin_gcp.Dependencies.Plan.{
  ids_of, is_storage, plan_storage_deps_deploy, is_database, of_kind, all_needs, DepsPlan,
  plan_dependencies, or_nil, with_defaults, database_needs, plan_database_dep_deploy,
  plan_database_deps_deploy,
}

module _ (l : DepPlanner) (c : Place) where
  -- The apps of the needs are those of the dependency.
  database_needs-keeps :
      (ns : AppMap AppNeed) (acc needs : AppMap DatabaseDepNeed) (app : NeedyApp) (w : l.World)
      → (database_needs l c ns acc w).0 ≡ ok needs
      → (is_some (find_app app acc) || is_some (find_app app ns)) ≡ true
      → is_some (find_app app needs) ≡ true
  unfolding database_needs
  database_needs-keeps [] acc needs app w e h = ground arith
  database_needs-keeps ((other, n) ∷ ns) acc needs app w e h =
      let (need, got, rest) =
        >>=-eq-ok (λ need. database_needs l c ns (insert_app other (with_defaults other need) acc))
          (of_result (l.database_need n.properties)) w needs e in
      database_needs-keeps ns (insert_app other (with_defaults other need) acc) needs app w
        (ap (λ r. r.0) (sym rest) ∙ e)
        (ground (arith, find_app-insert_app other app (with_defaults other need) acc))

  -- A dependency as it is planned: complete, and with a need of each app that needs it.
  pub record IsPlanned (all : Dict (AppMap AppNeed)) (e : String × DatabaseDep) : Type 0 where
    pub complete : IsComplete e.1
    pub needed :
        (app : NeedyApp) → has_need e.0 app all ≡ true → is_some (find_app app e.1.needs) ≡ true

  plan_database_dep_deploy-IsPlanned :
      (dep : Dependency) (all : Dict (AppMap AppNeed)) (d : DatabaseDep) (w : l.World)
      → (plan_database_dep_deploy l c dep (or_nil (lookup dep.name all)) w).0 ≡ ok d
      → IsPlanned all (dep.name, d)
  unfolding plan_database_dep_deploy
  plan_database_dep_deploy-IsPlanned dep all d w e =
      let m = or_nil (lookup dep.name all) in
      let (opts, decoded, rest) =
        >>=-eq-ok (λ opts. database_needs l c m [] >>= database_dep_plan l c dep opts)
          (of_result (new_database_dep_options l dep)) w d e in
      let (needs, read, rest') =
        >>=-eq-ok (database_dep_plan l c dep opts) (database_needs l c m []) w d
          (ap (λ r. r.0) (sym rest) ∙ e) in
      let same =
        database_dep_plan-planned l c dep opts needs d (database_needs l c m [] w).1
          (ap (λ r. r.0) (sym rest') ∙ ap (λ r. r.0) (sym rest) ∙ e) in
      let (complete, kept) = planned-IsComplete l c dep opts needs in
      record {
        complete = subst IsComplete same complete;
        needed = λ app h.
            subst (λ ns. is_some (find_app app ns) ≡ true)
              (sym kept ∙ ap (λ (o : DatabaseDep). o.needs) same)
              (database_needs-keeps m [] needs app w read h);
      }

  plan_database_deps_deploy-IsPlanned :
      (deps : List Dependency) (all : Dict (AppMap AppNeed)) (ret ret' : Dict DatabaseDep)
      (w : l.World)
      → (plan_database_deps_deploy l c deps all ret w).0 ≡ ok ret'
      → All (IsPlanned all) ret
      → All (IsPlanned all) ret'
  unfolding plan_database_deps_deploy
  plan_database_deps_deploy-IsPlanned [] all ret ret' w e h =
      let same : ret ≡ ret' = ground arith in subst (All (IsPlanned all)) same h
  plan_database_deps_deploy-IsPlanned (dep ∷ deps) all ret ret' w e h =
      let one = plan_database_dep_deploy l c dep (or_nil (lookup dep.name all)) in
      let (d, done, rest) =
        >>=-eq-ok (λ d. plan_database_deps_deploy l c deps all (insert dep.name d ret)) one w ret'
          e in
      plan_database_deps_deploy-IsPlanned deps all (insert dep.name d ret) ret' (one w).1
        (ap (λ r. r.0) (sym rest) ∙ e)
        (All-insert (IsPlanned all) ret dep.name d h
          (plan_database_dep_deploy-IsPlanned dep all d w done))

  pub plan_dependencies-IsPlanned :
      (apps : List NeedyApp) (deps : List Dependency) (ids : Dict Dependency) (s : DepsPlan)
      (w : l.World)
      → (plan_dependencies l c apps deps ids w).0 ≡ ok s
      → All (IsPlanned (all_needs apps [])) s.database_deps
  unfolding plan_dependencies
  plan_dependencies-IsPlanned apps deps ids s w e =
      let all = all_needs apps [] in
      let databases = plan_database_deps_deploy l c (of_kind is_database deps) all [] in
      let storages = plan_storage_deps_deploy l c (of_kind is_storage deps) all [] in
      let (dbs, done, rest) =
        >>=-eq-ok
          (λ dbs. storages >>= λ sts.
            pure (record { database_deps = dbs; storage_deps = sts; dep_id_map = ids_of deps ids }))
          databases w s e in
      let (sts, done', rest') =
        >>=-eq-ok
          (λ sts.
            pure (record { database_deps = dbs; storage_deps = sts; dep_id_map = ids_of deps ids }))
          storages (databases w).1 s (ap (λ r. r.0) (sym rest) ∙ e) in
      let same : dbs ≡ s.database_deps = ground arith in
      subst (All (IsPlanned all)) same
        (plan_database_deps_deploy-IsPlanned (of_kind is_database deps) all [] dbs w done tt)
