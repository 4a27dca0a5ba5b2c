-- ===== src/Dependencies/Vars.antt =====
-- The variables of actions/plan_dependency.go after a plan of the dependencies: none of them is read
-- through a nil pointer.
use Prim.Native.String.{◌++◌}
use cli_plugin_gcp.Common.{
  ◌⊎◌, none, zero, suc, lookup-insert, lookup-insert_self, refl, false, All-lookup, inr, inl,
  All-get_elem?, Option-cases, get_elem?, ℕ, some, ◌≡◌, String, true, List, [], ◌∷◌, string_eq,
  nat_eq, Dict, lookup, insert, All, arith,
}
use cli_plugin_gcp.Common.Action.{Fault, text, err, ok}
use cli_plugin_gcp.Dependencies.{
  NeedyApp, AppNeed, Dependency, AppMap, find_app, DatabaseDepNeed, DepPlanner, Place,
}
use cli_plugin_gcp.Dependencies.Database.{is_absent, DatabaseDep}
use cli_plugin_gcp.Dependencies.Complete.{IsComplete}
use cli_plugin_gcp.Dependencies.Needed.{All-find_app, all_needs-All, is_some, has_need}
use cli_plugin_gcp.Dependencies.Plan.{
  DepVars, find_dependencies_env_vars, env_vars_of, storage_vars_of, database_vars, DatabaseVars,
  all_needs, DepsPlan, find_dependency_env_vars, plan_dependencies,
}
use cli_plugin_gcp.Dependencies.Planned.{IsPlanned, plan_dependencies-IsPlanned}

module _ (l : DepPlanner) (c : Place) where
  complete_need :
      (s : DepsPlan) (app : NeedyApp) (need : AppNeed) (d : DatabaseDep)
      → lookup need.dependency s.database_deps ≡ some d
      → IsComplete d
      → is_some (find_app app d.needs) ≡ true
      → (n : DatabaseDepNeed) × (v : DatabaseVars) × (find_app app d.needs ≡ some n)
        × (find_dependency_env_vars l s app need ≡ ok (database_vars v))
        × (v.user ≡ n.user)
        × (v.database ≡ n.database)
        × (v.host ≡ "/cloudsql/" ++ l.connection_name d.cloud_sql)
  unfolding find_dependency_env_vars
  complete_need s app need d found complete needed = elim (Option-cases (find_app app d.needs)) [
    | inl nothing ↦ absurd (ground arith)
    | inr (n, has) ↦
        let user_there =
          All-find_app (λ n. is_absent n.user d.cloud_sql_users ≡ false) d.needs app n
            complete.users has in
        let database_there =
          All-find_app (λ n. is_absent n.database d.cloud_sql_databases ≡ false) d.needs app n
            complete.databases has in
        elim (Option-cases (lookup n.user d.cloud_sql_users)) [
          | inl nothing ↦ absurd (ground arith)
          | inr (u, has_user) ↦ elim (Option-cases (lookup n.database d.cloud_sql_databases)) [
            | inl nothing ↦ absurd (ground arith)
            | inr (db, has_database) ↦ (
              n,
              record {
                user = u.name;
                password = u.password;
                database = db.name;
                port = 5432;
                host = "/cloudsql/" ++ l.connection_name d.cloud_sql;
                socket = "/cloudsql/" ++ l.connection_name d.cloud_sql;
              },
              has,
              rw (found, has, has_user, has_database) refl,
              All-lookup (λ e. e.1.name ≡ e.0) d.cloud_sql_users n.user u complete.user_names
                  has_user,
              All-lookup (λ e. e.1.name ≡ e.0) d.cloud_sql_databases n.database db
                  complete.database_names has_database,
              refl,
            )
          ]
        ]
  ]

  -- A need of a dependency that neither map of the plan has.
  abbrev pub IsMissing : DepsPlan → AppNeed → Type 0
  IsMissing s need =
      (lookup need.dependency s.database_deps ≡ none)
      × (lookup need.dependency s.storage_deps ≡ none)

  -- the error that names a missing dependency
  abbrev pub missing_error : AppNeed → Fault
  missing_error need = text ("unable to find dependency '" ++ need.dependency ++ "'")

  find_dependency_env_vars_cases :
      (s : DepsPlan) (app : NeedyApp) (need : AppNeed) (all : Dict (AppMap AppNeed))
      → All (IsPlanned l c all) s.database_deps
      → has_need need.dependency app all ≡ true
      → ((v : DepVars) × (find_dependency_env_vars l s app need ≡ ok v))
        ⊎ ((find_dependency_env_vars l s app need ≡ err (missing_error need)) × IsMissing s need)
  unfolding find_dependency_env_vars
  find_dependency_env_vars_cases s app need all planned asked =
      elim (Option-cases (lookup need.dependency s.database_deps)) [
        | inl nothing ↦ elim (Option-cases (lookup need.dependency s.storage_deps)) [
          | inl nothing' ↦ inr (rw (nothing, nothing') refl, (nothing, nothing'))
          | inr (b, found) ↦ inl (storage_vars_of l b, rw (nothing, found) refl)
        ]
        | inr (d, found) ↦
            let p =
              All-lookup (IsPlanned l c all) s.database_deps need.dependency d planned found in
            let (n, v, has, is, user, database, host) =
              complete_need s app need d found p.complete (p.needed app asked) in
            inl (database_vars v, is)
      ]

  abbrev HasVars : Dict DepVars → String → Type 0
  HasVars vars name = is_some (lookup name vars) ≡ true

  HasVars-insert :
      (name other : String) (v : DepVars) (vars : Dict DepVars)
      → HasVars vars name
      → HasVars (insert other v vars) name
  HasVars-insert name other v vars has = ground (arith, lookup-insert other name v vars)

  -- Every need has its variables, and so has what had some before; or one of the needs is missing.
  abbrev Found : DepsPlan → NeedyApp → List AppNeed → Dict DepVars → Type 0
  Found s app needs vars =
      (vars' : Dict DepVars) × (env_vars_of l s app needs vars ≡ ok vars')
      × All (λ (n : AppNeed). HasVars vars' n.dependency) needs
      × ((name : String) → HasVars vars name → HasVars vars' name)

  abbrev Missed : DepsPlan → NeedyApp → List AppNeed → Dict DepVars → Type 0
  Missed s app needs vars =
      (i : ℕ) × (need : AppNeed) × (get_elem? needs i ≡ some need)
      × IsMissing s need
      × (env_vars_of l s app needs vars ≡ err (missing_error need))

  env_vars_of_cases :
      (s : DepsPlan) (app : NeedyApp) (needs : List AppNeed) (vars : Dict DepVars)
      (all : Dict (AppMap AppNeed))
      → All (IsPlanned l c all) s.database_deps
      → All (λ (n : AppNeed). has_need n.dependency app all ≡ true) needs
      → Found s app needs vars ⊎ Missed s app needs vars
  unfolding env_vars_of
  env_vars_of_cases s app [] vars all planned asked = inl (vars, refl, tt, λ name has. has)
  env_vars_of_cases s app (need ∷ needs) vars all planned (one, asked) =
      elim (find_dependency_env_vars_cases s app need all planned one) [
        | inl (v, e) ↦
            elim (env_vars_of_cases s app needs (insert need.dependency v vars) all planned asked) [
              | inl (vars', found, has, kept) ↦ inl (
                vars',
                rw (e, found) refl,
                (
                  kept need.dependency (ground (arith, lookup-insert_self need.dependency v vars)),
                  has,
                ),
                λ name had. kept name (HasVars-insert name need.dependency v vars had),
              )
              | inr (i, n, at, missing, failed) ↦ inr (suc i, n, at, missing, rw (e, failed) refl)
            ]
        | inr (e, missing) ↦ inr (zero, need, refl, missing, rw e refl)
      ]

  module _ (apps : List NeedyApp) (deps : List Dependency) (ids : Dict Dependency) (s : DepsPlan)
      (w : l.World) (done : (plan_dependencies l c apps deps ids w).0 ≡ ok s) (i : ℕ)
      (app : NeedyApp) (listed : get_elem? apps i ≡ some app) where
    -- Once the dependencies are planned, an app of the plan that needs a database gets its variables: the
    -- user and the database of the need that the plan of the database keeps for it, and the socket of the
    -- instance. It is no nil pointer that they are read through.
    pub find_dependency_env_vars-planned :
        (j : ℕ) (need : AppNeed) (d : DatabaseDep)
        → get_elem? app.needs j ≡ some need
        → lookup need.dependency s.database_deps ≡ some d
        → (n : DatabaseDepNeed) × (v : DatabaseVars) × (find_app app d.needs ≡ some n)
          × (find_dependency_env_vars l s app need ≡ ok (database_vars v))
          × (v.user ≡ n.user)
          × (v.database ≡ n.database)
          × (v.host ≡ "/cloudsql/" ++ l.connection_name d.cloud_sql)
    find_dependency_env_vars-planned j need d listed_need found =
        let all = all_needs apps [] in
        let mine =
          All-get_elem? (λ (a : NeedyApp). All (λ n. has_need n.dependency a all ≡ true) a.needs)
            apps i app (all_needs-All apps []) listed in
        let asked =
          All-get_elem? (λ (n : AppNeed). has_need n.dependency app all ≡ true) app.needs j need
            mine listed_need in
        let p =
          All-lookup (IsPlanned l c all) s.database_deps need.dependency d
            (plan_dependencies-IsPlanned l c apps deps ids s w done) found in
        complete_need s app need d found p.complete (p.needed app asked)

    -- Once the dependencies are planned, an app of the plan gets a map with variables for each of its needs, or an
    -- error that names a dependency of one of its needs, which is neither a database nor a storage of
    -- the plan. No nil pointer is read, whatever the app needs.
    pub find_dependencies_env_vars_cases :
        ((vars : Dict DepVars) × (find_dependencies_env_vars l s app ≡ ok vars)
          × All (λ (n : AppNeed). is_some (lookup n.dependency vars) ≡ true) app.needs)
        ⊎ ((j : ℕ) × (need : AppNeed) × (get_elem? app.needs j ≡ some need)
            × (lookup need.dependency s.database_deps ≡ none)
            × (lookup need.dependency s.storage_deps ≡ none)
            × (find_dependencies_env_vars l s app
                ≡ err (text ("unable to find dependency '" ++ need.dependency ++ "'"))))
    unfolding find_dependencies_env_vars
    find_dependencies_env_vars_cases =
        let all = all_needs apps [] in
        let mine =
          All-get_elem? (λ (a : NeedyApp). All (λ n. has_need n.dependency a all ≡ true) a.needs)
            apps i app (all_needs-All apps []) listed in
        elim (env_vars_of_cases s app app.needs [] all
          (plan_dependencies-IsPlanned l c apps deps ids s w done) mine) [
            | inl (vars, found, has, kept) ↦ inl (vars, found, has)
            | inr (j, need, at, (no_database, no_storage), failed) ↦
                inr (j, need, at, no_database, no_storage, failed)
          ]
