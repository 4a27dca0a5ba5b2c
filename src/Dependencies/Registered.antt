-- ===== src/Dependencies/Registered.antt =====
-- `Plan` of deploy/dep_database.go, when it succeeds: what it has registered, and that every need has its
-- user and its database.
use cli_plugin_gcp.Common.{
  ◌≡◌, sym, ◌∙◌, ap, String, false, [], ◌∷◌, if◌then◌else◌, ◌==◌, string_eq, Dict, insert,
  lookup-insert, arith, Bool-cases, inl, inr,
}
use cli_plugin_gcp.Common.Action.{ok, >>=-eq-ok, pure, ◌>>◌}
use text.Mathlib.TextEquality.{eq_iff}
use cli_plugin_gcp.Dependencies.{
  Dependency, AppMap, DatabaseDepNeed, DatabaseDepOptionUser, DatabaseDepOptions, cloud_sql,
  cloud_sql_database, cloud_sql_user, DepPlanner, Place,
}
use cli_plugin_gcp.Dependencies.Database.{
  DatabaseDep, ensure, option_users, need_users, with_instance, instance_of, database_of,
  with_database, is_absent, user_of, with_user, register_password, register_database, register_user,
  register_databases, register_users, database_dep_plan,
}

pub is_absent-insert :
    {V : Type 0} (k j : String) (v : V) (m : Dict V)
    → is_absent j (insert k v m) ≡ (if k == j then false else is_absent j m)
is_absent-insert k j v m = ground (arith, lookup-insert k j v m)

pub is_absent-ensure :
    {V : Type 0} (k j : String) (v : V) (m : Dict V)
    → is_absent j (ensure k v m) ≡ (if k == j then false else is_absent j m)
is_absent-ensure k j v m = ground (arith, eq_iff k j, lookup-insert k j v m)

-- The state after each registration.
abbrev pub database_ensured : String → DatabaseDep → DatabaseDep
database_ensured db o = if is_absent db o.cloud_sql_databases then with_database db o else o

abbrev pub databases_ensured : AppMap DatabaseDepNeed → DatabaseDep → DatabaseDep
databases_ensured [] o = o
databases_ensured ((app, n) ∷ ns) o = databases_ensured ns (database_ensured n.database o)

module _ (l : DepPlanner) where
  abbrev pub user_ensured : String → DatabaseDepOptionUser → DatabaseDep → DatabaseDep
  user_ensured user p o = if is_absent user o.cloud_sql_users then with_user l user p o else o

  abbrev pub users_ensured : Dict DatabaseDepOptionUser → DatabaseDep → DatabaseDep
  users_ensured [] o = o
  users_ensured ((user, p) ∷ us) o = users_ensured us (user_ensured user p o)

  abbrev pub planned :
      Place → Dependency → DatabaseDepOptions → AppMap DatabaseDepNeed → DatabaseDep
  planned c dep opts needs =
      users_ensured (need_users needs (option_users opts.users []))
        (databases_ensured needs (with_instance l c dep opts needs))

  register_database_lem :
      (db : String) (o o' : DatabaseDep) (w : l.World)
      → (register_database l db o w).0 ≡ ok o'
      → database_ensured db o ≡ o'
  unfolding register_database
  register_database_lem db o o' w e = elim (Bool-cases (is_absent db o.cloud_sql_databases)) [
    | inl new ↦
        let (a, done, rest) =
          >>=-eq-ok (λ _. pure (with_database db o))
            (l.register o.dep db (cloud_sql_database (database_of o db))) w o' (ground arith) in
        ground arith
    | inr old ↦ ground arith
  ]

  register_user_lem :
      (user : String) (p : DatabaseDepOptionUser) (o o' : DatabaseDep) (w : l.World)
      → (register_user l user p o w).0 ≡ ok o'
      → user_ensured user p o ≡ o'
  unfolding register_user
  register_user_lem user p o o' w e = elim (Bool-cases (is_absent user o.cloud_sql_users)) [
    | inl new ↦
        let (a, done, rest) =
          >>=-eq-ok (λ _. pure (with_user l user p o))
            (register_password l o user p.password
              >> l.register o.dep user (cloud_sql_user (user_of l o user p)))
            w o' (ground arith) in
        ground arith
    | inr old ↦ ground arith
  ]

  register_databases_lem :
      (ns : AppMap DatabaseDepNeed) (o o' : DatabaseDep) (w : l.World)
      → (register_databases l ns o w).0 ≡ ok o'
      → databases_ensured ns o ≡ o'
  unfolding register_databases
  register_databases_lem [] o o' w e = ground arith
  register_databases_lem ((app, n) ∷ ns) o o' w e =
      let (o1, one, rest) =
        >>=-eq-ok (register_databases l ns) (register_database l n.database o) w o' e in
      let same = register_database_lem n.database o o1 w one in
      ap (databases_ensured ns) same
      ∙ register_databases_lem ns o1 o' (register_database l n.database o w).1
          (ap (λ r. r.0) (sym rest) ∙ e)

  register_users_lem :
      (us : Dict DatabaseDepOptionUser) (o o' : DatabaseDep) (w : l.World)
      → (register_users l us o w).0 ≡ ok o'
      → users_ensured us o ≡ o'
  unfolding register_users
  register_users_lem [] o o' w e = ground arith
  register_users_lem ((user, p) ∷ us) o o' w e =
      let (o1, one, rest) = >>=-eq-ok (register_users l us) (register_user l user p o) w o' e in
      let same = register_user_lem user p o o1 w one in
      ap (users_ensured us) same
      ∙ register_users_lem us o1 o' (register_user l user p o w).1 (ap (λ r. r.0) (sym rest) ∙ e)

  pub database_dep_plan-planned :
      (c : Place) (dep : Dependency) (opts : DatabaseDepOptions) (needs : AppMap DatabaseDepNeed)
      (d : DatabaseDep) (w : l.World)
      → (database_dep_plan l c dep opts needs w).0 ≡ ok d
      → planned c dep opts needs ≡ d
  unfolding database_dep_plan
  database_dep_plan-planned c dep opts needs d w e =
      let start = with_instance l c dep opts needs in
      let all = need_users needs (option_users opts.users []) in
      let first = l.register dep "cloud_sql" (cloud_sql (instance_of l c dep opts)) in
      let (o1, done, rest) =
        >>=-eq-ok (register_users l all) (first >> register_databases l needs start) w d e in
      let (b, new, databases) = >>=-eq-ok (λ _. register_databases l needs start) first w o1 done in
      ap (users_ensured all)
        (register_databases_lem needs start o1 (first w).1 (ap (λ r. r.0) (sym databases) ∙ done))
      ∙ register_users_lem all o1 d ((first >> register_databases l needs start) w).1
          (ap (λ r. r.0) (sym rest) ∙ e)
