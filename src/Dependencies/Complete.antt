-- ===== src/Dependencies/Complete.antt =====
-- What stands in a database dependency that `Plan` of deploy/dep_database.go has planned: the user and the
-- database of every need, each under its name.
use cli_plugin_gcp.Common.{
  sym, Option-cases, ◌≡◌, refl, ◌∙◌, subst, String, Bool, true, false, [], ◌∷◌, if◌then◌else◌,
  string_eq, Dict, lookup, All, All-weaken, All-insert, All-lookup, arith, inl, inr,
}
use text.Mathlib.TextEquality.{eq_iff}
use cli_plugin_gcp.Dependencies.{
  NeedyApp, Dependency, AppMap, DatabaseDepNeed, DatabaseDepOptionUser, DatabaseDepOptions,
  DepPlanner, Place,
}
use cli_plugin_gcp.Dependencies.Database.{
  DatabaseDep, ensure, option_users, need_users, with_instance, database_of, with_database,
  is_absent, user_of, with_user,
}
use cli_plugin_gcp.Dependencies.Registered.{
  is_absent-insert, is_absent-ensure, database_ensured, user_ensured, databases_ensured,
  users_ensured, planned,
}

pub record IsComplete (d : DatabaseDep) : Type 0 where
  pub users : All (λ e. is_absent e.1.user d.cloud_sql_users ≡ false) d.needs
  pub databases : All (λ e. is_absent e.1.database d.cloud_sql_databases ≡ false) d.needs
  pub user_names : All (λ e. e.1.name ≡ e.0) d.cloud_sql_users
  pub database_names : All (λ e. e.1.name ≡ e.0) d.cloud_sql_databases

pub if_rule :
    {A : Type 0} (P : A → Type 0) (b : Bool) (x y : A) → P x → P y → P (if b then x else y)
if_rule P true x y p q = p
if_rule P false x y p q = q

need_users-keeps :
    (k : String) (ns : AppMap DatabaseDepNeed) (us : Dict DatabaseDepOptionUser)
    → is_absent k us ≡ false
    → is_absent k (need_users ns us) ≡ false
need_users-keeps k [] us h = h
need_users-keeps k ((app, n) ∷ ns) us h =
    let u : DatabaseDepOptionUser = record { password = n.password; hostname = n.hostname } in
    need_users-keeps k ns (ensure n.user u us) (ground (arith, is_absent-ensure n.user k u us))

need_users-All :
    (ns : AppMap DatabaseDepNeed) (us : Dict DatabaseDepOptionUser)
    → All (λ e. is_absent e.1.user (need_users ns us) ≡ false) ns
need_users-All [] us = tt
need_users-All ((app, n) ∷ ns) us =
    let u : DatabaseDepOptionUser = record { password = n.password; hostname = n.hostname } in
    (
      need_users-keeps n.user ns (ensure n.user u us)
          (ground (arith, eq_iff n.user n.user, is_absent-ensure n.user n.user u us)),
      need_users-All ns (ensure n.user u us),
    )

-- A key that is there is one of the entries.
present_in :
    {V W : Type 0} (m : Dict V) (k : String) (m' : Dict W)
    → is_absent k m ≡ false
    → All (λ e. is_absent e.0 m' ≡ false) m
    → is_absent k m' ≡ false
present_in m k m' h all = elim (Option-cases (lookup k m)) [
  | inl e ↦ absurd (ground arith)
  | inr (v, e) ↦ All-lookup (λ x. is_absent x.0 m' ≡ false) m k v all e
]

-- the loop over the databases
databases_ensured-keeps :
    (k : String) (ns : AppMap DatabaseDepNeed) (o : DatabaseDep)
    → is_absent k o.cloud_sql_databases ≡ false
    → is_absent k (databases_ensured ns o).cloud_sql_databases ≡ false
databases_ensured-keeps k [] o h = h
databases_ensured-keeps k ((app, n) ∷ ns) o h =
    databases_ensured-keeps k ns (database_ensured n.database o) (
      ground
        (arith, is_absent-insert n.database k (database_of o n.database) o.cloud_sql_databases))

databases_ensured-All :
    (ns : AppMap DatabaseDepNeed) (o : DatabaseDep)
    → All (λ e. is_absent e.1.database (databases_ensured ns o).cloud_sql_databases ≡ false) ns
databases_ensured-All [] o = tt
databases_ensured-All ((app, n) ∷ ns) o = (
  databases_ensured-keeps n.database ns (database_ensured n.database o) (
      ground (
        arith,
        eq_iff n.database n.database,
        is_absent-insert n.database n.database (database_of o n.database) o.cloud_sql_databases,
      )),
  databases_ensured-All ns (database_ensured n.database o),
)

databases_ensured-names :
    (ns : AppMap DatabaseDepNeed) (o : DatabaseDep)
    → All (λ e. e.1.name ≡ e.0) o.cloud_sql_databases
    → All (λ e. e.1.name ≡ e.0) (databases_ensured ns o).cloud_sql_databases
databases_ensured-names [] o h = h
databases_ensured-names ((app, n) ∷ ns) o h =
    databases_ensured-names ns (database_ensured n.database o) (
      if_rule (λ (o : DatabaseDep). All (λ e. e.1.name ≡ e.0) o.cloud_sql_databases)
        (is_absent n.database o.cloud_sql_databases) (with_database n.database o) o
        (All-insert (λ e. e.1.name ≡ e.0) o.cloud_sql_databases n.database
          (database_of o n.database) h refl)
        h)

-- and nothing else changes
databases_ensured_rest :
    (ns : AppMap DatabaseDepNeed) (o : DatabaseDep)
    → ((databases_ensured ns o).needs ≡ o.needs)
      × ((databases_ensured ns o).cloud_sql_users ≡ o.cloud_sql_users)
databases_ensured_rest [] o = (refl, refl)
databases_ensured_rest ((app, n) ∷ ns) o =
    ground (arith, databases_ensured_rest ns (database_ensured n.database o))

module _ (l : DepPlanner) where
  users_ensured-keeps :
      (k : String) (us : Dict DatabaseDepOptionUser) (o : DatabaseDep)
      → is_absent k o.cloud_sql_users ≡ false
      → is_absent k (users_ensured l us o).cloud_sql_users ≡ false
  users_ensured-keeps k [] o h = h
  users_ensured-keeps k ((user, p) ∷ us) o h =
      users_ensured-keeps k us (user_ensured l user p o)
        (ground (arith, is_absent-insert user k (user_of l o user p) o.cloud_sql_users))

  users_ensured-All :
      (us : Dict DatabaseDepOptionUser) (o : DatabaseDep)
      → All (λ e. is_absent e.0 (users_ensured l us o).cloud_sql_users ≡ false) us
  users_ensured-All [] o = tt
  users_ensured-All ((user, p) ∷ us) o = (
    users_ensured-keeps user us (user_ensured l user p o) (
        ground (
          arith,
          eq_iff user user,
          is_absent-insert user user (user_of l o user p) o.cloud_sql_users,
        )),
    users_ensured-All us (user_ensured l user p o),
  )

  users_ensured-names :
      (us : Dict DatabaseDepOptionUser) (o : DatabaseDep)
      → All (λ e. e.1.name ≡ e.0) o.cloud_sql_users
      → All (λ e. e.1.name ≡ e.0) (users_ensured l us o).cloud_sql_users
  users_ensured-names [] o h = h
  users_ensured-names ((user, p) ∷ us) o h = users_ensured-names us (user_ensured l user p o) (
      if_rule (λ (o : DatabaseDep). All (λ e. e.1.name ≡ e.0) o.cloud_sql_users)
        (is_absent user o.cloud_sql_users) (with_user l user p o) o
        (All-insert (λ e. e.1.name ≡ e.0) o.cloud_sql_users user (user_of l o user p) h refl) h)

  users_ensured_rest :
      (us : Dict DatabaseDepOptionUser) (o : DatabaseDep)
      → ((users_ensured l us o).needs ≡ o.needs)
        × ((users_ensured l us o).cloud_sql_databases ≡ o.cloud_sql_databases)
  users_ensured_rest [] o = (refl, refl)
  users_ensured_rest ((user, p) ∷ us) o =
      ground (arith, users_ensured_rest us (user_ensured l user p o))

  -- Of every need of the dependency the user and the database are registered.
  pub planned-IsComplete :
      (c : Place) (dep : Dependency) (opts : DatabaseDepOptions) (needs : AppMap DatabaseDepNeed)
      → IsComplete (planned l c dep opts needs) × ((planned l c dep opts needs).needs ≡ needs)
  planned-IsComplete c dep opts needs =
      let o = with_instance l c dep opts needs in
      let us = need_users needs (option_users opts.users []) in
      let o1 = databases_ensured needs o in
      let one = databases_ensured_rest needs o in
      let two = users_ensured_rest us o1 in
      let same : (planned l c dep opts needs).needs ≡ needs = two.0 ∙ one.0 in
      (
        record {
          users =
              subst
                (λ ns.
                  All (λ e. is_absent e.1.user (users_ensured l us o1).cloud_sql_users ≡ false) ns)
                (sym same)
                (All-weaken (λ (e : NeedyApp × DatabaseDepNeed). is_absent e.1.user us ≡ false)
                  (λ e. is_absent e.1.user (users_ensured l us o1).cloud_sql_users ≡ false) needs
                  (λ e h.
                    present_in us e.1.user (users_ensured l us o1).cloud_sql_users h
                      (users_ensured-All us o1))
                  (need_users-All needs (option_users opts.users [])));
          databases =
              subst
                (λ dbs.
                  All (λ e. is_absent e.1.database dbs ≡ false) (planned l c dep opts needs).needs)
                (sym two.1)
                (subst (λ ns. All (λ e. is_absent e.1.database o1.cloud_sql_databases ≡ false) ns)
                  (sym same) (databases_ensured-All needs o));
          user_names =
              users_ensured-names us o1 (subst (λ m. All (λ e. e.1.name ≡ e.0) m) (sym one.1) tt);
          database_names =
              subst (λ m. All (λ e. e.1.name ≡ e.0) m) (sym two.1)
                (databases_ensured-names needs o tt);
        },
        same,
      )
