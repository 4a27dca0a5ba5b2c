-- ===== src/Secrets/Replace.antt =====
-- The goroutines that `ReplaceSecrets` of plugin/secrets.go starts, secret by secret.
use text.Mathlib.TextEquality.{eq_iff}
use cli_plugin_gcp.Common.{
  is_distinct, keys, lookup-keys, ◌≡◌, String, Bool, true, false, List, [], ◌∷◌, map, Option, none,
  some, if◌then◌else◌, ◌==◌, string_eq, contains, Dict, lookup, erase, lookup-erase, arith, refl,
  ap, Bool-cases, Option-cases, inl, inr,
}
use cli_plugin_gcp.Secrets.Handlers.{Task, remove, update, make, make_task, replace_tasks, run_task}
use cli_plugin_gcp.Common.{◌&&◌, ◌∙◌}
use cli_plugin_gcp.Common.Action.{Action, pure, ◌>>=◌, ◌>>◌}
use cli_plugin_gcp.Naming.{Util, Env}
use cli_plugin_gcp.Secrets.{
  SecretManager, access_secret_value, create_secret, set_secret_value, delete_secret,
}

-- the secret that a goroutine works on
abbrev pub secret_of : Task → String
secret_of (remove k) = k
secret_of (update k v) = k
secret_of (make k v) = k

-- the goroutines on a secret, in the order of their start
abbrev pub tasks_on : String → List Task → List Task
tasks_on k [] = []
tasks_on k (t ∷ ts) = if secret_of t == k then t ∷ tasks_on k ts else tasks_on k ts

-- what is to be done to a secret, by whether it is there and by the value that is asked for, if any
abbrev pub wanted_tasks : String → Bool → Option String → List Task
wanted_tasks k true none = remove k ∷ []
wanted_tasks k true (some v) = update k v ∷ []
wanted_tasks k false none = []
wanted_tasks k false (some v) = make k v ∷ []

tasks_on-make :
    (values : Dict String) (k : String)
    → is_distinct (keys values) ≡ true
    → tasks_on k (map make_task values) ≡ wanted_tasks k false (lookup k values)
tasks_on-make [] k h = refl
tasks_on-make ((j, v) ∷ values) k h = elim (Bool-cases (j == k)) [
  | inl same ↦
      let k_j = (eq_iff j k).0 same in
      rw
        (
          same,
          tasks_on-make values k (ground arith),
          lookup-keys values k (ground (arith, eq_iff j k)),
        )
        (ap (λ i. make i v ∷ []) k_j)
  | inr other ↦ rw (other, tasks_on-make values k (ground arith)) refl
]

contains-erase :
    (values : Dict String) (k j : String)
    → contains j (keys values) ≡ false
    → contains j (keys (erase k values)) ≡ false
contains-erase [] k j h = refl
contains-erase ((i, v) ∷ values) k j h = ground (arith, contains-erase values k j)

distinct-erase :
    (values : Dict String) (k : String)
    → is_distinct (keys values) ≡ true
    → is_distinct (keys (erase k values)) ≡ true
distinct-erase [] k h = refl
distinct-erase ((i, v) ∷ values) k h =
    ground (arith, distinct-erase values k, contains-erase values k i)

-- the tasks of a secret
tasks_on-replace_tasks :
    (secrets : List String) (values : Dict String) (k : String)
    → is_distinct secrets ≡ true
    → is_distinct (keys values) ≡ true
    → tasks_on k (replace_tasks secrets values)
      ≡ wanted_tasks k (contains k secrets) (lookup k values)
unfolding replace_tasks
tasks_on-replace_tasks [] values k d e = tasks_on-make values k e
tasks_on-replace_tasks (cur ∷ rest) values k d e = elim (Option-cases (lookup cur values)) [
  | inl absent ↦
      let rest_tasks = tasks_on-replace_tasks rest values k (ground arith) e in
      elim (Bool-cases (cur == k)) [
        | inl same ↦ let k_cur = (eq_iff cur k).0 same in ground (arith, eq_iff cur k, rest_tasks)
        | inr other ↦ ground (arith, rest_tasks)
      ]
  | inr (v, present) ↦
      let rest_tasks =
        tasks_on-replace_tasks rest (erase cur values) k (ground arith)
          (distinct-erase values cur e) in
      elim (Bool-cases (cur == k)) [
        | inl same ↦ ground (arith, eq_iff cur k, rest_tasks, lookup-erase cur k values)
        | inr other ↦ ground (arith, rest_tasks, lookup-erase cur k values)
      ]
]

module _ (m : SecretManager) (u : Util) (e : Env) (project : String)
    (create_service : String → Action m.World (Unit {0})) where
  -- The calls that are due for a secret, by whether it is there and by the value that is asked for, if any.
  abbrev pub due_calls : String → Bool → Option String → List (Action m.World (Unit {0}))
  due_calls k true none = (delete_secret m project k >> pure tt) ∷ []
  due_calls k true (some v) =
      (access_secret_value m project k >>= λ existing.
      if existing.1 && (existing.0 == v)
      then pure tt
      else set_secret_value m project k v existing.1)
      ∷ []
  due_calls k false none = []
  due_calls k false (some v) =
      (create_secret m e project k >> set_secret_value m project k v false) ∷ []

  run_task-wanted_tasks :
      (k : String) (listed : Bool) (value : Option String)
      → map (run_task m u e project create_service) (wanted_tasks k listed value)
        ≡ due_calls k listed value
  unfolding run_task
  run_task-wanted_tasks k true none = refl
  run_task-wanted_tasks k true (some v) = refl
  run_task-wanted_tasks k false none = refl
  run_task-wanted_tasks k false (some v) = refl

  -- Of the goroutines that `ReplaceSecrets` starts, those on a secret make the calls that are due for it and no
  -- other: where it is listed and no value is asked for, one deletes it; where it is listed and has a value, one
  -- reads its value and sets the new one unless the two are the same; where it is not listed and has a value, one
  -- makes it and sets the value; and there is none for any other. So no two goroutines work on one secret. The
  -- names are listed once each, and the map of values has each key once.
  pub run_task-replace_tasks :
      (secrets : List String) (values : Dict String) (k : String)
      → is_distinct secrets ≡ true
      → is_distinct (keys values) ≡ true
      → map (run_task m u e project create_service) (tasks_on k (replace_tasks secrets values))
        ≡ due_calls k (contains k secrets) (lookup k values)
  run_task-replace_tasks secrets values k distinct distinct_keys =
      ap (map (run_task m u e project create_service))
        (tasks_on-replace_tasks secrets values k distinct distinct_keys)
      ∙ run_task-wanted_tasks k (contains k secrets) (lookup k values)
