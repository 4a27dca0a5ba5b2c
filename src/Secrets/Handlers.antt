-- ===== src/Secrets/Handlers.antt =====
-- plugin/secrets.go, the handlers: `GetSecret`, `SetSecret`, `DeleteSecret`, `GetSecrets`,
-- `ReplaceSecrets` and `DeleteSecrets`. A result of `none` means that the fuel of `runAndEnsureAPI`
-- ran out. The map of values that a request gives is a list of pairs.
use Prim.Native.String.{◌++◌}
use cli_plugin_gcp.Common.{
  ℕ, String, Bool, true, false, ◌&&◌, List, [], ◌∷◌, map, Option, none, some, if◌then◌else◌, ◌==◌,
  string_eq, Dict, lookup, insert, erase,
}
use cli_plugin_gcp.Common.Texts.{strip}
use cli_plugin_gcp.Common.Action.{
  Action, Result, ok, err, panic, Fault, text, pure, fail, of_result, group, try, first_fault,
  ◌>>=◌, ◌>>◌,
}
use cli_plugin_gcp.Naming.{Util, Env}
use cli_plugin_gcp.EnsureApi.{Session, lift, run_and_ensure_api}
use cli_plugin_gcp.Secrets.{
  SecretManager, get_secret, create_secret, access_secret_value, list_secrets, set_secret_value,
  delete_secret,
}

-- What one goroutine of `ReplaceSecrets` does to one secret.
pub data Task : Type 0 where
  remove : String → Task
  update : String → String → Task
  make : String → String → Task

abbrev pub make_task : String × String → Task
make_task (k, v) = make k v

-- the two loops of `ReplaceSecrets` that start the goroutines
unfoldable pub replace_tasks : List String → Dict String → List Task
replace_tasks [] values = map make_task values
replace_tasks (cur ∷ rest) values = elim (lookup cur values) [
  | none ↦ remove cur ∷ replace_tasks rest values
  | some v ↦ update cur v ∷ replace_tasks rest (erase cur values)
]

module _ (u : Util) (e : Env) where
  unfoldable pub secret_key_prefix : String
  secret_key_prefix = "OUTBLOCKS_" ++ u.sanitize_name e.project_id false false ++ "_"

  unfoldable pub secret_key : String → Result String
  secret_key key =
      if u.sanitize_name key true false == key
      then ok (secret_key_prefix ++ u.sanitize_name key true false)
      else err (
          text
            "secret names can only contain English letters (A-Z), numbers (0-9), dashes (-), and underscores (_)")

  -- the first loop of `ReplaceSecrets`
  pub keyed : Dict String → Dict String → Result (Dict String)
  keyed [] values = ok values
  keyed ((k, v) ∷ rest) values = elim (secret_key k) [
    | ok key ↦ keyed rest (insert key v values)
    | err f ↦ err f
    | panic ↦ panic
  ]

module _ (m : SecretManager) (u : Util) (e : Env) (project : String)
    (create_service : String → Action m.World (Unit {0})) where
  open m use {World, client}

  abbrev ensured : {A : Type 0} → ℕ → Action World A → Action (Session World) (Option A)
  ensured fuel f = run_and_ensure_api create_service fuel f

  abbrev with_value :
      {A B : Type 0} → (A → Action (Session World) B) → Option A → Action (Session World) (Option B)
  with_value k none = pure none
  with_value k (some a) = k a >>= λ b. pure (some b)

  -- the value, and whether it is specified
  pub get_secret_handler : ℕ → String → Action (Session World) (Option (String × Bool))
  get_secret_handler fuel key = do
    lift client
    name ← of_result (secret_key u e key)
    ensured fuel (access_secret_value m project name)

  -- the part of `SetSecret` after the secret was looked for: whether the value has changed
  pub set_found : String → String → Bool → Action World Bool
  set_found name value false =
      create_secret m e project name >> set_secret_value m project name value false >> pure true
  set_found name value true = access_secret_value m project name >>= λ existing.
      if existing.0 == value
      then pure false
      else (set_secret_value m project name value true >> pure true)

  pub set_secret_handler : ℕ → String → String → Action (Session World) (Option Bool)
  set_secret_handler fuel key value = do
    lift client
    name ← of_result (secret_key u e key)
    found ← ensured fuel (get_secret m project name)
    with_value (λ is. lift (set_found name value is)) found

  pub delete_secret_handler : ℕ → String → Action (Session World) (Option Bool)
  delete_secret_handler fuel key = do
    lift client
    name ← of_result (secret_key u e key)
    ensured fuel (delete_secret m project name)

  abbrev with_result : String → Dict String → Result (String × Bool) → Dict String
  with_result key values (ok (v, _)) = insert key v values
  with_result key values (err _) = values
  with_result key values panic = values

  -- the goroutines of `GetSecrets`, one after the other: the first error comes after the last of them
  pub collect : String → List String → Dict String → Option Fault → Action World (Dict String)
  collect prefix [] values none = pure values
  collect prefix [] values (some x) = fail x
  collect prefix (name ∷ rest) values x = try (access_secret_value m project name) >>= λ r.
      collect prefix rest (with_result (strip name prefix) values r) (first_fault x r)

  pub get_secrets_handler : ℕ → Action (Session World) (Option (Dict String))
  get_secrets_handler fuel = do
    lift client
    names ← ensured fuel (list_secrets m project (secret_key_prefix u e))
    with_value (λ ns. lift (collect (secret_key_prefix u e) ns [] none)) names

  unfoldable pub run_task : Task → Action World (Unit {0})
  run_task (remove cur) = delete_secret m project cur >> pure tt
  run_task (update cur v) = access_secret_value m project cur >>= λ existing.
      if existing.1 && (existing.0 == v)
      then pure tt
      else set_secret_value m project cur v existing.1
  run_task (make k v) = create_secret m e project k >> set_secret_value m project k v false

  pub replace_secrets_handler : ℕ → Dict String → Action (Session World) (Option (Unit {0}))
  replace_secrets_handler fuel request = do
    lift client
    values ← of_result (keyed u e request [])
    names ← ensured fuel (list_secrets m project (secret_key_prefix u e))
    with_value (λ ns. lift (group run_task (replace_tasks ns values))) names

  pub delete_secrets_handler : ℕ → Action (Session World) (Option (Unit {0}))
  delete_secrets_handler fuel = do
    lift client
    names ← ensured fuel (list_secrets m project (secret_key_prefix u e))
    with_value (λ ns. lift (group (λ n. delete_secret m project n >> pure tt) ns)) names
