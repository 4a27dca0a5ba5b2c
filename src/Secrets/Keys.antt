-- ===== src/Secrets/Keys.antt =====
-- The names under which plugin/secrets.go keeps a project's secrets, and the clean-up of versions.
use Prim.Native.String.{◌++◌, [], ◌∷◌}
use cli_plugin_gcp.Common.{false, ◌≡◌, String, true, arith, Bool-cases, inl, inr, ◌==◌, string_eq}
use text.Mathlib.TextLemmas.{nil-append, cons-append}
use text.Mathlib.TextEquality.{eq_iff}
use cli_plugin_gcp.Common.Texts.{has_prefix, strip}
use cli_plugin_gcp.Common.Action.{ok}
use cli_plugin_gcp.Naming.{Util, Env}
use cli_plugin_gcp.Secrets.Handlers.{secret_key_prefix, secret_key}

has_prefix-append : (p s : String) → has_prefix (p ++ s) p ≡ true
unfolding has_prefix
has_prefix-append [] s = ground arith
has_prefix-append (c ∷ p) s = rw cons-append (ground (arith, has_prefix-append p s))

strip-append : (p s : String) → strip (p ++ s) p ≡ s
unfolding strip
strip-append [] s = nil-append s
strip-append (c ∷ p) s = rw cons-append (strip-append p s)

-- The name that a key gets begins with the prefix of the project, and without the prefix it is the
-- key.
pub secret_key-strip :
    (u : Util) (e : Env) (key name : String)
    → secret_key u e key ≡ ok name
    → (has_prefix name (secret_key_prefix u e) ≡ true) × (strip name (secret_key_prefix u e) ≡ key)
unfolding secret_key
secret_key-strip u e key name h = elim (Bool-cases (u.sanitize_name key true false == key)) [
  | inl clean ↦ ground (
    arith,
    has_prefix-append (secret_key_prefix u e) key,
    strip-append (secret_key_prefix u e) key,
    eq_iff (u.sanitize_name key true false) key,
  )
  | inr other ↦ absurd (ground arith)
]
