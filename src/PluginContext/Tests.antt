-- ===== src/PluginContext/Tests.antt =====
-- A cached call and a client that cannot be made; the world counts the calls.
use cli_plugin_gcp.Common.{ℕ, suc, ◌≡◌, ◌≢◌, refl, false, [], ◌∷◌, String, List, none, arith}
use cli_plugin_gcp.Common.Action.{Action, Result, ok, err, panic, text}
use cli_plugin_gcp.PluginContext.{Slot, Cached, func_cache}
use cli_plugin_gcp.PluginContext.Once.{after_calls, func_cache-again}

abbrev regions : Action ℕ ℕ
regions calls = (ok 7, suc calls)

abbrev broken : Action ℕ ℕ
broken calls = (err (text "no credentials"), suc calls)

abbrev unused : Cached ℕ (Result ℕ)
unused = record { world = 0; entries = [] }

abbrev unmade : Slot ℕ ℕ
unmade = record { world = 0; is_done = false; client = none }

cached : (func_cache "regions" regions unused).0 ≡ ok 7
unfolding func_cache
cached = refl

no_panic : (func_cache "regions" regions unused).0 ≢ panic
no_panic e = ground (arith, cached)

abbrev between : List (String × Action ℕ ℕ)
between = ("zones", broken) ∷ ("quotas", regions) ∷ []

func_cache-again_example :
    func_cache "regions" broken (after_calls between (func_cache "regions" regions unused).1) ≡ (
      (func_cache "regions" regions unused).0,
      after_calls between (func_cache "regions" regions unused).1,
    )
func_cache-again_example = func_cache-again "regions" regions broken between unused no_panic
