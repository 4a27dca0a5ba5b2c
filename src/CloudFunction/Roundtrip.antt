-- ===== src/CloudFunction/Roundtrip.antt =====
-- What `Read` of gcp/cloud_function.go finds in a function that `Create` or `Update` has sent.
use Prim.Native.String.{◌++◌, [], ◌∷◌}
use cli_plugin_gcp.Common.{
  Bool, true, false, ap, inl, inr, ◌==◌, string_eq, Bool-cases, ◌≡◌, refl, ◌∙◌, String, some, arith,
}
use cli_plugin_gcp.Common.Texts.{trim_suffix}
use cli_plugin_gcp.Common.Action.{ok, err, panic}
use cli_plugin_gcp.Common.Int.{ℤ}
use cli_plugin_gcp.Fields.{Agrees}
use cli_plugin_gcp.CloudFunction.{
  set_current_status_info, CloudFunction, ApiFunction, Parsers, wanted_api_cloud_function,
  read_source, read_function, set_current_status_info,
}
use text.Mathlib.TextLemmas.{cons-append}
use text.Mathlib.TextEquality.{eq_iff}

-- the state holds what is asked for
pub record IsApplied (o : CloudFunction) : Type 0 where
  pub entrypoint : Agrees o.entrypoint
  pub runtime : Agrees o.runtime
  pub source_bucket : Agrees o.source_bucket
  pub source_object : Agrees o.source_object
  pub min_scale : Agrees o.min_scale
  pub max_scale : Agrees o.max_scale
  pub memory_limit : Agrees o.memory_limit
  pub timeout_seconds : Agrees o.timeout_seconds
  pub env_vars : Agrees o.env_vars
  pub ingress : Agrees o.ingress

is_nil : String → Bool
is_nil [] = true
is_nil (c ∷ s) = false

rest_of : String → String
rest_of [] = []
rest_of (c ∷ s) = s

is_nil-append : (s : String) → is_nil (s ++ "s") ≡ false
unfolding is_nil
is_nil-append [] = refl
is_nil-append (c ∷ s) = rw (cons-append c s "s") refl

trim_suffix-append : (s : String) → trim_suffix (s ++ "s") "s" ≡ s
unfolding trim_suffix rest_of is_nil
trim_suffix-append [] = refl
trim_suffix-append (c ∷ s) = elim (Bool-cases ((c ∷ (s ++ "s")) == "s")) [
  | inl e ↦
      absurd (
        ground (arith, is_nil-append s, ap is_nil (ap rest_of ((eq_iff (c ∷ (s ++ "s")) "s").0 e))))
  | inr e ↦ rw (cons-append c s "s") (rw e (ap (λ r. c ∷ r) (trim_suffix-append s)))
]

module _ (p : Parsers) (o : CloudFunction) (status url : String) where
  -- the function, once it is deployed
  abbrev pub deployed : ApiFunction
  deployed = record (wanted_api_cloud_function p o) { status = status; https_trigger = some url }

  unfoldable found : CloudFunction
  found =
      elim (read_source p deployed o (ok (o.source_bucket.wanted, "/" ∷ o.source_object.wanted))) [
        | ok o' ↦ o'
        | err e ↦ o
        | panic ↦ o
      ]

  found-IsApplied : ((n : ℤ) → p.atoi (p.itoa n) ≡ n) → IsApplied found
  unfolding found wanted_api_cloud_function set_current_status_info
  found-IsApplied number = record {
    entrypoint = refl;
    runtime = refl;
    source_bucket = refl;
    source_object = refl;
    min_scale = refl;
    max_scale = refl;
    memory_limit = refl;
    timeout_seconds = ap some (ap p.atoi (trim_suffix-append _) ∙ number _);
    env_vars = refl;
    ingress = refl;
  }

  -- What `Create` and `Update` send is what `Read` finds, with whatever status and trigger the function has
  -- by then, if the address of the archive is parsed as it was put together and a number is read as it
  -- was written; the function counts as ready if the status is "ACTIVE".
  pub read_function-wanted_api_cloud_function :
      p.parse ("gs://" ++ o.source_bucket.wanted ++ "/" ++ o.source_object.wanted)
        ≡ ok (o.source_bucket.wanted, "/" ∷ o.source_object.wanted)
      → ((n : ℤ) → p.atoi (p.itoa n) ≡ n)
      → (o' : CloudFunction) × (read_function p deployed o ≡ ok o')
        × IsApplied o'
        × (o'.url ≡ some url)
        × (o'.ready ≡ some (status == "ACTIVE"))
  unfolding found read_function wanted_api_cloud_function set_current_status_info
  read_function-wanted_api_cloud_function parsed number =
      (found, rw parsed refl, found-IsApplied number, refl, refl)
