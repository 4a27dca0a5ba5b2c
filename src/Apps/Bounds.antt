-- ===== src/Apps/Bounds.antt =====
-- What holds of the deploy options of a service app that deploy/app_service.go accepts.
use cli_plugin_gcp.Common.{
  subst, ◌∙◌, ap, refl, suc, ℕ, ◌≡◌, true, false, if◌then◌else◌, arith, Bool-cases, inl, inr,
}
use cli_plugin_gcp.Common.Int.{ℤ, pos, is_zero, ◌≤ℤ◌, int_ltb}
use cli_plugin_gcp.Common.Action.{panic, err, Result, ok}
use cli_plugin_gcp.Apps.Options.{
  decoding, then_result, ServiceAppDeployOptions, Library, or_default, service_defaults, clamped,
  service_valid, service_checked, new_service_app_deploy_options,
}

-- creasty/defaults sets a field that has the zero value of its type to the value of its tag, and leaves
-- any other. ozzo-validation accepts a zero value, and else compares.
pub record IsLibrary (l : Library) : Type 0 where
  pub skip_runsd :
      (o o' : ServiceAppDeployOptions l.Float)
      → l.set_defaults o ≡ ok o'
      → o'.skip_runsd ≡ (if o.skip_runsd then o.skip_runsd else true)
  pub container_concurrency :
      (o o' : ServiceAppDeployOptions l.Float)
      → l.set_defaults o ≡ ok o'
      → o'.container_concurrency ≡ or_default 250 o.container_concurrency
  pub min_le : (m v : ℤ) → l.min_ok m v ≡ true → is_zero v ≡ false → m ≤ℤ v
  pub max_le : (m v : ℤ) → l.max_ok m v ≡ true → is_zero v ≡ false → v ≤ℤ m

pub record IsBounded {Float : Type 0} (o : ServiceAppDeployOptions Float) : Type 0 where
  pub memory_limit : (pos 128 ≤ℤ o.memory_limit) × (o.memory_limit ≤ℤ pos 32768)
  pub min_scale : (pos 0 ≤ℤ o.min_scale) × (o.min_scale ≤ℤ o.max_scale)
  pub max_scale : (pos 1 ≤ℤ o.max_scale) × (o.max_scale ≤ℤ pos 20000)
  pub timeout : (pos 1 ≤ℤ o.timeout) × (o.timeout ≤ℤ pos 3600)
  pub container_concurrency :
      (pos 1 ≤ℤ o.container_concurrency) × (o.container_concurrency ≤ℤ pos 1000)

pub then_result-eq-ok :
    {A B : Type 0} (k : A → Result B) (r : Result A) (b : B)
    → then_result k r ≡ ok b
    → (a : A) × (r ≡ ok a) × (k a ≡ ok b)
then_result-eq-ok k (ok a) b e = (a, refl, e)
then_result-eq-ok k (err f) b e = absurd (ground arith)
then_result-eq-ok k panic b e = absurd (ground arith)

or_default-ne-zero : (d : ℕ) (x : ℤ) → is_zero (or_default (suc d) x) ≡ false
or_default-ne-zero d x = ground arith

int_ltb-false : (a b : ℤ) → int_ltb a b ≡ false → b ≤ℤ a
int_ltb-false a b h = ground arith

le_refl : (a : ℤ) → a ≤ℤ a
le_refl a = omega arith

module _ (l : Library) (law : IsLibrary l) where
  nonnegative : (v : ℤ) → l.min_ok (pos 0) v ≡ true → pos 0 ≤ℤ v
  nonnegative v h = elim (Bool-cases (is_zero v)) [
    | inl z ↦ ground arith
    | inr z ↦ law.min_le (pos 0) v h z
  ]

  within :
      (low high v : ℤ)
      → l.min_ok low v ≡ true
      → l.max_ok high v ≡ true
      → is_zero v ≡ false
      → (low ≤ℤ v) × (v ≤ℤ high)
  within low high v h k z = (law.min_le low v h z, law.max_le high v k z)

  -- the fields after the manual defaults and the clamp
  module _ (o : ServiceAppDeployOptions l.Float) where
    abbrev final : ServiceAppDeployOptions l.Float
    final = clamped l (service_defaults l o)

    final_fields :
        (final.memory_limit ≡ or_default 256 o.memory_limit)
        × (final.max_scale ≡ or_default 100 o.max_scale)
        × (final.timeout ≡ or_default 300 o.timeout)
        × (final.container_concurrency ≡ o.container_concurrency)
        × (final.min_scale ≤ℤ final.max_scale)
    final_fields = elim (Bool-cases (int_ltb (or_default 100 o.max_scale) o.min_scale)) [
      | inl large ↦ rw large (refl, refl, refl, refl, le_refl (or_default 100 o.max_scale))
      | inr fits ↦
          rw fits
            (refl, refl, refl, refl, int_ltb-false (or_default 100 o.max_scale) o.min_scale fits)
    ]

    final-IsBounded :
        service_valid l final ≡ true → is_zero o.container_concurrency ≡ false → IsBounded final
    final-IsBounded valid concurrency =
        let (memory, max, time, conc, ordered) = final_fields in
        record {
          memory_limit =
              within (pos 128) (pos 32768) final.memory_limit (ground arith) (ground arith)
                (rw memory (or_default-ne-zero 255 o.memory_limit));
          min_scale = (nonnegative final.min_scale (ground arith), ordered);
          max_scale =
              within (pos 1) (pos 20000) final.max_scale (ground arith) (ground arith)
                (rw max (or_default-ne-zero 99 o.max_scale));
          timeout =
              within (pos 1) (pos 3600) final.timeout (ground arith) (ground arith)
                (rw time (or_default-ne-zero 299 o.timeout));
          container_concurrency =
              within (pos 1) (pos 1000) final.container_concurrency (ground arith) (ground arith)
                (rw conc concurrency);
        }

  -- A service app is accepted only with a memory of 128 to 32768, 0 to 20000 instances at least, no more
  -- than there are to be at most, of which there is one or more, a timeout of 1 to 3600 and a concurrency
  -- of 1 to 1000: also where the configuration leaves out or gets wrong which of the scales is larger.
  pub new_service_app_deploy_options-IsBounded :
      (input : l.Input) (o : ServiceAppDeployOptions l.Float)
      → new_service_app_deploy_options l input ≡ ok o
      → IsBounded o
  unfolding new_service_app_deploy_options
  new_service_app_deploy_options-IsBounded input o e =
      let (o1, decoded, rest) =
        then_result-eq-ok (λ o. then_result (service_checked l) (l.set_defaults o))
          (decoding "error decoding service app deploy options" (l.decode_service input)) o e in
      let (o2, set, rest') = then_result-eq-ok (service_checked l) (l.set_defaults o1) o rest in
      elim (Bool-cases (service_valid l (final o2))) [
        | inl valid ↦
            let same : final o2 ≡ o = ground arith in
            let nonzero : is_zero o2.container_concurrency ≡ false =
              ap is_zero (law.container_concurrency o1 o2 set)
              ∙ or_default-ne-zero 249 o1.container_concurrency in
            subst IsBounded same (final-IsBounded o2 valid nonzero)
        | inr wrong ↦ absurd (ground arith)
      ]

  -- The configuration cannot ask for runsd.
  pub new_service_app_deploy_options-skip_runsd :
      (input : l.Input) (o : ServiceAppDeployOptions l.Float)
      → new_service_app_deploy_options l input ≡ ok o
      → o.skip_runsd ≡ true
  unfolding new_service_app_deploy_options
  new_service_app_deploy_options-skip_runsd input o e =
      let (o1, decoded, rest) =
        then_result-eq-ok (λ o. then_result (service_checked l) (l.set_defaults o))
          (decoding "error decoding service app deploy options" (l.decode_service input)) o e in
      let (o2, set, rest') = then_result-eq-ok (service_checked l) (l.set_defaults o1) o rest in
      let kept : (if o1.skip_runsd then o1.skip_runsd else true) ≡ true =
        elim (Bool-cases o1.skip_runsd) [ inl b ↦ rw b refl | inr b ↦ rw b refl ] in
      let skip : o2.skip_runsd ≡ true = law.skip_runsd o1 o2 set ∙ kept in
      elim (Bool-cases (service_valid l (final o2))) [
        | inl valid ↦ ground arith
        | inr wrong ↦ absurd (ground arith)
      ]
