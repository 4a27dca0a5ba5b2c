-- ===== src/Secrets/Cleanup.antt =====
-- The clean-up of old versions in `setSecretValue` of plugin/secrets.go.
use cli_plugin_gcp.Common.{
  ℕ, ◌≡◌, refl, String, Bool, not, ◌&&◌, List, [], ◌∷◌, arith, Bool-cases, inl, inr, ltb, keep,
  ◌==◌, string_eq,
}
use cli_plugin_gcp.Common.Action.{Action, ok, try, ◌>>=◌, ◌>>◌}
use cli_plugin_gcp.Secrets.{SecretManager, SecretVersion, is_kept, destroyed, destroy_old}

module _ (m : SecretManager) where
  -- An enabled version that was made before the time.
  abbrev pub is_old : ℕ → SecretVersion → Bool
  is_old time v = ltb (m.parse_time v.create_time) time && (v.state == "ENABLED")

  -- Every listed version is destroyed, up to the first failure.
  abbrev pub destroy_all : String → List SecretVersion → Action m.World (Unit {0})
  destroy_all name [] w = (ok tt, w)
  destroy_all name (v ∷ vs) w =
      (try (m.destroy v.name) >>= destroyed m name >> destroy_all name vs) w

  is_kept-not_old : (time : ℕ) (v : SecretVersion) → is_kept m time v ≡ not (is_old time v)
  is_kept-not_old time v = ground arith

  -- The clean-up destroys, in the order of the list, the enabled versions that were made before the
  -- time, up to the first failure, and no other.
  pub destroy_old-eq-destroy_all :
      (name : String) (time : ℕ) (vs : List SecretVersion) (w : m.World)
      → destroy_old m name time vs w ≡ destroy_all name (keep (is_old time) vs) w
  unfolding destroy_old
  destroy_old-eq-destroy_all name time [] w = refl
  destroy_old-eq-destroy_all name time (v ∷ vs) w = elim (Bool-cases (is_old time v)) [
    | inl old ↦
        rw (is_kept-not_old, old)
          (λ i.
            (try (m.destroy v.name)
                >>= destroyed m name
                >> (λ u. destroy_old-eq-destroy_all name time vs u i))
              w)
    | inr new ↦ rw (is_kept-not_old, new) (destroy_old-eq-destroy_all name time vs w)
  ]
