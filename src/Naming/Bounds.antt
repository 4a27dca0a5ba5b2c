-- ===== src/Naming/Bounds.antt =====
-- The lengths of generated names, and two names that meet.
use text.Mathlib.TextLemmas.{append_cancel_left}
use text.Mathlib.TextPositions.{len-append}
use cli_plugin_gcp.Common.{
  ◌≤◌, ◌≡◌, refl, String, true, false, len, ltb, arith, sym, ◌∙◌, Bool-cases, inl, inr,
}
use cli_plugin_gcp.Naming.{
  Util, IsUtil, Env, default_bucket, default_state_bucket, default_locks_bucket, state_lockfile,
  lock_part, lockfile, short_sha_id, sanitized_id, sanitized_env, id, global_id,
}

module _ (u : Util) (law : IsUtil u) (e : Env) where
  open u use {sanitize_name, limit_string, sha_string}
  open law use {limit_len, limit_short}

  sanitized_id-le : (i : String) → len (sanitized_id u e i) ≤ 44
  unfolding sanitized_id short_sha_id
  sanitized_id-le i = elim (Bool-cases (ltb 44 (len i))) [
    | inl long ↦ rw long (
        omega (
          arith,
          len-append (limit_string i 40) (limit_string (sha_string i) 4),
          limit_len i 40,
          limit_len (sha_string i) 4,
        ))
    | inr short ↦ rw short (ground arith)
  ]

  short_sha_id-le : (i : String) → len (short_sha_id u e i) ≤ 4
  unfolding short_sha_id
  short_sha_id-le i = limit_len _ 4

  sanitized_env-le : len (sanitized_env u e) ≤ 4
  unfolding sanitized_env
  sanitized_env-le = limit_len _ 4

  -- The name of a resource has at most 54 bytes, that of a global one at most 58.
  pub id_bounds :
      (gcp_project i : String) → (len (id u e i) ≤ 54) × (len (global_id u e gcp_project i) ≤ 58)
  unfolding id global_id
  id_bounds gcp_project i = (
    omega (arith, len-append, sanitized_id-le, sanitized_env-le, short_sha_id-le),
    omega (arith, len-append, sanitized_id-le, sanitized_env-le, short_sha_id-le),
  )

  -- The bucket of the state has a name of at most 60 bytes.
  pub default_state_bucket-le :
      (gcp_project : String) → len (default_state_bucket u e gcp_project) ≤ 60
  unfolding default_state_bucket default_bucket
  default_state_bucket-le p = omega (arith, len-append, limit_len)

  -- Where LimitString gives 51 bytes of the project name and 8 of the digest, the bucket of the
  -- locks has a name of 66 bytes.
  pub len-default_locks_bucket :
      (gcp_project : String)
      → len (limit_string (sanitize_name e.project_name false false) 51) ≡ 51
      → len (limit_string (sha_string gcp_project) 8) ≡ 8
      → len (default_locks_bucket u e gcp_project) ≡ 66
  unfolding default_locks_bucket default_bucket
  len-default_locks_bucket p h k = omega (arith, len-append)

  -- The last part of a lock's file name has at most 45 bytes.
  lock_part-le : (name : String) → len (lock_part u e name) ≤ 45
  unfolding lock_part
  lock_part-le name = elim (Bool-cases (ltb 44 (len name))) [
    | inl long ↦ rw long (omega (arith, len-append, limit_len))
    | inr short ↦ rw short (ground arith)
  ]

  -- A lock whose name SanitizeName turns into "lock" has the file of the state lock.
  pub lockfile-eq-state_lockfile :
      (name : String)
      → sanitize_name name true true ≡ "lock"
      → lockfile u e name ≡ state_lockfile u e
  unfolding lockfile lock_part state_lockfile
  lockfile-eq-state_lockfile name h = rw h refl

  lock_part_short : (name : String) → len name ≤ 44 → lock_part u e name ≡ name
  unfolding lock_part
  lock_part_short name h = ground arith

  -- Two locks whose sanitized names have at most 44 bytes share a file only if those names agree.
  pub lockfile_injective :
      (name other : String)
      → len (sanitize_name name true true) ≤ 44
      → len (sanitize_name other true true) ≤ 44
      → lockfile u e name ≡ lockfile u e other
      → sanitize_name name true true ≡ sanitize_name other true true
  unfolding lockfile
  lockfile_injective name other h k same =
      sym (lock_part_short _ h)
      ∙ append_cancel_left "/" _ _ (
          append_cancel_left e.project_name _ _
            (append_cancel_left "/" _ _ (append_cancel_left e.env _ _ same)))
      ∙ lock_part_short _ k
