-- ===== src/State/Leak.antt =====
-- The lock that `GetState` of plugin/state.go leaves behind where there is no state.
use cli_plugin_gcp.Common.{
  ℕ, ◌≡◌, refl, sym, ap, Option-cases, ◌∙◌, String, Bool, true, false, none, some, arith, inl, inr,
  Bool-cases,
}
use cli_plugin_gcp.Common.Action.{>>=-eq-ok, ◌>>=◌, ok, Result-cases, errors_is, object_not_exist}
use cli_plugin_gcp.Strconv.{format_int}
use cli_plugin_gcp.Gcs.{Object, IsStorage, SameObjects}
use cli_plugin_gcp.Naming.{statefile, state_lockfile}
use cli_plugin_gcp.State.Handlers.{lock_loop-holds}
use cli_plugin_gcp.State.{
  StateResponse, Host, Plugin, get_bucket, lock_loop, read_state, get_state, project_of, bucket_of,
  locks_bucket_of, absent, state_attrs, locks_attrs, lock_state,
}

module _ (h : Host) (p : Plugin) (s : IsStorage h.gcs) where
  open h use {gcs, util, Fields, storage_client, send_state}

  -- after the lock, the answer that there is no state names no lock and leaves every object
  read_state_absent :
      (created : Bool) (bucket id : String) (w : gcs.World) (r : StateResponse) (b o : String)
      (x : Object)
      → ((r : StateResponse) (w' : gcs.World) → SameObjects gcs w' (send_state r w').1)
      → (read_state h p true created bucket (some id) w).0 ≡ ok (some r)
      → r.state ≡ none
      → gcs.object w b o ≡ some x
      → (r.lock_info ≡ "")
        × (gcs.object (read_state h p true created bucket (some id) w).1 b o ≡ some x)
  read_state_absent created bucket id w r b o x quiet e stateless stands =
      let w' = (gcs.read bucket (statefile util p.env) w).1 in
      let kept = quiet (absent h p bucket) w' b o in
      let read_kept = s.read_same bucket (statefile util p.env) w b o in
      elim (Result-cases (gcs.read bucket (statefile util p.env) w).0) [
        | inl (c, got) ↦
            let reply : StateResponse = record {
              state = some c;
              lock_info = id;
              state_created = created;
              state_name = bucket;
            } in
            elim (Result-cases (send_state reply w').0) [
              | inl (u, sent) ↦ absurd (ground arith)
              | inr (inl (f, sent)) ↦ absurd (ground arith)
              | inr (inr sent) ↦ absurd (ground arith)
            ]
        | inr (inl (k, got)) ↦ elim (Bool-cases (errors_is object_not_exist k)) [
          | inl missing ↦ elim (Result-cases (send_state (absent h p bucket) w').0) [
            | inl (u, sent) ↦ (ground arith, ground arith)
            | inr (inl (f, sent)) ↦ absurd (ground arith)
            | inr (inr sent) ↦ absurd (ground arith)
          ]
          | inr other ↦ absurd (ground arith)
        ]
        | inr (inr got) ↦ absurd (ground arith)
      ]

  lock_state-holds :
      (fuel lock_wait : ℕ) (project locking id : String) (w : gcs.World)
      → (lock_state h p fuel project locking lock_wait w).0 ≡ ok (some id)
      → (x : Object) × (gcs.object
            (lock_state h p fuel project locking lock_wait w).1
            locking
            (state_lockfile util p.env)
          ≡ some x)
        × (id ≡ format_int x.attrs.generation)
  unfolding lock_state
  lock_state-holds fuel lock_wait project locking id w e =
      let loop = λ (found : Bool × Bool) (v : gcs.World).
        lock_loop gcs fuel locking (state_lockfile util p.env) lock_wait (gcs.now v) true v in
      let call = get_bucket gcs locking project (locks_attrs h p) true in
      let (found, got, after) = >>=-eq-ok loop call w (some id) e in
      let v = (call w).1 in
      let (x, held, named) =
        lock_loop-holds gcs s fuel locking (state_lockfile util p.env) lock_wait (gcs.now v) true v
          id (ap (λ out. out.0) (sym after) ∙ e) in
      (x, ap (λ out. gcs.object out.1 locking (state_lockfile util p.env)) after ∙ held, named)

  -- `GetState` with `Lock` and `SkipCreate` on a bucket that is there: whenever it answers that there is no
  -- state, it has taken the lock and leaves it. The answer names no lock, and the lock object stands,
  -- under the id that this call has got for it. Sending an answer changes no object.
  pub get_state-leaks :
      (f : Fields) (fuel lock_wait : ℕ) (project bucket locking : String) (created : Bool)
      (w : gcs.World) (r : StateResponse)
      → ((r : StateResponse) (w' : gcs.World) → SameObjects gcs w' (send_state r w').1)
      → project_of h p f ≡ ok project
      → bucket_of h p project f ≡ ok bucket
      → locks_bucket_of h p project f ≡ ok locking
      → (get_bucket gcs bucket project (state_attrs h p) false (storage_client w).1).0
        ≡ ok (created, true)
      → (get_state h p fuel f true true lock_wait w).0 ≡ ok (some r)
      → r.state ≡ none
      → let v = (get_bucket gcs bucket project (state_attrs h p) false (storage_client w).1).1 in
        (r.lock_info ≡ "")
        × ((id : String) × (x : Object) × ((lock_state h p fuel project locking lock_wait v).0
              ≡ ok (some id))
            × (gcs.object
                  (get_state h p fuel f true true lock_wait w).1
                  locking
                  (state_lockfile util p.env)
                ≡ some x)
            × (id ≡ format_int x.attrs.generation))
  unfolding get_state
  get_state-leaks f fuel lock_wait project bucket locking created w r quiet pe be le exists e
        stateless =
      let v = (get_bucket gcs bucket project (state_attrs h p) false (storage_client w).1).1 in
      let rest = read_state h p true created bucket in
      let lock = lock_state h p fuel project locking lock_wait in
      elim (Result-cases (storage_client w).0) [
        | inl (u, made) ↦
            let same : get_state h p fuel f true true lock_wait w ≡ (lock >>= rest) v =
              rw (pe, be, le, made, exists) refl in
            let (got, locked', after) =
              >>=-eq-ok rest lock v (some r) (ap (λ out. out.0) (sym same) ∙ e) in
            elim (Option-cases got) [
              | inl nothing ↦
                  let none' : (rest none (lock v).1).0 ≡ ok (some r) =
                    ap (λ g. (rest g (lock v).1).0) (sym nothing)
                    ∙ ap (λ out. out.0) (sym after)
                    ∙ ap (λ out. out.0) (sym same)
                    ∙ e in
                  absurd (ground arith)
              | inr (id, is) ↦
                  let locked : (lock v).0 ≡ ok (some id) = locked' ∙ ap ok is in
                  let (x, stands, named) =
                    lock_state-holds fuel lock_wait project locking id v locked in
                  let here : get_state h p fuel f true true lock_wait w
                      ≡ rest (some id) (lock v).1 =
                    same ∙ after ∙ ap (λ g. rest g (lock v).1) is in
                  let (unnamed, kept) =
                    read_state_absent created bucket id (lock v).1 r locking
                      (state_lockfile util p.env) x quiet (ap (λ out. out.0) (sym here) ∙ e)
                      stateless stands in
                  (
                    unnamed,
                    (
                      id,
                      x,
                      locked,
                      ap (λ out. gcs.object out.1 locking (state_lockfile util p.env)) here ∙ kept,
                      named,
                    ),
                  )
            ]
        | inr (inl (k, made)) ↦ absurd (ground arith)
        | inr (inr made) ↦ absurd (ground arith)
      ]
