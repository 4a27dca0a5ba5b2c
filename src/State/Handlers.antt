-- ===== src/State/Handlers.antt =====
-- `SaveState` and `GetState` of plugin/state.go against one another, and the lock on the way.
use cli_plugin_gcp.Common.{
  ◌-◌, ltb, ◌||◌, nat_beq, ℕ, zero, suc, ◌≡◌, refl, ◌∙◌, String, Bool, true, false, not, Option,
  none, some, arith, inl, inr, Bool-cases,
}
use cli_plugin_gcp.Common.Action.{◌>>◌, ◌>>◌, bind_rule, Action, Result, ok, Fault, Result-cases}
use cli_plugin_gcp.Strconv.{format_int}
use cli_plugin_gcp.Gcs.{Gcs, Object, BucketAttrs, written, IsStorage, SameObjects}
use cli_plugin_gcp.Lock.{LockInfo, acquire_lock}
use cli_plugin_gcp.Lock.Laws.{acquire_lock-free}
use cli_plugin_gcp.Naming.{statefile}
use cli_plugin_gcp.State.{
  send_first, StateResponse, Host, Plugin, get_bucket, attempted, lock_loop, read_state, get_state,
  save_state, project_of, bucket_of, locks_bucket_of, state_attrs,
}

module _ (g : Gcs) (s : IsStorage g) where
  open g use {World, object}

  -- A bucket that holds an object is found, and nothing is created.
  get_bucket_found :
      (b o project : String) (attrs : BucketAttrs) (create : Bool) (w : World) (x : Object)
      (found : Bool × Bool)
      → object w b o ≡ some x
      → (get_bucket g b project attrs create w).0 ≡ ok found
      → (found ≡ (false, true)) × (object (get_bucket g b project attrs create w).1 b o ≡ some x)
  unfolding get_bucket
  get_bucket_found b o project attrs create w x found h e =
      elim (Result-cases (g.bucket_attrs b w).0) [
        | inl (a, r) ↦ (ground arith, ground (arith, s.bucket_attrs_same b w b o))
        | inr (inl (f, r)) ↦ absurd (ground (arith, s.bucket_stands b o w x f h r))
        | inr (inr r) ↦ absurd (ground arith)
      ]

  -- If the outcome is an id, the lock object stands, and the id is its.
  abbrev Holds : String → String → Result (Option String) × World → Type 0
  Holds b o out =
      (id : String)
      → out.0 ≡ ok (some id)
      → (x : Object) × (object out.1 b o ≡ some x) × (id ≡ format_int x.attrs.generation)

  attempted-Holds :
      (b o : String) (lock_wait start : ℕ) (first : Bool) (rest : Action World (Option String))
      (r : LockInfo × Option Fault) (w : World)
      → (acquire_lock g b o w).0 ≡ ok r
      → ((w' : World) → Holds b o (rest w'))
      → Holds b o (attempted g lock_wait start first rest r (acquire_lock g b o w).1)
  unfolding attempted
  attempted-Holds b o lock_wait start first rest (i, none) w e later =
      let (_, x, held, (named, _, _), _) = acquire_lock-free g s b o w i e in
      λ id same. (x, held, ground arith)
  attempted-Holds b o lock_wait start first rest (i, some f) w e later =
      elim (Bool-cases
        (nat_beq lock_wait 0 || ltb lock_wait (g.now (acquire_lock g b o w).1 - start))) [
          | inl over ↦ rw over (λ id same. absurd (ground arith))
          | inr more ↦ rw more (
              bind_rule (Holds b o) (λ _. rest) (send_first g first >> g.tick) _
                (λ _ _ _ same. absurd (ground arith)) (λ _ _ same. absurd (ground arith))
                (λ _ _. later _))
        ]

  -- When the loop of `lockState` ends with an id, the lock object stands, and the id is its.
  pub lock_loop-holds :
      (fuel : ℕ) (b o : String) (lock_wait start : ℕ) (first : Bool) (w : World) (id : String)
      → (lock_loop g fuel b o lock_wait start first w).0 ≡ ok (some id)
      → (x : Object) × (object (lock_loop g fuel b o lock_wait start first w).1 b o ≡ some x)
        × (id ≡ format_int x.attrs.generation)
  unfolding lock_loop
  lock_loop-holds zero b o lock_wait start first w = λ id e. absurd (ground arith)
  lock_loop-holds (suc fuel) b o lock_wait start first w =
      bind_rule (Holds b o) _ (acquire_lock g b o) w (λ _ _ _ same. absurd (ground arith))
        (λ _ _ same. absurd (ground arith))
        (λ r e.
          attempted-Holds b o lock_wait start first _ r w e
            (λ w'. lock_loop-holds fuel b o lock_wait start false w'))

module _ (h : Host) (p : Plugin) (s : IsStorage h.gcs) where
  open h use {gcs, util, Fields, storage_client, send_state}

  save_state-writes :
      (f : Fields) (state project bucket : String) (w : gcs.World)
      → project_of h p f ≡ ok project
      → bucket_of h p project f ≡ ok bucket
      → (save_state h p f state w).0 ≡ ok tt
      → (x : Object) × (gcs.object (save_state h p f state w).1 bucket (statefile util p.env)
          ≡ some x)
        × (x.content ≡ state)
  unfolding save_state
  save_state-writes f state project bucket w pe be e =
      let w' = (storage_client w).1 in
      elim (Result-cases (storage_client w).0) [
        | inl (u, r) ↦ elim (Result-cases (gcs.write bucket (statefile util p.env) state w').0) [
          | inl (a, q) ↦ (
            written state a,
            ground (arith, s.write_written bucket (statefile util p.env) state w' a q),
            refl,
          )
          | inr (inl (k, q)) ↦ absurd (ground arith)
          | inr (inr q) ↦ absurd (ground arith)
        ]
        | inr (inl (k, r)) ↦ absurd (ground arith)
        | inr (inr r) ↦ absurd (ground arith)
      ]

  -- The response for a state that is there.
  abbrev present : String → String → StateResponse
  present bucket state = record {
    state = some state;
    lock_info = "";
    state_created = false;
    state_name = bucket;
  }

  read_state_of_object :
      (skip_create : Bool) (state bucket : String) (w : gcs.World) (x : Object)
      (r : Option StateResponse)
      → gcs.object w bucket (statefile util p.env) ≡ some x
      → x.content ≡ state
      → (read_state h p skip_create false bucket (some "") w).0 ≡ ok r
      → r ≡ some (present bucket state)
  read_state_of_object skip_create state bucket w x r stands content e =
      elim (Result-cases (gcs.read bucket (statefile util p.env) w).0) [
        | inl (c, q) ↦ ground (arith, s.read_ok bucket (statefile util p.env) c w x stands q)
        | inr (inl (k, q)) ↦
            absurd (ground (arith, s.read_stands bucket (statefile util p.env) w x k stands q))
        | inr (inr q) ↦ absurd (ground arith)
      ]

  get_state_of_object :
      (f : Fields) (fuel lock_wait : ℕ) (skip_create : Bool) (state project bucket locking : String)
      (w : gcs.World) (x : Object) (r : Option StateResponse)
      → project_of h p f ≡ ok project
      → bucket_of h p project f ≡ ok bucket
      → locks_bucket_of h p project f ≡ ok locking
      → ((w' : gcs.World) → SameObjects gcs w' (storage_client w').1)
      → gcs.object w bucket (statefile util p.env) ≡ some x
      → x.content ≡ state
      → (get_state h p fuel f skip_create false lock_wait w).0 ≡ ok r
      → r ≡ some (present bucket state)
  unfolding get_state
  get_state_of_object f fuel lock_wait skip_create state project bucket locking w x r pe be le same
        stands content e =
      let w' = (storage_client w).1 in
      let stands' : gcs.object w' bucket (statefile util p.env) ≡ some x = same w _ _ ∙ stands in
      let call = get_bucket gcs bucket project (state_attrs h p) (not skip_create) in
      elim (Result-cases (storage_client w).0) [
        | inl (u, made) ↦ elim (Result-cases (call w').0) [
          | inl (found, got) ↦
              let (is, stands'') =
                get_bucket_found gcs s bucket _ project _ _ w' x found stands' got in
              read_state_of_object skip_create state bucket (call w').1 x r stands'' content
                (ground arith)
          | inr (inl (k, got)) ↦ absurd (ground arith)
          | inr (inr got) ↦ absurd (ground arith)
        ]
        | inr (inl (k, made)) ↦ absurd (ground arith)
        | inr (inr made) ↦ absurd (ground arith)
      ]

  -- What `SaveState` has written is what `GetState` reads: with the same properties and no lock asked
  -- for, if both calls succeed and making a client changes no object.
  pub get_state-save_state :
      (f : Fields) (fuel lock_wait : ℕ) (skip_create : Bool) (state project bucket locking : String)
      (w : gcs.World) (r : Option StateResponse)
      → project_of h p f ≡ ok project
      → bucket_of h p project f ≡ ok bucket
      → locks_bucket_of h p project f ≡ ok locking
      → ((w' : gcs.World) → SameObjects gcs w' (storage_client w').1)
      → (save_state h p f state w).0 ≡ ok tt
      → (get_state h p fuel f skip_create false lock_wait (save_state h p f state w).1).0 ≡ ok r
      → r ≡ some (present bucket state)
  get_state-save_state f fuel lock_wait skip_create state project bucket locking w r pe be le same
        saved got =
      let (x, stands, content) = save_state-writes f state project bucket w pe be saved in
      get_state_of_object f fuel lock_wait skip_create state project bucket locking
        (save_state h p f state w).1 x r pe be le same stands content got
