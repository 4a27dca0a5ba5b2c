-- ===== src/Lock/Laws.antt =====
-- What `acquireLock` and `releaseLock` do to the lock object, by how they end.
use cli_plugin_gcp.Common.{
  Option-cases, ℕ_discrete, ◌≡◌, ◌≢◌, refl, String, none, some, arith, inl, inr, ap, ◌∙◌,
}
use cli_plugin_gcp.Common.Int.{ℤ}
use cli_plugin_gcp.Common.Action.{err, Fault, Result-cases, ok, sentinel, api, acquire_lock_failed}
use cli_plugin_gcp.Strconv.{format_int, parse_int}
use cli_plugin_gcp.Strconv.Roundtrip.{parse_int-format_int}
use cli_plugin_gcp.Gcs.{SameOthers, written, Gcs, Object, IsStorage, SameObjects}
use cli_plugin_gcp.Lock.{LockInfo, lockdata, check_lock, acquire_lock, release_lock}

-- What an id says of the object that it names.
abbrev pub Names : LockInfo → Object → Type 0
Names i x =
    (i.info ≡ format_int x.attrs.generation)
    × (i.owner ≡ x.content)
    × (i.created_at ≡ x.attrs.created)

module _ (g : Gcs) (s : IsStorage g) where
  open g use {World, object, read, object_attrs, write_new, delete_generation}
  open s use {
    write_new_free, write_new_written, write_new_keeps, write_new_taken, read_ok, read_same,
    object_attrs_ok, object_attrs_same,
  }

  -- A check of a lock that stands gives its id, its owner and its time.
  pub check_lock-Names :
      (b o : String) (w : World) (x : Object) (i : LockInfo)
      → object w b o ≡ some x
      → (check_lock g b o w).0 ≡ ok i
      → Names i x
  unfolding check_lock
  check_lock-Names b o w x i h e = elim (Result-cases (read b o w).0) [
    | inl (c, r) ↦ elim (Result-cases (object_attrs b o (read b o w).1).0) [
      | inl (a, q) ↦ ground (
        arith,
        read_ok b o c w x h r,
        object_attrs_ok b o (read b o w).1 x a (read_same b o w b o ∙ h) q,
      )
      | inr (inl (f, q)) ↦ ground arith
      | inr (inr q) ↦ ground arith
    ]
    | inr (inl (f, r)) ↦ ground arith
    | inr (inr r) ↦ ground arith
  ]

  pub check_lock-SameObjects : (b o : String) (w : World) → SameObjects g w (check_lock g b o w).1
  unfolding check_lock
  check_lock-SameObjects b o w b' o' = elim (Result-cases (read b o w).0) [
    | inl (c, r) ↦ elim (Result-cases (object_attrs b o (read b o w).1).0) [
      | inl (a, q) ↦
          ground (arith, read_same b o w b' o', object_attrs_same b o (read b o w).1 b' o')
      | inr (inl (f, q)) ↦
          ground (arith, read_same b o w b' o', object_attrs_same b o (read b o w).1 b' o')
      | inr (inr q) ↦
          ground (arith, read_same b o w b' o', object_attrs_same b o (read b o w).1 b' o')
    ]
    | inr (inl (f, r)) ↦ ground (arith, read_same b o w b' o')
    | inr (inr r) ↦ ground (arith, read_same b o w b' o')
  ]

  -- When `acquireLock` returns no error, the lock was free, and now the object holds the caller's
  -- data under the id that was returned.
  pub acquire_lock-free :
      (b o : String) (w : World) (i : LockInfo)
      → (acquire_lock g b o w).0 ≡ ok (i, none)
      → (object w b o ≡ none)
        × (x : Object) × (object (acquire_lock g b o w).1 b o ≡ some x)
        × Names i x
        × (x.content ≡ lockdata g w)
  unfolding acquire_lock
  acquire_lock-free b o w i e = elim (Result-cases (write_new b o (lockdata g w) w).0) [
    | inl (a, r) ↦ (
      write_new_free b o _ w a r,
      written (lockdata g w) a,
      ground (arith, write_new_written b o (lockdata g w) w a r),
      (ground arith, ground arith, ground arith),
      refl,
    )
    | inr (inl (f, r)) ↦ absurd (ground arith)
    | inr (inr r) ↦ absurd (ground arith)
  ]

  -- When `acquireLock` fails with errAcquireLockFailed, the lock was held and still is, by the object
  -- whose id, owner and time are returned.
  pub acquire_lock-held :
      (b o : String) (w : World) (i : LockInfo)
      → (acquire_lock g b o w).0 ≡ ok (i, some (sentinel acquire_lock_failed))
      → (x : Object) × (object w b o ≡ some x)
        × (object (acquire_lock g b o w).1 b o ≡ some x)
        × Names i x
  unfolding acquire_lock
  acquire_lock-held b o w i e = elim (Result-cases (write_new b o (lockdata g w) w).0) [
    | inl (a, r) ↦ absurd (ground arith)
    | inr (inl (api n d, r)) ↦ elim (ℕ_discrete n 412) [
      | yes p ↦ elim (Result-cases (check_lock g b o (write_new b o (lockdata g w) w).1).0) [
        | inl (j, c) ↦
            let (x, h) = write_new_taken b o (lockdata g w) w d (cc (r, p)) in
            let now = write_new_keeps b o (lockdata g w) w x h in
            let same = check_lock-SameObjects b o (write_new b o (lockdata g w) w).1 b o in
            let names = check_lock-Names b o (write_new b o (lockdata g w) w).1 x j now c in
            (x, h, ground arith, ground arith)
        | inr (inl (k, c)) ↦ absurd (ground arith)
        | inr (inr c) ↦ absurd (ground arith)
      ]
      | no p ↦ absurd (ground arith)
    ]
    | inr (inl (f, r)) ↦ absurd (ground arith)
    | inr (inr r) ↦ absurd (ground arith)
  ]

  -- Whatever a call of `acquireLock` does, a lock that is held stays as it is.
  pub acquire_lock-keeps :
      (b o : String) (w : World) (x : Object)
      → object w b o ≡ some x
      → object (acquire_lock g b o w).1 b o ≡ some x
  unfolding acquire_lock
  acquire_lock-keeps b o w x h = ground (
    arith,
    write_new_keeps b o (lockdata g w) w x h,
    check_lock-SameObjects b o (write_new b o (lockdata g w) w).1 b o,
  )

  -- A held lock cannot be taken.
  pub acquire_lock-refuses :
      (b o : String) (w : World) (x : Object) (i : LockInfo)
      → object w b o ≡ some x
      → (acquire_lock g b o w).0 ≢ ok (i, none)
  acquire_lock-refuses b o w x i h e = cc ((acquire_lock-free b o w i e).0, h)

  open s use {delete_gone, delete_matched, delete_keeps, delete_others}

  -- When `releaseLock` succeeds, the lock of that id was held, and now it is free.
  pub release_lock_lem :
      (b o id : String) (w : World)
      → (release_lock g b o id w).0 ≡ ok tt
      → (object (release_lock g b o id w).1 b o ≡ none)
        × (x : Object) × (object w b o ≡ some x)
        × (parse_int id ≡ some x.attrs.generation)
  unfolding release_lock
  release_lock_lem b o id w e = elim (Option-cases (parse_int id)) [
    | inl p ↦ absurd (ground arith)
    | inr (n, p) ↦ elim (Result-cases (delete_generation b o n w).0) [
      | inl (u, r) ↦
          let (x, h, q) = delete_matched b o n w r in
          (ground (arith, delete_gone b o n w r), x, h, ground arith)
      | inr (inl (f, r)) ↦ absurd (ground arith)
      | inr (inr r) ↦ absurd (ground arith)
    ]
  ]

  -- An id that is not that of the lock which is held leaves the lock as it is.
  pub release_lock-keeps :
      (b o id : String) (w : World) (x : Object)
      → object w b o ≡ some x
      → parse_int id ≢ some x.attrs.generation
      → (object (release_lock g b o id w).1 b o ≡ some x) × ((release_lock g b o id w).0 ≢ ok tt)
  unfolding release_lock
  release_lock-keeps b o id w x h ne = elim (Option-cases (parse_int id)) [
    | inl p ↦ (ground arith, ground arith)
    | inr (n, p) ↦
        let keeps = delete_keeps b o n w x h (λ e. ne (cc)) in
        elim (Result-cases (delete_generation b o n w).0) [
          | inl (u, r) ↦ absurd (ground (arith, delete_gone b o n w r))
          | inr (inl (f, r)) ↦ (ground arith, ground arith)
          | inr (inr r) ↦ (ground arith, ground arith)
        ]
  ]

  -- A release whose delete goes through succeeds.
  pub release_lock-runs :
      (b o id : String) (w : World) (n : ℤ)
      → parse_int id ≡ some n
      → (delete_generation b o n w).0 ≡ ok tt
      → (release_lock g b o id w).0 ≡ ok tt
  unfolding release_lock
  release_lock-runs b o id w n p r = ground arith

  -- The id that `acquireLock` returned releases the lock, if the service carries out the delete.
  pub release_lock-acquire_lock :
      (b o : String) (w : World) (i : LockInfo)
      → ((w' : World) (x : Object)
          → object w' b o ≡ some x
          → (delete_generation b o x.attrs.generation w').0 ≡ ok tt)
      → (acquire_lock g b o w).0 ≡ ok (i, none)
      → let w' = (acquire_lock g b o w).1 in
        ((release_lock g b o i.info w').0 ≡ ok tt)
        × (object (release_lock g b o i.info w').1 b o ≡ none)
  release_lock-acquire_lock b o w i works e =
      let (_, x, held, (named, _, _), _) = acquire_lock-free b o w i e in
      let w' = (acquire_lock g b o w).1 in
      let p : parse_int i.info ≡ some x.attrs.generation =
        ap parse_int named ∙ parse_int-format_int _ (s.generation_int64 b o w' x held) in
      let done = release_lock-runs b o i.info w' x.attrs.generation p (works w' x held) in
      (done, (release_lock_lem b o i.info w' done).0)

  -- The calls on one lock touch no other object.
  pub release_lock-others :
      (b o id : String) (w : World) → SameOthers g b o w (release_lock g b o id w).1
  unfolding release_lock
  release_lock-others b o id w b' o' ne = elim (Option-cases (parse_int id)) [
    | inl p ↦ ground arith
    | inr (n, p) ↦ ground (arith, delete_others b o n w b' o' ne)
  ]

  pub acquire_lock-others : (b o : String) (w : World) → SameOthers g b o w (acquire_lock g b o w).1
  unfolding acquire_lock
  acquire_lock-others b o w b' o' ne = ground (
    arith,
    s.write_new_others b o (lockdata g w) w b' o' ne,
    check_lock-SameObjects b o (write_new b o (lockdata g w) w).1 b' o',
  )

  -- An attempt that fails changes no object, if a conditional write that fails has written nothing.
  pub acquire_lock-clean :
      (b o : String) (w : World) (i : LockInfo) (e : Fault)
      → ((c : String) (f : Fault)
          → (write_new b o c w).0 ≡ err f
          → SameObjects g w (write_new b o c w).1)
      → (acquire_lock g b o w).0 ≡ ok (i, some e)
      → SameObjects g w (acquire_lock g b o w).1
  unfolding acquire_lock
  acquire_lock-clean b o w i e clean h b' o' =
      elim (Result-cases (write_new b o (lockdata g w) w).0) [
        | inl (a, r) ↦ absurd (ground arith)
        | inr (inl (f, r)) ↦ ground (
          arith,
          clean (lockdata g w) f r b' o',
          check_lock-SameObjects b o (write_new b o (lockdata g w) w).1 b' o',
        )
        | inr (inr r) ↦ absurd (ground arith)
      ]
