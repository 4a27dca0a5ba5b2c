-- ===== src/Lock/Exclusion.antt =====
-- Several clients and one lock of plugin/state.go, as interleavings of their calls of `acquireLock`
-- and `releaseLock`. A client holds the lock from a successful `acquireLock` to its `releaseLock`.
use cli_plugin_gcp.Common.{
  ℕ, ◌≡◌, ◌≢◌, ◌⊎◌, inl, inr, String, List, [], ◌∷◌, ◌++◌, none, some, arith, All, ap, ◌∙◌, sym,
}
use cli_plugin_gcp.Common.Action.{ok, Fault}
use cli_plugin_gcp.Strconv.{parse_int}
use cli_plugin_gcp.Strconv.Roundtrip.{parse_int-format_int}
use cli_plugin_gcp.Gcs.{Gcs, Object, IsStorage}
use cli_plugin_gcp.Lock.{LockInfo, acquire_lock, release_lock}
use cli_plugin_gcp.Lock.Laws.{
  acquire_lock-free, acquire_lock-keeps, acquire_lock-refuses, release_lock-keeps,
}

pub record Holder : Type 0 where
  pub client : ℕ
  pub id : String

module _ (g : Gcs) (b o : String) where
  open g use {World, object}

  pub record State : Type 0 where
    pub world : World
    pub holders : List Holder

  abbrev pub acquired : State → ℕ → LockInfo → State
  acquired s c i = record {
    world = (acquire_lock g b o s.world).1;
    holders = record { client = c; id = i.info } ∷ s.holders;
  }

  abbrev pub attempted : State → State
  attempted s = record { world = (acquire_lock g b o s.world).1; holders = s.holders }

  abbrev pub released : State → String → List Holder → State
  released s id hs = record { world = (release_lock g b o id s.world).1; holders = hs }

  pub data Step (s t : State) : Type 0 where
    -- a client takes the lock
    acquire :
        (c : ℕ) (i : LockInfo)
        → (acquire_lock g b o s.world).0 ≡ ok (i, none)
        → t ≡ acquired s c i
        → Step s t
    -- a client tries, and does not get it
    refused :
        (i : LockInfo) (e : Fault)
        → (acquire_lock g b o s.world).0 ≡ ok (i, some e)
        → t ≡ attempted s
        → Step s t
    -- a holder gives the lock back, and counts on it no longer, however the call ends
    release :
        (before : List Holder) (h : Holder) (after : List Holder)
        → s.holders ≡ before ++ h ∷ after
        → t ≡ released s h.id (before ++ after)
        → Step s t
    -- anybody calls `releaseLock` with an id that is no holder's
    stale :
        (id : String)
        → All (λ h. parse_int id ≢ parse_int h.id) s.holders
        → t ≡ released s id s.holders
        → Step s t
    -- anything happens outside that leaves the lock object alone
    elsewhere :
        (w : World)
        → object w b o ≡ object s.world b o
        → t ≡ record { world = w; holders = s.holders }
        → Step s t

  pub data Reach (s : State) : State → Type 0 where
    here : Reach s s
    next : {t u : State} → Reach s t → Step t u → Reach s u

  -- Nobody holds the lock, or one client does, and its id is that of the object.
  abbrev pub IsExclusive : State → Type 0
  IsExclusive s =
      (s.holders ≡ [])
      ⊎ ((h : Holder) × (x : Object) × (s.holders ≡ h ∷ [])
          × (object s.world b o ≡ some x)
          × (parse_int h.id ≡ some x.attrs.generation))

module _ (g : Gcs) (st : IsStorage g) (b o : String) where
  split_nil : (before : List Holder) (h : Holder) (after : List Holder) → [] ≢ before ++ h ∷ after
  split_nil [] h after e = cc
  split_nil (k ∷ before) h after e = cc

  split_one :
      (before : List Holder) (h k : Holder) (after : List Holder)
      → k ∷ [] ≡ before ++ h ∷ after
      → before ++ after ≡ []
  split_one [] h k after e = ground arith
  split_one (j ∷ before) h k after e = absurd (split_nil before h after (ground arith))

  acquired-IsExclusive :
      (s : State g b o) (c : ℕ) (i : LockInfo)
      → (acquire_lock g b o s.world).0 ≡ ok (i, none)
      → IsExclusive g b o s
      → IsExclusive g b o (acquired g b o s c i)
  acquired-IsExclusive s c i e (inl empty) =
      let (_, x, held, (named, _, _), _) = acquire_lock-free g st b o s.world i e in
      inr (
        record { client = c; id = i.info },
        x,
        ap (λ hs. record { client = c; id = i.info } ∷ hs) empty,
        held,
        ap parse_int named
            ∙ parse_int-format_int _
                (st.generation_int64 b o (acquire_lock g b o s.world).1 x held),
      )
  acquired-IsExclusive s c i e (inr (h, x, _, held, _)) =
      absurd (acquire_lock-refuses g st b o s.world x i held e)

  attempted-IsExclusive :
      (s : State g b o) → IsExclusive g b o s → IsExclusive g b o (attempted g b o s)
  attempted-IsExclusive s (inl empty) = inl empty
  attempted-IsExclusive s (inr (h, x, one, held, named)) =
      inr (h, x, one, acquire_lock-keeps g st b o s.world x held, named)

  released-IsExclusive :
      (s : State g b o) (before : List Holder) (h : Holder) (after : List Holder)
      → s.holders ≡ before ++ h ∷ after
      → IsExclusive g b o s
      → IsExclusive g b o (released g b o s h.id (before ++ after))
  released-IsExclusive s before h after at (inl empty) =
      absurd (split_nil before h after (sym empty ∙ at))
  released-IsExclusive s before h after at (inr (k, x, one, _, _)) =
      inl (split_one before h k after (sym one ∙ at))

  stale-IsExclusive :
      (s : State g b o) (id : String)
      → All (λ h. parse_int id ≢ parse_int h.id) s.holders
      → IsExclusive g b o s
      → IsExclusive g b o (released g b o s id s.holders)
  stale-IsExclusive s id others (inl empty) = inl empty
  stale-IsExclusive s id others (inr (h, x, one, held, named)) =
      let apart : All (λ k. parse_int id ≢ parse_int k.id) (h ∷ []) = rw one at others in
      inr (
        h,
        x,
        one,
        (release_lock-keeps g st b o id s.world x held (λ e. apart.0 (e ∙ sym named))).0,
        named,
      )

  Step-IsExclusive :
      {s t : State g b o} → Step g b o s t → IsExclusive g b o s → IsExclusive g b o t
  Step-IsExclusive {s} (acquire c i e same) v = rw same (acquired-IsExclusive s c i e v)
  Step-IsExclusive {s} (refused i f e same) v = rw same (attempted-IsExclusive s v)
  Step-IsExclusive {s} (release before h after at same) v =
      rw same (released-IsExclusive s before h after at v)
  Step-IsExclusive {s} (stale id others same) v = rw same (stale-IsExclusive s id others v)
  Step-IsExclusive {s} (elsewhere w alone same) (inl empty) = rw same (inl empty)
  Step-IsExclusive {s} (elsewhere w alone same) (inr (h, x, one, held, named)) =
      rw same (inr (h, x, one, alone ∙ held, named))

  -- In every interleaving that begins with no holder, at most one client holds the lock at a time,
  -- and its id is that of the lock object.
  pub Reach-IsExclusive :
      {s t : State g b o} → s.holders ≡ [] → Reach g b o s t → IsExclusive g b o t
  Reach-IsExclusive h here = inl h
  Reach-IsExclusive h (next r step) = Step-IsExclusive step (Reach-IsExclusive h r)
