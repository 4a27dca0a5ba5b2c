-- ===== src/Locking/Owned.antt =====
-- A bucket of locks seen as a store, and what a list of locks that were taken says of two stores.
use text.Mathlib.TextEquality.{eq_iff}
use cli_plugin_gcp.Common.{
  ◌≡◌, ◌≢◌, refl, sym, ◌∙◌, ap, String, [], ◌∷◌, ◌++◌, Option, none, some, arith, if◌then◌else◌,
  ◌==◌, string_eq, beq_refl, Bool-cases, inl, inr, Dict, lookup, insert,
}
use cli_plugin_gcp.Strconv.{parse_int}
use cli_plugin_gcp.Gcs.{Object}

abbrev pub Store : Type 0
Store = String → Option Object

abbrev pub drop : String → Store → Store
drop f s o = if f == o then none else s o

abbrev pub SameStore : Store → Store → Type 0
SameStore s s' = (o : String) → s' o ≡ s o

-- An object of this generation id stands there.
abbrev pub Stands : Store → String → String → Type 0
Stands s o id = (x : Object) × (s o ≡ some x) × (parse_int id ≡ some x.attrs.generation)

module _ (file : String → String) (start : Store) where
  -- The second store is the first with the listed locks in it, each under its id and its own file.
  abbrev pub Owned : Store → Dict String → Type 0
  Owned s [] = SameStore start s
  Owned s ((n, id) ∷ ls) = Stands s (file n) id × Owned (drop (file n) s) ls

  drop-SameStore : (f : String) (s s' : Store) → SameStore s s' → SameStore (drop f s) (drop f s')
  drop-SameStore f s s' same o = ground (arith, same o)

  pub Owned-same : (ls : Dict String) (s s' : Store) → SameStore s s' → Owned s ls → Owned s' ls
  Owned-same [] s s' same h = λ o. same o ∙ h o
  Owned-same ((n, id) ∷ ls) s s' same ((x, held, named), h) = (
    (x, same (file n) ∙ held, named),
    Owned-same ls (drop (file n) s) (drop (file n) s') (drop-SameStore (file n) s s' same) h,
  )

  -- A file that is free is no file of a listed lock.
  pub lookup-eq-none :
      (ls : Dict String) (s : Store) (n : String)
      → Owned s ls
      → s (file n) ≡ none
      → lookup n ls ≡ none
  lookup-eq-none [] s n h free = refl
  lookup-eq-none ((m, id) ∷ ls) s n ((x, held, named), h) free = elim (Bool-cases (m == n)) [
    | inl same ↦ absurd (ground (arith, eq_iff m n, ap file ((eq_iff m n).0 same)))
    | inr other ↦ rw other (lookup-eq-none ls (drop (file m) s) n h (ground arith))
  ]

  insert_new :
      {V : Type 0} (k : String) (v : V) (m : Dict V)
      → lookup k m ≡ none
      → insert k v m ≡ m ++ (k, v) ∷ []
  insert_new k v [] h = refl
  insert_new k v ((j, w) ∷ m) h = ground (arith, insert_new k v m)

  Owned-snoc :
      (ls : Dict String) (s s' : Store) (n id : String)
      → Owned s ls
      → s (file n) ≡ none
      → Stands s' (file n) id
      → ((o : String) → o ≢ file n → s' o ≡ s o)
      → Owned s' (ls ++ (n, id) ∷ [])
  Owned-snoc [] s s' n id h free new others = (
    new,
    λ o. elim (Bool-cases (file n == o)) [
      | inl same ↦ rw same (sym free ∙ h (file n) ∙ ap start ((eq_iff _ o).0 same))
      | inr other ↦ rw other (others o (λ e. ground (arith, beq_refl o)) ∙ h o)
    ],
  )
  Owned-snoc ((m, k) ∷ ls) s s' n id ((x, held, named), h) free (y, new, named_new) others =
      let apart : file m ≢ file n = λ e. ground (arith, ap s e) in
      (
        (x, others (file m) apart ∙ held, named),
        Owned-snoc ls (drop (file m) s) (drop (file m) s') n id h (ground arith)
            (y, ground (arith, eq_iff (file m) (file n)), named_new)
            (λ o ne. ground (arith, others o ne)),
      )

  -- A lock that is taken at a free file joins the list.
  pub Owned-insert :
      (ls : Dict String) (s s' : Store) (n id : String)
      → Owned s ls
      → s (file n) ≡ none
      → Stands s' (file n) id
      → ((o : String) → o ≢ file n → s' o ≡ s o)
      → Owned s' (insert n id ls)
  Owned-insert ls s s' n id h free new others =
      rw (insert_new n id ls (lookup-eq-none ls s n h free))
        (Owned-snoc ls s s' n id h free new others)
