-- ===== src/Common/Maps.antt =====
-- A Go map, as an association list in some order. Go's order of iteration is unspecified: a
-- statement about every list of entries covers every order.
use mathlib.Core.Bool.{◌||◌, false, ◌&&◌, not, true, Bool}
use Prim.Native.String.{String}
use mathlib.Core.Path.{◌≡◌, refl, sym, subst}
use mathlib.Core.List.{map, List, [], ◌∷◌}
use mathlib.Core.Option.{Option, none, some}
use native.Mathlib.Omega.{arith}
use text.Mathlib.TextEquality.{eq_iff}
use cli_plugin_gcp.Common.Lists.{contains, All, All-weaken, any}
use mathlib.Core.Logic.{◌≢◌, inl, inr}
use cli_plugin_gcp.Common.Tests.{◌==◌, if◌then◌else◌, string_eq, beq_refl, Bool-cases}

abbrev pub Dict {ℓ} : Type ℓ → Type ℓ
Dict V = List (String × V)

module _ {ℓ} {V : Type ℓ} where
  -- `v, ok := m[k]`
  abbrev pub lookup : String → Dict V → Option V
  lookup k [] = none
  lookup k ((j, v) ∷ m) = if j == k then some v else lookup k m

  -- `m[k] = v`
  abbrev pub insert : String → V → Dict V → Dict V
  insert k v [] = (k, v) ∷ []
  insert k v ((j, old) ∷ rest) = if j == k then (j, v) ∷ rest else (j, old) ∷ insert k v rest

  -- `delete(m, k)`
  abbrev pub erase : String → Dict V → Dict V
  erase k [] = []
  erase k ((j, w) ∷ m) = if j == k then erase k m else (j, w) ∷ erase k m

  pub lookup-insert :
      (k j : String) (v : V) (m : Dict V)
      → lookup j (insert k v m) ≡ (if k == j then some v else lookup j m)
  lookup-insert k j v [] = refl
  lookup-insert k j v ((i, w) ∷ m) =
      ground (arith, eq_iff k j, eq_iff i k, eq_iff i j, lookup-insert k j v m)

  pub lookup-erase :
      (k j : String) (m : Dict V) → lookup j (erase k m) ≡ (if k == j then none else lookup j m)
  lookup-erase k j [] = ground arith
  lookup-erase k j ((i, w) ∷ m) =
      ground (arith, eq_iff k j, eq_iff i k, eq_iff i j, lookup-erase k j m)

  pub lookup-insert_self : (k : String) (v : V) (m : Dict V) → lookup k (insert k v m) ≡ some v
  lookup-insert_self k v m = simp (lookup-insert, beq_refl)

-- No text stands twice in the list.
abbrev pub is_distinct : List String → Bool
is_distinct [] = true
is_distinct (x ∷ xs) = not (contains x xs) && is_distinct xs

abbrev pub keys : {V : Type 0} → Dict V → List String
keys m = map (λ e. e.0) m

-- the map's value where it has one, and `other` where not
abbrev pub or_else : {V : Type 0} → Option V → Option V → Option V
or_else none other = other
or_else (some v) other = some v

pub lookup-keys :
    {V : Type 0} (m : Dict V) (k : String) → contains k (keys m) ≡ false → lookup k m ≡ none
lookup-keys [] k h = refl
lookup-keys ((j, v) ∷ m) k h = ground (arith, eq_iff j k, eq_iff k j, lookup-keys m k)

-- What holds of every entry of a map holds of an entry that is looked up, and stays when one is written.
module _ {ℓ} {V : Type 0} (P : String × V → Type ℓ) where
  pub All-lookup : (m : Dict V) (k : String) (v : V) → All P m → lookup k m ≡ some v → P (k, v)
  All-lookup [] k v all h = absurd (ground arith)
  All-lookup ((j, w) ∷ m) k v (a, all) h = elim (Bool-cases (j == k)) [
    | inl e ↦
        let j_k = (eq_iff j k).0 e in
        let w_v : w ≡ v = ground arith in subst (λ i. P (i, v)) j_k (subst (λ u. P (j, u)) w_v a)
    | inr e ↦ All-lookup m k v all (ground arith)
  ]

  pub All-insert : (m : Dict V) (k : String) (v : V) → All P m → P (k, v) → All P (insert k v m)
  All-insert [] k v all new = (new, tt)
  All-insert ((j, w) ∷ m) k v (a, all) new = elim (Bool-cases (j == k)) [
    | inl e ↦ rw e (subst (λ i. P (i, v)) (sym ((eq_iff j k).0 e)) new, all)
    | inr e ↦ rw e (a, All-insert m k v all new)
  ]

-- In a map without double keys, every entry of a key has the value that is looked up.
module _ {V : Type 0} where
  contains-insert :
      (i k : String) (v : V) (m : Dict V)
      → contains i (keys (insert k v m)) ≡ (k == i || contains i (keys m))
  contains-insert i k v [] = refl
  contains-insert i k v ((j, w) ∷ m) =
      ground (arith, eq_iff j k, eq_iff k i, eq_iff j i, contains-insert i k v m)

  pub is_distinct-insert :
      (k : String) (v : V) (m : Dict V)
      → is_distinct (keys m) ≡ true
      → is_distinct (keys (insert k v m)) ≡ true
  is_distinct-insert k v [] h = refl
  is_distinct-insert k v ((j, w) ∷ m) h =
      ground (arith, eq_iff j k, eq_iff k j, contains-insert j k v m, is_distinct-insert k v m)

  All-absent : (k : String) (m : Dict V) → contains k (keys m) ≡ false → All (λ e. e.0 ≢ k) m
  All-absent k [] h = tt
  All-absent k ((j, w) ∷ m) h = (ground (arith, eq_iff j k), All-absent k m (ground arith))

  pub All-same :
      (k : String) (v : V) (m : Dict V)
      → is_distinct (keys m) ≡ true
      → lookup k m ≡ some v
      → All (λ e. e.0 ≡ k → e.1 ≡ v) m
  All-same k v [] d h = tt
  All-same k v ((j, w) ∷ m) d h = elim (Bool-cases (j == k)) [
    | inl e ↦ (
      λ _. ground arith,
      All-weaken (λ e. e.0 ≢ k) (λ e. e.0 ≡ k → e.1 ≡ v) m (λ e other same. absurd (other same))
          (All-absent k m (ground (arith, eq_iff j k))),
    )
    | inr e ↦
        (λ same. absurd (ground (arith, eq_iff j k)), All-same k v m (ground arith) (ground arith))
  ]

  pub any-lookup :
      (k : String) (v : V) (m : Dict V) → lookup k m ≡ some v → any (λ e. e.0 == k) m ≡ true
  any-lookup k v [] h = absurd (ground arith)
  any-lookup k v ((j, w) ∷ m) h = ground (arith, any-lookup k v m)

-- A map that a loop fills with the entries of a list.
module _ {V : Type 0} where
  abbrev pub insert_all : List (String × V) → Dict V → Dict V
  insert_all [] m = m
  insert_all ((k, v) ∷ es) m = insert_all es (insert k v m)

  pub lookup-insert_all :
      (es : List (String × V)) (m : Dict V) (k : String)
      → is_distinct (keys es) ≡ true
      → lookup k (insert_all es m) ≡ or_else (lookup k es) (lookup k m)
  lookup-insert_all [] m k h = refl
  lookup-insert_all ((j, v) ∷ es) m k h = ground (
    arith,
    eq_iff j k,
    lookup-insert j k v m,
    lookup-insert_all es (insert j v m) k,
    lookup-keys es k,
  )
