-- ===== src/Common/Action.antt =====
-- How a Go function that talks to the outside ends: with a value, with an `error`, or by a panic.
-- The state that it runs on is what lies outside the program; a failed call may have changed it.
use native.Mathlib.Omega.{arith}
use mathlib.Core.Logic.{◌≢◌, inr, inl, ◌⊎◌}
use mathlib.Core.Path.{◌≡◌, refl, sym, ap, subst, ◌∙◌}
use mathlib.Core.Bool.{Bool, false}
use mathlib.Core.List.{List, [], ◌∷◌}
use mathlib.Core.Option.{none, some, Option}
use Prim.Native.Nat.{ℕ}
use Prim.Native.String.{String}
use cli_plugin_gcp.Common.Tests.{nat_beq}

-- The `error` values that the code compares with, by `==` or `errors.Is`.
pub data Sentinel : Type 0 where
  bucket_not_exist object_not_exist iterator_done : Sentinel
  acquire_lock_failed release_lock_failed release_lock_mismatch : Sentinel

abbrev pub sentinel_index : Sentinel → ℕ
sentinel_index bucket_not_exist = 0
sentinel_index object_not_exist = 1
sentinel_index iterator_done = 2
sentinel_index acquire_lock_failed = 3
sentinel_index release_lock_failed = 4
sentinel_index release_lock_mismatch = 5

-- One entry of a googleapi error's details, of type `any` in Go: what the code reads of it.
pub data Detail : Type 0 where
  -- no JSON object
  opaque : Detail
  -- an object: its "@type", and its "metadata" if that is an object
  info : String → Option (List (String × String)) → Detail

pub data Fault : Type 0 where
  sentinel : Sentinel → Fault
  -- *googleapi.Error: its code and its details
  api : ℕ → List Detail → Fault
  -- *transport.Error of the container registry: its status code
  transport : ℕ → Fault
  -- the error of a context that is done
  canceled : Fault
  -- fmt.Errorf with no %w, and errors.New
  text : String → Fault
  -- fmt.Errorf("message: %w", err)
  wrap : String → Fault → Fault
  -- types.NewStatusLockError and types.NewStatusStateLockError: lock name, lock id and owner
  locked : List (String × String × String) → Fault

-- errors.Is(err, target)
abbrev pub errors_is : Sentinel → Fault → Bool
errors_is s (sentinel t) = nat_beq (sentinel_index s) (sentinel_index t)
errors_is s (api c d) = false
errors_is s (transport c) = false
errors_is s canceled = false
errors_is s (text m) = false
errors_is s (wrap m e) = errors_is s e
errors_is s (locked l) = false

pub data Result {ℓ} (A : Type ℓ) : Type ℓ where
  ok : A → Result A
  err : Fault → Result A
  panic : Result A

abbrev pub Action : Type 0 → Type 0 → Type 0
Action W A = W → Result A × W

-- The error as a value, for code that looks at it; a panic goes on.
abbrev pub caught {ℓ} : {A : Type ℓ} → Result A → Result (Result A)
caught (ok a) = ok (ok a)
caught (err e) = ok (err e)
caught panic = panic

module _ {W : Type 0} {A : Type 0} where
  abbrev pub pure : A → Action W A
  pure a w = (ok a, w)

  abbrev pub fail : Fault → Action W A
  fail e w = (err e, w)

  abbrev pub crash : Action W A
  crash w = (panic, w)

  abbrev pub try : Action W A → Action W (Result A)
  try m w = (caught (m w).0, (m w).1)

  -- The rest of a function, from how the call before it ended.
  abbrev pub of_result : Result A → Action W A
  of_result r w = (r, w)

-- The rest of a function, after a call that ended so.
abbrev pub next : {W A B : Type 0} → (A → Action W B) → Result A × W → Result B × W
next k (ok a, w) = k a w
next k (err e, w) = (err e, w)
next k (panic, w) = (panic, w)

infixl 5 ◌>>=◌ ◌>>◌
abbrev pub ◌>>=◌ : {W A B : Type 0} → Action W A → (A → Action W B) → Action W B
◌>>=◌ m k w = next k (m w)

abbrev pub ◌>>◌ : {W A B : Type 0} → Action W A → Action W B → Action W B
m >> k = m >>= λ _. k

-- An errgroup whose tasks share no context: every task runs, here one after the other in the order
-- of the list, and `Wait` gives the first error.
abbrev pub first_fault : {A : Type 0} → Option Fault → Result A → Option Fault
first_fault (some e) r = some e
first_fault none (ok _) = none
first_fault none (err e) = some e
first_fault none panic = none

abbrev pub waited : {W : Type 0} → Option Fault → Action W (Unit {0})
waited none = pure tt
waited (some e) = fail e

abbrev pub group_from :
    {W A : Type 0} → (A → Action W (Unit {0})) → List A → Option Fault → Action W (Unit {0})
group_from f [] e = waited e
group_from f (x ∷ xs) e = try (f x) >>= λ r. group_from f xs (first_fault e r)

abbrev pub group : {W A : Type 0} → (A → Action W (Unit {0})) → List A → Action W (Unit {0})
group f xs = group_from f xs none

-- To split on how a call ended, and keep the equation.
pub Result-cases {ℓ} :
    {A : Type ℓ} (r : Result A) → ((a : A) × (r ≡ ok a)) ⊎ ((e : Fault) × (r ≡ err e)) ⊎ (r ≡ panic)
Result-cases (ok a) = inl (a, refl)
Result-cases (err e) = inr (inl (e, refl))
Result-cases panic = inr (inr refl)

-- What holds of every failure, and of the rest after every success, holds of a sequence.
module _ {ℓ} {W A B : Type 0} (P : Result B × W → Type ℓ) (k : A → Action W B) where
  next_rule :
      (out : Result A × W)
      → ((e : Fault) → out.0 ≡ err e → P (err e, out.1))
      → (out.0 ≡ panic → P (panic, out.1))
      → ((a : A) → out.0 ≡ ok a → P (k a out.1))
      → P (next k out)
  next_rule (ok a, w) failed crashed rest = rest a refl
  next_rule (err e, w) failed crashed rest = failed e refl
  next_rule (panic, w) failed crashed rest = crashed refl

  pub bind_rule :
      (m : Action W A) (w : W)
      → ((e : Fault) → (m w).0 ≡ err e → P (err e, (m w).1))
      → ((m w).0 ≡ panic → P (panic, (m w).1))
      → ((a : A) → (m w).0 ≡ ok a → P (k a (m w).1))
      → P ((m >>= k) w)
  bind_rule m w = next_rule (m w)

module _ {W A B : Type 0} (k : A → Action W B) where
  next-eq-ok :
      (out : Result A × W) (b : B)
      → (next k out).0 ≡ ok b
      → (a : A) × (out.0 ≡ ok a) × (next k out ≡ k a out.1)
  next-eq-ok (ok a, w) b e = (a, refl, refl)
  next-eq-ok (err f, w) b e = absurd (ground arith)
  next-eq-ok (panic, w) b e = absurd (ground arith)

  -- A sequence that succeeds: its first part does, and the rest decides how it ends.
  pub >>=-eq-ok :
      (m : Action W A) (w : W) (b : B)
      → ((m >>= k) w).0 ≡ ok b
      → (a : A) × ((m w).0 ≡ ok a) × ((m >>= k) w ≡ k a (m w).1)
  >>=-eq-ok m w b e = next-eq-ok (m w) b e

-- A sequence does not end with a value that its rest does not give.
pub >>=-ne-ok :
    {W A B : Type 0} (m : Action W A) (k : A → Action W B) (w : W) (b : B)
    → ((a : A) → (m w).0 ≡ ok a → (k a (m w).1).0 ≢ ok b)
    → ((m >>= k) w).0 ≢ ok b
>>=-ne-ok m k w b rest =
    bind_rule (λ out. out.0 ≢ ok b) k m w (λ e _. ground arith) (λ _. ground arith) rest

-- A value with which an action ends has a property.
abbrev pub Gives {ℓ} : {W A : Type 0} → (A → Type ℓ) → Action W A → Type ℓ
Gives {W} {A} P m = (w : W) (a : A) → (m w).0 ≡ ok a → P a

pub >>=-Gives {ℓ κ} :
    {W A B : Type 0} {P : A → Type ℓ} (Q : B → Type κ) (m : Action W A) (k : A → Action W B)
    → Gives P m
    → ((a : A) → P a → Gives Q (k a))
    → Gives Q (m >>= k)
>>=-Gives Q m k first rest w b e =
    let (a, done, after) = >>=-eq-ok k m w b e in
    rest a (first w a done) (m w).1 b (ap (λ o. o.0) (sym after) ∙ e)

pub pure-Gives {ℓ} : {W A : Type 0} (P : A → Type ℓ) (a : A) → P a → Gives {W = W} P (pure a)
pure-Gives P a h w b e = let same : a ≡ b = ground arith in subst P same h
