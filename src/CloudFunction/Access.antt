-- ===== src/CloudFunction/Access.antt =====
-- What an update of a function's access policy does to the access that it grants.
use cli_plugin_gcp.Common.{
  ◌≡◌, ◌≢◌, refl, String, Bool, true, false, not, ◌&&◌, ◌||◌, List, [], ◌∷◌, ◌++◌, ◌==◌, string_eq,
  nat_beq, length, contains, keep, arith, Bool-cases, inl, inr,
}
use text.Mathlib.TextEquality.{eq_iff}
use cli_plugin_gcp.Policies.{Binding, all_users}
use cli_plugin_gcp.CloudFunction.Policy.{
  public_binding, read_public, updated_binding, appended, update_bindings, new_bindings, grants,
}

contains-append :
    (m : String) (xs ys : List String) → contains m (xs ++ ys) ≡ (contains m xs || contains m ys)
contains-append m [] ys = refl
contains-append m (x ∷ xs) ys = ground (arith, contains-append m xs ys)

contains-keep :
    (m u : String) (xs : List String)
    → contains m (keep (λ x. not (x == u)) xs) ≡ (not (m == u) && contains m xs)
contains-keep m u [] = ground arith
contains-keep m u (x ∷ xs) =
    ground (arith, contains-keep m u xs, eq_iff x u, eq_iff x m, eq_iff m u)

-- a list of one member that has the one has no other
contains-single :
    (m u : String) (xs : List String)
    → nat_beq (length xs) 1 ≡ true
    → contains u xs ≡ true
    → (m == u) ≡ false
    → contains m xs ≡ false
contains-single m u [] h k other = absurd (ground arith)
contains-single m u (x ∷ []) h k other = ground (arith, eq_iff x u, eq_iff x m, eq_iff m u)
contains-single m u (x ∷ y ∷ xs) h k other = absurd (ground arith)

-- the loop leaves the role with the members that have it, where a binding is to be private
read_public-update_private : (bs : List Binding) → read_public (update_bindings false bs).0 ≡ false
unfolding read_public update_bindings
read_public-update_private [] = refl
read_public-update_private (b ∷ bs) = ground (
  arith,
  read_public-update_private bs,
  contains-keep all_users all_users b.members,
  eq_iff all_users all_users,
)

read_public-update_public :
    (bs : List Binding)
    → (update_bindings true bs).1 ≡ true
    → read_public (update_bindings true bs).0 ≡ true
unfolding read_public update_bindings
read_public-update_public [] h = absurd (ground arith)
read_public-update_public (b ∷ bs) h = ground (
  arith,
  read_public-update_public bs,
  contains-append all_users b.members (all_users ∷ []),
  eq_iff all_users all_users,
)

read_public-append :
    (bs : List Binding) → read_public ((update_bindings true bs).0 ++ (public_binding ∷ [])) ≡ true
unfolding read_public update_bindings
read_public-append [] = refl
read_public-append (b ∷ bs) = ground (
  arith,
  read_public-append bs,
  contains-append all_users b.members (all_users ∷ []),
  eq_iff all_users all_users,
)

-- `Read` finds in the policy that `Update` sends what the configuration asked for, whatever policy
-- the function had: it is public if it is to be public, and not if not.
pub read_public-new_bindings :
    (public : Bool) (bs : List Binding) → read_public (new_bindings public bs) ≡ public
unfolding new_bindings
read_public-new_bindings true bs = elim (Bool-cases (update_bindings true bs).1) [
  | inl added ↦ ground (arith, read_public-update_public bs added)
  | inr none' ↦ ground (arith, read_public-append bs)
]
read_public-new_bindings false bs = read_public-update_private bs

module _ (role m : String) (other : m ≢ all_users) where
  grants-append :
      (bs cs : List Binding) → grants role m (bs ++ cs) ≡ (grants role m bs || grants role m cs)
  unfolding grants
  grants-append [] cs = refl
  grants-append (b ∷ bs) cs = ground (arith, grants-append bs cs)

  grants-updated :
      (public : Bool) (b : Binding) (bs : List Binding)
      → grants role m (appended (updated_binding public b).0 bs) ≡ grants role m (b ∷ bs)
  unfolding grants
  grants-updated public b bs = ground (
    arith,
    eq_iff m all_users,
    eq_iff all_users m,
    contains-append m b.members (all_users ∷ []),
    contains-keep m all_users b.members,
    contains-single m all_users b.members,
  )

  grants-update :
      (public : Bool) (bs : List Binding)
      → grants role m (update_bindings public bs).0 ≡ grants role m bs
  unfolding grants update_bindings
  grants-update public [] = refl
  grants-update public (b ∷ bs) =
      ground (arith, grants-updated public b (update_bindings public bs).0, grants-update public bs)

  -- An update of a function's policy neither takes a role from any other member than allUsers nor gives
  -- it one: the policy that is sent grants it the same roles.
  pub grants-new_bindings :
      (public : Bool) (bs : List Binding)
      → grants role m (new_bindings public bs) ≡ grants role m bs
  unfolding new_bindings grants
  grants-new_bindings public bs = ground (
    arith,
    grants-update public bs,
    grants-append (update_bindings public bs).0 (public_binding ∷ []),
    eq_iff all_users m,
  )
