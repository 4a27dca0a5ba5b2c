-- ===== src/CloudFunction/Policy.antt =====
-- gcp/cloud_function.go: how `Update` changes the access policy of a function, and what `Read` makes
-- of it.
use cli_plugin_gcp.Common.{
  String, Bool, true, false, not, ◌&&◌, ◌||◌, List, [], ◌∷◌, ◌++◌, Option, none, some,
  if◌then◌else◌, ◌==◌, string_eq, nat_beq, length, contains, keep,
}
use cli_plugin_gcp.Policies.{Binding, all_users}

abbrev pub invoker : String
invoker = "roles/cloudfunctions.invoker"

abbrev pub is_invoker : Binding → Bool
is_invoker b = b.role == invoker

-- the binding that `Create` and `Update` append
abbrev pub public_binding : Binding
public_binding = record { role = invoker; members = all_users ∷ [] }

-- the loop at the end of `Read`: the first binding of the role counts
unfoldable pub read_public : List Binding → Bool
read_public [] = false
read_public (b ∷ bs) = if is_invoker b then contains all_users b.members else read_public bs

-- One round of the loop of `Update`: the binding that is kept, if any, and whether a member was added.
abbrev withdrawn : Binding → Option Binding
withdrawn b =
    if not (contains all_users b.members)
    then some b
    else if nat_beq (length b.members) 1
    then none
    else some (record b { members = keep (λ m. not (m == all_users)) b.members })

abbrev granted : Binding → Option Binding × Bool
granted b =
    if not (contains all_users b.members)
    then (some (record b { members = b.members ++ (all_users ∷ []) }), true)
    else (some b, false)

abbrev pub updated_binding : Bool → Binding → Option Binding × Bool
updated_binding public b =
    if is_invoker b
    then (if not public then (withdrawn b, false) else granted b)
    else (some b, false)

abbrev pub appended : Option Binding → List Binding → List Binding
appended none bs = bs
appended (some b) bs = b ∷ bs

-- the loop
unfoldable pub update_bindings : Bool → List Binding → List Binding × Bool
update_bindings public [] = ([], false)
update_bindings public (b ∷ bs) =
    let rest = update_bindings public bs in
    (appended (updated_binding public b).0 rest.0, (updated_binding public b).1 || rest.1)

-- the bindings that `Update` sends
unfoldable pub new_bindings : Bool → List Binding → List Binding
new_bindings public bs =
    let out = update_bindings public bs in
    if public && not out.1 then out.0 ++ (public_binding ∷ []) else out.0

-- Whether a policy grants a role to a member.
unfoldable pub grants : String → String → List Binding → Bool
grants role m [] = false
grants role m (b ∷ bs) = ((b.role == role) && contains m b.members) || grants role m bs
