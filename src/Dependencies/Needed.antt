-- ===== src/Dependencies/Needed.antt =====
-- What stands in allNeeds of actions/plan.go: every need of every app.
use cli_plugin_gcp.Common.{
  All-weaken, subst, ◌≡◌, String, Bool, true, false, List, [], ◌∷◌, Option, none, some,
  if◌then◌else◌, ◌==◌, string_eq, nat_eq, Dict, lookup, lookup-insert, lookup-insert_self, All,
  arith, Bool-cases, inl, inr,
}
use text.Mathlib.TextEquality.{eq_iff}
use cli_plugin_gcp.Dependencies.{NeedyApp, AppNeed, AppMap, find_app, insert_app}
use cli_plugin_gcp.Dependencies.Plan.{or_nil, add_need, add_needs, all_needs}

abbrev pub is_some : {A : Type 0} → Option A → Bool
is_some none = false
is_some (some a) = true

pub find_app-insert_app :
    {V : Type 0} (app other : NeedyApp) (v : V) (m : AppMap V)
    → find_app other (insert_app app v m)
      ≡ (if app.address == other.address then some v else find_app other m)
find_app-insert_app app other v [] = ground arith
find_app-insert_app app other v ((a, old) ∷ m) = ground (arith, find_app-insert_app app other v m)

pub All-find_app :
    {V : Type 0} (P : V → Type 0) (m : AppMap V) (app : NeedyApp) (v : V)
    → All (λ e. P e.1) m
    → find_app app m ≡ some v
    → P v
All-find_app P [] app v all h = absurd (ground arith)
All-find_app P ((other, w) ∷ m) app v (a, all) h =
    elim (Bool-cases (other.address == app.address)) [
      | inl e ↦ let w_v : w ≡ v = ground arith in subst P w_v a
      | inr e ↦ All-find_app P m app v all (ground arith)
    ]

abbrev pub has_need : String → NeedyApp → Dict (AppMap AppNeed) → Bool
has_need dep app all = is_some (find_app app (or_nil (lookup dep all)))

has_need-add_need_self :
    (app : NeedyApp) (n : AppNeed) (all : Dict (AppMap AppNeed))
    → has_need n.dependency app (add_need app n all) ≡ true
has_need-add_need_self app n all =
    let m = or_nil (lookup n.dependency all) in
    rw (lookup-insert_self n.dependency (insert_app app n m) all)
      (ground (arith, find_app-insert_app app app n m))

has_need-add_need :
    (dep : String) (other app : NeedyApp) (n : AppNeed) (all : Dict (AppMap AppNeed))
    → has_need dep other all ≡ true
    → has_need dep other (add_need app n all) ≡ true
has_need-add_need dep other app n all h =
    let m = or_nil (lookup n.dependency all) in
    ground (
      arith,
      eq_iff n.dependency dep,
      lookup-insert n.dependency dep (insert_app app n m) all,
      find_app-insert_app app other n m,
    )

has_need-add_needs :
    (dep : String) (other app : NeedyApp) (ns : List AppNeed) (all : Dict (AppMap AppNeed))
    → has_need dep other all ≡ true
    → has_need dep other (add_needs app ns all) ≡ true
has_need-add_needs dep other app [] all h = h
has_need-add_needs dep other app (n ∷ ns) all h =
    has_need-add_needs dep other app ns (add_need app n all)
      (has_need-add_need dep other app n all h)

has_need-all_needs :
    (dep : String) (other : NeedyApp) (apps : List NeedyApp) (all : Dict (AppMap AppNeed))
    → has_need dep other all ≡ true
    → has_need dep other (all_needs apps all) ≡ true
has_need-all_needs dep other [] all h = h
has_need-all_needs dep other (app ∷ apps) all h =
    has_need-all_needs dep other apps (add_needs app app.needs all)
      (has_need-add_needs dep other app app.needs all h)

-- the needs of one app
add_needs-All :
    (app : NeedyApp) (ns : List AppNeed) (all : Dict (AppMap AppNeed))
    → All (λ n. has_need n.dependency app (add_needs app ns all) ≡ true) ns
add_needs-All app [] all = tt
add_needs-All app (n ∷ ns) all = (
  has_need-add_needs n.dependency app app ns (add_need app n all)
      (has_need-add_need_self app n all),
  add_needs-All app ns (add_need app n all),
)

-- After the loop over the apps, each need of each app stands under its dependency.
pub all_needs-All :
    (apps : List NeedyApp) (all : Dict (AppMap AppNeed))
    → All (λ app. All (λ n. has_need n.dependency app (all_needs apps all) ≡ true) app.needs) apps
all_needs-All [] all = tt
all_needs-All (app ∷ apps) all =
    let mine = add_needs app app.needs all in
    (
      All-weaken (λ n. has_need n.dependency app mine ≡ true)
          (λ n. has_need n.dependency app (all_needs apps mine) ≡ true) app.needs
          (λ n h. has_need-all_needs n.dependency app apps mine h)
          (add_needs-All app app.needs all),
      all_needs-All apps mine,
    )
