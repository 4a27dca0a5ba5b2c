-- ===== src/CloudRun/Ready.antt =====
-- The loop of gcp/cloud_run.go that waits for a service to be ready comes to an end.
use text.Mathlib.TextEquality.{eq_iff}
use cli_plugin_gcp.Common.{
  ℕ, zero, suc, ◌≤◌, ◌<◌, ◌≡◌, ◌≢◌, refl, sym, subst, String, Bool, true, false, ◌&&◌, ◌==◌,
  string_eq, List, [], ◌∷◌, none, some, get_elem?, arith, inl, inr, Option-cases, Bool-cases,
}
use cli_plugin_gcp.Common.Int.{ℤ, int_beq}
use cli_plugin_gcp.Common.Action.{ok}
use cli_plugin_gcp.CloudRun.{Service, Condition, Metadata}
use cli_plugin_gcp.CloudRun.Calls.{
  RunService, readiness, decided, get_run_service, wait_for_run_service_ready,
}

-- A condition of the type "Ready" that says yes, or no with its message.
abbrev pub Says : Bool → String → Condition → Type 0
Says true msg c = (c.kind ≡ "Ready") × (c.status ≡ "True") × (msg ≡ "")
Says false msg c = (c.kind ≡ "Ready") × (c.status ≡ "False") × (msg ≡ c.message)

abbrev pub HasSaid : Bool → String → List Condition → Type 0
HasSaid ready msg cs = (i : ℕ) × (c : Condition) × (get_elem? cs i ≡ some c) × Says ready msg c

-- A service whose last change is observed, and one of whose conditions says so.
abbrev pub Answers : Service → Bool → String → Type 0
Answers svc ready msg =
    (m : Metadata) × (svc.metadata ≡ some m)
    × (svc.status.observed_generation ≡ m.generation)
    × HasSaid ready msg svc.status.conditions

later_said :
    (ready : Bool) (msg : String) (c : Condition) (cs : List Condition)
    → HasSaid ready msg cs
    → HasSaid ready msg (c ∷ cs)
later_said ready msg c cs (i, d, at, says) = (suc i, d, at, says)

decided-HasSaid :
    (cs : List Condition) (ready : Bool) (msg : String)
    → decided cs ≡ some (ready, msg)
    → HasSaid ready msg cs
unfolding decided
decided-HasSaid [] ready msg e = absurd (ground arith)
decided-HasSaid (c ∷ cs) true msg e =
    elim (Bool-cases ((c.kind == "Ready") && (c.status == "True"))) [
      | inl ready' ↦ (
        zero,
        c,
        refl,
        (
          ground (arith, eq_iff c.kind "Ready"),
          ground (arith, eq_iff c.status "True"),
          ground arith,
        ),
      )
      | inr unsure ↦ elim (Bool-cases ((c.kind == "Ready") && (c.status == "False"))) [
        | inl failed ↦ absurd (ground arith)
        | inr other ↦ later_said true msg c cs (decided-HasSaid cs true msg (ground arith))
      ]
    ]
decided-HasSaid (c ∷ cs) false msg e =
    elim (Bool-cases ((c.kind == "Ready") && (c.status == "True"))) [
      | inl ready' ↦ absurd (ground arith)
      | inr unsure ↦ elim (Bool-cases ((c.kind == "Ready") && (c.status == "False"))) [
        | inl failed ↦ (
          zero,
          c,
          refl,
          (
            ground (arith, eq_iff c.kind "Ready"),
            ground (arith, eq_iff c.status "False"),
            ground arith,
          ),
        )
        | inr other ↦ later_said false msg c cs (decided-HasSaid cs false msg (ground arith))
      ]
    ]

-- no condition of an undecided list says anything
Says-decided :
    (c : Condition) (cs : List Condition) (ready : Bool) (msg : String)
    → Says ready msg c
    → decided (c ∷ cs) ≢ none
unfolding decided
Says-decided c cs true msg (kind, status, same) =
    ground (arith, eq_iff c.kind "Ready", eq_iff c.status "True")
Says-decided c cs false msg (kind, status, same) =
    ground (arith, eq_iff c.kind "Ready", eq_iff c.status "False")

decided-tail : (c : Condition) (cs : List Condition) → decided (c ∷ cs) ≡ none → decided cs ≡ none
unfolding decided
decided-tail c cs e = ground arith

HasSaid-decided :
    (cs : List Condition) (ready : Bool) (msg : String) → HasSaid ready msg cs → decided cs ≢ none
HasSaid-decided [] ready msg (i, c, at, says) e = absurd (ground arith)
HasSaid-decided (d ∷ cs) ready msg (zero, c, at, says) e =
    let d_c : d ≡ c = ground arith in
    absurd (Says-decided d cs ready msg (subst (Says ready msg) (sym d_c) says) e)
HasSaid-decided (d ∷ cs) ready msg (suc i, c, at, says) e =
    absurd (HasSaid-decided cs ready msg (i, c, at, says) (decided-tail d cs e))

int_beq_iff : (a b : ℤ) → (int_beq a b ≡ true → a ≡ b) × (a ≡ b → int_beq a b ≡ true)
int_beq_iff a b = ((λ e. ground arith), λ e. ground arith)

readiness-Answers :
    (svc : Service) (ready : Bool) (msg : String)
    → readiness svc ≡ some (ready, msg)
    → Answers svc ready msg
readiness-Answers svc ready msg e = elim (Option-cases svc.metadata) [
  | inl bare ↦ absurd (ground arith)
  | inr (m, has) ↦ elim (Bool-cases (int_beq svc.status.observed_generation m.generation)) [
    | inl seen ↦ (
      m,
      has,
      (int_beq_iff svc.status.observed_generation m.generation).0 seen,
      decided-HasSaid svc.status.conditions ready msg (ground arith),
    )
    | inr stale ↦ absurd (ground arith)
  ]
]

open-Answers :
    (svc : Service) → readiness svc ≡ none → (ready : Bool) (msg : String) → ¬ Answers svc ready msg
open-Answers svc e ready msg (m, has, seen, said) =
    let observed = (int_beq_iff svc.status.observed_generation m.generation).1 seen in
    HasSaid-decided svc.status.conditions ready msg said (ground arith)

module _ (s : RunService) (project name : String) (left : s.World → ℕ)
    (ticks : (w : s.World) → ((s.tick w).0 ≡ ok tt) × (left (s.tick w).1 ≤ left w))
    (gets : (w : s.World)
      → (svc : Service) × ((get_run_service s project name w).0 ≡ ok svc)
        × (((ready : Bool) (msg : String) → ¬ Answers svc ready msg)
            → left (get_run_service s project name w).1 < left w)) where
  -- If the ticker and the calls go on without an error, and each service that does not answer leaves fewer rounds
  -- to go, then `waitForRunServiceReady` returns, with more fuel than there are rounds: a service that a call of
  -- the API gave, whose last change is observed and one of whose conditions of the type "Ready" says yes, or
  -- says no with the message that is returned.
  pub wait_for_run_service_ready-ends :
      (fuel : ℕ) (w : s.World)
      → left w < fuel
      → (svc : Service) × (ready : Bool) × (msg : String) × ((wait_for_run_service_ready s fuel
            project name w).0
          ≡ ok (some (svc, ready, msg)))
        × Answers svc ready msg
        × ((v : s.World) × ((get_run_service s project name v).0 ≡ ok svc))
  unfolding wait_for_run_service_ready
  wait_for_run_service_ready-ends zero w enough = absurd (omega arith)
  wait_for_run_service_ready-ends (suc fuel) w enough =
      let (ticked, less) = ticks w in
      let v = (s.tick w).1 in
      let (svc, got, fewer) = gets v in
      elim (Option-cases (readiness svc)) [
        | inl open' ↦
            let rounds = fewer (open-Answers svc open') in
            let (svc', ready, msg, e, d, seen) =
              wait_for_run_service_ready-ends fuel (get_run_service s project name v).1
                (omega arith) in
            (svc', ready, msg, ground (arith, e), d, seen)
        | inr ((ready, msg), d) ↦
            (svc, ready, msg, ground arith, readiness-Answers svc ready msg d, (v, got))
      ]
