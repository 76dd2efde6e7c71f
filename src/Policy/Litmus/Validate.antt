-- ===== src/Policy/Litmus/Validate.antt =====
-- internal/policy/litmus/engine.go, Validate, against a description of what it asks for.
use eirenyx.Base.{
  ◌≡◌, refl, ◌≢◌, ◌↔◌, Option-cases, inl, inr, some, List, [], ◌∷◌, ℕ, suc, All, arith, eq_iff,
}
use eirenyx.Effect.{ok}
use eirenyx.Api.Policy.{Policy, LitmusExperiment, LitmusPolicySpec, policy_type_litmus}
use eirenyx.Policy.Litmus.{validate, validate_experiments}

-- An experiment names itself, its chaos experiment and the whole of its target.
abbrev pub IsComplete : LitmusExperiment → Type 0
IsComplete exp =
    (exp.name ≢ "")
    × (exp.experiment_ref ≢ "")
    × (exp.app_info.app_namespace ≢ "")
    × (exp.app_info.app_label ≢ "")
    × (exp.app_info.app_kind ≢ "")

-- What a policy of the Litmus engine must be.
abbrev pub IsValid : Policy → Type 0
IsValid p =
    (p.spec.type ≡ policy_type_litmus)
    × ((l : LitmusPolicySpec) × (p.spec.litmus ≡ some l)
        × (l.experiments ≢ [])
        × All IsComplete l.experiments)

validate_experiments_iff :
    (i : ℕ) (exps : List LitmusExperiment)
    → (validate_experiments i exps ≡ ok tt) ↔ All IsComplete exps
unfolding validate_experiments
validate_experiments_iff i [] = (λ h. tt, λ h. refl)
validate_experiments_iff i (exp ∷ exps) = ground (
  arith,
  eq_iff exp.name "",
  eq_iff exp.experiment_ref "",
  eq_iff exp.app_info.app_namespace "",
  eq_iff exp.app_info.app_label "",
  eq_iff exp.app_info.app_kind "",
  validate_experiments_iff (suc i) exps,
)

-- The engine's Validate accepts a policy exactly if its type is litmus, its litmus spec is there and
-- lists at least one experiment, and every experiment has a name, an experimentRef and a complete
-- appInfo.
pub litmus_validate_iff : (p : Policy) → (validate p ≡ ok tt) ↔ IsValid p
unfolding validate
litmus_validate_iff p = (accepted, accepts)
  where
    accepted : validate p ≡ ok tt → IsValid p
    accepted h = elim (Option-cases p.spec.litmus) [
      | inl e ↦ ground arith
      | inr (l, e) ↦ (
        ground (arith, eq_iff p.spec.type policy_type_litmus),
        (l, e, ground arith, (validate_experiments_iff 0 l.experiments).0 (ground arith)),
      )
    ]

    accepts : IsValid p → validate p ≡ ok tt
    accepts (same, (l, e, full, exps)) = ground (
      arith,
      eq_iff p.spec.type policy_type_litmus,
      (validate_experiments_iff 0 l.experiments).1 exps,
    )
