-- ===== src/Policy/Falco/Validate.antt =====
-- internal/policy/falco/engine.go, Validate, against a description of what it asks for.
use eirenyx.Base.{◌≡◌, ◌≢◌, ◌↔◌, ◌⊎◌, Option-cases, inl, inr, none, some, arith, eq_iff}
use eirenyx.Effect.{ok}
use eirenyx.Api.Policy.{
  Policy, FalcoPolicySpec, FalcoObserveSpec, FalcoRuleRef, FalcoRuleSelector, policy_type_falco,
}
use eirenyx.Policy.Falco.{validate, validate_observe}

-- Either a rule with a name, or a selector, and not both.
abbrev pub ObservesOne : FalcoObserveSpec → Type 0
ObservesOne o =
    ((r : FalcoRuleRef) × (o.rule_ref ≡ some r) × (r.name ≢ "") × (o.rule_selector ≡ none))
    ⊎ ((r : FalcoRuleSelector) × (o.rule_selector ≡ some r) × (o.rule_ref ≡ none))

-- What a policy of the Falco engine must be.
abbrev pub IsValid : Policy → Type 0
IsValid p =
    (p.spec.type ≡ policy_type_falco)
    × ((f : FalcoPolicySpec) × (p.spec.falco ≡ some f) × ObservesOne f.observe)

validate_observe_sound : (o : FalcoObserveSpec) → validate_observe o ≡ ok tt → ObservesOne o
unfolding validate_observe
validate_observe_sound o h = elim (Option-cases o.rule_ref) [
  | inl e ↦ elim (Option-cases o.rule_selector) [
    | inl f ↦ ground arith
    | inr (r, f) ↦ inr (r, f, e)
  ]
  | inr (r, e) ↦ inl (r, e, ground (arith, eq_iff r.name ""), ground arith)
]

validate_observe_complete : (o : FalcoObserveSpec) → ObservesOne o → validate_observe o ≡ ok tt
unfolding validate_observe
validate_observe_complete o (inl (r, e, named, f)) = ground (arith, eq_iff r.name "")
validate_observe_complete o (inr (r, e, f)) = ground arith

-- The engine's Validate accepts a policy exactly if its type is falco, its falco spec is there, and
-- it observes either a rule with a name or a selector, and not both.
pub falco_validate_iff : (p : Policy) → (validate p ≡ ok tt) ↔ IsValid p
unfolding validate
falco_validate_iff p = (accepted, accepts)
  where
    accepted : validate p ≡ ok tt → IsValid p
    accepted h = elim (Option-cases p.spec.falco) [
      | inl e ↦ ground arith
      | inr (f, e) ↦ (
        ground (arith, eq_iff p.spec.type policy_type_falco),
        (f, e, validate_observe_sound f.observe (ground arith)),
      )
    ]

    accepts : IsValid p → validate p ≡ ok tt
    accepts (same, (f, e, one)) =
        ground
          (arith, eq_iff p.spec.type policy_type_falco, validate_observe_complete f.observe one)
