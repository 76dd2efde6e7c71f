-- ===== src/Policy/Trivy/Validate.antt =====
-- internal/policy/trivy/engine.go, Validate, against a description of what it asks for.
use eirenyx.Base.{
  ◌≡◌, refl, ◌≢◌, ◌↔◌, Option-cases, inl, inr, some, List, [], ◌∷◌, ℕ, suc, All, arith, eq_iff,
}
use eirenyx.Effect.{ok}
use eirenyx.Api.Policy.{Policy, TrivyScan, TrivyPolicySpec, policy_type_trivy}
use eirenyx.Policy.Trivy.{validate, validate_scans}

-- A scan names itself and an image.
abbrev pub HasNameAndImage : TrivyScan → Type 0
HasNameAndImage scan = (scan.name ≢ "") × (scan.image ≢ "")

-- What a policy of the Trivy engine must be.
abbrev pub IsValid : Policy → Type 0
IsValid p =
    (p.spec.type ≡ policy_type_trivy)
    × ((t : TrivyPolicySpec) × (p.spec.trivy ≡ some t)
        × (t.scans ≢ [])
        × All HasNameAndImage t.scans)

validate_scans_sound :
    (i : ℕ) (scans : List TrivyScan) → validate_scans i scans ≡ ok tt → All HasNameAndImage scans
unfolding validate_scans
validate_scans_sound i [] h = tt
validate_scans_sound i (scan ∷ scans) h =
    ground (arith, eq_iff scan.name "", eq_iff scan.image "", validate_scans_sound (suc i) scans)

validate_scans_complete :
    (i : ℕ) (scans : List TrivyScan) → All HasNameAndImage scans → validate_scans i scans ≡ ok tt
unfolding validate_scans
validate_scans_complete i [] h = refl
validate_scans_complete i (scan ∷ scans) h =
    ground
      (arith, eq_iff scan.name "", eq_iff scan.image "", validate_scans_complete (suc i) scans h.1)

-- The engine's Validate accepts a policy exactly if its type is trivy, its trivy spec is there and
-- lists at least one scan, and every scan has a name and an image.
pub trivy_validate_iff : (p : Policy) → (validate p ≡ ok tt) ↔ IsValid p
unfolding validate
trivy_validate_iff p = (accepted, accepts)
  where
    accepted : validate p ≡ ok tt → IsValid p
    accepted h = elim (Option-cases p.spec.trivy) [
      | inl e ↦ ground arith
      | inr (t, e) ↦ (
        ground (arith, eq_iff p.spec.type policy_type_trivy),
        (t, e, ground arith, validate_scans_sound 0 t.scans (ground arith)),
      )
    ]

    accepts : IsValid p → validate p ≡ ok tt
    accepts (same, (t, e, full, scans)) =
        ground
          (arith, eq_iff p.spec.type policy_type_trivy, validate_scans_complete 0 t.scans scans)
