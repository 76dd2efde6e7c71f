-- ===== src/Tools/Values.antt =====
-- internal/tools: the user's Helm values.
use mathlib.Core.Path.{subst}
use eirenyx.Base.{
  ◌≡◌, ◌⊎◌, inl, inr, refl, ap, ◌∙◌, String, Bool-cases, Option-cases, some, arith, eq_iff, eq_iff,
  ◌==◌,
}
use eirenyx.Base.Text.{is_blank}
use eirenyx.Effect.{Result-cases, ok}
use eirenyx.Api.Tool.{Tool}
use eirenyx.Cluster.{Cluster}
use eirenyx.Helm.{Manager, merge_values, set_values}
use eirenyx.Helm.Values.{Value, Fields, end, field, lookup, assign, merge_value, deep_merge}
use eirenyx.Helm.Releases.{IsBlank}
use eirenyx.Tools.{trivy_service, falco_service, litmus_manager, litmus_default_values}

assign-blank : (k : String) (v : Value) (m : Fields) → IsBlank (some (assign k v m)) → ⊥
unfolding assign
assign-blank k v end h = h
assign-blank k v (field j w m) h = elim (Bool-cases (j == k)) [
  | inl e ↦ (rw (e, assign) at h)
  | inr e ↦ (rw (e, assign) at h)
]

-- Values that are merged into some are some.
deep_merge-blank : (src m : Fields) → (IsBlank (some m) → ⊥) → IsBlank (some (deep_merge m src)) → ⊥
unfolding deep_merge
deep_merge-blank end m k h = k h
deep_merge-blank (field j v src) m k h =
    deep_merge-blank src (assign j (merge_value v (lookup j m)) m)
      (assign-blank j (merge_value v (lookup j m)) m) h

-- The values that a Litmus tool in this namespace asks for: the defaults, or the user's merged over
-- them.
abbrev pub LitmusValues : (C : Cluster) → String → Tool → Fields → Type 0
LitmusValues C ns tool u =
    ((tool.spec.values ≡ "") × (u ≡ litmus_default_values "chaos" ns))
    ⊎ ((user : Fields) × (C.lib.unmarshal_values tool.spec.values ≡ ok (some user))
        × (u ≡ deep_merge (litmus_default_values "chaos" ns) user))

-- They are never empty.
pub LitmusValues-blank :
    (C : Cluster) (ns : String) (tool : Tool) (u : Fields)
    → LitmusValues C ns tool u
    → IsBlank (some u)
    → ⊥
unfolding litmus_default_values
LitmusValues-blank C ns tool u (inl (_, same)) h = rw same at h
LitmusValues-blank C ns tool u (inr (user, _, same)) h =
    deep_merge-blank user (litmus_default_values "chaos" ns) (λ k. k)
      (subst (λ x. IsBlank (some x)) same h)

ok-injective : {A : Type 0} {a b : A} → ok a ≡ ok b → a ≡ b
ok-injective h = cc

-- A manager with the default values gets those.
pub litmus_manager-eq_ok :
    (C : Cluster) (ns : String) (tool : Tool) (base m : Manager)
    → litmus_manager C tool (set_values (litmus_default_values "chaos" ns) base) ≡ ok m
    → (u : Fields) × (set_values u base ≡ m) × LitmusValues C ns tool u
unfolding litmus_manager merge_values
litmus_manager-eq_ok C ns tool base m h =
    let defaults = litmus_default_values "chaos" ns in
    elim (Bool-cases (is_blank tool.spec.values)) [
      | inl blank ↦ (
        defaults,
        ok-injective (rw blank at h),
        inl (ground (arith, eq_iff tool.spec.values ""), refl),
      )
      | inr given ↦ elim (Result-cases (C.lib.unmarshal_values tool.spec.values)) [
        | inr (e, f) ↦ absurd (ground arith)
        | inl (o, f) ↦ elim (Option-cases o) [
          | inl nil ↦ absurd (ground arith)
          | inr (user, got) ↦
              (deep_merge defaults user, ground arith, inr (user, f ∙ ap (λ x. ok x) got, refl))
        ]
      ]
    ]

abbrev with_values : String → Tool → Tool
with_values values tool = record tool { spec = record (tool.spec) { values = values } }

-- Whatever the values of a tool say, the Trivy and the Falco service install it in the same way.
values_unused :
    (C : Cluster) (tool : Tool) (values : String)
    → ((trivy_service C).ensure_installed (with_values values tool)
        ≡ (trivy_service C).ensure_installed tool)
      × ((falco_service C).ensure_installed (with_values values tool)
          ≡ (falco_service C).ensure_installed tool)
unfolding trivy_service falco_service
values_unused C tool values = (refl, refl)
