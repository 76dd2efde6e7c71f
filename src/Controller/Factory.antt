-- ===== src/Controller/Factory.antt =====
-- internal/controller/factory.go: what the three factories can answer.
use eirenyx.Base.{◌≡◌, refl, ◌⊎◌, inl, inr, Bool, true, false, if◌then◌else◌, ◌==◌, ◌<>◌}
use eirenyx.Effect.{Error, ok, err, errorf}
use eirenyx.Api.Policy.{Policy, policy_type_falco, policy_type_trivy, policy_type_litmus}
use eirenyx.Api.Report.{PolicyReport}
use eirenyx.Cluster.{Cluster}
use eirenyx.Controller.{
  Engine, Handler, new_policy_engine, new_report_engine, falco_engine, trivy_engine, litmus_engine,
}
use eirenyx.Report.Falco as FalcoReport
use eirenyx.Report.Litmus as LitmusReport
use eirenyx.Report.Trivy as TrivyReport

-- What holds of each of three choices where its test does holds of the one that is made.
pub choice_all :
    {A : Type 0} (Q : A → Type 0) (a b c : Bool) (x y z w : A) (e : Error)
    → (a ≡ true → Q x)
    → (b ≡ true → Q y)
    → (c ≡ true → Q z)
    → (if a then ok x else if b then ok y else if c then ok z else err e) ≡ ok w
    → Q w
choice_all Q true b c x y z w e f g k h = let same : x ≡ w = cc in rw same at (f refl)
choice_all Q false true c x y z w e f g k h = let same : y ≡ w = cc in rw same at (g refl)
choice_all Q false false true x y z w e f g k h = let same : z ≡ w = cc in rw same at (k refl)
choice_all Q false false false x y z w e f g k h = cc

module _ (C : Cluster) where
  -- An engine of the factory is one of the three.
  pub new_policy_engine_cases :
      (p : Policy) (engine : Engine C.State)
      → new_policy_engine C p ≡ ok engine
      → (engine ≡ falco_engine C) ⊎ ((engine ≡ trivy_engine C) ⊎ (engine ≡ litmus_engine C))
  unfolding new_policy_engine
  new_policy_engine_cases p engine h =
      choice_all (λ e. (e ≡ falco_engine C) ⊎ ((e ≡ trivy_engine C) ⊎ (e ≡ litmus_engine C)))
        (p.spec.type == policy_type_falco) (p.spec.type == policy_type_trivy)
        (p.spec.type == policy_type_litmus) (falco_engine C) (trivy_engine C) (litmus_engine C)
        engine (errorf ("unsupported policy type: " <> p.spec.type)) (λ _. inl refl)
        (λ _. inr (inl refl)) (λ _. inr (inr refl)) h

  -- A handler of the factory is one of the three.
  pub new_report_engine_cases :
      (r : PolicyReport) (handler : Handler C.State)
      → new_report_engine C r ≡ ok handler
      → (handler ≡ FalcoReport.reconcile C)
        ⊎ ((handler ≡ LitmusReport.reconcile C) ⊎ (handler ≡ TrivyReport.reconcile C))
  unfolding new_report_engine
  new_report_engine_cases r handler h =
      choice_all
        (λ e.
          (e ≡ FalcoReport.reconcile C)
          ⊎ ((e ≡ LitmusReport.reconcile C) ⊎ (e ≡ TrivyReport.reconcile C)))
        (r.spec.type == policy_type_falco) (r.spec.type == policy_type_litmus)
        (r.spec.type == policy_type_trivy) (FalcoReport.reconcile C) (LitmusReport.reconcile C)
        (TrivyReport.reconcile C) handler (errorf ("unknown policy type: " <> r.spec.type))
        (λ _. inl refl) (λ _. inr (inl refl)) (λ _. inr (inr refl)) h
