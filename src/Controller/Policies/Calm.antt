-- ===== src/Controller/Policies/Calm.antt =====
-- internal/controller/policy_controller.go: which policies a reconcile cannot panic on.
use eirenyx.Base.{
  ◌≡◌, ◌≢◌, ◌⊎◌, inl, inr, none, Option-cases, true, ◌==◌, eq_iff, if◌then◌else◌, ◌<>◌, arith,
}
use eirenyx.Effect.{ok, errorf, panicked, Result-cases, read, catch, resume}
use eirenyx.Effect.Calm.{
  IsCalm, IsCalm-pure, IsCalm-read, IsCalm-catch, IsCalm-catch-lift, IsCalm-if, IsCalm-switch,
  calm_rules,
}
use eirenyx.Api.Meta.{Key}
use eirenyx.Api.Policy.{Policy, policy_type_falco, policy_type_trivy, policy_type_litmus}
use eirenyx.Api.Report.{PolicyReport}
use eirenyx.Api.Tool.{Tool}
use eirenyx.Cluster.{Cluster}
use eirenyx.Controller.{Engine, new_policy_engine, falco_engine, trivy_engine, litmus_engine}
use eirenyx.Controller.Factory.{choice_all}
use eirenyx.Controller.Policies.{
  reconcile, has_finalizer, with_policy, with_tool, with_engine, finalize, link, disable,
  run_engine, publish_report, finish_report, update_policy, update_policy_status,
}
use eirenyx.Policy.Calm.{
  trivy_reconcile-IsCalm, trivy_cleanup-IsCalm, trivy_report-IsCalm, falco_reconcile-IsCalm,
  falco_cleanup-IsCalm, litmus_reconcile-IsCalm, litmus_cleanup-IsCalm,
}
use eirenyx.Policy.Falco
use eirenyx.Policy.Litmus
use eirenyx.Policy.Litmus.Validate.{litmus_validate_iff}
use eirenyx.Policy.Trivy.Validate.{trivy_validate_iff}

-- A trivy policy has a trivy spec, and a litmus policy a litmus spec.
abbrev pub HasSpec : Policy → Type 0
HasSpec p =
    ((p.spec.type ≢ policy_type_trivy) ⊎ (p.spec.trivy ≢ none))
    × ((p.spec.type ≢ policy_type_litmus) ⊎ (p.spec.litmus ≢ none))

-- An enabled policy that is not being deleted: the reconcile validates it before it runs an engine.
abbrev pub IsLive : Policy → Type 0
IsLive p = (p.meta.deletion_timestamp ≡ none) × (p.spec.enabled ≡ true)

-- An engine that does not panic on `p`: where it accepts it, and where it cleans up after it.
record EngineCalm {S : Type 0} (engine : Engine S) (p : Policy) : Type 0 where
  reconcile_calm : engine.validate p ≡ ok tt → IsCalm (engine.reconcile p)
  cleanup_calm : HasSpec p → IsCalm (engine.cleanup p)
  report_calm : IsCalm (engine.generate_report p)

module _ (C : Cluster) (p : Policy) where
  falco_engine-EngineCalm : EngineCalm (falco_engine C) p
  unfolding Falco.generate_report
  falco_engine-EngineCalm = record {
    reconcile_calm = λ _. falco_reconcile-IsCalm C p;
    cleanup_calm = λ _. falco_cleanup-IsCalm C p;
    report_calm = IsCalm-pure _;
  }

  trivy_engine-EngineCalm : p.spec.type ≡ policy_type_trivy → EngineCalm (trivy_engine C) p
  trivy_engine-EngineCalm same = record {
    reconcile_calm = λ h.
        (let (_, (t, e, _, _)) = (trivy_validate_iff p).0 h in
          trivy_reconcile-IsCalm C p (λ none_e. cc));
    cleanup_calm = λ has. trivy_cleanup-IsCalm C p (λ e. ground arith);
    report_calm = trivy_report-IsCalm C p;
  }

  litmus_engine-EngineCalm : p.spec.type ≡ policy_type_litmus → EngineCalm (litmus_engine C) p
  unfolding Litmus.generate_report
  litmus_engine-EngineCalm same = record {
    reconcile_calm = λ h.
        (let (_, (l, e, _, _)) = (litmus_validate_iff p).0 h in
          litmus_reconcile-IsCalm C p (λ none_e. cc));
    cleanup_calm = λ has. litmus_cleanup-IsCalm C p (λ e. ground arith);
    report_calm = IsCalm-pure _;
  }

  new_policy_engine-EngineCalm :
      (engine : Engine C.State) → new_policy_engine C p ≡ ok engine → EngineCalm engine p
  unfolding new_policy_engine
  new_policy_engine-EngineCalm engine h =
      choice_all (λ en. EngineCalm en p) (p.spec.type == policy_type_falco)
        (p.spec.type == policy_type_trivy) (p.spec.type == policy_type_litmus) (falco_engine C)
        (trivy_engine C) (litmus_engine C) engine
        (errorf ("unsupported policy type: " <> p.spec.type)) (λ _. falco_engine-EngineCalm)
        (λ e. trivy_engine-EngineCalm ((eq_iff p.spec.type policy_type_trivy).0 e))
        (λ e. litmus_engine-EngineCalm ((eq_iff p.spec.type policy_type_litmus).0 e)) h

module _ (C : Cluster) where
  update_policy-IsCalm : (p : Policy) → IsCalm (update_policy C p)
  unfolding update_policy
  update_policy-IsCalm p = search calm_rules

  publish_report-IsCalm : (p : Policy) (r : PolicyReport) → IsCalm (publish_report C p r)
  unfolding publish_report finish_report update_policy_status
  publish_report-IsCalm p r = search calm_rules depth 12

  module _ (engine : Engine C.State) (p : Policy) (calm : EngineCalm engine p) where
    finalize-IsCalm : HasSpec p → IsCalm (finalize C engine p)
    unfolding finalize
    finalize-IsCalm has =
        IsCalm-if (has_finalizer C p)
          (search (calm_rules, calm.cleanup_calm has, update_policy-IsCalm)) (IsCalm-pure _)

    run_engine-IsCalm : IsCalm (run_engine C engine p)
    unfolding run_engine
    run_engine-IsCalm =
        IsCalm-catch-lift (engine.validate p) (λ e. IsCalm-pure _)
          (λ u h.
            let run = calm.reconcile_calm h in
            search (calm_rules, run, calm.report_calm, publish_report-IsCalm) depth 9)

    disable-IsCalm : HasSpec p → IsCalm (disable C engine p)
    unfolding disable
    disable-IsCalm has = search (calm_rules, calm.cleanup_calm has)

    switch-IsCalm :
        HasSpec p ⊎ IsLive p
        → IsCalm (if p.spec.enabled then run_engine C engine p else disable C engine p)
    switch-IsCalm guard =
        IsCalm-switch p.spec.enabled run_engine-IsCalm
          (λ off. disable-IsCalm (elim guard [ inl has ↦ has | inr (_, on) ↦ ground arith ]))

    link-IsCalm : HasSpec p ⊎ IsLive p → (tool : Tool) → IsCalm (link C engine p tool)
    unfolding link
    link-IsCalm guard tool =
        IsCalm-catch-lift _ (λ e. IsCalm-pure _)
          (λ has _. IsCalm-if has (switch-IsCalm guard) (search (calm_rules, update_policy-IsCalm)))

    with_engine-IsCalm : HasSpec p ⊎ IsLive p → (tool : Tool) → IsCalm (with_engine C p tool engine)
    unfolding with_engine
    with_engine-IsCalm guard tool = elim (Option-cases p.meta.deletion_timestamp) [
      | inl e ↦
          rw (e, with_engine)
            (IsCalm-if (has_finalizer C p) (link-IsCalm guard tool) (update_policy-IsCalm _))
      | inr (t, e) ↦ elim guard [
        | inl has ↦ rw (e, with_engine) (finalize-IsCalm has)
        | inr (alive, _) ↦ ground arith
      ]
    ]

  with_policy-IsCalm : (p : Policy) → HasSpec p ⊎ IsLive p → IsCalm (with_policy C p)
  unfolding with_policy with_tool
  with_policy-IsCalm p guard =
      IsCalm-catch (IsCalm-read _) (λ e. IsCalm-pure _)
        (λ tool.
          IsCalm-catch-lift (new_policy_engine C p) (λ e. IsCalm-pure _)
            (λ engine h.
              with_engine-IsCalm engine p (new_policy_engine-EngineCalm C p engine h) guard tool))

  -- A reconcile of the policy controller does not panic, whatever the cluster answers to its calls,
  -- if the policy of the request, where there is one, has the spec that its type asks for, or is
  -- enabled and not being deleted.
  pub policies_reconcile-IsCalm :
      (key : Key) (s : C.State)
      → ((p : Policy) → C.policies.get key s ≡ ok p → HasSpec p ⊎ IsLive p)
      → (reconcile C key s).0 ≢ panicked
  unfolding reconcile catch read resume
  policies_reconcile-IsCalm key s guard = elim (Result-cases (C.policies.get key s)) [
    | inl (p, e) ↦ let calm = (with_policy-IsCalm p (guard p e)).calm_at s in rw (e, reconcile) calm
    | inr (f, e) ↦ rw (e, reconcile) ((IsCalm-pure _).calm_at s)
  ]
