-- ===== src/Controller/Reports/Calm.antt =====
-- internal/controller/policyreport_controller.go: which reports a reconcile cannot panic on.
use eirenyx.Base.{
  ◌≡◌, ◌≢◌, ◌⊎◌, inl, inr, none, Bool-cases, ◌==◌, eq_iff, if◌then◌else◌, ◌<>◌, arith,
}
use eirenyx.Effect.{
  is_not_found, ok, errorf, panicked, pure, Result-cases, read, lift, catch, resume,
}
use eirenyx.Effect.Calm.{IsCalm, IsCalm-pure, resume-calm, calm_rules}
use eirenyx.Api.Meta.{Key}
use eirenyx.Api.Policy.{Policy, policy_type_falco, policy_type_trivy, policy_type_litmus}
use eirenyx.Api.Report.{PolicyReport}
use eirenyx.Cluster.{Cluster}
use eirenyx.Controller.{Handler, new_report_engine, completed_with}
use eirenyx.Controller.Factory.{choice_all}
use eirenyx.Controller.Reports.{reconcile, with_report, run_handler, delete_orphan, is_completed}
use eirenyx.Report.Calm.{
  HasRule, policy_key, trivy_handler-IsCalm, litmus_handler-calm, falco_handler-calm,
}
use eirenyx.Report.Falco as FalcoReport
use eirenyx.Report.Litmus as LitmusReport
use eirenyx.Report.Trivy as TrivyReport

-- A policy has what the handler of a report's type reads of it.
abbrev pub IsReportable : PolicyReport → Policy → Type 0
IsReportable report p =
    ((report.spec.type ≢ policy_type_falco) ⊎ HasRule p)
    × ((report.spec.type ≢ policy_type_litmus) ⊎ (p.spec.litmus ≢ none))

module _ (C : Cluster) (s : C.State) where
  module _ (report : PolicyReport)
      (fit : (p : Policy)
        → C.policies.get (policy_key report) s ≡ ok p
        → IsReportable report p) where
    handler-calm :
        (handler : Handler C.State)
        → new_report_engine C report ≡ ok handler
        → (handler report s).0 ≢ panicked
    unfolding new_report_engine
    handler-calm handler h =
        choice_all (λ run. (run report s).0 ≢ panicked) (report.spec.type == policy_type_falco)
          (report.spec.type == policy_type_litmus) (report.spec.type == policy_type_trivy)
          (FalcoReport.reconcile C) (LitmusReport.reconcile C) (TrivyReport.reconcile C) handler
          (errorf ("unknown policy type: " <> report.spec.type))
          (λ e.
            falco_handler-calm C report s
              (λ p got. ground (arith, fit p got, eq_iff report.spec.type policy_type_falco)))
          (λ e. litmus_handler-calm C report s (λ p got missing.
            ground (arith, fit p got, eq_iff report.spec.type policy_type_litmus)))
          (λ _. (trivy_handler-IsCalm C report).calm_at s) h

    run_handler-calm : (run_handler C report s).0 ≢ panicked
    unfolding run_handler catch lift resume
    run_handler-calm = elim (Result-cases (new_report_engine C report)) [
      | inl (handler, e) ↦
          rw (e, run_handler)
            (resume-calm (handler report s) (handler-calm handler e) (λ f. IsCalm-pure _)
              (λ u _. IsCalm-pure _))
      | inr (f, e) ↦ rw (e, run_handler) ((IsCalm-pure _).calm_at s)
    ]

    delete_orphan-IsCalm : IsCalm (delete_orphan C report)
    unfolding delete_orphan
    delete_orphan-IsCalm = search calm_rules

    with_report-calm : (with_report C report s).0 ≢ panicked
    unfolding with_report catch read resume
    with_report-calm = elim (Bool-cases (is_completed report)) [
      | inl e ↦ rw e ((IsCalm-pure _).calm_at s)
      | inr e ↦ elim (Result-cases (C.policies.get (policy_key report) s)) [
        | inl (p, got) ↦ rw (e, got) run_handler-calm
        | inr (f, got) ↦
            let gone : IsCalm
                (if is_not_found f then delete_orphan C report else pure (completed_with f)) =
              search (calm_rules, delete_orphan-IsCalm) in
            rw (e, got) (gone.calm_at s)
      ]
    ]

  -- A reconcile of the report controller does not panic if the policy of the report, where both are
  -- there, has what the handler of the report's type reads of it: a Falco rule's name for a falco
  -- report, a litmus spec for a litmus report, and nothing for a trivy report.
  pub reports_reconcile-calm :
      (key : Key)
      → ((report : PolicyReport) (p : Policy)
          → C.reports.get key s ≡ ok report
          → C.policies.get (policy_key report) s ≡ ok p
          → IsReportable report p)
      → (reconcile C key s).0 ≢ panicked
  unfolding reconcile catch read resume
  reports_reconcile-calm key fit = elim (Result-cases (C.reports.get key s)) [
    | inl (report, e) ↦ rw (e, reconcile) (with_report-calm report (λ p. fit report p e))
    | inr (f, e) ↦ rw (e, reconcile) ((IsCalm-pure _).calm_at s)
  ]
