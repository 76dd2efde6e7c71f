-- ===== src/Report/Falco/Rules.antt =====
-- internal/controller/policyreport_controller.go with internal/report/falco.go: the report of a policy
-- that selects its rules.
use eirenyx.Base.{◌≡◌, refl, false, inl, inr, none, some, arith}
use eirenyx.Effect.{ok, panicked, ◌>>◌}
use eirenyx.Api.Meta.{Key}
use eirenyx.Api.Policy.{Policy, FalcoPolicySpec, FalcoRuleSelector, policy_type_falco}
use eirenyx.Api.Report.{PolicyReport}
use eirenyx.Cluster.{Cluster}
use eirenyx.Controller.{new_report_engine}
use eirenyx.Controller.Reports as ReportControl
use eirenyx.Controller.Reports.{is_completed}
use eirenyx.Policy.Falco as FalcoPolicy
use eirenyx.Policy.Falco.Validate.{falco_validate_iff}
use eirenyx.Report.Falco.{reconcile, rule_ref_name}

-- A policy that Validate accepts names no rule where it selects rules.
selector-no_rule :
    (p : Policy) (spec : FalcoPolicySpec) (sel : FalcoRuleSelector)
    → FalcoPolicy.validate p ≡ ok tt
    → p.spec.falco ≡ some spec
    → spec.observe.rule_selector ≡ some sel
    → spec.observe.rule_ref ≡ none
selector-no_rule p spec sel valid has selects =
    let (_, (f, given, one)) = (falco_validate_iff p).0 valid in
    elim one [
      | inl (r, e, named, unselected) ↦ absurd (ground arith)
      | inr (r, e, unnamed) ↦ ground arith
    ]

handler_panics :
    (C : Cluster) (report : PolicyReport) (p : Policy) (spec : FalcoPolicySpec) (s : C.State)
    → C.policies.get (record { namespace = report.namespace; name = report.spec.policy_ref.name }) s
      ≡ ok p
    → p.spec.falco ≡ some spec
    → spec.observe.rule_ref ≡ none
    → reconcile C report s ≡ (panicked, s)
unfolding reconcile rule_ref_name ◌>>◌
handler_panics C report p spec s got e h = ground arith

falco_handler :
    (C : Cluster) (report : PolicyReport)
    → report.spec.type ≡ policy_type_falco
    → new_report_engine C report ≡ ok (reconcile C)
unfolding new_report_engine
falco_handler C report h = rw h refl

-- For a Falco policy that Validate accepts and that selects rules, every reconcile of its report that
-- reads the report as one not completed, and its policy, panics, and nothing of the cluster has
-- changed.
pub selector_panics :
    (C : Cluster) (key : Key) (report : PolicyReport) (p : Policy) (spec : FalcoPolicySpec)
    (sel : FalcoRuleSelector) (s : C.State)
    → C.reports.get key s ≡ ok report
    → report.spec.type ≡ policy_type_falco
    → is_completed report ≡ false
    → C.policies.get (record { namespace = report.namespace; name = report.spec.policy_ref.name }) s
      ≡ ok p
    → FalcoPolicy.validate p ≡ ok tt
    → p.spec.falco ≡ some spec
    → spec.observe.rule_selector ≡ some sel
    → ReportControl.reconcile C key s ≡ (panicked, s)
unfolding ReportControl.reconcile ReportControl.with_report ReportControl.run_handler ◌>>◌
selector_panics C key report p spec sel s found type unfinished got valid has selects = ground (
  arith,
  falco_handler C report type,
  handler_panics C report p spec s got has (selector-no_rule p spec sel valid has selects),
)
