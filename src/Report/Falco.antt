-- ===== src/Report/Falco.antt =====
-- internal/report/falco.go: the report of a Falco policy. The number of events is drawn at random.
pub mod Rules
use eirenyx.Base.{ℕ, String, Option, none, some, if◌then◌else◌}
use eirenyx.Base.Int.{ℤ, pos, int32, ltb_ℤ}
use eirenyx.Effect.{ok, err, Exec, pure, panic, read, call, ◌>>=◌, ◌>>◌}
use eirenyx.Api.Policy.{FalcoPolicySpec}
use eirenyx.Api.Report.{PolicyReport, ReportPhase, ReportSummary, Verdict}
use eirenyx.Cluster.{Cluster}
use eirenyx.Report.Pods.{get_pod_details}

unfoldable pub summary_of : ℤ → ReportSummary
summary_of event_count = record {
  verdict = if ltb_ℤ (pos 0) event_count then Verdict.fail else Verdict.pass;
  total_checks = event_count;
  passed = pos 0;
  failed = event_count;
}

-- The status that the handler writes.
unfoldable pub complete : PolicyReport → ℤ → String → PolicyReport
unfolding summary_of
complete report event_count details = record report {
  status = record {
    phase = ReportPhase.completed;
    summary = summary_of event_count;
    details = details;
  };
}

module _ (C : Cluster) where
  -- `int32(rand.Intn(5))`
  unfoldable pub report_event_occurrence : Exec C.State ℕ
  report_event_occurrence s = let (n, s') = C.random_below 5 s in pure n s'

  -- A failed marshal leaves the details empty.
  unfoldable pub create_report_details : String → String → String
  create_report_details rule pod_details =
      elim (C.lib.marshal_falco_details "Obtained results for policy reconciliation." rule
        pod_details) [ ok bytes ↦ bytes | err _ ↦ "" ]

  unfoldable pub report_rule : PolicyReport → String → Exec C.State (Unit {0})
  report_rule report rule = do
    event_count ← report_event_occurrence
    pod_details ← get_pod_details C event_count
    call (
        C.reports.update_status
          (complete report (int32 event_count) (create_report_details rule pod_details)))
    pure tt

  -- The name of the rule that the policy observes. A policy with no falco spec, or with no ruleRef,
  -- is a nil dereference.
  unfoldable pub rule_ref_name : Option FalcoPolicySpec → Exec C.State String
  rule_ref_name none = panic
  rule_ref_name (some spec) = elim (spec.observe.rule_ref) [ none ↦ panic | some r ↦ pure r.name ]

  unfoldable pub reconcile : PolicyReport → Exec C.State (Unit {0})
  reconcile report = do
    p ← read (
        C.policies.get
          (record { namespace = report.namespace; name = report.spec.policy_ref.name }))
    rule ← rule_ref_name p.spec.falco
    report_rule report rule
