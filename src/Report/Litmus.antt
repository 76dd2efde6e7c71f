-- ===== src/Report/Litmus.antt =====
-- internal/report/litmus.go: the report of a Litmus policy. Every experiment counts as passed.
use eirenyx.Base.{String, Bool, none, some, List, ◌==◌, ◌&&◌, length, if◌then◌else◌}
use eirenyx.Base.Int.{pos, int32, eqb_ℤ}
use eirenyx.Effect.{ok, err, Exec, pure, panic, read, call, ◌>>=◌, ◌>>◌}
use eirenyx.Api.Policy.{LitmusExperiment}
use eirenyx.Api.Report.{PolicyReport, PolicyReportStatus, ReportPhase, Verdict}
use eirenyx.Cluster.{Cluster}

abbrev phase_text : ReportPhase → String
phase_text p = elim p [
  | ReportPhase.unset ↦ ""
  | ReportPhase.pending ↦ "Pending"
  | ReportPhase.running ↦ "Running"
  | ReportPhase.completed ↦ "Completed"
  | ReportPhase.failed ↦ "Failed"
]

abbrev verdict_text : Verdict → String
verdict_text v = elim v [
  | Verdict.unset ↦ ""
  | Verdict.pass ↦ "Pass"
  | Verdict.fail ↦ "Fail"
  | Verdict.unknown ↦ "Unknown"
]

-- `statusEqual`, a `reflect.DeepEqual` of the two statuses.
unfoldable pub status_equal : PolicyReportStatus → PolicyReportStatus → Bool
status_equal a b =
    phase_text a.phase == phase_text b.phase
    && (verdict_text a.summary.verdict == verdict_text b.summary.verdict
        && (eqb_ℤ a.summary.total_checks b.summary.total_checks
            && (eqb_ℤ a.summary.passed b.summary.passed
                && (eqb_ℤ a.summary.failed b.summary.failed && a.details == b.details))))

module _ (C : Cluster) where
  -- A failed marshal leaves the details empty.
  unfoldable pub create_report_details : List LitmusExperiment → String
  create_report_details experiments =
      elim (C.lib.marshal_litmus_details "Obtained results for policy reconciliation."
        experiments) [ ok bytes ↦ bytes | err _ ↦ "" ]

  unfoldable pub new_status : List LitmusExperiment → PolicyReportStatus
  new_status experiments = record {
    phase = ReportPhase.completed;
    summary = record {
      verdict = Verdict.pass;
      total_checks = int32 (length experiments);
      passed = int32 (length experiments);
      failed = pos 0;
    };
    details = create_report_details experiments;
  }

  unfoldable pub report_experiments : PolicyReport → List LitmusExperiment → Exec C.State (Unit {0})
  report_experiments report experiments =
      if status_equal report.status (new_status experiments)
      then pure tt
      else call (C.reports.update_status (record report { status = new_status experiments }))
        >> pure tt

  -- A policy with no litmus spec is a nil dereference.
  unfoldable pub reconcile : PolicyReport → Exec C.State (Unit {0})
  reconcile report = do
    p ← read (
        C.policies.get
          (record { namespace = report.namespace; name = report.spec.policy_ref.name }))
    elim (p.spec.litmus) [ none ↦ panic | some l ↦ report_experiments report l.experiments ]
