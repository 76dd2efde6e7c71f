-- ===== src/Controller/Reported/Handle.antt =====
-- internal/controller/policyreport_controller.go with internal/report/litmus.go: the stored report is
-- completed.
use mathlib.Core.Path.{subst}
use eirenyx.Base.{◌≡◌, refl, sym, ap, ◌∙◌, inl, inr, false, some, length, arith}
use eirenyx.Base.Int.{pos, int32}
use eirenyx.Effect.{ok, returned, read, ◌>>◌}
use eirenyx.Effect.Ends.{catch-returned, read-ok}
use eirenyx.Api.Meta.{Key, key_of}
use eirenyx.Api.Policy.{Policy, LitmusPolicySpec, PolicySpec, policy_type_litmus}
use eirenyx.Api.Report.{PolicyReport, PolicyReportSpec, PolicyReportStatus, ReportPhase, Verdict}
use eirenyx.Cluster.{Cluster}
use eirenyx.Controller.{new_report_engine, completed}
use eirenyx.Controller.Reports as ReportControl
use eirenyx.Policy.Litmus.{generate_report}
use eirenyx.Report.Litmus as LitmusReport
use eirenyx.Controller.Reported.{ReportServer, IsOpen}
use eirenyx.Controller.Reported.Publish.{IsPending}

module _ (C : Cluster) (server : ReportServer C) where
  -- The report is stored and completed, and every experiment counts as passed.
  pub record IsReported (p : Policy) (l : LitmusPolicySpec) (s : C.State) : Type 0 where
    pub report : PolicyReport
    pub got : C.reports.get (key_of (generate_report p).meta) s ≡ ok report
    pub about : report.spec ≡ (generate_report p).spec
    pub completed_phase : report.status.phase ≡ ReportPhase.completed
    pub verdict : report.status.summary.verdict ≡ Verdict.pass
    pub all_checked : report.status.summary.total_checks ≡ int32 (length l.experiments)
    pub all_passed : report.status.summary.passed ≡ int32 (length l.experiments)
    pub none_failed : report.status.summary.failed ≡ pos 0

  abbrev policy_key : PolicyReport → Key
  policy_key b = record { namespace = b.namespace; name = b.spec.policy_ref.name }

  abbrev completed_report : PolicyReport → LitmusPolicySpec → PolicyReport
  completed_report b l = record b { status = LitmusReport.new_status C l.experiments }

  differs :
      (st : PolicyReportStatus) (l : LitmusPolicySpec)
      → IsOpen st
      → LitmusReport.status_equal st (LitmusReport.new_status C l.experiments) ≡ false
  unfolding LitmusReport.status_equal LitmusReport.new_status
  differs st l (inl h) = rw h refl
  differs st l (inr h) = rw h refl

  -- The handler writes its status over the empty one.
  handler_runs :
      (b : PolicyReport) (q : Policy) (l : LitmusPolicySpec) (c : PolicyReport) (s : C.State)
      → IsOpen b.status
      → C.policies.get (policy_key b) s ≡ ok q
      → q.spec.litmus ≡ some l
      → (C.reports.update_status (completed_report b l) s).0 ≡ ok c
      → LitmusReport.reconcile C b s
        ≡ (returned tt, (C.reports.update_status (completed_report b l) s).1)
  unfolding LitmusReport.reconcile LitmusReport.report_experiments ◌>>◌
  handler_runs b q l c s status got has written =
      ground (arith, differs b.status l status, got, has, written)

  with_report_runs :
      (b : PolicyReport) (q : Policy) (l : LitmusPolicySpec) (c : PolicyReport) (s : C.State)
      → IsOpen b.status
      → C.policies.get (policy_key b) s ≡ ok q
      → q.spec.litmus ≡ some l
      → new_report_engine C b ≡ ok (LitmusReport.reconcile C)
      → (C.reports.update_status (completed_report b l) s).0 ≡ ok c
      → ReportControl.with_report C b s
        ≡ (returned completed, (C.reports.update_status (completed_report b l) s).1)
  unfolding ReportControl.with_report ReportControl.run_handler ◌>>◌
  with_report_runs b q l c s status got has chosen written =
      ground (arith, status, handler_runs b q l c s status got has written)

  litmus_handler :
      (b : PolicyReport)
      → b.spec.type ≡ policy_type_litmus
      → new_report_engine C b ≡ ok (LitmusReport.reconcile C)
  unfolding new_report_engine
  litmus_handler b h = rw h refl

  pub reported :
      (p : Policy) (l : LitmusPolicySpec) (s : C.State)
      → p.spec.type ≡ policy_type_litmus
      → p.spec.litmus ≡ some l
      → IsPending C server p s
      → ((ReportControl.reconcile C (key_of (generate_report p).meta) s).0 ≡ returned completed)
        × IsReported p l (ReportControl.reconcile C (key_of (generate_report p).meta) s).1
  unfolding ReportControl.reconcile generate_report LitmusReport.new_status
  reported p l s type has pending =
      let b = pending.report in
      let a : PolicyReport = record b { status = LitmusReport.new_status C l.experiments } in
      let seen : C.reports.get (key_of a.meta) s ≡ ok b =
        ap (λ x. C.reports.get x s) pending.report_key ∙ pending.report_got in
      let (c, written, there, spec, status) =
        server.report_status_updated b (LitmusReport.new_status C l.experiments) s seen in
      let t = (C.reports.update_status a s).1 in
      let get = C.reports.get (key_of (generate_report p).meta) in
      let at : policy_key b ≡ key_of p.meta = λ i. record {
        namespace = (pending.report_key i).namespace;
        name = (pending.report_spec i).policy_ref.name;
      } in
      let chosen : new_report_engine C b ≡ ok (LitmusReport.reconcile C) =
        litmus_handler b (ap (λ (sp : PolicyReportSpec). sp.type) pending.report_spec ∙ type) in
      let run : ReportControl.reconcile C (key_of (generate_report p).meta) s
          ≡ (returned completed, t) =
        catch-returned (read get) s _ (ReportControl.with_report C)
          (read-ok get s pending.report_got)
        ∙ with_report_runs b pending.policy l c s pending.report_open
            (ap (λ x. C.policies.get x s) at ∙ pending.policy_got)
            (ap (λ (sp : PolicySpec). sp.litmus) pending.policy_spec ∙ has) chosen written in
      (
        ap (λ o. o.0) run,
        subst (λ o. IsReported p l o.1) (sym run)
            (record {
              report = c;
              got = ap (λ x. C.reports.get x t) (sym pending.report_key) ∙ there;
              about = spec ∙ pending.report_spec;
              completed_phase = ap (λ (st : PolicyReportStatus). st.phase) status;
              verdict = ap (λ (st : PolicyReportStatus). st.summary.verdict) status;
              all_checked = ap (λ (st : PolicyReportStatus). st.summary.total_checks) status;
              all_passed = ap (λ (st : PolicyReportStatus). st.summary.passed) status;
              none_failed = ap (λ (st : PolicyReportStatus). st.summary.failed) status;
            }),
      )
