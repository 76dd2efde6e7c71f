-- ===== src/Controller/Reports/Orphans.antt =====
-- internal/controller/policyreport_controller.go: reports whose policy is gone.
use eirenyx.Base.{◌≡◌, sym, ap, ◌∙◌, false, inl, inr, arith}
use eirenyx.Effect.{Error, Reason, ok, err, returned, Result-cases, ◌>>◌}
use eirenyx.Api.Meta.{Key, key_of}
use eirenyx.Api.Report.{PolicyReport}
use eirenyx.Cluster.{Cluster}
use eirenyx.Cluster.Laws.{DeleteLaws, IsGone}
use eirenyx.Controller.{completed}
use eirenyx.Controller.Reports.{reconcile, with_report, delete_orphan, is_completed}

module _ (C : Cluster) (laws : DeleteLaws PolicyReport.meta C.reports) where
  delete_orphan-IsGone :
      (report : PolicyReport) (s : C.State)
      → (delete_orphan C report s).0 ≡ returned completed
      → IsGone PolicyReport.meta C.reports (key_of report.meta) (delete_orphan C report s).1
  unfolding delete_orphan ◌>>◌
  delete_orphan-IsGone report s h = elim (Result-cases (C.reports.delete report s).0) [
    | inl (a, e) ↦
        let last : (delete_orphan C report s).1 ≡ (C.reports.delete report s).1 = ground arith in
        rw last (laws.delete_removes report s (rw e tt))
    | inr (f, e) ↦ ground arith
  ]

  -- When the reconcile of a report that has not completed finds no policy of its name and answers
  -- with no requeue and no error, the report is no longer stored or is marked for deletion.
  pub orphan_report-IsGone :
      (key : Key) (report : PolicyReport) (s : C.State) (e : Error)
      → C.reports.get key s ≡ ok report
      → is_completed report ≡ false
      → C.policies.get
          (record { namespace = report.namespace; name = report.spec.policy_ref.name })
          s
        ≡ err e
      → e.reason ≡ Reason.not_found
      → (reconcile C key s).0 ≡ returned completed
      → IsGone PolicyReport.meta C.reports (key_of report.meta) (reconcile C key s).1
  unfolding reconcile with_report ◌>>◌
  orphan_report-IsGone key report s e got unfinished absent reason h =
      let eq : reconcile C key s ≡ delete_orphan C report s = ground arith in
      rw eq (delete_orphan-IsGone report s (ap (λ o. o.0) (sym eq) ∙ h))
