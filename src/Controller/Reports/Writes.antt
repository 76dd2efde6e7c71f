-- ===== src/Controller/Reports/Writes.antt =====
-- internal/controller/policyreport_controller.go: the statuses of reports after a reconcile.
use eirenyx.Base.{◌≡◌, false, inl, inr, Bool-cases, arith}
use eirenyx.Effect.{ok}
use eirenyx.Effect.Keeps.{Keeps, Keeps-pure, Keeps-catch, keeps_rules}
use eirenyx.Effect.Yields.{Keeps-catch_yield, Keeps-catch-lift, Yields-read}
use eirenyx.Api.Meta.{Key}
use eirenyx.Api.Report.{PolicyReport}
use eirenyx.Cluster.{Cluster}
use eirenyx.Cluster.Frame.{RandomKeeps}
use eirenyx.Controller.{Handler, new_report_engine}
use eirenyx.Controller.Factory.{new_report_engine_cases}
use eirenyx.Controller.Reports.{reconcile, with_report, run_handler, delete_orphan, is_completed}
use eirenyx.Report.Sound.{Versions, AllSound, IsSound, StatusLaws, get-IsSound, delete-AllSound}
use eirenyx.Report.Writes.{
  IsUnfinished, trivy_handler-Keeps, litmus_handler-Keeps, falco_handler-Keeps,
}

-- A sound report that has not completed has an empty summary.
unfinished : (r : PolicyReport) → IsSound r.status → is_completed r ≡ false → IsUnfinished r.status
unfinished r q h = ground arith

module _ (C : Cluster) {V : Versions C} (laws : StatusLaws C V)
    (random : RandomKeeps C (AllSound C V)) where
  handler-Keeps :
      (r : PolicyReport) (handler : Handler C.State)
      → new_report_engine C r ≡ ok handler
      → IsUnfinished r.status
      → Keeps (AllSound C V) (handler r)
  handler-Keeps r handler h q = elim (new_report_engine_cases C r handler h) [
    | inl f ↦ rw f (falco_handler-Keeps C laws random r)
    | inr other ↦ elim other [
      | inl l ↦ rw l (litmus_handler-Keeps C laws r)
      | inr t ↦ rw t (trivy_handler-Keeps C laws r q)
    ]
  ]

  run_handler-Keeps :
      (r : PolicyReport) → IsUnfinished r.status → Keeps (AllSound C V) (run_handler C r)
  unfolding run_handler
  run_handler-Keeps r q =
      Keeps-catch-lift (new_report_engine C r) (λ e. Keeps-pure _)
        (λ handler h.
          Keeps-catch (handler-Keeps r handler h q) (λ e. Keeps-pure _) (λ _. Keeps-pure _))

  with_report-Keeps : (r : PolicyReport) → IsSound r.status → Keeps (AllSound C V) (with_report C r)
  unfolding with_report delete_orphan
  with_report-Keeps r q = elim (Bool-cases (is_completed r)) [
    | inl e ↦ rw e (Keeps-pure _)
    | inr e ↦
        let run = run_handler-Keeps r (unfinished r q e) in
        rw e (search (keeps_rules, delete-AllSound C laws))
  ]

  -- However it ends, a reconcile of the report controller keeps every stored report sound.
  pub reports_reconcile-Keeps : (key : Key) → Keeps (AllSound C V) (reconcile C key)
  unfolding reconcile
  reports_reconcile-Keeps key =
      Keeps-catch_yield
        (Yields-read (C.reports.get key) (λ s h r e. get-IsSound C laws key s r h e))
        (λ e. Keeps-pure _) with_report-Keeps
