-- ===== src/Controller/Reports.antt =====
-- internal/controller/policyreport_controller.go: `Reconcile` of the report controller.
pub mod Calm
pub mod Orphans
pub mod Writes
use eirenyx.Base.{Bool, true, false, if◌then◌else◌}
use eirenyx.Effect.{Exec, pure, lift, read, call, catch, is_not_found}
use eirenyx.Api.Meta.{Key}
use eirenyx.Api.Report.{PolicyReport, ReportPhase}
use eirenyx.Cluster.{Cluster}
use eirenyx.Controller.{Answer, completed, completed_with, requeued_after, new_report_engine}

abbrev pub is_completed : PolicyReport → Bool
is_completed report = elim (report.status.phase) [ ReportPhase.completed ↦ true | _ ↦ false ]

module _ (C : Cluster) where
  -- A report whose policy is gone.
  unfoldable pub delete_orphan : PolicyReport → Exec C.State Answer
  delete_orphan report =
      catch (call (C.reports.delete report)) (λ e. pure (completed_with e)) (λ _. pure completed)

  unfoldable pub run_handler : PolicyReport → Exec C.State Answer
  run_handler report =
      catch (lift (new_report_engine C report)) (λ e. pure (completed_with e))
        (λ handler. catch (handler report) (λ _. pure (requeued_after 5)) (λ _. pure completed))

  unfoldable pub with_report : PolicyReport → Exec C.State Answer
  with_report report =
      if is_completed report
      then pure completed
      else catch
          (read (
            C.policies.get
              (record { namespace = report.namespace; name = report.spec.policy_ref.name })))
          (λ e. if is_not_found e then delete_orphan report else pure (completed_with e))
          (λ _. run_handler report)

  unfoldable pub reconcile : Key → Exec C.State Answer
  reconcile key =
      catch (read (C.reports.get key))
        (λ e. pure (if is_not_found e then completed else completed_with e)) with_report
