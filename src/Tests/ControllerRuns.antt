-- ===== src/Tests/ControllerRuns.antt =====
-- Runs of the controllers.
use eirenyx.Base.{
  ◌≡◌, inl, inr, Option-cases, refl, true, [], ◌∷◌, All, contains, entry, none, put_entry,
}
use eirenyx.Base.Int.{pos}
use eirenyx.Effect.{returned, panicked, wrapping, ◌>>◌, ignore_not_found}
use eirenyx.Api.Meta.{Key, key_of}
use eirenyx.Api.Policy.{Policy}
use eirenyx.Api.Report.{PolicyReport}
use eirenyx.Api.Workload.{Job}
use eirenyx.Cluster.Laws.{IsGone}
use eirenyx.Controller.{new_tool_service, new_policy_engine}
use eirenyx.Controller.Policies as PolicyControl
use eirenyx.Controller.Policies.{publish_report, refer_to, observed, update_policy_status}
use eirenyx.Controller.Policies.Finalizer.{deleting_panics, deleted_policy_jobs}
use eirenyx.Controller.Policies.Rescan.{HasStatus, run_engine_keeps_status}
use eirenyx.Controller.Policies.{run_engine}
use eirenyx.Api.Meta.{named}
use eirenyx.Controller.{falco_engine, litmus_engine}
use eirenyx.Api.Report.{ReportPhase, empty_summary}
use eirenyx.Base.Int.{pos}
use eirenyx.Tests.Server.{memory-PolicyKeeps, same_reports-HasStatus, store-HasStatus}
use eirenyx.Controller.Reports as ReportControl
use eirenyx.Controller.Reports.Orphans.{orphan_report-IsGone}
use eirenyx.Controller.Tools as ToolControl
use eirenyx.Controller.Tools.Health.{serve_completes, settle}
use eirenyx.Helm.{
  install_or_upgrade, settings, ensure_repo, add_repo, install_chart, upgrade_chart,
  is_absent_release,
}
use eirenyx.Kube
use eirenyx.Tools
use eirenyx.Tools.{falco_service, trivy_service}
use eirenyx.Policy.Trivy
use eirenyx.Policy.Trivy.{scan_key, scan_job, scan_job_name}
use eirenyx.Tests.Memory.{find, replace, remove, table, table-DeleteLaws, missing}
use eirenyx.Tests.World.{
  World, empty_world, memory, library, helm_sdk, find_entry, job_place, report_place,
}
use eirenyx.Tests.Samples.{
  a_spec, a_policy, a_scan, a_tool, deleted, finished_job, trivy_policy, two_scans, falco_policy,
  report_of,
}

abbrev images : Key
images = record { namespace = "default"; name = "images" }

-- A Trivy policy without its spec, on its way out.
abbrev bare_policy : Policy
bare_policy = deleted (a_policy "images" (a_spec "trivy"))

abbrev bare_world : World
bare_world = record empty_world { policies = bare_policy ∷ []; tools = a_tool "trivy" ∷ [] }

deleting_panics_example : PolicyControl.reconcile memory images bare_world ≡ (panicked, bare_world)
unfolding table find library contains
deleting_panics_example =
    deleting_panics memory images bare_policy (a_tool "trivy") 9 bare_world refl refl refl refl refl
      refl

abbrev leaving : World
leaving = record empty_world {
  policies = deleted trivy_policy ∷ [];
  tools = a_tool "trivy" ∷ [];
  jobs = finished_job (a_scan "web") ∷ finished_job (a_scan "db") ∷ [];
}

-- The update of a policy leaves the table of Jobs alone.
policies_apart :
    (q : Policy) (t : World) (x : Key)
    → memory.jobs.stored x (memory.policies.update q t).1 ≡ memory.jobs.stored x t
unfolding table
policies_apart q t x = elim (Option-cases (find Policy.meta (key_of q.meta) t.policies)) [
  | inl e ↦ rw e refl
  | inr (b, e) ↦ rw e refl
]

deleted_policy_jobs_example :
    All
      (λ scan.
        IsGone Job.meta memory.jobs
          (scan_key (deleted trivy_policy) scan)
          (PolicyControl.reconcile memory images leaving).1)
      two_scans.scans
unfolding table find library contains replace remove PolicyControl.reconcile
    PolicyControl.with_policy PolicyControl.with_tool new_policy_engine PolicyControl.with_engine
    PolicyControl.finalize Trivy.cleanup Trivy.cleanup_scans ◌>>◌ Trivy.delete_scan ignore_not_found
    scan_job scan_job_name PolicyControl.update_policy
deleted_policy_jobs_example =
    deleted_policy_jobs memory images (deleted trivy_policy) (a_tool "trivy") 9 leaving
      (table-DeleteLaws Job.meta job_place (λ l s. refl)) policies_apart two_scans refl refl refl
      refl refl refl refl

orphan_report-IsGone_example :
    IsGone PolicyReport.meta memory.reports
      (key_of (report_of "trivy" "images").meta)
      (ReportControl.reconcile memory
        (record { namespace = "default"; name = "trivy-report-images" })
        (record empty_world { reports = report_of "trivy" "images" ∷ [] })).1
unfolding table find remove ReportControl.reconcile ReportControl.with_report
    ReportControl.delete_orphan ◌>>◌
orphan_report-IsGone_example =
    orphan_report-IsGone memory (table-DeleteLaws PolicyReport.meta report_place (λ l s. refl))
      (record { namespace = "default"; name = "trivy-report-images" }) (report_of "trivy" "images")
      (record empty_world { reports = report_of "trivy" "images" ∷ [] }) missing refl refl refl refl
      refl

-- A completed report of an earlier generation.
abbrev old_report : PolicyReport
old_report = record (report_of "falco" "shells") {
  meta = named "falco-report-shells" "default";
  status = record { phase = ReportPhase.completed; summary = empty_summary; details = "seen" };
}

abbrev old_key : Key
old_key = record { namespace = "default"; name = "falco-report-shells" }

abbrev moved_on : Policy
moved_on = record falco_policy { meta = record (named "shells" "default") { generation = pos 2 } }

abbrev outdated : World
outdated = record empty_world { policies = moved_on ∷ []; reports = old_report ∷ [] }

run_engine_keeps_status_example :
    HasStatus memory old_key old_report.status
      (run_engine memory (falco_engine memory) moved_on outdated).1
    × HasStatus memory old_key old_report.status
        (run_engine memory (litmus_engine memory) moved_on outdated).1
unfolding table find
run_engine_keeps_status_example =
    run_engine_keeps_status memory old_key old_report.status
      (memory-PolicyKeeps (HasStatus memory old_key old_report.status)
        (same_reports-HasStatus old_key old_report.status))
      (store-HasStatus old_key old_report.status) moved_on outdated (old_report, refl, refl)

-- The release of the tool is there, and its deployment is available.
abbrev pub healthy_world : World
healthy_world = record empty_world {
  tools = a_tool "trivy" ∷ [];
  releases = ("trivy-operator", ("aqua/trivy-operator", none)) ∷ [];
  deployments =
      (
        "trivy-operator",
        record {
          generation = pos 1;
          observed_generation = pos 1;
          conditions = record { type = "Available"; status = "True" } ∷ [];
        },
      )
      ∷ [];
}

serve_completes_example :
    ((settle (trivy_service memory) (a_tool "trivy") healthy_world).0 ≡ returned tt)
    × (((trivy_service memory).check_health
          (a_tool "trivy")
          (settle (trivy_service memory) (a_tool "trivy") healthy_world).1).0
        ≡ returned true)
unfolding new_tool_service ToolControl.serve ToolControl.run_service trivy_service
    Tools.install_plain ◌>>◌ wrapping Kube.ensure_namespace table Kube.create_namespace find replace
    install_or_upgrade settings helm_sdk put_entry ensure_repo add_repo install_chart upgrade_chart
    is_absent_release ToolControl.check ToolControl.publish_health Kube.deployment_ready
    Kube.is_deployment_ready Kube.is_available Tools.resolved_namespace find_entry entry contains
    ToolControl.with_health
serve_completes_example =
    serve_completes memory (a_tool "trivy") (trivy_service memory) healthy_world refl refl
