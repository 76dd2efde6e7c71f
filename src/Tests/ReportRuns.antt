-- ===== src/Tests/ReportRuns.antt =====
-- Runs of the report handlers.
use eirenyx.Base.{
  inr, ◌≡◌, ◌≢◌, ◌↔◌, ◌≤◌, refl, some, String, List, [], ◌∷◌, All, map, arith, entry,
}
use eirenyx.Base.Int.{pos}
use eirenyx.Effect.{panicked, wrapping, ◌>>◌}
use eirenyx.Base.Text.{trim_space}
use eirenyx.Api.Report.{PolicyReport, Verdict}
use eirenyx.Api.Trivy.{UiVulnerability}
use eirenyx.Api.Workload.{Pod}
use eirenyx.Policy.Trivy.{scan_job, scan_job_name, trivy_scan_name_label_key}
use eirenyx.Kube.{list_pods, get_pod_logs}
use eirenyx.Report.Trivy
use eirenyx.Report.Trivy.{report_scans, summary_of, pick_newest}
use eirenyx.Report.Trivy.Finished.{IsFinished, IsPublished, report_scans_complete}
use eirenyx.Report.Trivy.Newest.{pick_newest_latest, IsFirstNewest, created}
use eirenyx.Report.Trivy.Summary.{summary_of_findings}
use eirenyx.Report.Flatten.{flatten_vulnerabilities, ui_vulnerability}
use eirenyx.Report.Flatten.Order.{flatten_vulnerabilities_lem, findings}
use eirenyx.Api.Meta.{Key}
use eirenyx.Api.Policy.{FalcoRuleSelector}
use eirenyx.Policy.Falco.Validate.{falco_validate_iff}
use eirenyx.Controller.Reports as ReportControl
use eirenyx.Report.Falco.Rules.{selector_panics}
use eirenyx.Tests.Memory.{find, replace, select, has_labels, table}
use eirenyx.Tests.World.{World, empty_world, memory, library, find_entry, a_report, a_vulnerability}
use eirenyx.Tests.Samples.{
  trivy_policy, two_scans, a_scan, finished_job, falco_policy, a_falco_spec, report_of, a_pod,
}

abbrev trivy_report : PolicyReport
trivy_report = report_of "trivy" "images"

abbrev a_scan_pod : String → Pod
a_scan_pod name =
    a_pod name
      (("job-name", Trivy.scan_job_name "images" name) ∷ (trivy_scan_name_label_key, name) ∷ []) 5

-- Both Jobs have finished, each with a pod and its log.
abbrev scanned : World
scanned = record empty_world {
  policies = trivy_policy ∷ [];
  reports = trivy_report ∷ [];
  jobs = finished_job (a_scan "web") ∷ finished_job (a_scan "db") ∷ [];
  pods = a_scan_pod "web" ∷ a_scan_pod "db" ∷ [];
  logs = ("web", "{}") ∷ ("db", "{}") ∷ [];
}

report_scans_complete_example :
    All (IsFinished memory trivy_policy scanned) two_scans.scans
    × IsPublished memory trivy_report two_scans.scans scanned
        (report_scans memory trivy_report trivy_policy two_scans.scans scanned).1
unfolding report_scans Trivy.collect_scans Trivy.collect_scan Trivy.collect_job
    Trivy.read_scan_report Trivy.read_newest Trivy.read_pod list_pods get_pod_logs Trivy.parse_logs
    Trivy.publish Trivy.add_report Trivy.add_pending Trivy.job_finished Trivy.pick_newest
    Trivy.scan_job_name scan_job scan_job_name ◌>>◌ table find select has_labels replace library
    find_entry entry wrapping trim_space
report_scans_complete_example =
    report_scans_complete memory trivy_report trivy_policy two_scans.scans scanned refl

abbrev young : Pod
young = a_pod "young" [] 7

abbrev some_pods : List Pod
some_pods = young ∷ a_pod "old" [] 3 ∷ a_pod "twin" [] 7 ∷ []

pick_newest_latest_example :
    IsFirstNewest (pick_newest (a_pod "first" [] 1) some_pods) (a_pod "first" [] 1 ∷ some_pods)
    × All
        (λ q. created q ≤ created (pick_newest (a_pod "first" [] 1) some_pods))
        (a_pod "first" [] 1 ∷ some_pods)
pick_newest_latest_example = pick_newest_latest (a_pod "first" [] 1) some_pods

abbrev two_findings : List UiVulnerability
two_findings = ui_vulnerability a_vulnerability ∷ ui_vulnerability a_vulnerability ∷ []

summary_of_findings_example :
    ((summary_of two_findings).total_checks ≡ pos 2)
    × ((summary_of two_findings).failed ≡ pos 2)
    × ((summary_of two_findings).passed ≡ pos 0)
    × (((summary_of two_findings).verdict ≡ Verdict.pass) ↔ (two_findings ≡ []))
    × (((summary_of two_findings).verdict ≡ Verdict.fail) ↔ (two_findings ≢ []))
summary_of_findings_example = summary_of_findings two_findings (omega arith)

flatten_vulnerabilities_lem_example :
    flatten_vulnerabilities (some a_report) ≡ map ui_vulnerability (findings a_report.results)
flatten_vulnerabilities_lem_example = flatten_vulnerabilities_lem a_report

abbrev shells_report : PolicyReport
shells_report = report_of "falco" "shells"

abbrev selected : World
selected = record empty_world { policies = falco_policy ∷ []; reports = shells_report ∷ [] }

abbrev shells_key : Key
shells_key = record { namespace = "default"; name = "trivy-report-shells" }

abbrev a_selector : FalcoRuleSelector
a_selector = record { tags = "shell" ∷ []; priorities = [] }

selector_panics_example : ReportControl.reconcile memory shells_key selected ≡ (panicked, selected)
unfolding table find
selector_panics_example =
    selector_panics memory shells_key shells_report falco_policy a_falco_spec a_selector selected
      refl refl refl refl
      ((falco_validate_iff falco_policy).1
        (refl, (a_falco_spec, refl, inr (a_selector, refl, refl))))
      refl refl
