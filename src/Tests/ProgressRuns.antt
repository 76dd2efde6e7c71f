-- ===== src/Tests/ProgressRuns.antt =====
-- Runs that get to their end: scans, their Jobs and their reports, and merged values.
use eirenyx.Base.{◌≡◌, ◌↔◌, ◌⊎◌, refl, some, String, List, [], ◌∷◌, true, if◌then◌else◌}
use eirenyx.Base.Int.{pos}
use eirenyx.Base.Text.{decimal, trim_space}
use eirenyx.Effect.{returned}
use eirenyx.Api.Policy.{TrivyScan}
use eirenyx.Api.Trivy.{TrivyCliReport}
use eirenyx.Api.Workload.{Job, Pod}
use eirenyx.Helm.Paths.{IsMap, leaf_at, decides, leaf_at-merge_value}
use eirenyx.Helm.Values.{lookup, Value, text, obj, end, field, merge_value}
use eirenyx.Policy.Trivy
use eirenyx.Policy.Trivy.{scan_key, scan_args}
use eirenyx.Policy.Trivy.Args.{read_args, request_of, read_args-scan_args}
use eirenyx.Policy.Trivy.Refines.{HasJob, IsWanted, reconcile_refines}
use eirenyx.Policy.Trivy.Settles.{reconcile_settles}
use eirenyx.Report.Trivy as TrivyReport
use eirenyx.Report.Trivy.{report_scans}
use eirenyx.Report.Trivy.Delivers.{Delivers, all_findings, finished, report_scans_returns}
use eirenyx.Utils.{to_yaml_block, trim_newlines}
use eirenyx.Utils.Blocks.{read_block, read_block-to_yaml_block}
use eirenyx.Tests.Memory.{find, replace, select, table, table-CreateLaws, table-IsFresh}
use eirenyx.Tests.Memory.Answers.{table-CreatesOnly, table-IsUp}
use eirenyx.Tests.Samples.{trivy_policy, two_scans, a_scan, finished_job, report_of, a_pod}
use eirenyx.Tests.Server.{memory-OwnerAnswers}
use eirenyx.Tests.World.{
  World, empty_world, memory, library, library-OwnerLaws, find_entry, a_report, job_place,
}

-- One of the two scans has its Job.
abbrev started : World
started = record empty_world { jobs = finished_job (a_scan "web") ∷ [] }

reconcile_settles_example :
    ((Trivy.reconcile memory trivy_policy started).0 ≡ returned tt)
    × (Trivy.reconcile memory trivy_policy (Trivy.reconcile memory trivy_policy started).1
        ≡ (returned tt, (Trivy.reconcile memory trivy_policy started).1))
reconcile_settles_example =
    reconcile_settles memory (table-IsUp Job.meta job_place) library-OwnerLaws
      (table-CreateLaws Job.meta job_place (λ l s. refl)) (table-IsFresh Job.meta job_place)
      memory-OwnerAnswers trivy_policy two_scans started refl

reconcile_refines_example :
    HasJob memory
      (scan_key trivy_policy (a_scan "db"))
      (Trivy.reconcile memory trivy_policy started).1
    ↔ (HasJob memory (scan_key trivy_policy (a_scan "db")) started
        ⊎ IsWanted trivy_policy two_scans.scans (scan_key trivy_policy (a_scan "db")))
reconcile_refines_example =
    reconcile_refines memory (table-CreatesOnly Job.meta job_place (λ l s. refl)) library-OwnerLaws
      (table-CreateLaws Job.meta job_place (λ l s. refl)) (table-IsFresh Job.meta job_place)
      trivy_policy two_scans started (scan_key trivy_policy (a_scan "db")) refl
      (reconcile_settles memory (table-IsUp Job.meta job_place) library-OwnerLaws
        (table-CreateLaws Job.meta job_place (λ l s. refl)) (table-IsFresh Job.meta job_place)
        memory-OwnerAnswers trivy_policy two_scans started refl).0

abbrev strict_scan : TrivyScan
strict_scan = record (a_scan "web") {
  severity = "HIGH,CRITICAL";
  ignore_unfixed = true;
  vulnerability_types = "os" ∷ "library" ∷ [];
  exit_code = some (pos 1);
}

read_args-scan_args_example : read_args (scan_args strict_scan) ≡ some (request_of strict_scan)
read_args-scan_args_example = read_args-scan_args strict_scan

abbrev scan_pod : String → Pod
scan_pod name = a_pod name (("job-name", TrivyReport.scan_job_name "images" name) ∷ []) 5

-- Each Job has finished, with a pod that has ended and its log.
abbrev ended : World
ended = record empty_world {
  policies = trivy_policy ∷ [];
  reports = report_of "trivy" "images" ∷ [];
  jobs = finished_job (a_scan "web") ∷ finished_job (a_scan "db") ∷ [];
  pods = scan_pod "web" ∷ scan_pod "db" ∷ [];
  logs = ("web", "{}") ∷ ("db", "{}") ∷ [];
}

abbrev both_reports : List TrivyCliReport
both_reports = a_report ∷ a_report ∷ []

delivered_web : Delivers memory trivy_policy ended (a_scan "web") a_report
unfolding table find select Trivy.scan_job Trivy.scan_job_name TrivyReport.scan_job_name
    TrivyReport.job_finished TrivyReport.pick_newest find_entry trim_space library
delivered_web = record {
  job = finished_job (a_scan "web");
  pod = scan_pod "web";
  pods = [];
  log = "{}";
  job_found = refl;
  job_ended = refl;
  pods_listed = refl;
  pod_ended = refl;
  stream = "{}";
  log_opened = refl;
  log_read = refl;
  log_written = refl;
  log_parsed = refl;
}

delivered_db : Delivers memory trivy_policy ended (a_scan "db") a_report
unfolding table find select Trivy.scan_job Trivy.scan_job_name TrivyReport.scan_job_name
    TrivyReport.job_finished TrivyReport.pick_newest find_entry trim_space library
delivered_db = record {
  job = finished_job (a_scan "db");
  pod = scan_pod "db";
  pods = [];
  log = "{}";
  job_found = refl;
  job_ended = refl;
  pods_listed = refl;
  pod_ended = refl;
  stream = "{}";
  log_opened = refl;
  log_read = refl;
  log_written = refl;
  log_parsed = refl;
}

report_scans_returns_example :
    report_scans memory (report_of "trivy" "images") trivy_policy two_scans.scans ended ≡ (
      returned tt,
      (memory.reports.update_status
          (finished (report_of "trivy" "images") (all_findings both_reports) "2")
          ended).1,
    )
unfolding table find replace library decimal
report_scans_returns_example =
    report_scans_returns memory (report_of "trivy" "images") trivy_policy (a_scan "web")
      (a_scan "db" ∷ []) a_report (a_report ∷ []) "2"
      (finished (report_of "trivy" "images") (all_findings both_reports) "2") ended
      (delivered_web, (delivered_db, tt)) refl refl refl

abbrev given : Value
given = obj (field "image" (obj (field "tag" (text "2") end)) (field "replicas" (text "3") end))

abbrev chart_values : Value
chart_values = obj (field "image" (obj (field "tag" (text "1") (field "name" (text "a") end))) end)

leaf_at-merge_value_example :
    leaf_at ("image" ∷ "tag" ∷ []) (merge_value given (some chart_values)) ≡ (
      if decides ("image" ∷ "tag" ∷ []) given
      then leaf_at ("image" ∷ "tag" ∷ []) given
      else leaf_at ("image" ∷ "tag" ∷ []) chart_values)
unfolding IsMap lookup
leaf_at-merge_value_example =
    leaf_at-merge_value ("image" ∷ "tag" ∷ []) given chart_values
      (refl, (refl, tt, tt), (refl, tt, tt))

abbrev two_lines : String
two_lines = "a: 1\nb: 2\n\n"

read_block-to_yaml_block_example :
    (text : String) × (to_yaml_block two_lines (pos 2) ≡ some text)
    × (read_block 2 text ≡ some (trim_newlines two_lines))
read_block-to_yaml_block_example = read_block-to_yaml_block two_lines 2
