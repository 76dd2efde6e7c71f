-- ===== src/Report/Trivy/Delivers.antt =====
-- internal/report/trivy.go: the handler where every scan has finished and left a readable log.
use eirenyx.Base.{
  String, ◌+◌, suc, ◌≡◌, refl, true, false, some, List, [], ◌∷◌, ◌++◌, length, arith,
}
use eirenyx.Base.Text.{is_blank, trim_space}
use eirenyx.Effect.{returned, ok, wrapping, ◌>>=◌, ◌>>◌}
use eirenyx.Api.Policy.{Policy, TrivyScan}
use eirenyx.Api.Report.{PolicyReport, ReportPhase}
use eirenyx.Api.Trivy.{TrivyCliReport, UiVulnerability}
use eirenyx.Api.Workload.{Job, Pod}
use eirenyx.Kube.{list_pods, get_pod_logs}
use eirenyx.Cluster.{Cluster}
use eirenyx.Report.Flatten.{flatten_vulnerabilities}
use eirenyx.Report.Flatten.Order.{append_assoc, append_nil}
use eirenyx.Report.Trivy.{
  Collected, nothing_collected, add_report, collect_job, collect_scan, collect_scans, scan_key,
  job_finished, publish, report_scans, read_scan_report, read_newest, read_pod, parse_logs,
  summary_of, pick_newest, is_terminal, scan_job_name, trivy_container_name,
}

-- The findings of all reports, one report after the other.
abbrev pub all_findings : List TrivyCliReport → List UiVulnerability
all_findings [] = []
all_findings (r ∷ rs) = flatten_vulnerabilities (some r) ++ all_findings rs

-- The report with its findings, completed.
abbrev pub finished : PolicyReport → List UiVulnerability → String → PolicyReport
finished report findings bytes = record report {
  status = record { phase = ReportPhase.completed; summary = summary_of findings; details = bytes };
}

-- The loop's accumulator when every scan has a report.
add_reports : List TrivyScan → List TrivyCliReport → Collected → Collected
add_reports [] rs acc = acc
add_reports (scan ∷ scans) [] acc = acc
add_reports (scan ∷ scans) (r ∷ rs) acc = add_reports scans rs (add_report scan r acc)

module _ (C : Cluster) where
  -- The Job of the scan has finished, its newest pod has ended, and the log of that pod is the report.
  pub record Delivers (p : Policy) (s : C.State) (scan : TrivyScan) (r : TrivyCliReport)
      : Type 0 where
    pub job : Job
    pub pod : Pod
    pub pods : List Pod
    pub log : String
    pub job_found : C.jobs.get (scan_key C p scan) s ≡ ok job
    pub job_ended : job_finished job ≡ true
    pub pods_listed :
        C.pods.list
          (record {
            namespace = some p.namespace;
            labels = ("job-name", scan_job_name p.name scan.name) ∷ [];
          })
          s
        ≡ ok (pod ∷ pods)
    pub pod_ended : is_terminal (pick_newest pod pods).phase ≡ true
    pub stream : C.LogStream
    pub log_opened :
        C.open_logs
          (pick_newest pod pods).namespace
          (pick_newest pod pods).name
          trivy_container_name
          s
        ≡ ok stream
    pub log_read : C.copy_logs stream s ≡ ok log
    pub log_written : is_blank (trim_space log) ≡ false
    pub log_parsed : C.lib.unmarshal_trivy (trim_space log) ≡ ok r

  -- Each scan delivers its report.
  abbrev pub AllDeliver : Policy → C.State → List TrivyScan → List TrivyCliReport → Type 0
  AllDeliver p s [] [] = Unit
  AllDeliver p s [] (r ∷ rs) = ⊥
  AllDeliver p s (scan ∷ scans) [] = ⊥
  AllDeliver p s (scan ∷ scans) (r ∷ rs) = Delivers p s scan r × AllDeliver p s scans rs

  read_scan_report_lem :
      (p : Policy) (s : C.State) (scan : TrivyScan) (r : TrivyCliReport)
      → Delivers p s scan r
      → read_scan_report C p.namespace (scan_job_name p.name scan.name) s ≡ (returned r, s)
  unfolding read_scan_report read_newest read_pod list_pods get_pod_logs parse_logs wrapping ◌>>=◌
  read_scan_report_lem p s scan r d =
      ground
        (arith, d.pods_listed, d.pod_ended, d.log_opened, d.log_read, d.log_written, d.log_parsed)

  collect_scan_lem :
      (p : Policy) (s : C.State) (scan : TrivyScan) (r : TrivyCliReport) (acc : Collected)
      → Delivers p s scan r
      → collect_scan C p scan acc s ≡ (returned (add_report scan r acc), s)
  unfolding collect_scan collect_job wrapping ◌>>=◌
  collect_scan_lem p s scan r acc d =
      ground (arith, d.job_found, d.job_ended, read_scan_report_lem p s scan r d)

  collect_scans_lem :
      (p : Policy) (s : C.State) (scans : List TrivyScan) (rs : List TrivyCliReport)
      (acc : Collected)
      → AllDeliver p s scans rs
      → collect_scans C p scans acc s ≡ (returned (add_reports scans rs acc), s)
  unfolding collect_scans add_reports ◌>>=◌
  collect_scans_lem p s [] [] acc d = refl
  collect_scans_lem p s [] (r ∷ rs) acc d = absurd d
  collect_scans_lem p s (scan ∷ scans) [] acc d = absurd d
  collect_scans_lem p s (scan ∷ scans) (r ∷ rs) acc (d, ds) =
      rw (collect_scan_lem p s scan r acc d)
        (collect_scans_lem p s scans rs (add_report scan r acc) ds)

  -- What the accumulator holds after the loop; the image is the first that is not blank.
  add_reports_lem :
      (p : Policy) (s : C.State) (scans : List TrivyScan) (rs : List TrivyCliReport)
      (acc : Collected)
      → AllDeliver p s scans rs
      → is_blank acc.first_image ≡ false
      → add_reports scans rs acc ≡ record {
        all_vulns = acc.all_vulns ++ all_findings rs;
        first_image = acc.first_image;
        completed_scans = acc.completed_scans + length scans;
        pending_scans = acc.pending_scans;
      }
  unfolding add_reports add_report
  add_reports_lem p s [] [] acc d h = ground (arith, append_nil acc.all_vulns)
  add_reports_lem p s [] (r ∷ rs) acc d h = absurd d
  add_reports_lem p s (scan ∷ scans) [] acc d h = absurd d
  add_reports_lem p s (scan ∷ scans) (r ∷ rs) acc (d, ds) h = ground (
    arith,
    add_reports_lem p s scans rs (add_report scan r acc) ds,
    append_assoc acc.all_vulns (flatten_vulnerabilities (some r)) (all_findings rs),
  )

  -- Where every scan of the policy delivers its report, the first scan names an image, the details
  -- can be written as JSON and the server takes the status, the handler returns with no error, and
  -- its one write is the completed report: its findings are those of all the scans, in their order,
  -- and its details name the image of the first scan and count every scan.
  pub report_scans_returns :
      (report : PolicyReport) (p : Policy) (scan : TrivyScan) (scans : List TrivyScan)
      (r : TrivyCliReport) (rs : List TrivyCliReport) (bytes : String) (answer : PolicyReport)
      (s : C.State)
      → AllDeliver p s (scan ∷ scans) (r ∷ rs)
      → is_blank scan.image ≡ false
      → C.lib.marshal_trivy_details (record {
        image = scan.image;
        vulnerabilities = all_findings (r ∷ rs);
        report_count = suc (length scans);
      })
        ≡ ok bytes
      → (C.reports.update_status (finished report (all_findings (r ∷ rs)) bytes) s).0 ≡ ok answer
      → report_scans C report p (scan ∷ scans) s ≡ (
        returned tt,
        (C.reports.update_status (finished report (all_findings (r ∷ rs)) bytes) s).1,
      )
  unfolding report_scans publish add_reports add_report ◌>>◌
  report_scans_returns report p scan scans r rs bytes answer s (d, ds) named written taken =
      let acc = add_report scan r nothing_collected in
      ground (
        arith,
        collect_scans_lem p s (scan ∷ scans) (r ∷ rs) nothing_collected (d, ds),
        add_reports_lem p s scans rs acc ds,
      )
