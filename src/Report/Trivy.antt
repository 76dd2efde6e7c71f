-- ===== src/Report/Trivy.antt =====
-- internal/report/trivy.go: the report of a Trivy policy, from the output of its scan Jobs.
pub mod Scans
pub mod Delivers
pub mod Finished
pub mod Summary
pub mod Newest
use Prim.Native.String.{slice, len}
use eirenyx.Base.{
  ℕ, ◌+◌, String, ◌<>◌, Bool, none, some, List, [], ◌∷◌, ◌++◌, ◌||◌, ltb, length, is_empty,
  if◌then◌else◌,
}
use eirenyx.Base.Int.{pos, int32, leb_ℤ, ltb_ℤ}
use eirenyx.Base.Text.{is_blank, trim_space, join}
use eirenyx.Effect.{
  Result, ok, err, errorf, wrap, Exec, pure, fail, lift, read, call, catch, wrapping, is_not_found,
  ◌>>=◌, ◌>>◌,
}
use eirenyx.Api.Meta.{Key}
use eirenyx.Api.Policy.{Policy, TrivyScan}
use eirenyx.Api.Report.{PolicyReport, ReportPhase, ReportSummary, Verdict}
use eirenyx.Api.Trivy.{TrivyCliReport, UiVulnerability}
use eirenyx.Api.Workload.{Job, Pod, PodPhase}
use eirenyx.Kube.{list_pods, get_pod_logs}
use eirenyx.Cluster.{Cluster}
use eirenyx.Report.Flatten.{flatten_vulnerabilities}

abbrev pub trivy_container_name : String
trivy_container_name = "trivy"

-- `getScanJobName`, the copy of the report package.
unfoldable pub scan_job_name : String → String → String
scan_job_name policy_name scan_name = "eirenyx-trivy-" <> (policy_name <> ("-" <> scan_name))

unfoldable pub job_finished : Job → Bool
job_finished job = leb_ℤ (pos 1) job.status.succeeded || leb_ℤ (pos 1) job.status.failed

-- The loop of `pickNewestPod`, from the newest pod so far.
unfoldable pub pick_newest : Pod → List Pod → Pod
pick_newest newest [] = newest
pick_newest newest (p ∷ pods) =
    pick_newest (if ltb newest.meta.creation_timestamp p.meta.creation_timestamp then p else newest)
      pods

-- The pod has come to an end.
abbrev pub is_terminal : PodPhase → Bool
is_terminal phase = elim phase [
  | PodPhase.pod_succeeded ↦ Bool.true
  | PodPhase.pod_failed ↦ Bool.true
  | _ ↦ Bool.false
]

abbrev phase_name : PodPhase → String
phase_name phase = elim phase [
  | PodPhase.pod_pending ↦ "Pending"
  | PodPhase.pod_running ↦ "Running"
  | PodPhase.pod_succeeded ↦ "Succeeded"
  | PodPhase.pod_failed ↦ "Failed"
  | PodPhase.pod_unknown ↦ "Unknown"
]

-- What the loop over the scans has collected.
pub record Collected : Type 0 where
  pub all_vulns : List UiVulnerability
  pub first_image : String
  pub completed_scans : ℕ
  pub pending_scans : List String

abbrev pub nothing_collected : Collected
nothing_collected = record {
  all_vulns = [];
  first_image = "";
  completed_scans = 0;
  pending_scans = [];
}

-- The image of the report so far, or else the one that the user wrote, or else Trivy's.
abbrev choose_image : String → String → String → String
choose_image first image artifact =
    if is_blank first then (if is_blank image then artifact else image) else first

unfoldable pub add_pending : TrivyScan → Collected → Collected
add_pending scan acc = record acc { pending_scans = acc.pending_scans ++ (scan.name ∷ []) }

unfoldable pub add_report : TrivyScan → TrivyCliReport → Collected → Collected
add_report scan report acc = record acc {
  all_vulns = acc.all_vulns ++ flatten_vulnerabilities (some report);
  first_image = choose_image acc.first_image scan.image report.artifact_name;
  completed_scans = acc.completed_scans + 1;
}

-- The summary of a finished scan: every finding is a failed check. The counts are `int32`.
unfoldable pub summary_of : List UiVulnerability → ReportSummary
summary_of vulns =
    let total = int32 (length vulns) in
    record {
      verdict = if ltb_ℤ (pos 0) total then Verdict.fail else Verdict.pass;
      total_checks = total;
      passed = pos 0;
      failed = total;
    }

module _ (C : Cluster) where
  -- The text that the pod printed, parsed. The preview of a text that is no JSON is cut at 200 bytes.
  unfoldable pub parse_logs : Pod → String → Result TrivyCliReport
  parse_logs pod logs =
      let text = trim_space logs in
      let where_ = pod.namespace <> ("/" <> pod.name) in
      let preview = if ltb 200 (len text) then slice text 0 200 <> "…" else text in
      if is_blank text
      then err (errorf ("scan pod " <> (where_ <> " produced no output")))
      else elim (C.lib.unmarshal_trivy text) [
        | ok report ↦ ok report
        | err e ↦ err (record e {
          message =
              "parsing trivy json from pod "
              <> (where_ <> (": " <> (e.message <> (" (got: " <> (C.lib.quote preview <> ")")))));
        })
      ]

  -- The part of `readScanReport` that follows the choice of the pod.
  unfoldable pub read_pod : Pod → Exec C.State TrivyCliReport
  read_pod pod =
      if is_terminal pod.phase
      then (do
        logs ←
            wrapping "reading scan pod logs"
              (get_pod_logs C pod.namespace pod.name trivy_container_name)
        lift (parse_logs pod logs))
      else fail (
          errorf (
            "scan pod "
            <> (pod.namespace
                <> ("/"
                    <> (pod.name
                        <> (" phase=" <> (phase_name pod.phase <> ", not yet terminal")))))))

  unfoldable pub read_newest : String → List Pod → Exec C.State TrivyCliReport
  read_newest job_name [] = fail (errorf ("no pods found for job " <> (job_name <> " yet")))
  read_newest job_name (pod ∷ pods) = read_pod (pick_newest pod pods)

  unfoldable pub read_scan_report : String → String → Exec C.State TrivyCliReport
  read_scan_report namespace job_name = do
    pods ← list_pods C namespace (("job-name", job_name) ∷ [])
    read_newest job_name pods

  abbrev pub scan_key : Policy → TrivyScan → Key
  scan_key p scan = record { namespace = p.namespace; name = scan_job_name p.name scan.name }

  -- The body of the loop where the Job was found.
  unfoldable pub collect_job : Policy → TrivyScan → Collected → Job → Exec C.State Collected
  collect_job p scan acc job =
      if job_finished job
      then (do
        report ←
            wrapping ("scan " <> C.lib.quote scan.name)
              (read_scan_report p.namespace (scan_job_name p.name scan.name))
        pure (add_report scan report acc))
      else pure (add_pending scan acc)

  unfoldable pub collect_scan : Policy → TrivyScan → Collected → Exec C.State Collected
  collect_scan p scan acc =
      catch (read (C.jobs.get (scan_key p scan)))
        (λ e.
          if is_not_found e
          then pure (add_pending scan acc)
          else fail (
              wrap ("getting scan job " <> (p.namespace <> ("/" <> scan_job_name p.name scan.name)))
                e))
        (collect_job p scan acc)

  unfoldable pub collect_scans : Policy → List TrivyScan → Collected → Exec C.State Collected
  collect_scans p [] acc = pure acc
  collect_scans p (scan ∷ scans) acc = do acc' ← collect_scan p scan acc; collect_scans p scans acc'

  -- What follows the loop: a report that is still running, or the final one.
  unfoldable pub publish : PolicyReport → Collected → Exec C.State (Unit {0})
  publish report acc =
      if is_empty acc.pending_scans
      then (do
        bytes ← lift (
            C.lib.marshal_trivy_details (record {
              image = acc.first_image;
              vulnerabilities = acc.all_vulns;
              report_count = acc.completed_scans;
            }))
        call (
            C.reports.update_status (record report {
              status = record {
                phase = ReportPhase.completed;
                summary = summary_of acc.all_vulns;
                details = bytes;
              };
            }))
        pure tt)
      else (do
        call (
            C.reports.update_status
              (record report { status = record (report.status) { phase = ReportPhase.running } }))
        fail (errorf ("trivy scans still pending: " <> join "," acc.pending_scans)))

  unfoldable pub report_scans : PolicyReport → Policy → List TrivyScan → Exec C.State (Unit {0})
  report_scans report p scans =
      if is_empty scans
      then fail (errorf ("policy " <> (p.namespace <> ("/" <> (p.name <> " has no trivy scans")))))
      else (do acc ← collect_scans p scans nothing_collected; publish report acc)

  unfoldable pub reconcile : PolicyReport → Exec C.State (Unit {0})
  reconcile report = do
    p ← read (
        C.policies.get
          (record { namespace = report.namespace; name = report.spec.policy_ref.name }))
    report_scans report p (elim (p.spec.trivy) [ none ↦ [] | some t ↦ t.scans ])
