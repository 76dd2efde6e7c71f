-- ===== src/Report/Trivy/Finished.antt =====
-- internal/report/trivy.go: the scan Jobs of a report, and the write that completes it.
use mathlib.Core.Path.{subst}
use eirenyx.Base.{
  ◌+◌, String, ◌≡◌, refl, sym, ◌∙◌, ap, ◌⊎◌, inl, inr, Bool-cases, true, List, [], ◌∷◌, ◌++◌,
  length, length-append, is_empty, All, arith,
}
use eirenyx.Effect.{Result-cases, ok, returned, pure, fail, ◌>>◌}
use eirenyx.Effect.Keeps.{Keeps, bind-eq_returned, keeps_rules, Keeps-bind, Keeps-pure}
use eirenyx.Api.Meta.{Key}
use eirenyx.Api.Policy.{Policy, TrivyScan}
use eirenyx.Api.Report.{PolicyReport, ReportPhase}
use eirenyx.Api.Trivy.{TrivyDetails}
use eirenyx.Api.Workload.{Job, Pod}
use eirenyx.Kube.{list_pods, get_pod_logs}
use eirenyx.Cluster.{Cluster}
use eirenyx.Report.Trivy.{
  Collected, nothing_collected, add_pending, add_report, collect_job, collect_scan, collect_scans,
  scan_job_name, job_finished, publish, report_scans, read_scan_report, read_newest, read_pod,
  summary_of, pick_newest,
}
use eirenyx.Report.Trivy.Scans.{counted-collect_all}

module _ (C : Cluster) where
  -- The Job of the scan was found, and it has finished.
  abbrev pub IsFinished : Policy → C.State → TrivyScan → Type 0
  IsFinished p s scan =
      (job : Job) × (C.jobs.get
          (record { namespace = p.namespace; name = scan_job_name p.name scan.name }) s
        ≡ ok job)
      × (job_finished job ≡ true)

  read_pod-Keeps : {P : C.State → Type 0} (pod : Pod) → Keeps P (read_pod C pod)
  unfolding read_pod get_pod_logs
  read_pod-Keeps pod = search keeps_rules depth 9

  read_newest-Keeps :
      {P : C.State → Type 0} (name : String) (pods : List Pod) → Keeps P (read_newest C name pods)
  unfolding read_newest
  read_newest-Keeps name [] = search keeps_rules
  read_newest-Keeps name (pod ∷ pods) = read_pod-Keeps (pick_newest pod pods)

  collect_scan-Keeps :
      {P : C.State → Type 0} (p : Policy) (scan : TrivyScan) (acc : Collected)
      → Keeps P (collect_scan C p scan acc)
  unfolding collect_scan collect_job read_scan_report list_pods
  collect_scan-Keeps p scan acc = search (keeps_rules, read_newest-Keeps) depth 9

  pub collect_scans-Keeps :
      {P : C.State → Type 0} (p : Policy) (scans : List TrivyScan) (acc : Collected)
      → Keeps P (collect_scans C p scans acc)
  unfolding collect_scans
  collect_scans-Keeps p [] acc = Keeps-pure acc
  collect_scans-Keeps p (scan ∷ scans) acc =
      Keeps-bind (collect_scan-Keeps p scan acc) (λ a. collect_scans-Keeps p scans a)

  -- One scan: it stays pending, or its Job has finished.
  collect_scan-cases :
      (p : Policy) (scan : TrivyScan) (acc acc' : Collected) (s : C.State)
      → (collect_scan C p scan acc s).0 ≡ returned acc'
      → (acc'.pending_scans ≡ acc.pending_scans ++ (scan.name ∷ []))
        ⊎ (IsFinished p s scan × (acc'.pending_scans ≡ acc.pending_scans))
  unfolding collect_scan collect_job add_pending add_report ◌>>◌
  collect_scan-cases p scan acc acc' s h =
      let key : Key = record { namespace = p.namespace; name = scan_job_name p.name scan.name } in
      elim (Result-cases (C.jobs.get key s)) [
        | inl (job, e) ↦ elim (Bool-cases (job_finished job)) [
          | inl f ↦ inr ((job, e, f), ground arith)
          | inr n ↦ inl (ground arith)
        ]
        | inr (f, e) ↦ inl (ground arith)
      ]

  -- Pending scans are never forgotten: if none is left at the end none was there at the start, and
  -- every Job has finished. Reading changes no state.
  collect_scans-IsFinished :
      (p : Policy) (scans : List TrivyScan) (acc acc' : Collected) (s : C.State)
      → (collect_scans C p scans acc s).0 ≡ returned acc'
      → acc'.pending_scans ≡ []
      → (acc.pending_scans ≡ []) × All (IsFinished p s) scans
  unfolding collect_scans pure
  collect_scans-IsFinished p [] acc acc' s h none_left = (ground arith, tt)
  collect_scans-IsFinished p (scan ∷ scans) acc acc' s h none_left =
      let m = collect_scan C p scan acc in
      let (mid, first, _, rest) = bind-eq_returned m (λ a. collect_scans C p scans a) s h in
      let same : (m s).1 ≡ s = (collect_scan-Keeps {P = λ t. t ≡ s} p scan acc).keeps_at s refl in
      let rest' : (collect_scans C p scans mid s).0 ≡ returned acc' = rw same at rest in
      let (empty, all) = collect_scans-IsFinished p scans mid acc' s rest' none_left in
      elim (collect_scan-cases p scan acc mid s first) [
        | inl added ↦ absurd (
            omega (
              arith,
              ap length (sym added ∙ empty),
              length-append {0} acc.pending_scans (scan.name ∷ []),
            ))
        | inr (finished, kept) ↦ (sym kept ∙ empty, (finished, all))
      ]

  -- What the handler has written when it succeeds: the completed report, with every scan counted.
  abbrev pub IsPublished : PolicyReport → List TrivyScan → C.State → C.State → Type 0
  IsPublished report scans s t =
      (acc : Collected) × (bytes : String) × (acc.completed_scans ≡ length scans)
      × (C.lib.marshal_trivy_details (record {
        image = acc.first_image;
        vulnerabilities = acc.all_vulns;
        report_count = acc.completed_scans;
      })
          ≡ ok bytes)
      × (t
          ≡ (C.reports.update_status
              (record report {
                status = record {
                  phase = ReportPhase.completed;
                  summary = summary_of acc.all_vulns;
                  details = bytes;
                };
              })
              s).1)

  publish-returned :
      (report : PolicyReport) (acc : Collected) (scans : List TrivyScan) (s : C.State)
      → (publish C report acc s).0 ≡ returned tt
      → acc.completed_scans + length acc.pending_scans ≡ length scans
      → (acc.pending_scans ≡ []) × IsPublished report scans s (publish C report acc s).1
  unfolding publish ◌>>◌
  publish-returned report acc scans s h count =
      let details : TrivyDetails = record {
        image = acc.first_image;
        vulnerabilities = acc.all_vulns;
        report_count = acc.completed_scans;
      } in
      elim (Bool-cases (is_empty acc.pending_scans)) [
        | inl empty ↦
            let none_left : acc.pending_scans ≡ [] = ground arith in
            elim (Result-cases (C.lib.marshal_trivy_details details)) [
              | inl (bytes, e) ↦ (
                none_left,
                (acc, bytes, omega (arith, count, ap length none_left), e, ground arith),
              )
              | inr (f, e) ↦ ground arith
            ]
        | inr more ↦ ground arith
      ]

  -- When the handler returns with no error, every scan Job of the policy was found and has
  -- finished, and the one write it has made is the status update of the completed report, whose
  -- details count every scan of the policy.
  pub report_scans_complete :
      (report : PolicyReport) (p : Policy) (scans : List TrivyScan) (s : C.State)
      → (report_scans C report p scans s).0 ≡ returned tt
      → All (IsFinished p s) scans × IsPublished report scans s (report_scans C report p scans s).1
  unfolding report_scans fail
  report_scans_complete report p [] s h = ground arith
  report_scans_complete report p (scan ∷ scans) s h =
      let all = scan ∷ scans in
      let m = collect_scans C p all nothing_collected in
      let (acc, first, eq, rest) = bind-eq_returned m (publish C report) s h in
      let same : (m s).1 ≡ s =
        (collect_scans-Keeps {P = λ t. t ≡ s} p all nothing_collected).keeps_at s refl in
      let count = counted-collect_all C p all acc s first in
      let rest' : (publish C report acc s).0 ≡ returned tt = rw same at rest in
      let (none_left, published) = publish-returned report acc all s rest' count in
      let (_, finished) = collect_scans-IsFinished p all nothing_collected acc s first none_left in
      (
        finished,
        subst (λ o. IsPublished report all s o.1) (sym (eq ∙ ap (λ t. publish C report acc t) same))
            published,
      )
