-- ===== src/Report/Writes.antt =====
-- internal/report: the statuses that the three report handlers write.
use eirenyx.Base.{
  ℕ, ◌≡◌, refl, inl, inr, Option, none, some, Option-cases, String, List, [], ◌∷◌, ◌++◌, arith,
}
use eirenyx.Base.Int.{ℤ}
use eirenyx.Effect.{pure, call}
use eirenyx.Effect.Keeps.{Keeps, Keeps-pure, Keeps-bind, Keeps-panic, keeps_rules}
use eirenyx.Api.Policy.{FalcoPolicySpec, LitmusExperiment}
use eirenyx.Api.Report.{PolicyReport, PolicyReportStatus, empty_summary}
use eirenyx.Api.Trivy.{UiVulnerability, PodDetails}
use eirenyx.Api.Workload.{Pod}
use eirenyx.Cluster.{Cluster}
use eirenyx.Cluster.Frame.{RandomKeeps}
use eirenyx.Report.Falco
use eirenyx.Report.Litmus
use eirenyx.Report.Pods.{get_pod_details, collect_pods, shuffled, ranged}
use eirenyx.Report.Sound.{
  Versions, IsSound, IsVerdict, AllSound, StatusLaws, update_status-AllSound,
}
use eirenyx.Report.Trivy
use eirenyx.Report.Trivy.Finished.{collect_scans-Keeps}

-- A report that the report controller hands on has not completed.
abbrev pub IsUnfinished : PolicyReportStatus → Type 0
IsUnfinished st = st.summary ≡ empty_summary

trivy_summary-IsVerdict : (vulns : List UiVulnerability) → IsVerdict (Trivy.summary_of vulns)
unfolding Trivy.summary_of
trivy_summary-IsVerdict vulns = ground arith

completed_falco-IsSound :
    (report : PolicyReport) (count : ℤ) (details : String)
    → IsSound (Falco.complete report count details).status
unfolding Falco.complete
completed_falco-IsSound report count details = ground arith

new_status-IsSound :
    (C : Cluster) (exps : List LitmusExperiment) → IsSound (Litmus.new_status C exps)
unfolding Litmus.new_status
new_status-IsSound C exps = (refl, inl (refl, refl))

module _ (C : Cluster) {V : Versions C} (laws : StatusLaws C V) where
  update_status-Keeps :
      (a : PolicyReport)
      → IsSound a.status
      → Keeps (AllSound C V) (call (C.reports.update_status a))
  update_status-Keeps a q = search (keeps_rules, update_status-AllSound C laws a q)

  publish-Keeps :
      (report : PolicyReport) (acc : Trivy.Collected)
      → IsUnfinished report.status
      → Keeps (AllSound C V) (Trivy.publish C report acc)
  unfolding Trivy.publish
  publish-Keeps report acc q =
      search (keeps_rules, update_status-Keeps, trivy_summary-IsVerdict) depth 9

  pub trivy_handler-Keeps :
      (report : PolicyReport)
      → IsUnfinished report.status
      → Keeps (AllSound C V) (Trivy.reconcile C report)
  unfolding Trivy.reconcile Trivy.report_scans
  trivy_handler-Keeps report q = search (keeps_rules, collect_scans-Keeps C, publish-Keeps) depth 9

  experiments-Keeps :
      (report : PolicyReport) (exps : List LitmusExperiment)
      → Keeps (AllSound C V) (Litmus.report_experiments C report exps)
  unfolding Litmus.report_experiments
  experiments-Keeps report exps = search (keeps_rules, update_status-Keeps, new_status-IsSound)

  pub litmus_handler-Keeps :
      (report : PolicyReport) → Keeps (AllSound C V) (Litmus.reconcile C report)
  unfolding Litmus.reconcile
  litmus_handler-Keeps report = Keeps-bind (search keeps_rules) (λ p.
      elim (Option-cases p.spec.litmus) [
        | inl e ↦ rw e Keeps-panic
        | inr (l, e) ↦ rw e (experiments-Keeps report l.experiments)
      ])

  module _ (random : RandomKeeps C (AllSound C V)) where
    collect_pods-Keeps :
        (pods : List Pod) (names : List String) → Keeps (AllSound C V) (collect_pods C pods names)
    unfolding collect_pods
    collect_pods-Keeps pods [] = Keeps-pure pods
    collect_pods-Keeps pods (ns ∷ names) =
        Keeps-bind (search keeps_rules) (λ more. collect_pods-Keeps (pods ++ more) names)

    shuffled-Keeps : (pods : List Pod) → Keeps (AllSound C V) (shuffled C pods)
    unfolding shuffled pure
    shuffled-Keeps pods = record { keeps_at = random.shuffle_keeps pods }

    ranged-Keeps : (pods : List PodDetails) → Keeps (AllSound C V) (ranged C pods)
    unfolding ranged pure
    ranged-Keeps pods = record { keeps_at = random.range_keeps pods }

    occurrence-Keeps : Keeps (AllSound C V) (Falco.report_event_occurrence C)
    unfolding Falco.report_event_occurrence pure
    occurrence-Keeps = record { keeps_at = random.random_keeps 5 }

    get_pod_details-Keeps : (n : ℕ) → Keeps (AllSound C V) (get_pod_details C n)
    unfolding get_pod_details
    get_pod_details-Keeps n =
        search (keeps_rules, collect_pods-Keeps, shuffled-Keeps, ranged-Keeps) depth 14

    rule_ref_name-Keeps :
        (o : Option FalcoPolicySpec) → Keeps (AllSound C V) (Falco.rule_ref_name C o)
    unfolding Falco.rule_ref_name
    rule_ref_name-Keeps none = Keeps-panic
    rule_ref_name-Keeps (some spec) = elim (Option-cases spec.observe.rule_ref) [
      | inl e ↦ rw e Keeps-panic
      | inr (r, e) ↦ rw e (Keeps-pure r.name)
    ]

    pub falco_handler-Keeps :
        (report : PolicyReport) → Keeps (AllSound C V) (Falco.reconcile C report)
    unfolding Falco.reconcile Falco.report_rule
    falco_handler-Keeps report =
        search
          (
            keeps_rules, occurrence-Keeps, get_pod_details-Keeps, update_status-Keeps,
            completed_falco-IsSound, rule_ref_name-Keeps,
          )
          depth 12
