-- ===== src/Policy/Calm.antt =====
-- internal/policy: the engines do not panic on a policy that has the spec of its type.
use eirenyx.Base.{◌≢◌, String, List, [], ◌∷◌, none}
use eirenyx.Effect.Calm.{IsCalm, IsCalm-pure, IsCalm-then, IsCalm-option, calm_rules}
use eirenyx.Api.Policy.{Policy, TrivyScan, LitmusExperiment}
use eirenyx.Api.Report.{PolicyReport}
use eirenyx.Api.Workload.{ChaosEngine}
use eirenyx.Cluster.{Cluster}
use eirenyx.Policy.Falco
use eirenyx.Policy.Litmus
use eirenyx.Policy.Trivy

module _ (C : Cluster) where
  reconcile_scans-IsCalm :
      (p : Policy) (scans : List TrivyScan) → IsCalm (Trivy.reconcile_scans C p scans)
  unfolding Trivy.reconcile_scans Trivy.reconcile_scan Trivy.create_scan_job
  reconcile_scans-IsCalm p [] = IsCalm-pure tt
  reconcile_scans-IsCalm p (scan ∷ scans) =
      IsCalm-then (search calm_rules depth 9) (reconcile_scans-IsCalm p scans)

  cleanup_scans-IsCalm :
      (p : Policy) (scans : List TrivyScan) → IsCalm (Trivy.cleanup_scans C p scans)
  unfolding Trivy.cleanup_scans Trivy.delete_scan
  cleanup_scans-IsCalm p [] = IsCalm-pure tt
  cleanup_scans-IsCalm p (scan ∷ scans) =
      IsCalm-then (search calm_rules) (cleanup_scans-IsCalm p scans)

  pub trivy_reconcile-IsCalm : (p : Policy) → (p.spec.trivy ≢ none) → IsCalm (Trivy.reconcile C p)
  unfolding Trivy.reconcile
  trivy_reconcile-IsCalm p has =
      IsCalm-option p.spec.trivy (λ e. absurd (has e)) (λ t. reconcile_scans-IsCalm p t.scans)

  pub trivy_cleanup-IsCalm : (p : Policy) → (p.spec.trivy ≢ none) → IsCalm (Trivy.cleanup C p)
  unfolding Trivy.cleanup
  trivy_cleanup-IsCalm p has =
      IsCalm-option p.spec.trivy (λ e. absurd (has e)) (λ t. cleanup_scans-IsCalm p t.scans)

  pub trivy_report-IsCalm : (p : Policy) → IsCalm (Trivy.generate_report C p)
  unfolding Trivy.generate_report
  trivy_report-IsCalm p = search calm_rules depth 9

  falco_reports-IsCalm :
      (p : Policy) (reports : List PolicyReport) → IsCalm (Falco.delete_reports C p reports)
  unfolding Falco.delete_reports
  falco_reports-IsCalm p [] = IsCalm-pure tt
  falco_reports-IsCalm p (r ∷ reports) =
      let rest = falco_reports-IsCalm p reports in search calm_rules

  pub falco_reconcile-IsCalm : (p : Policy) → IsCalm (Falco.reconcile C p)
  unfolding Falco.reconcile
  falco_reconcile-IsCalm p = search calm_rules

  pub falco_cleanup-IsCalm : (p : Policy) → IsCalm (Falco.cleanup C p)
  unfolding Falco.cleanup Falco.delete_config_map
  falco_cleanup-IsCalm p = search (calm_rules, falco_reports-IsCalm)

  experiments-IsCalm :
      (p : Policy) (exps : List LitmusExperiment) → IsCalm (Litmus.reconcile_experiments C p exps)
  unfolding Litmus.reconcile_experiments Litmus.reconcile_experiment
  experiments-IsCalm p [] = IsCalm-pure tt
  experiments-IsCalm p (exp ∷ exps) = IsCalm-then (search calm_rules) (experiments-IsCalm p exps)

  delete_engines-IsCalm : (engines : List ChaosEngine) → IsCalm (Litmus.delete_engines C engines)
  unfolding Litmus.delete_engines
  delete_engines-IsCalm [] = IsCalm-pure tt
  delete_engines-IsCalm (e ∷ engines) =
      IsCalm-then (search calm_rules) (delete_engines-IsCalm engines)

  delete_engines_in-IsCalm :
      (p : Policy) (names : List String) → IsCalm (Litmus.delete_engines_in C p names)
  unfolding Litmus.delete_engines_in
  delete_engines_in-IsCalm p [] = IsCalm-pure tt
  delete_engines_in-IsCalm p (ns ∷ names) =
      let rest = delete_engines_in-IsCalm p names in search (calm_rules, delete_engines-IsCalm)

  litmus_reports-IsCalm :
      (p : Policy) (reports : List PolicyReport) → IsCalm (Litmus.delete_reports C p reports)
  unfolding Litmus.delete_reports
  litmus_reports-IsCalm p [] = IsCalm-pure tt
  litmus_reports-IsCalm p (r ∷ reports) =
      let rest = litmus_reports-IsCalm p reports in search calm_rules

  pub litmus_reconcile-IsCalm :
      (p : Policy) → (p.spec.litmus ≢ none) → IsCalm (Litmus.reconcile C p)
  unfolding Litmus.reconcile
  litmus_reconcile-IsCalm p has =
      IsCalm-option p.spec.litmus (λ e. absurd (has e)) (λ l. experiments-IsCalm p l.experiments)

  pub litmus_cleanup-IsCalm : (p : Policy) → (p.spec.litmus ≢ none) → IsCalm (Litmus.cleanup C p)
  unfolding Litmus.cleanup
  litmus_cleanup-IsCalm p has =
      IsCalm-option p.spec.litmus (λ e. absurd (has e))
        (λ l. search (calm_rules, delete_engines_in-IsCalm, litmus_reports-IsCalm))
