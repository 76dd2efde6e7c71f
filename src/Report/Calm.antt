-- ===== src/Report/Calm.antt =====
-- internal/report: the policies that the report handlers do not panic on.
use eirenyx.Base.{ℕ, ◌≡◌, ◌≢◌, inl, inr, Option, none, some, String, List, [], ◌∷◌, ◌++◌, arith}
use eirenyx.Effect.{ok, panicked, Result-cases, Exec, pure, read, ◌>>=◌, resume, catch}
use eirenyx.Effect.Calm.{IsCalm, IsCalm-pure, IsCalm-fail, IsCalm-bind, IsCalm-option, calm_rules}
use eirenyx.Api.Meta.{Key}
use eirenyx.Api.Policy.{Policy, TrivyScan, FalcoPolicySpec, LitmusExperiment}
use eirenyx.Api.Report.{PolicyReport}
use eirenyx.Api.Trivy.{PodDetails}
use eirenyx.Api.Workload.{Pod}
use eirenyx.Cluster.{Cluster}
use eirenyx.Kube.{list_pods, get_pod_logs}
use eirenyx.Report.Falco
use eirenyx.Report.Litmus
use eirenyx.Report.Pods.{get_pod_details, collect_pods, shuffled, ranged}
use eirenyx.Report.Trivy

-- The policy observes a Falco rule by its name.
abbrev pub HasRule : Policy → Type 0
HasRule p = (f : FalcoPolicySpec) × (p.spec.falco ≡ some f) × (f.observe.rule_ref ≢ none)

-- The key of the policy that a report is about.
abbrev pub policy_key : PolicyReport → Key
policy_key report = record { namespace = report.namespace; name = report.spec.policy_ref.name }

module _ (C : Cluster) where
  read_pod-IsCalm : (pod : Pod) → IsCalm (Trivy.read_pod C pod)
  unfolding Trivy.read_pod get_pod_logs
  read_pod-IsCalm pod = search calm_rules depth 9

  read_newest-IsCalm : (name : String) (pods : List Pod) → IsCalm (Trivy.read_newest C name pods)
  unfolding Trivy.read_newest
  read_newest-IsCalm name [] = search calm_rules
  read_newest-IsCalm name (pod ∷ pods) = read_pod-IsCalm (Trivy.pick_newest pod pods)

  collect_scan-IsCalm :
      (p : Policy) (scan : TrivyScan) (acc : Trivy.Collected)
      → IsCalm (Trivy.collect_scan C p scan acc)
  unfolding Trivy.collect_scan Trivy.collect_job Trivy.read_scan_report list_pods
  collect_scan-IsCalm p scan acc = search (calm_rules, read_newest-IsCalm) depth 9

  collect_scans-IsCalm :
      (p : Policy) (scans : List TrivyScan) (acc : Trivy.Collected)
      → IsCalm (Trivy.collect_scans C p scans acc)
  unfolding Trivy.collect_scans
  collect_scans-IsCalm p [] acc = IsCalm-pure acc
  collect_scans-IsCalm p (scan ∷ scans) acc =
      IsCalm-bind (collect_scan-IsCalm p scan acc) (λ a. collect_scans-IsCalm p scans a)

  -- The trivy handler takes a policy with no trivy spec for one with no scans.
  pub trivy_handler-IsCalm : (report : PolicyReport) → IsCalm (Trivy.reconcile C report)
  unfolding Trivy.reconcile Trivy.report_scans Trivy.publish
  trivy_handler-IsCalm report = search (calm_rules, collect_scans-IsCalm) depth 12

  experiments-IsCalm :
      (report : PolicyReport) (exps : List LitmusExperiment)
      → IsCalm (Litmus.report_experiments C report exps)
  unfolding Litmus.report_experiments
  experiments-IsCalm report exps = search calm_rules

  collect_pods-IsCalm : (pods : List Pod) (names : List String) → IsCalm (collect_pods C pods names)
  unfolding collect_pods
  collect_pods-IsCalm pods [] = IsCalm-pure pods
  collect_pods-IsCalm pods (ns ∷ names) =
      IsCalm-bind (search calm_rules) (λ more. collect_pods-IsCalm (pods ++ more) names)

  shuffled-IsCalm : (pods : List Pod) → IsCalm (shuffled C pods)
  unfolding shuffled pure
  shuffled-IsCalm pods = record { calm_at = λ s h. cc }

  ranged-IsCalm : (pods : List PodDetails) → IsCalm (ranged C pods)
  unfolding ranged pure
  ranged-IsCalm pods = record { calm_at = λ s h. cc }

  occurrence-IsCalm : IsCalm (Falco.report_event_occurrence C)
  unfolding Falco.report_event_occurrence pure
  occurrence-IsCalm = record { calm_at = λ s h. cc }

  get_pod_details-IsCalm : (n : ℕ) → IsCalm (get_pod_details C n)
  unfolding get_pod_details
  get_pod_details-IsCalm n =
      search (calm_rules, collect_pods-IsCalm, shuffled-IsCalm, ranged-IsCalm) depth 14

  report_rule-IsCalm :
      (report : PolicyReport) (rule : String) → IsCalm (Falco.report_rule C report rule)
  unfolding Falco.report_rule
  report_rule-IsCalm report rule =
      search (calm_rules, occurrence-IsCalm, get_pod_details-IsCalm) depth 9

  rule_ref_name-IsCalm :
      (o : Option FalcoPolicySpec) (f : FalcoPolicySpec)
      → o ≡ some f
      → (f.observe.rule_ref ≢ none)
      → IsCalm (Falco.rule_ref_name C o)
  unfolding Falco.rule_ref_name
  rule_ref_name-IsCalm none f e has = cc
  rule_ref_name-IsCalm (some g) f e has =
      IsCalm-option g.observe.rule_ref (λ missing. ground arith) (λ r. IsCalm-pure r.name)

  module _ (report : PolicyReport) (s : C.State) where
    -- A handler that reads the policy of its report and goes on calmly from it.
    reading-calm :
        {A : Type 0} (rest : Policy → Exec C.State A)
        → ((p : Policy) → C.policies.get (policy_key report) s ≡ ok p → IsCalm (rest p))
        → ((read (C.policies.get (policy_key report)) >>= rest) s).0 ≢ panicked
    unfolding ◌>>=◌ catch resume read
    reading-calm rest k = elim (Result-cases (C.policies.get (policy_key report) s)) [
      | inl (p, e) ↦ rw e ((k p e).calm_at s)
      | inr (f, e) ↦ rw e ((IsCalm-fail f).calm_at s)
    ]

    -- The litmus handler does not panic where the policy of its report has a litmus spec.
    pub litmus_handler-calm :
        ((p : Policy) → C.policies.get (policy_key report) s ≡ ok p → p.spec.litmus ≢ none)
        → (Litmus.reconcile C report s).0 ≢ panicked
    unfolding Litmus.reconcile
    litmus_handler-calm has = reading-calm _ (λ p e.
        IsCalm-option p.spec.litmus (λ missing. absurd (has p e missing))
          (λ l. experiments-IsCalm report l.experiments))

    -- The falco handler does not panic where the policy of its report observes a rule.
    pub falco_handler-calm :
        ((p : Policy) → C.policies.get (policy_key report) s ≡ ok p → HasRule p)
        → (Falco.reconcile C report s).0 ≢ panicked
    unfolding Falco.reconcile
    falco_handler-calm has = reading-calm _ (λ p e.
        let (f, some_f, rule) = has p e in
        IsCalm-bind (rule_ref_name-IsCalm p.spec.falco f some_f rule)
          (λ name. report_rule-IsCalm report name))
