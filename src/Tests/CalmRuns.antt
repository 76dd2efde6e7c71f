-- ===== src/Tests/CalmRuns.antt =====
-- Runs of the controllers on objects that they do not panic on.
use mathlib.Core.Path.{subst}
use eirenyx.Base.{◌≡◌, refl, sym, ◌≢◌, ◌⊎◌, inl, inr, none, some, [], ◌∷◌}
use eirenyx.Effect.{ok, panicked}
use eirenyx.Api.Meta.{Key}
use eirenyx.Api.Policy.{Policy, FalcoPolicySpec}
use eirenyx.Api.Report.{PolicyReport}
use eirenyx.Controller.Policies as PolicyControl
use eirenyx.Controller.Policies.Calm.{HasSpec, IsLive, policies_reconcile-IsCalm}
use eirenyx.Controller.Reports as ReportControl
use eirenyx.Controller.Reports.Calm.{IsReportable, reports_reconcile-calm}
use eirenyx.Report.Calm.{policy_key}
use eirenyx.Tests.Memory.{find, table}
use eirenyx.Tests.Samples.{a_policy, a_spec, a_tool, a_falco_spec, report_of}
use eirenyx.Tests.World.{World, empty_world, memory}

-- A Trivy policy without its spec, that is enabled and not being deleted.
abbrev empty_policy : Policy
empty_policy = a_policy "images" (a_spec "trivy")

abbrev images : Key
images = record { namespace = "default"; name = "images" }

abbrev unfilled : World
unfilled = record empty_world { policies = empty_policy ∷ []; tools = a_tool "trivy" ∷ [] }

unfilled-guarded : (p : Policy) → memory.policies.get images unfilled ≡ ok p → HasSpec p ⊎ IsLive p
unfolding table find
unfilled-guarded p h =
    let same : empty_policy ≡ p = cc in
    let alive : IsLive empty_policy = (refl, refl) in inr (subst IsLive same alive)

policies_reconcile-IsCalm_example : (PolicyControl.reconcile memory images unfilled).0 ≢ panicked
policies_reconcile-IsCalm_example =
    policies_reconcile-IsCalm memory images unfilled unfilled-guarded

abbrev named_rule : FalcoPolicySpec
named_rule = record a_falco_spec {
  observe = record { rule_ref = some (record { name = "shell" }); rule_selector = none };
}

abbrev observing : Policy
observing = a_policy "shells" (record (a_spec "falco") { falco = some named_rule })

abbrev shells_report : PolicyReport
shells_report = report_of "falco" "shells"

abbrev shells : Key
shells = record { namespace = "default"; name = "trivy-report-shells" }

abbrev watched : World
watched = record empty_world { policies = observing ∷ []; reports = shells_report ∷ [] }

shells-IsReportable : IsReportable shells_report observing
shells-IsReportable = (inr (named_rule, refl, λ e. cc), inl (λ e. cc))

watched-fit :
    (report : PolicyReport) (p : Policy)
    → memory.reports.get shells watched ≡ ok report
    → memory.policies.get (policy_key report) watched ≡ ok p
    → IsReportable report p
unfolding table find
watched-fit report p h got =
    let same : shells_report ≡ report = cc in
    let found : memory.policies.get (policy_key shells_report) watched ≡ ok p =
      subst (λ r. memory.policies.get (policy_key r) watched ≡ ok p) (sym same) got in
    let policy : observing ≡ p = cc in
    subst (λ r. IsReportable r p) same
      (subst (λ q. IsReportable shells_report q) policy shells-IsReportable)

reports_reconcile-calm_example : (ReportControl.reconcile memory shells watched).0 ≢ panicked
reports_reconcile-calm_example = reports_reconcile-calm memory watched shells watched-fit
