-- ===== src/Controller.antt =====
-- internal/controller: the factory of factory.go, the results of controller_result.go, and the
-- three reconcilers in the modules below.
pub mod Factory
pub mod Policies
pub mod Rbac
pub mod Reported
pub mod Reports
pub mod Setup
pub mod System
pub mod Tools
use eirenyx.Base.{ℕ, String, ◌<>◌, Option, none, some, ◌==◌, if◌then◌else◌}
use eirenyx.Effect.{Error, Result, ok, err, errorf, Exec, pure}
use eirenyx.Api.Policy.{Policy, policy_type_falco, policy_type_trivy, policy_type_litmus}
use eirenyx.Api.Report.{PolicyReport}
use eirenyx.Api.Tool.{Tool, tool_falco, tool_litmus, tool_trivy}
use eirenyx.Cluster.{Cluster}
use eirenyx.Policy.Falco
use eirenyx.Policy.Litmus
use eirenyx.Policy.Trivy
use eirenyx.Report.Falco as FalcoReport
use eirenyx.Report.Litmus as LitmusReport
use eirenyx.Report.Trivy as TrivyReport
use eirenyx.Tools.{ToolService, trivy_service, falco_service, litmus_service}

-- `(ctrl.Result, error)`, with the delay in seconds.
pub record Answer : Type 0 where
  pub requeue_after : ℕ
  pub error : Option Error

abbrev pub completed : Answer
completed = record { requeue_after = 0; error = none }

abbrev pub completed_with : Error → Answer
completed_with e = record { requeue_after = 0; error = some e }

abbrev pub requeued_after : ℕ → Answer
requeued_after seconds = record { requeue_after = seconds; error = none }

-- The interface `policy.Engine`.
pub record Engine (S : Type 0) : Type 0 where
  pub validate : Policy → Result (Unit {0})
  pub reconcile : Policy → Exec S (Unit {0})
  pub cleanup : Policy → Exec S (Unit {0})
  pub generate_report : Policy → Exec S PolicyReport

-- The interface `report.Handler`.
abbrev pub Handler : Type 0 → Type 0
Handler S = PolicyReport → Exec S (Unit {0})

module _ (C : Cluster) where
  abbrev pub falco_engine : Engine C.State
  falco_engine = record {
    validate = Falco.validate;
    reconcile = Falco.reconcile C;
    cleanup = Falco.cleanup C;
    generate_report = λ p. pure (Falco.generate_report p);
  }

  abbrev pub trivy_engine : Engine C.State
  trivy_engine = record {
    validate = Trivy.validate;
    reconcile = Trivy.reconcile C;
    cleanup = Trivy.cleanup C;
    generate_report = Trivy.generate_report C;
  }

  abbrev pub litmus_engine : Engine C.State
  litmus_engine = record {
    validate = Litmus.validate;
    reconcile = Litmus.reconcile C;
    cleanup = Litmus.cleanup C;
    generate_report = λ p. pure (Litmus.generate_report p);
  }

  unfoldable pub new_tool_service : Tool → Result (ToolService C.State)
  new_tool_service tool =
      if tool.spec.type == tool_falco
      then ok (falco_service C)
      else if tool.spec.type == tool_litmus
      then ok (litmus_service C)
      else if tool.spec.type == tool_trivy
      then ok (trivy_service C)
      else err (errorf ("unsupported tool type: " <> tool.spec.type))

  unfoldable pub new_policy_engine : Policy → Result (Engine C.State)
  new_policy_engine p =
      if p.spec.type == policy_type_falco
      then ok falco_engine
      else if p.spec.type == policy_type_trivy
      then ok trivy_engine
      else if p.spec.type == policy_type_litmus
      then ok litmus_engine
      else err (errorf ("unsupported policy type: " <> p.spec.type))

  unfoldable pub new_report_engine : PolicyReport → Result (Handler C.State)
  new_report_engine r =
      if r.spec.type == policy_type_falco
      then ok (FalcoReport.reconcile C)
      else if r.spec.type == policy_type_litmus
      then ok (LitmusReport.reconcile C)
      else if r.spec.type == policy_type_trivy
      then ok (TrivyReport.reconcile C)
      else err (errorf ("unknown policy type: " <> r.spec.type))
