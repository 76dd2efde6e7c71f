-- ===== src/Tests/SystemRuns.antt =====
-- Runs of the controllers together, one reconcile after the other.
use eirenyx.Base.{refl, [], ◌∷◌}
use eirenyx.Effect.Keeps.{Keeps}
use eirenyx.Api.Meta.{Key}
use eirenyx.Controller.{falco_engine, new_policy_engine}
use eirenyx.Controller.Policies as PolicyControl
use eirenyx.Controller.Policies.Reaches.{Reaches, reconcile-Reaches}
use eirenyx.Controller.Reports as ReportControl
use eirenyx.Controller.System.{Step, Reach, Reach-AllSound}
use eirenyx.Controller.Tools as ToolControl
use eirenyx.Controller.Tools.Writes.{tools_reconcile-Keeps}
use eirenyx.Report.Sound.{AllSound}
use eirenyx.Tests.Memory.{find, table}
use eirenyx.Tests.Samples.{falco_policy, a_tool}
use eirenyx.Tests.Server.{
  current, same_reports-AllSound, memory-StatusLaws, memory-PolicyKeeps, memory-ToolKeeps,
  memory-RandomKeeps, memory-PolicyServer, memory-LinkLaws,
}
use eirenyx.Tests.World.{World, empty_world, memory}

-- A policy that nobody has reconciled, and its tool.
abbrev pub new_policy : World
new_policy = record empty_world { policies = falco_policy ∷ []; tools = a_tool "falco" ∷ [] }

abbrev pub shells : Key
shells = record { namespace = "default"; name = "shells" }

abbrev shells_report : Key
shells_report = record { namespace = "default"; name = "falco-report-shells" }

abbrev falco_tool : Key
falco_tool = record { namespace = "default"; name = "falco" }

no_reports-AllSound : AllSound memory current new_policy
unfolding table find
no_reports-AllSound = record { sound = λ x b e. cc }

abbrev served : World
served = (ToolControl.reconcile memory falco_tool new_policy).1

abbrev reconciled : World
reconciled = (PolicyControl.reconcile memory shells served).1

abbrev reported : World
reported = (ReportControl.reconcile memory shells_report reconciled).1

Reach-AllSound_example : AllSound memory current reported
Reach-AllSound_example =
    Reach-AllSound memory current memory-StatusLaws
      (memory-PolicyKeeps (AllSound memory current) same_reports-AllSound) memory-ToolKeeps
      memory-RandomKeeps no_reports-AllSound
      (Reach.next
        (Reach.next (Reach.next Reach.here (Step.tool_reconciled falco_tool refl))
          (Step.policy_reconciled shells refl))
        (Step.report_reconciled shells_report refl))

tools_reconcile-Keeps_example :
    Keeps (AllSound memory current) (ToolControl.reconcile memory falco_tool)
tools_reconcile-Keeps_example = tools_reconcile-Keeps memory memory-ToolKeeps falco_tool

reconcile-Reaches_example :
    Reaches memory memory-PolicyServer
      (a_tool "falco")
      (memory-LinkLaws (a_tool "falco"))
      (falco_engine memory)
      2
      shells
      falco_policy.spec
      new_policy
unfolding table find new_policy_engine
reconcile-Reaches_example =
    reconcile-Reaches memory memory-PolicyServer (a_tool "falco") (memory-LinkLaws (a_tool "falco"))
      (falco_engine memory) shells falco_policy new_policy
      (record {
        at_key = refl;
        got = refl;
        found = refl;
        chosen = refl;
        together = refl;
        alive = refl;
      })
