-- ===== src/Tests/CleanupRuns.antt =====
-- Runs of the Litmus engine and of the controller that calls it.
use eirenyx.Base.{All, Option-cases, contains, ◌≡◌, refl, sym, ◌∙◌, entry, inl, inr, [], ◌∷◌, arith}
use eirenyx.Effect.{◌>>◌, ignore_not_found}
use eirenyx.Api.Meta.{Key, key_of, named}
use eirenyx.Api.Policy.{Policy, LitmusPolicySpec}
use eirenyx.Api.Report.{PolicyReport}
use eirenyx.Api.Workload.{ChaosEngine}
use eirenyx.Cluster.Laws.{IsGone, StoreLaws}
use eirenyx.Controller.{new_policy_engine}
use eirenyx.Controller.Policies as PolicyControl
use eirenyx.Controller.Policies.Engines.{deleted_policy_engines}
use eirenyx.Policy.Litmus
use eirenyx.Policy.Litmus.{engine_key, fill_engine, bare_engine, chaos_engine_name}
use eirenyx.Policy.Litmus.Engines.{SameEngine, HasEngine, litmus_reconcile-HasEngine}
use eirenyx.Tests.Memory.{find, replace, remove, table, table-DeleteLaws}
use eirenyx.Tests.Memory.Answers.{table-ListLaws, delete_apart}
use eirenyx.Tests.Memory.Stores.{table-StoreLaws}
use eirenyx.Tests.Samples.{a_tool, deleted, litmus_policy, an_experiment, report_of, an_engine}
use eirenyx.Tests.World.{library, World, empty_world, memory, chaos_engine_place, report_place}

abbrev chaos : LitmusPolicySpec
chaos = record { experiments = an_experiment ∷ [] }

abbrev the_key : Key
the_key = record { namespace = "default"; name = "eirenyx-litmus-chaos-kill" }

abbrev filled : ChaosEngine
filled =
    fill_engine litmus_policy an_experiment
      (bare_engine (named "eirenyx-litmus-chaos-kill" "default"))

-- The experiment's ChaosEngine beside another one, and the report.
abbrev running : World
running = record empty_world {
  policies = litmus_policy ∷ [];
  chaos_engines = an_engine "other" ∷ filled ∷ [];
  reports = report_of "litmus" "chaos" ∷ [];
}

-- Neither the delete of a report nor the update of a policy touches a ChaosEngine.
reports_apart :
    (r : PolicyReport) (x : Key) (w : World)
    → IsGone ChaosEngine.meta memory.chaos_engines x w
    → IsGone ChaosEngine.meta memory.chaos_engines x (memory.reports.delete r w).1
unfolding table
reports_apart r x w gone a stored = gone a (
    sym (
      delete_apart PolicyReport.meta report_place (λ t. memory.chaos_engines.stored x t)
        (λ l t. refl) r w)
    ∙ stored)

policies_apart :
    (q : Policy) (x : Key) (w : World)
    → memory.chaos_engines.stored x (memory.policies.update q w).1 ≡ memory.chaos_engines.stored x w
unfolding table
policies_apart q x w = elim (Option-cases (find Policy.meta (key_of q.meta) w.policies)) [
  | inl e ↦ rw e refl
  | inr (b, e) ↦ rw e refl
]

abbrev leaving : World
leaving = record running { policies = deleted litmus_policy ∷ []; tools = a_tool "litmus" ∷ [] }

deleted_policy_engines_example :
    IsGone ChaosEngine.meta memory.chaos_engines the_key
      (PolicyControl.reconcile memory (record { namespace = "default"; name = "chaos" }) leaving).1
unfolding table find replace remove library contains entry fill_engine PolicyControl.reconcile
    PolicyControl.with_policy PolicyControl.with_tool new_policy_engine PolicyControl.with_engine
    PolicyControl.finalize PolicyControl.update_policy Litmus.cleanup ◌>>◌ Litmus.delete_engines_in
    Litmus.add_namespaces Litmus.delete_engines ignore_not_found Litmus.delete_reports
deleted_policy_engines_example =
    deleted_policy_engines memory
      (table-DeleteLaws ChaosEngine.meta chaos_engine_place (λ l s. refl))
      (table-ListLaws ChaosEngine.meta chaos_engine_place (λ l s. refl)) reports_apart
      policies_apart (record { namespace = "default"; name = "chaos" }) (deleted litmus_policy)
      (a_tool "litmus") 9 chaos the_key leaving refl refl refl refl refl refl (inl refl)
      (λ a stored. let same : filled ≡ a = ground arith in rw (sym same) (inr (refl, refl))) refl

-- The ChaosEngine is there, stopped and without labels.
abbrev stopped : World
stopped = record empty_world {
  policies = litmus_policy ∷ [];
  chaos_engines = bare_engine (named "eirenyx-litmus-chaos-kill" "default") ∷ [];
}

memory-StoreLaws : StoreLaws ChaosEngine.meta memory.chaos_engines SameEngine
memory-StoreLaws =
    table-StoreLaws ChaosEngine.meta chaos_engine_place (λ l s. refl) SameEngine (λ a. (refl, refl))

litmus_reconcile-HasEngine_example :
    All
      (λ exp.
        HasEngine memory memory-StoreLaws litmus_policy exp
          (Litmus.reconcile memory litmus_policy stopped).1)
      chaos.experiments
unfolding table find Litmus.reconcile Litmus.reconcile_experiments ◌>>◌ Litmus.reconcile_experiment
    chaos_engine_name fill_engine
litmus_reconcile-HasEngine_example =
    litmus_reconcile-HasEngine memory memory-StoreLaws litmus_policy chaos stopped refl (tt, tt)
      refl
