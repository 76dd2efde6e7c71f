-- ===== src/Tests/ReportedRuns.antt =====
-- A run from a Litmus policy to its report.
use eirenyx.Base.{false, ◌≡◌, refl, ap, inr, [], ◌∷◌, contains}
use eirenyx.Effect.{ok, returned}
use eirenyx.Api.Meta.{key_of, named}
use eirenyx.Api.Policy.{Policy, LitmusPolicySpec, policy_finalizer}
use eirenyx.Api.Report.{PolicyReport}
use eirenyx.Api.Workload.{ChaosEngine}
use eirenyx.Controller.{completed}
use eirenyx.Controller.Policies as PolicyControl
use eirenyx.Controller.Reported.{ReportServer}
use eirenyx.Controller.Reported.Handle.{IsReported}
use eirenyx.Controller.Reported.Complete.{litmus_policy-IsReported}
use eirenyx.Controller.Reports as ReportControl
use eirenyx.Policy.Litmus
use eirenyx.Policy.Litmus.{generate_report}
use eirenyx.Tests.Memory.{find, table, missing}
use eirenyx.Tests.Memory.Answers.{status_apart, store_apart}
use eirenyx.Tests.Memory.Writes.{get_apart, store_missing, status_taken, store_answers}
use eirenyx.Tests.Samples.{litmus_policy, an_experiment, a_tool}
use eirenyx.Tests.World.{
  World, empty_world, memory, library, owned_by, policy_place, report_place, chaos_engine_place,
}

memory-ReportServer : ReportServer memory
memory-ReportServer = record {
  report_created = λ a f s e missing_ reason same.
      let (stored, seen) =
        store_missing PolicyReport.meta report_place (λ l w. refl) a f s e missing_
          (ap key_of (same a).0) in
      (f a, stored, seen, ap key_of (same a).0, refl, inr (same a).1);
  report_status_updated = λ a st s got.
      let (taken, seen) =
        status_taken PolicyReport.meta report_place (λ l w. refl) (record a { status = st }) a s
          got in
      (record a { status = st }, taken, seen, refl, refl);
  reports_apart = λ a f s x.
      get_apart Policy.meta policy_place x _ s (
        store_apart PolicyReport.meta report_place World.policies (λ l w. refl) a (λ r. ok (f r))
          s);
  policy_status_updated = λ p st s got.
      let (taken, seen) =
        status_taken Policy.meta policy_place (λ l w. refl) (record p { status = st }) p s got in
      (record p { status = st }, taken, seen, refl);
  policy_status_apart = λ p s x.
      get_apart PolicyReport.meta report_place x _ s
        (status_apart Policy.meta policy_place World.reports (λ l w. refl) p s);
  engine_stored =
      λ a f s same. store_answers ChaosEngine.meta chaos_engine_place (λ l w. refl) a f s same;
  engine_apart = λ a f s x. (
    get_apart PolicyReport.meta report_place x _ s (
        store_apart ChaosEngine.meta chaos_engine_place World.reports (λ l w. refl) a
          (λ r. ok (f r)) s),
    get_apart Policy.meta policy_place x _ s (
        store_apart ChaosEngine.meta chaos_engine_place World.policies (λ l w. refl) a
          (λ r. ok (f r)) s),
  );
}

abbrev chaos_spec : LitmusPolicySpec
chaos_spec = record { experiments = an_experiment ∷ [] }

-- The policy has its finalizer and its tool as an owner, and no report.
abbrev linked : Policy
linked = record litmus_policy {
  meta = record (named "chaos" "default") {
    finalizers = policy_finalizer ∷ [];
    owner_references = record { kind = "Tool"; name = "litmus"; uid = ""; controller = false } ∷ [];
  };
}

abbrev chaos_world : World
chaos_world = record empty_world { policies = linked ∷ []; tools = a_tool "litmus" ∷ [] }

litmus_policy-IsReported_example :
    ((PolicyControl.reconcile memory (key_of linked.meta) chaos_world).0 ≡ returned completed)
    × ((ReportControl.reconcile memory
          (key_of (generate_report linked).meta)
          (PolicyControl.reconcile memory (key_of linked.meta) chaos_world).1).0
        ≡ returned completed)
    × IsReported memory memory-ReportServer linked chaos_spec
        (ReportControl.reconcile memory
          (key_of (generate_report linked).meta)
          (PolicyControl.reconcile memory (key_of linked.meta) chaos_world).1).1
unfolding table find library contains owned_by generate_report Litmus.validate
    Litmus.validate_experiments
litmus_policy-IsReported_example =
    litmus_policy-IsReported memory memory-ReportServer linked chaos_spec (a_tool "litmus") missing
      chaos_world
      (record { got = refl; found = refl; alive = refl; held = refl; owned = refl; enabled = refl })
      refl refl refl refl refl
