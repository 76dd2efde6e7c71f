-- ===== src/Controller/Policies/Writes.antt =====
-- internal/controller/policy_controller.go: the statuses of reports after a reconcile of a policy.
use eirenyx.Base.{◌≡◌, refl, inl, inr, Bool}
use eirenyx.Effect.{ok}
use eirenyx.Effect.Keeps.{Keeps, Keeps-pure, Keeps-option, Keeps-catch, Keeps-lift, keeps_rules}
use eirenyx.Effect.Yields.{Keeps-catch_yield, Keeps-catch-lift}
use eirenyx.Api.Meta.{Key}
use eirenyx.Api.Policy.{Policy}
use eirenyx.Api.Report.{PolicyReport}
use eirenyx.Api.Tool.{Tool}
use eirenyx.Cluster.{Cluster}
use eirenyx.Cluster.Frame.{PolicyKeeps}
use eirenyx.Controller.{Engine, new_policy_engine}
use eirenyx.Controller.Factory.{new_policy_engine_cases}
use eirenyx.Controller.Policies.{
  reconcile, with_policy, with_tool, with_engine, finalize, link, disable, run_engine,
  publish_report, finish_report, update_policy, update_policy_status, refer_to, reset,
}
use eirenyx.Policy.Writes.{
  EngineSound, trivy_engine-EngineSound, falco_engine-EngineSound, litmus_engine-EngineSound,
}
use eirenyx.Report.Sound.{
  Versions, AllSound, IsSound, StatusLaws, store-AllSound, update_status-AllSound,
}

refer_to_status : (p : Policy) (r : PolicyReport) → (refer_to p r).status ≡ r.status
unfolding refer_to
refer_to_status p r = refl

reset-IsSound : (r : PolicyReport) → IsSound (reset r).status
unfolding reset
reset-IsSound r = refl

module _ (C : Cluster) {V : Versions C} (laws : StatusLaws C V)
    (k : PolicyKeeps C (AllSound C V)) where
  update_policy-Keeps : (p : Policy) → Keeps (AllSound C V) (update_policy C p)
  unfolding update_policy
  update_policy-Keeps p = search (keeps_rules, k.policy_update_keeps)

  update_policy_status-Keeps : (p : Policy) → Keeps (AllSound C V) (update_policy_status C p)
  unfolding update_policy_status
  update_policy_status-Keeps p = search (keeps_rules, k.policy_status_keeps)

  finish_report-Keeps :
      (p : Policy) (rescan : Bool) (r : PolicyReport)
      → Keeps (AllSound C V) (finish_report C p rescan r)
  unfolding finish_report
  finish_report-Keeps p rescan r =
      search (keeps_rules, update_policy_status-Keeps, update_status-AllSound C laws, reset-IsSound)
        depth 9

  publish_report-Keeps :
      (p : Policy) (r : PolicyReport)
      → IsSound r.status
      → Keeps (AllSound C V) (publish_report C p r)
  unfolding publish_report
  publish_report-Keeps p r q =
      Keeps-catch (search (keeps_rules, store-AllSound C laws r (refer_to p) (refer_to_status p) q))
        (λ e. Keeps-pure _) (λ r'. finish_report-Keeps p _ r')

  module _ (engine : Engine C.State) (sound : EngineSound C V engine) where
    finalize-Keeps : (p : Policy) → Keeps (AllSound C V) (finalize C engine p)
    unfolding finalize
    finalize-Keeps p = search (keeps_rules, sound.cleanup_sound, update_policy-Keeps)

    run_engine-Keeps : (p : Policy) → Keeps (AllSound C V) (run_engine C engine p)
    unfolding run_engine
    run_engine-Keeps p =
        Keeps-catch (Keeps-lift _) (λ e. Keeps-pure _)
          (λ _.
            Keeps-catch (sound.reconcile_sound p) (λ e. Keeps-pure _)
              (λ _.
                Keeps-catch_yield (sound.report_sound p) (λ e. Keeps-pure _)
                  (publish_report-Keeps p)))

    link-Keeps : (p : Policy) (tool : Tool) → Keeps (AllSound C V) (link C engine p tool)
    unfolding link disable
    link-Keeps p tool =
        search (keeps_rules, sound.cleanup_sound, run_engine-Keeps, update_policy-Keeps) depth 9

    with_engine-Keeps :
        (p : Policy) (tool : Tool) → Keeps (AllSound C V) (with_engine C p tool engine)
    unfolding with_engine
    with_engine-Keeps p tool =
        Keeps-option p.meta.deletion_timestamp
          (search (keeps_rules, link-Keeps, update_policy-Keeps)) (λ _. finalize-Keeps p)

  new_policy_engine-EngineSound :
      (p : Policy) (engine : Engine C.State)
      → new_policy_engine C p ≡ ok engine
      → EngineSound C V engine
  new_policy_engine-EngineSound p engine h = elim (new_policy_engine_cases C p engine h) [
    | inl f ↦ rw f (falco_engine-EngineSound C laws k)
    | inr other ↦ elim other [
      | inl t ↦ rw t (trivy_engine-EngineSound C laws k)
      | inr l ↦ rw l (litmus_engine-EngineSound C laws k)
    ]
  ]

  with_tool-Keeps : (p : Policy) (tool : Tool) → Keeps (AllSound C V) (with_tool C p tool)
  unfolding with_tool
  with_tool-Keeps p tool =
      Keeps-catch-lift (new_policy_engine C p) (λ e. Keeps-pure _)
        (λ engine h. with_engine-Keeps engine (new_policy_engine-EngineSound p engine h) p tool)

  -- However it ends, a reconcile of the policy controller keeps every stored report sound.
  pub policies_reconcile-Keeps : (key : Key) → Keeps (AllSound C V) (reconcile C key)
  unfolding reconcile with_policy
  policies_reconcile-Keeps key = search (keeps_rules, with_tool-Keeps) depth 9
