-- ===== src/Controller/Policies/Engines.antt =====
-- internal/controller/policy_controller.go with internal/policy/litmus/engine.go: the deletion of a
-- policy and its ChaosEngines.
use eirenyx.Base.{ℕ, ◌≡◌, refl, sym, ap, ◌∙◌, true, some}
use eirenyx.Effect.{ok, returned}
use eirenyx.Api.Meta.{Key}
use eirenyx.Api.Policy.{Policy, LitmusPolicySpec, policy_type_litmus}
use eirenyx.Api.Report.{PolicyReport}
use eirenyx.Api.Tool.{Tool}
use eirenyx.Api.Workload.{ChaosEngine}
use eirenyx.Cluster.{Cluster}
use eirenyx.Cluster.Laws.{DeleteLaws, ListLaws, IsGone}
use eirenyx.Controller.{new_policy_engine, litmus_engine, completed}
use eirenyx.Controller.Policies.{reconcile, has_finalizer, without_finalizer}
use eirenyx.Controller.Policies.Finalizer.{tool_key, reconcile-finalize, finalize_completes}
use eirenyx.Policy.Litmus
use eirenyx.Policy.Litmus.Removes.{IsOwn, cleanup-IsGone}
use eirenyx.Policy.Litmus.Targets.{IsTarget}

pub litmus-chosen :
    (C : Cluster) (p : Policy)
    → p.spec.type ≡ policy_type_litmus
    → new_policy_engine C p ≡ ok (litmus_engine C)
unfolding new_policy_engine
litmus-chosen C p h = rw h refl

module _ (C : Cluster) (laws : DeleteLaws ChaosEngine.meta C.chaos_engines)
    (listing : ListLaws ChaosEngine.meta C.chaos_engines) where
  abbrev Gone : Key → C.State → Type 0
  Gone x s = IsGone ChaosEngine.meta C.chaos_engines x s

  -- When the reconcile of a Litmus policy that is being deleted and has the finalizer is completed
  -- with no requeue and no error, a key in the policy's namespace or in one that an experiment
  -- targets, at which any ChaosEngine was marked for deletion or carried the policy's labels, holds
  -- none that is not marked for deletion; provided that lists are complete, that the delete of a
  -- report brings no ChaosEngine back and that the update of a policy leaves the ChaosEngines alone.
  pub deleted_policy_engines :
      ((r : PolicyReport) (x : Key) (t : C.State) → Gone x t → Gone x (C.reports.delete r t).1)
      → ((q : Policy) (x : Key) (t : C.State)
          → C.chaos_engines.stored x (C.policies.update q t).1 ≡ C.chaos_engines.stored x t)
      → (key : Key) (p : Policy) (tool : Tool) (time : ℕ) (l : LitmusPolicySpec) (x : Key)
        (s : C.State)
      → C.policies.get key s ≡ ok p
      → C.tools.get (tool_key p) s ≡ ok tool
      → p.meta.deletion_timestamp ≡ some time
      → has_finalizer C p ≡ true
      → p.spec.type ≡ policy_type_litmus
      → p.spec.litmus ≡ some l
      → IsTarget p l.experiments x.namespace
      → IsOwn C laws listing p x s
      → (reconcile C key s).0 ≡ returned completed
      → Gone x (reconcile C key s).1
  deleted_policy_engines apart alone key p tool time l x s got found deleted held type has target
        own h =
      let eq =
        reconcile-finalize C key p tool time s (litmus_engine C) got found (litmus-chosen C p type)
          deleted in
      let (done, last) =
        finalize_completes C key p tool time s (litmus_engine C) held
          (ap (λ o. o.0) (sym eq) ∙ h) in
      let gone = cleanup-IsGone C laws listing apart p l x s has target own done in
      rw eq (λ a e. gone a (
        sym (alone (without_finalizer C p) x (Litmus.cleanup C p s).1)
        ∙ (sym (ap (C.chaos_engines.stored x) last) ∙ e)))
