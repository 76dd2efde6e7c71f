-- ===== src/Controller/Policies/Finalizer.antt =====
-- internal/controller/policy_controller.go: the finalizer of a policy and the engine's Cleanup.
use eirenyx.Base.{ℕ, ◌≡◌, refl, sym, ap, ◌∙◌, true, some, none, All, All-map, arith, inl, inr}
use eirenyx.Effect.{pure, ok, returned, panicked, resume, ◌>>◌, Result-cases}
use eirenyx.Effect.Keeps.{catch-eq_returned}
use eirenyx.Api.Meta.{Key}
use eirenyx.Api.Policy.{Policy, TrivyPolicySpec, policy_type_trivy}
use eirenyx.Api.Tool.{Tool}
use eirenyx.Api.Workload.{Job}
use eirenyx.Cluster.{Cluster}
use eirenyx.Cluster.Laws.{DeleteLaws, IsGone}
use eirenyx.Controller.{new_policy_engine, trivy_engine, completed, requeued_after, Engine}
use eirenyx.Controller.Policies.{
  reconcile, with_policy, with_tool, with_engine, finalize, has_finalizer, update_policy,
  without_finalizer,
}
use eirenyx.Policy.Trivy
use eirenyx.Policy.Trivy.{scan_key}
use eirenyx.Policy.Trivy.Jobs.{cleanup_jobs}

-- The key under which the controller reads the tool of a policy.
abbrev pub tool_key : Policy → Key
tool_key p = record { namespace = p.namespace; name = p.spec.type }

module _ (C : Cluster) (key : Key) (p : Policy) (tool : Tool) (time : ℕ) (s : C.State) where
  -- The controller gets as far as the finalizer of a policy that is being deleted.
  pub reconcile-finalize :
      (engine : Engine C.State)
      → C.policies.get key s ≡ ok p
      → C.tools.get (tool_key p) s ≡ ok tool
      → new_policy_engine C p ≡ ok engine
      → p.meta.deletion_timestamp ≡ some time
      → reconcile C key s ≡ finalize C engine p s
  unfolding reconcile with_policy with_tool with_engine ◌>>◌
  reconcile-finalize engine got found chosen deleted = ground arith

  update_policy_state :
      (q : Policy) (t : C.State) → (update_policy C q t).1 ≡ (C.policies.update q t).1
  unfolding update_policy ◌>>◌
  update_policy_state q t = elim (Result-cases (C.policies.update q t).0) [
    | inl (a, e) ↦ ground arith
    | inr (f, e) ↦ ground arith
  ]

  -- The finalizer is taken off only after a cleanup that returned, in the state it left.
  pub finalize_completes :
      (engine : Engine C.State)
      → has_finalizer C p ≡ true
      → (finalize C engine p s).0 ≡ returned completed
      → ((engine.cleanup p s).0 ≡ returned tt)
        × ((finalize C engine p s).1
            ≡ (C.policies.update (without_finalizer C p) (engine.cleanup p s).1).1)
  unfolding finalize ◌>>◌
  finalize_completes engine held h =
      let o = engine.cleanup p s in
      let k : (resume o (λ _. pure (requeued_after 5))
            (λ _. update_policy C (without_finalizer C p))).0
          ≡ returned completed =
        ground arith in
      elim (catch-eq_returned o _ _ k) [
        | inl (u, e, eq) ↦ ground (arith, update_policy_state (without_finalizer C p) o.1)
        | inr (f, e, eq) ↦ ground arith
      ]

  trivy-chosen : p.spec.type ≡ policy_type_trivy → new_policy_engine C p ≡ ok (trivy_engine C)
  unfolding new_policy_engine
  trivy-chosen h = rw h refl

  -- A Trivy policy that is being deleted, still has the finalizer and has no trivy spec makes the
  -- reconcile panic, and the cluster is as it was.
  pub deleting_panics :
      C.policies.get key s ≡ ok p
      → C.tools.get (tool_key p) s ≡ ok tool
      → p.meta.deletion_timestamp ≡ some time
      → has_finalizer C p ≡ true
      → p.spec.type ≡ policy_type_trivy
      → p.spec.trivy ≡ none
      → reconcile C key s ≡ (panicked, s)
  unfolding finalize ◌>>◌ Trivy.cleanup
  deleting_panics got found deleted held type missing =
      ground (arith, reconcile-finalize (trivy_engine C) got found (trivy-chosen type) deleted)

  -- When the reconcile of a Trivy policy that is being deleted and has the finalizer is completed
  -- with no requeue and no error, no Job of its scans is stored any more that is not itself marked
  -- for deletion, provided that the update of a policy leaves the Jobs alone.
  pub deleted_policy_jobs :
      DeleteLaws Job.meta C.jobs
      → ((q : Policy) (t : C.State) (x : Key)
          → C.jobs.stored x (C.policies.update q t).1 ≡ C.jobs.stored x t)
      → (spec : TrivyPolicySpec) → C.policies.get key s ≡ ok p
      → C.tools.get (tool_key p) s ≡ ok tool
      → p.meta.deletion_timestamp ≡ some time
      → has_finalizer C p ≡ true
      → p.spec.type ≡ policy_type_trivy
      → p.spec.trivy ≡ some spec
      → (reconcile C key s).0 ≡ returned completed
      → All (λ scan. IsGone Job.meta C.jobs (scan_key p scan) (reconcile C key s).1) spec.scans
  deleted_policy_jobs laws apart spec got found deleted held type has h =
      let eq = reconcile-finalize (trivy_engine C) got found (trivy-chosen type) deleted in
      let (done, last) = finalize_completes (trivy_engine C) held (ap (λ o. o.0) (sym eq) ∙ h) in
      rw eq (
        All-map
          (λ scan g a e. g a (
            sym (apart (without_finalizer C p) (Trivy.cleanup C p s).1 (scan_key p scan))
            ∙ (sym (ap (C.jobs.stored (scan_key p scan)) last) ∙ e)))
          spec.scans (cleanup_jobs C laws p spec s has done))
