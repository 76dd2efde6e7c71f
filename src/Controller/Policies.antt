-- ===== src/Controller/Policies.antt =====
-- internal/controller/policy_controller.go: `Reconcile` of the policy controller, in its stages.
pub mod Calm
pub mod Engines
pub mod Finalizer
pub mod Reaches
pub mod Rescan
pub mod Writes
use eirenyx.Base.{◌<>◌, Bool, none, some, not, if◌then◌else◌}
use eirenyx.Base.Int.{eqb_ℤ}
use eirenyx.Effect.{Exec, ok, pure, lift, read, call, catch, wrap, is_not_found}
use eirenyx.Api.Meta.{Key}
use eirenyx.Api.Policy.{Policy, policy_finalizer}
use eirenyx.Api.Report.{PolicyReport, ReportPhase, empty_summary}
use eirenyx.Api.Tool.{Tool}
use eirenyx.Cluster.{Cluster}
use eirenyx.Controller.{
  Answer, completed, completed_with, requeued_after, Engine, new_policy_engine,
}

-- What the function handed to `CreateOrUpdate` writes.
unfoldable pub refer_to : Policy → PolicyReport → PolicyReport
refer_to p report = record report {
  spec = record {
    policy_ref = record { name = p.name; generation = p.generation };
    type = p.spec.type;
  };
}

-- The report of a policy that has moved on to another generation.
abbrev pub needs_rescan : Policy → PolicyReport → Bool
needs_rescan p report = not (eqb_ℤ report.spec.policy_ref.generation p.generation)

unfoldable pub reset : PolicyReport → PolicyReport
reset report = record report {
  status = record { phase = ReportPhase.pending; summary = empty_summary; details = "" };
}

unfoldable pub observed : Policy → PolicyReport → Policy
observed p report = record p {
  status = record (p.status) { last_report = report.name; observed_gen = p.generation };
}

module _ (C : Cluster) where
  abbrev pub with_finalizers : Policy → Policy
  with_finalizers p = record p {
    meta = record (p.meta) { finalizers = C.lib.add_finalizer p.meta.finalizers policy_finalizer };
  }

  abbrev pub without_finalizer : Policy → Policy
  without_finalizer p = record p {
    meta = record (p.meta) {
      finalizers = C.lib.remove_finalizer p.meta.finalizers policy_finalizer;
    };
  }

  abbrev pub has_finalizer : Policy → Bool
  has_finalizer p = C.lib.contains_finalizer p.meta.finalizers policy_finalizer

  -- `r.Update(ctx, &policy)`, and the end of the reconcile.
  unfoldable pub update_policy : Policy → Exec C.State Answer
  update_policy p =
      catch (call (C.policies.update p)) (λ e. pure (completed_with e)) (λ _. pure completed)

  -- `r.Status().Update(ctx, &policy)`, and the end of the reconcile.
  unfoldable pub update_policy_status : Policy → Exec C.State Answer
  update_policy_status p =
      catch (call (C.policies.update_status p)) (λ e. pure (completed_with e)) (λ _. pure completed)

  -- A policy that is being deleted.
  unfoldable pub finalize : Engine C.State → Policy → Exec C.State Answer
  finalize engine p =
      if has_finalizer p
      then catch (engine.cleanup p) (λ _. pure (requeued_after 5))
          (λ _. update_policy (without_finalizer p))
      else pure completed

  -- The report was stored; where the generation moved on, its status is reset.
  unfoldable pub finish_report : Policy → Bool → PolicyReport → Exec C.State Answer
  finish_report p rescan report =
      if rescan
      then catch (call (C.reports.update_status (reset report))) (λ e. pure (completed_with e))
          (λ report'. update_policy_status (observed p report'))
      else update_policy_status (observed p report)

  unfoldable pub publish_report : Policy → PolicyReport → Exec C.State Answer
  publish_report p report =
      catch (call (C.reports.create_or_update report (λ r. ok (refer_to p r))))
        (λ e. pure (completed_with e)) (finish_report p (needs_rescan p report))

  -- An enabled policy: validate, reconcile, report.
  unfoldable pub run_engine : Engine C.State → Policy → Exec C.State Answer
  run_engine engine p =
      catch (lift (engine.validate p)) (λ e. pure (completed_with e))
        (λ _.
          catch (engine.reconcile p) (λ _. pure (requeued_after 5))
            (λ _.
              catch (engine.generate_report p) (λ e. pure (completed_with e)) (publish_report p)))

  unfoldable pub disable : Engine C.State → Policy → Exec C.State Answer
  disable engine p = catch (engine.cleanup p) (λ _. pure (requeued_after 5)) (λ _. pure completed)

  -- A policy with its finalizer: link it to its tool first, one write to a reconcile.
  unfoldable pub link : Engine C.State → Policy → Tool → Exec C.State Answer
  link engine p tool =
      catch (lift (C.lib.has_owner_reference p.meta.owner_references tool))
        (λ e. pure (completed_with e))
        (λ has.
          if has
          then (if p.spec.enabled then run_engine engine p else disable engine p)
          else catch (lift (C.lib.set_owner_reference tool p.meta)) (λ e. pure (completed_with e))
              (λ meta. update_policy (record p { meta = meta })))

  unfoldable pub with_engine : Policy → Tool → Engine C.State → Exec C.State Answer
  with_engine p tool engine = elim (p.meta.deletion_timestamp) [
    | some _ ↦ finalize engine p
    | none ↦ if has_finalizer p then link engine p tool else update_policy (with_finalizers p)
  ]

  unfoldable pub with_tool : Policy → Tool → Exec C.State Answer
  with_tool p tool =
      catch (lift (new_policy_engine C p)) (λ e. pure (completed_with e)) (with_engine p tool)

  unfoldable pub with_policy : Policy → Exec C.State Answer
  with_policy p =
      catch (read (C.tools.get (record { namespace = p.namespace; name = p.spec.type })))
        (λ e. pure (
          completed_with (
            wrap
              ("failed to get tool "
                <> (C.lib.quote p.spec.type
                    <> (" from namespace " <> (C.lib.quote p.namespace <> "."))))
              e)))
        (with_tool p)

  unfoldable pub reconcile : Key → Exec C.State Answer
  reconcile key =
      catch (read (C.policies.get key))
        (λ e. pure (if is_not_found e then completed else completed_with e)) with_policy
