-- ===== src/Controller/Reported/Complete.antt =====
-- internal/controller: one reconcile of a Litmus policy and one of its report.
use mathlib.Core.Path.{subst}
use eirenyx.Base.{◌≡◌, sym, ap, ◌∙◌, true, none, some, arith}
use eirenyx.Effect.{Error, Reason, ok, err, returned, ◌>>◌}
use eirenyx.Api.Meta.{key_of}
use eirenyx.Api.Policy.{Policy, LitmusPolicySpec, policy_type_litmus}
use eirenyx.Api.Tool.{Tool}
use eirenyx.Cluster.{Cluster}
use eirenyx.Controller.{new_policy_engine, litmus_engine, completed}
use eirenyx.Controller.Policies as PolicyControl
use eirenyx.Controller.Policies.{publish_report, refer_to, observed, run_engine}
use eirenyx.Controller.Policies.Engines.{litmus-chosen}
use eirenyx.Controller.Policies.Finalizer.{tool_key}
use eirenyx.Controller.Reports as ReportControl
use eirenyx.Policy.Litmus
use eirenyx.Policy.Litmus.{generate_report, report_name}
use eirenyx.Controller.Reported.{ReportServer}
use eirenyx.Controller.Reported.Publish.{publish-IsPending, experiments_returned}
use eirenyx.Controller.Reported.Handle.{IsReported, reported}

module _ (C : Cluster) (server : ReportServer C) where
  -- A policy that has its finalizer and its tool as an owner, and is enabled: the controller runs the
  -- engine.
  pub record IsLinked (p : Policy) (tool : Tool) (s : C.State) : Type 0 where
    pub got : C.policies.get (key_of p.meta) s ≡ ok p
    pub found : C.tools.get (tool_key p) s ≡ ok tool
    pub alive : p.meta.deletion_timestamp ≡ none
    pub held : PolicyControl.has_finalizer C p ≡ true
    pub owned : C.lib.has_owner_reference p.meta.owner_references tool ≡ ok true
    pub enabled : p.spec.enabled ≡ true

  linked_runs :
      (p : Policy) (tool : Tool) (s : C.State)
      → IsLinked p tool s
      → new_policy_engine C p ≡ ok (litmus_engine C)
      → PolicyControl.reconcile C (key_of p.meta) s ≡ run_engine C (litmus_engine C) p s
  unfolding PolicyControl.reconcile PolicyControl.with_policy PolicyControl.with_tool
      PolicyControl.with_engine PolicyControl.link ◌>>◌
  linked_runs p tool s linked chosen =
      ground
        (arith, linked.got, linked.found, linked.alive, linked.held, linked.owned, linked.enabled)

  engine_runs :
      (p : Policy) (l : LitmusPolicySpec) (s t : C.State)
      → Litmus.validate p ≡ ok tt
      → p.spec.litmus ≡ some l
      → Litmus.reconcile_experiments C p l.experiments s ≡ (returned tt, t)
      → run_engine C (litmus_engine C) p s ≡ publish_report C p (generate_report p) t
  unfolding run_engine Litmus.reconcile ◌>>◌
  engine_runs p l s t valid has run = ground arith

  -- On a server that takes the writes on the way, and where nobody else acts: for a valid and enabled
  -- Litmus policy, which has its finalizer and its tool as an owner and no report yet, one reconcile of
  -- the policy and then one of its report are completed with no requeue and no error, and leave a
  -- report of this generation of the policy that is completed with the verdict Pass: it counts each
  -- experiment of the policy, as a 32-bit number, as a check, all of them as passed and none as failed.
  pub litmus_policy-IsReported :
      (p : Policy) (l : LitmusPolicySpec) (tool : Tool) (e : Error) (s : C.State)
      → IsLinked p tool s
      → p.spec.type ≡ policy_type_litmus
      → p.spec.litmus ≡ some l
      → Litmus.validate p ≡ ok tt
      → C.reports.get (key_of (generate_report p).meta) s ≡ err e
      → e.reason ≡ Reason.not_found
      → ((PolicyControl.reconcile C (key_of p.meta) s).0 ≡ returned completed)
        × ((ReportControl.reconcile C
              (key_of (generate_report p).meta)
              (PolicyControl.reconcile C (key_of p.meta) s).1).0
            ≡ returned completed)
        × IsReported C server p l
            (ReportControl.reconcile C
              (key_of (generate_report p).meta)
              (PolicyControl.reconcile C (key_of p.meta) s).1).1
  litmus_policy-IsReported p l tool e s linked type has valid missing reason =
      let (t, ran, same) = experiments_returned C server p l.experiments s in
      let run : PolicyControl.reconcile C (key_of p.meta) s
          ≡ publish_report C p (generate_report p) t =
        linked_runs p tool s linked (litmus-chosen C p type) ∙ engine_runs p l s t valid has ran in
      let (done, pending) =
        publish-IsPending C server p t e ((same (key_of (generate_report p).meta)).0 ∙ missing)
          reason ((same (key_of p.meta)).1 ∙ linked.got) in
      let (finished, result) =
        reported C server p l (publish_report C p (generate_report p) t).1 type has pending in
      (
        ap (λ o. o.0) run ∙ done,
        subst
            (λ o.
              (ReportControl.reconcile C (key_of (generate_report p).meta) o.1).0
              ≡ returned completed)
            (sym run) finished,
        subst
            (λ o.
              IsReported C server p l
                (ReportControl.reconcile C (key_of (generate_report p).meta) o.1).1)
            (sym run) result,
      )
