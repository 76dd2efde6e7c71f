-- ===== src/Controller/Policies/Rescan.antt =====
-- internal/controller/policy_controller.go: the report of a policy of another generation.
use mathlib.Core.Path.{subst}
use eirenyx.Base.{◌≡◌, refl, sym, some, List, [], ◌∷◌, arith}
use eirenyx.Base.Int.{eqb_ℤ_iff}
use eirenyx.Effect.{ok, pure, call, catch, resume}
use eirenyx.Effect.Keeps.{
  Keeps, Keeps-pure, Keeps-call, Keeps-lift, Keeps-catch, Keeps-then, Keeps-option, Keeps-panic,
  keeps_rules,
}
use eirenyx.Api.Meta.{Key}
use eirenyx.Api.Policy.{Policy, LitmusExperiment}
use eirenyx.Api.Report.{PolicyReport, PolicyReportStatus}
use eirenyx.Cluster.{Cluster}
use eirenyx.Cluster.Frame.{PolicyKeeps}
use eirenyx.Controller.{Engine, completed_with, falco_engine, litmus_engine}
use eirenyx.Controller.Policies.{
  publish_report, finish_report, refer_to, observed, update_policy_status, run_engine,
}
use eirenyx.Policy.Falco
use eirenyx.Policy.Litmus

-- The engines of Falco and Litmus build the report with the current generation, so the reset is left
-- out.
pub publish_report-no_reset :
    (C : Cluster) (p : Policy) (s : C.State)
    → (publish_report C p (Falco.generate_report p) s
        ≡ catch
            (call (C.reports.create_or_update (Falco.generate_report p) (λ r. ok (refer_to p r))))
            (λ e. pure (completed_with e))
            (λ report. update_policy_status C (observed p report))
            s)
      × (publish_report C p (Litmus.generate_report p) s
          ≡ catch
              (call
                (C.reports.create_or_update (Litmus.generate_report p) (λ r. ok (refer_to p r))))
              (λ e. pure (completed_with e))
              (λ report. update_policy_status C (observed p report))
              s)
unfolding publish_report finish_report Falco.generate_report Litmus.generate_report
publish_report-no_reset C p s = ground (arith, eqb_ℤ_iff p.generation p.generation)

-- The report under the key has this status, whatever else it says.
abbrev pub HasStatus : (C : Cluster) → Key → PolicyReportStatus → C.State → Type 0
HasStatus C x st s = (b : PolicyReport) × (C.reports.stored x s ≡ some b) × (b.status ≡ st)

module _ (C : Cluster) (x : Key) (st : PolicyReportStatus) (k : PolicyKeeps C (HasStatus C x st))
    (store : (a : PolicyReport) (f : PolicyReport → PolicyReport) (s : C.State)
      → ((r : PolicyReport) → (f r).status ≡ r.status)
      → HasStatus C x st s
      → HasStatus C x st (C.reports.create_or_update a (λ r. ok (f r)) s).1) where
  stored-Keeps :
      (p : Policy) (a : PolicyReport)
      → Keeps (HasStatus C x st) (
          catch
            (call (C.reports.create_or_update a (λ r. ok (refer_to p r))))
            (λ e. pure (completed_with e))
            (λ report. update_policy_status C (observed p report)))
  unfolding update_policy_status refer_to
  stored-Keeps p a =
      let kept = λ (s : C.State) (h : HasStatus C x st s). store a (refer_to p) s (λ r. refl) h in
      Keeps-catch (Keeps-call _ kept) (λ e. Keeps-pure _)
        (λ r. search (keeps_rules, k.policy_status_keeps))

  experiments-Keeps :
      (p : Policy) (exps : List LitmusExperiment)
      → Keeps (HasStatus C x st) (Litmus.reconcile_experiments C p exps)
  unfolding Litmus.reconcile_experiments Litmus.reconcile_experiment
  experiments-Keeps p [] = Keeps-pure tt
  experiments-Keeps p (exp ∷ exps) =
      Keeps-then (search (keeps_rules, k.chaos_engine_store_keeps)) (experiments-Keeps p exps)

  -- A report that is at hand is stored, and its status not reset.
  published-Keeps :
      (p : Policy) (a : PolicyReport)
      → ((s : C.State)
          → publish_report C p a s
            ≡ catch
                (call (C.reports.create_or_update a (λ r. ok (refer_to p r))))
                (λ e. pure (completed_with e))
                (λ report. update_policy_status C (observed p report))
                s)
      → Keeps
          (HasStatus C x st)
          (catch (pure a) (λ e. pure (completed_with e)) (publish_report C p))
  unfolding pure catch resume
  published-Keeps p a same = record {
    keeps_at =
        λ s h. subst (λ o. HasStatus C x st o.1) (sym (same s)) ((stored-Keeps p a).keeps_at s h);
  }

  engine-Keeps :
      (engine : Engine C.State) (p : Policy)
      → Keeps (HasStatus C x st) (engine.reconcile p)
      → Keeps
          (HasStatus C x st)
          (catch (engine.generate_report p) (λ e. pure (completed_with e)) (publish_report C p))
      → Keeps (HasStatus C x st) (run_engine C engine p)
  unfolding run_engine
  engine-Keeps engine p run last =
      Keeps-catch (Keeps-lift _) (λ e. Keeps-pure _)
        (λ _. Keeps-catch run (λ e. Keeps-pure _) (λ _. last))

  falco-Keeps : (p : Policy) → Keeps (HasStatus C x st) (Falco.reconcile C p)
  unfolding Falco.reconcile
  falco-Keeps p = search (keeps_rules, k.config_map_store_keeps)

  litmus-Keeps : (p : Policy) → Keeps (HasStatus C x st) (Litmus.reconcile C p)
  unfolding Litmus.reconcile
  litmus-Keeps p = Keeps-option p.spec.litmus Keeps-panic (λ l. experiments-Keeps p l.experiments)

  -- Running the engine of an enabled Falco or Litmus policy, however it ends and whatever generation
  -- of the policy the stored report is of, leaves every stored report stored with the status that it
  -- had; provided that CreateOrUpdate keeps the status of a report that is stored where the mutation
  -- does, and that the engines' calls on other kinds of objects leave it alone.
  pub run_engine_keeps_status :
      (p : Policy) (s : C.State)
      → HasStatus C x st s
      → HasStatus C x st (run_engine C (falco_engine C) p s).1
        × HasStatus C x st (run_engine C (litmus_engine C) p s).1
  run_engine_keeps_status p s h = (
    (engine-Keeps (falco_engine C) p (falco-Keeps p) (
          published-Keeps p (Falco.generate_report p)
            (λ t. (publish_report-no_reset C p t).0))).keeps_at
        s h,
    (engine-Keeps (litmus_engine C) p (litmus-Keeps p) (
          published-Keeps p (Litmus.generate_report p)
            (λ t. (publish_report-no_reset C p t).1))).keeps_at
        s h,
  )
