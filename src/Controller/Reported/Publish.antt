-- ===== src/Controller/Reported/Publish.antt =====
-- internal/controller/policy_controller.go: the report of a Litmus policy is stored.
use mathlib.Core.Path.{subst}
use eirenyx.Base.{◌≡◌, refl, sym, ap, ◌∙◌, inl, inr, List, [], ◌∷◌, arith}
use eirenyx.Effect.{Error, Reason, ok, err, returned, ◌>>◌}
use eirenyx.Api.Meta.{Key, key_of, named}
use eirenyx.Api.Policy.{Policy, LitmusExperiment}
use eirenyx.Api.Report.{PolicyReport, PolicyReportStatus}
use eirenyx.Cluster.{Cluster}
use eirenyx.Controller.{completed}
use eirenyx.Controller.Policies as PolicyControl
use eirenyx.Controller.Policies.{publish_report, refer_to, observed, run_engine}
use eirenyx.Controller.Policies.Rescan.{publish_report-no_reset}
use eirenyx.Policy.Litmus
use eirenyx.Policy.Litmus.{generate_report, report_name}
use eirenyx.Controller.Reported.{ReportServer, IsOpen}

module _ (C : Cluster) (server : ReportServer C) where
  -- The reads of reports and policies are as before.
  abbrev pub SameReads : C.State → C.State → Type 0
  SameReads s t =
      (x : Key)
      → (C.reports.get x t ≡ C.reports.get x s) × (C.policies.get x t ≡ C.policies.get x s)

  -- The engine's Reconcile returns.
  pub experiments_returned :
      (p : Policy) (exps : List LitmusExperiment) (s : C.State)
      → (t : C.State) × (Litmus.reconcile_experiments C p exps s ≡ (returned tt, t)) × SameReads s t
  unfolding Litmus.reconcile_experiments Litmus.reconcile_experiment Litmus.fill_engine ◌>>◌
  experiments_returned p [] s = (s, refl, λ x. (refl, refl))
  experiments_returned p (exp ∷ exps) s =
      let a =
        Litmus.bare_engine
          (named (Litmus.chaos_engine_name p.name exp.name) (Litmus.engine_namespace p exp)) in
      let f = Litmus.fill_engine p exp in
      let (b, stored) = server.engine_stored a f s (λ x. refl) in
      let u = (C.chaos_engines.create_or_update a (λ x. ok (f x)) s).1 in
      let (t, run, same) = experiments_returned p exps u in
      (
        t,
        ground (arith, stored, run),
        λ x. let (r, q) = server.engine_apart a f s x in let (r', q') = same x in (r' ∙ r, q' ∙ q),
      )

  -- The policy's report is stored, and not completed, and the policy is still there.
  pub record IsPending (p : Policy) (s : C.State) : Type 0 where
    pub report : PolicyReport
    pub policy : Policy
    pub report_got : C.reports.get (key_of (generate_report p).meta) s ≡ ok report
    pub report_key : key_of report.meta ≡ key_of (generate_report p).meta
    pub report_spec : report.spec ≡ (generate_report p).spec
    pub report_open : IsOpen report.status
    pub policy_got : C.policies.get (key_of p.meta) s ≡ ok policy
    pub policy_spec : policy.spec ≡ p.spec

  pub publish-IsPending :
      (p : Policy) (s : C.State) (e : Error)
      → C.reports.get (key_of (generate_report p).meta) s ≡ err e
      → e.reason ≡ Reason.not_found
      → C.policies.get (key_of p.meta) s ≡ ok p
      → ((publish_report C p (generate_report p) s).0 ≡ returned completed)
        × IsPending p (publish_report C p (generate_report p) s).1
  unfolding PolicyControl.update_policy_status ◌>>◌ refer_to observed generate_report
  publish-IsPending p s e missing reason got =
      let a = generate_report p in
      let (b, stored, seen, place, spec, status) =
        server.report_created a (refer_to p) s e missing reason (λ r. (refl, refl)) in
      let t = (C.reports.create_or_update a (λ r. ok (refer_to p r)) s).1 in
      let p' = observed p b in
      let still : C.policies.get (key_of p.meta) t ≡ ok p =
        server.reports_apart a (refer_to p) s (key_of p.meta) ∙ got in
      let (q, updated, there, same) = server.policy_status_updated p p'.status t still in
      let u = (C.policies.update_status p' t).1 in
      let run : publish_report C p a s ≡ (returned completed, u) =
        (publish_report-no_reset C p s).1 ∙ ground (arith, stored, updated) in
      (
        ap (λ o. o.0) run,
        subst (λ o. IsPending p o.1) (sym run)
            (record {
              report = b;
              policy = q;
              report_got = server.policy_status_apart p' t (key_of a.meta) ∙ seen;
              report_key = place;
              report_spec = spec;
              report_open = elim status [
                | inl none_ ↦ inl (ap (λ (st : PolicyReportStatus). st.phase) none_)
                | inr given ↦ inr (ap (λ (st : PolicyReportStatus). st.phase) given)
              ];
              policy_got = there;
              policy_spec = same;
            }),
      )
