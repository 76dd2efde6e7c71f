-- ===== src/Policy/Writes.antt =====
-- internal/policy: what the engines write, and the reports that they generate.
use eirenyx.Base.{refl, String, List, [], ◌∷◌}
use eirenyx.Effect.Keeps.{
  Keeps, Keeps-pure, Keeps-then, Keeps-lift, Keeps-panic, Keeps-option, keeps_rules,
}
use eirenyx.Effect.Yields.{
  Yields, Yields-pure, Yields-read, Yields-catch, Yields-bind, Yields-of_Keeps,
}
use eirenyx.Api.Meta.{Key}
use eirenyx.Api.Policy.{Policy, TrivyScan, LitmusExperiment}
use eirenyx.Api.Report.{PolicyReport}
use eirenyx.Api.Workload.{ChaosEngine}
use eirenyx.Cluster.{Cluster}
use eirenyx.Cluster.Frame.{PolicyKeeps}
use eirenyx.Controller.{Engine, falco_engine, trivy_engine, litmus_engine}
use eirenyx.Policy.Falco
use eirenyx.Policy.Litmus
use eirenyx.Policy.Trivy
use eirenyx.Report.Sound.{Versions, AllSound, IsSound, StatusLaws, delete-AllSound, get-IsSound}

-- An engine whose operations keep every stored report sound, and which generates sound reports.
pub record EngineSound (C : Cluster) (V : Versions C) (engine : Engine C.State) : Type 0 where
  pub reconcile_sound : (p : Policy) → Keeps (AllSound C V) (engine.reconcile p)
  pub cleanup_sound : (p : Policy) → Keeps (AllSound C V) (engine.cleanup p)
  pub report_sound :
      (p : Policy) → Yields (AllSound C V) (λ r. IsSound r.status) (engine.generate_report p)

module _ (C : Cluster) {V : Versions C} (laws : StatusLaws C V)
    (k : PolicyKeeps C (AllSound C V)) where
  reconcile_scans-Sound :
      (p : Policy) (scans : List TrivyScan) → Keeps (AllSound C V) (Trivy.reconcile_scans C p scans)
  unfolding Trivy.reconcile_scans Trivy.reconcile_scan Trivy.create_scan_job
  reconcile_scans-Sound p [] = Keeps-pure tt
  reconcile_scans-Sound p (scan ∷ scans) =
      Keeps-then (search (keeps_rules, k.job_create_keeps) depth 9) (reconcile_scans-Sound p scans)

  cleanup_scans-Sound :
      (p : Policy) (scans : List TrivyScan) → Keeps (AllSound C V) (Trivy.cleanup_scans C p scans)
  unfolding Trivy.cleanup_scans Trivy.delete_scan
  cleanup_scans-Sound p [] = Keeps-pure tt
  cleanup_scans-Sound p (scan ∷ scans) =
      Keeps-then (search (keeps_rules, k.job_delete_keeps)) (cleanup_scans-Sound p scans)

  new_report-Yields :
      (p : Policy) → Yields (AllSound C V) (λ r. IsSound r.status) (Trivy.generate_report C p)
  unfolding Trivy.generate_report Trivy.new_report
  new_report-Yields p =
      let key : Key = record { namespace = p.namespace; name = Trivy.report_name p.name } in
      Yields-catch (Yields-read (C.reports.get key) (λ s h r e. get-IsSound C laws key s r h e))
        (λ e. Yields-bind (Yields-of_Keeps (Keeps-lift _)) (λ meta _. Yields-pure _ refl))
        Yields-pure

  pub trivy_engine-EngineSound : EngineSound C V (trivy_engine C)
  unfolding Trivy.reconcile Trivy.cleanup
  trivy_engine-EngineSound = record {
    reconcile_sound =
        λ p. Keeps-option p.spec.trivy Keeps-panic (λ t. (reconcile_scans-Sound p t.scans));
    cleanup_sound =
        λ p. Keeps-option p.spec.trivy Keeps-panic (λ t. (cleanup_scans-Sound p t.scans));
    report_sound = new_report-Yields;
  }

  falco_reports-Sound :
      (p : Policy) (reports : List PolicyReport)
      → Keeps (AllSound C V) (Falco.delete_reports C p reports)
  unfolding Falco.delete_reports
  falco_reports-Sound p [] = Keeps-pure tt
  falco_reports-Sound p (r ∷ reports) =
      let rest = falco_reports-Sound p reports in search (keeps_rules, delete-AllSound C laws)

  pub falco_engine-EngineSound : EngineSound C V (falco_engine C)
  unfolding Falco.reconcile Falco.cleanup Falco.delete_config_map Falco.generate_report
  falco_engine-EngineSound = record {
    reconcile_sound = λ p. search (keeps_rules, k.config_map_store_keeps);
    cleanup_sound = λ p. search (keeps_rules, k.config_map_delete_keeps, falco_reports-Sound);
    report_sound = λ p. Yields-pure _ refl;
  }

  experiments-Sound :
      (p : Policy) (exps : List LitmusExperiment)
      → Keeps (AllSound C V) (Litmus.reconcile_experiments C p exps)
  unfolding Litmus.reconcile_experiments Litmus.reconcile_experiment
  experiments-Sound p [] = Keeps-pure tt
  experiments-Sound p (exp ∷ exps) =
      Keeps-then (search (keeps_rules, k.chaos_engine_store_keeps)) (experiments-Sound p exps)

  delete_engines-Sound :
      (engines : List ChaosEngine) → Keeps (AllSound C V) (Litmus.delete_engines C engines)
  unfolding Litmus.delete_engines
  delete_engines-Sound [] = Keeps-pure tt
  delete_engines-Sound (e ∷ engines) =
      Keeps-then (search (keeps_rules, k.chaos_engine_delete_keeps)) (delete_engines-Sound engines)

  delete_engines_in-Sound :
      (p : Policy) (names : List String) → Keeps (AllSound C V) (Litmus.delete_engines_in C p names)
  unfolding Litmus.delete_engines_in
  delete_engines_in-Sound p [] = Keeps-pure tt
  delete_engines_in-Sound p (ns ∷ names) =
      let rest = delete_engines_in-Sound p names in search (keeps_rules, delete_engines-Sound)

  litmus_reports-Sound :
      (p : Policy) (reports : List PolicyReport)
      → Keeps (AllSound C V) (Litmus.delete_reports C p reports)
  unfolding Litmus.delete_reports
  litmus_reports-Sound p [] = Keeps-pure tt
  litmus_reports-Sound p (r ∷ reports) =
      let rest = litmus_reports-Sound p reports in search (keeps_rules, delete-AllSound C laws)

  pub litmus_engine-EngineSound : EngineSound C V (litmus_engine C)
  unfolding Litmus.reconcile Litmus.cleanup Litmus.generate_report
  litmus_engine-EngineSound = record {
    reconcile_sound =
        λ p. Keeps-option p.spec.litmus Keeps-panic (λ l. (experiments-Sound p l.experiments));
    cleanup_sound = λ p.
        Keeps-option p.spec.litmus Keeps-panic
          (λ l. (search (keeps_rules, delete_engines_in-Sound, litmus_reports-Sound)));
    report_sound = λ p. Yields-pure _ refl;
  }
