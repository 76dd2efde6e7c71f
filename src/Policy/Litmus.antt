-- ===== src/Policy/Litmus.antt =====
-- internal/policy/litmus/engine.go: a ChaosEngine for each experiment of a policy.
pub mod Validate
pub mod Cleanup
pub mod Engines
pub mod Removes
pub mod Targets
use eirenyx.Base.{
  ℕ, suc, String, ◌<>◌, Bool, Option, none, some, List, [], ◌∷◌, ◌++◌, map, ◌==◌, ◌||◌, not,
  if◌then◌else◌, contains, is_empty,
}
use eirenyx.Base.Int.{pos}
use eirenyx.Base.Text.{is_blank, decimal}
use eirenyx.Effect.{
  Result, ok, err, errorf, Exec, pure, panic, read, call, ignore_not_found, ◌>>=◌, ◌>>◌,
}
use eirenyx.Api.Meta.{Key, ObjectMeta, named}
use eirenyx.Api.Policy.{Policy, LitmusExperiment, LitmusPolicySpec, policy_type_litmus}
use eirenyx.Api.Report.{PolicyReport, ReportPhase, empty_summary}
use eirenyx.Api.Workload.{ChaosEngine, EnvVar, components_of}
use eirenyx.Cluster.{Cluster}

abbrev pub managed_by_label_key : String
managed_by_label_key = "app.kubernetes.io/managed-by"

abbrev pub managed_by_label_val : String
managed_by_label_val = "eirenyx"

abbrev pub policy_name_label_key : String
policy_name_label_key = "eirenyx.eirenyx/policy-name"

abbrev pub policy_type_label_key : String
policy_type_label_key = "eirenyx.eirenyx/policy-type"

abbrev pub litmus_experiment_label : String
litmus_experiment_label = "eirenyx.eirenyx/litmus-experiment"

-- `getChaosEngineName`, on the policy's name.
unfoldable pub chaos_engine_name : String → String → String
chaos_engine_name policy_name experiment_name =
    "eirenyx-litmus-" <> (policy_name <> ("-" <> experiment_name))

abbrev field_error : ℕ → String → Result (Unit {0})
field_error i text = err (errorf ("litmus.experiments[" <> (decimal (pos i) <> text)))

-- The loop of `Validate`, from the experiment with index `i`.
unfoldable pub validate_experiments : ℕ → List LitmusExperiment → Result (Unit {0})
validate_experiments i [] = ok tt
validate_experiments i (exp ∷ exps) =
    let rest = validate_experiments (suc i) exps in
    if is_blank exp.name
    then field_error i "].name is required"
    else if is_blank exp.experiment_ref
    then field_error i "].experimentRef is required"
    else if is_blank exp.app_info.app_namespace
        || is_blank exp.app_info.app_label
        || is_blank exp.app_info.app_kind
    then field_error i "].appInfo is incomplete"
    else rest

validate_spec : Option LitmusPolicySpec → Result (Unit {0})
validate_spec none = err (errorf "spec.litmus is required for type=litmus")
validate_spec (some spec) =
    if is_empty spec.experiments
    then err (errorf "spec.litmus.experiments must contain at least one experiment")
    else validate_experiments 0 spec.experiments

unfoldable pub validate : Policy → Result (Unit {0})
unfolding validate_spec
validate p =
    if p.spec.type == policy_type_litmus
    then validate_spec p.spec.litmus
    else err (errorf ("litmus engine received unsupported policy type: " <> p.spec.type))

abbrev when : {A : Type 0} → Bool → List A → List A
when b xs = if b then xs else []

-- `buildEnvVars`
unfoldable pub build_env_vars : LitmusExperiment → List EnvVar
build_env_vars exp =
    when (not (is_blank exp.duration))
      (record { name = "TOTAL_CHAOS_DURATION"; value = exp.duration } ∷ [])
    ++ (when (not (is_blank exp.mode)) (record { name = "CHAOS_MODE"; value = exp.mode } ∷ [])
        ++ map (λ (k, v). record { name = k; value = v }) exp.parameters)

-- The namespace of an experiment's ChaosEngine.
abbrev pub engine_namespace : Policy → LitmusExperiment → String
engine_namespace p exp = if is_blank exp.target_namespace then p.namespace else exp.target_namespace

abbrev pub engine_key : Policy → LitmusExperiment → Key
engine_key p exp = record {
  namespace = engine_namespace p exp;
  name = chaos_engine_name p.name exp.name;
}

abbrev pub bare_engine : ObjectMeta → ChaosEngine
bare_engine meta = record {
  meta = meta;
  spec = record {
    app_info = record { appns = ""; applabel = ""; app_kind = "" };
    engine_state = "";
    experiments = [];
  };
  status = record { engine_status = ""; experiments = [] };
}

-- The function that `Reconcile` hands to `CreateOrUpdate`.
unfoldable pub fill_engine : Policy → LitmusExperiment → ChaosEngine → ChaosEngine
fill_engine p exp engine = record engine {
  meta = record (engine.meta) {
    labels =
        (managed_by_label_key, managed_by_label_val)
        ∷ (policy_name_label_key, p.name)
        ∷ (policy_type_label_key, p.spec.type)
        ∷ (litmus_experiment_label, exp.name)
        ∷ [];
  };
  spec = record {
    app_info = record {
      appns = exp.app_info.app_namespace;
      applabel = exp.app_info.app_label;
      app_kind = exp.app_info.app_kind;
    };
    engine_state = "active";
    experiments =
        record {
          name = exp.experiment_ref;
          spec = record { components = components_of (build_env_vars exp) };
        }
        ∷ [];
  };
}

-- The set of namespaces that `Cleanup` goes through, in the order in which they come up; Go leaves
-- the order open.
unfoldable pub add_namespaces : List String → List LitmusExperiment → List String
add_namespaces seen [] = seen
add_namespaces seen (exp ∷ exps) =
    add_namespaces
      (if is_blank exp.target_namespace || contains seen exp.target_namespace
        then seen
        else seen ++ (exp.target_namespace ∷ []))
      exps

abbrev pub report_name : String → String
report_name policy_name = "litmus-report-" <> policy_name

-- `GenerateReport` builds the report anew, whether or not one exists.
unfoldable pub generate_report : Policy → PolicyReport
generate_report p = record {
  meta = record (named (report_name p.name) p.namespace) {
    labels = (managed_by_label_key, managed_by_label_val) ∷ (policy_name_label_key, p.name) ∷ [];
  };
  spec = record {
    policy_ref = record { name = p.name; generation = p.generation };
    type = p.spec.type;
  };
  status = record { phase = ReportPhase.pending; summary = empty_summary; details = "" };
}

module _ (C : Cluster) where
  unfoldable pub reconcile_experiment : Policy → LitmusExperiment → Exec C.State (Unit {0})
  reconcile_experiment p exp =
      call (
        C.chaos_engines.create_or_update
          (bare_engine (named (chaos_engine_name p.name exp.name) (engine_namespace p exp)))
          (λ engine. ok (fill_engine p exp engine)))
      >> pure tt

  unfoldable pub reconcile_experiments : Policy → List LitmusExperiment → Exec C.State (Unit {0})
  reconcile_experiments p [] = pure tt
  reconcile_experiments p (exp ∷ exps) = reconcile_experiment p exp >> reconcile_experiments p exps

  -- A policy with no litmus spec is a nil dereference.
  unfoldable pub reconcile : Policy → Exec C.State (Unit {0})
  reconcile p = elim (p.spec.litmus) [
    | none ↦ panic
    | some l ↦ reconcile_experiments p l.experiments
  ]

  unfoldable pub delete_engines : List ChaosEngine → Exec C.State (Unit {0})
  delete_engines [] = pure tt
  delete_engines (engine ∷ engines) =
      ignore_not_found (call (C.chaos_engines.delete engine)) >> delete_engines engines

  unfoldable pub delete_engines_in : Policy → List String → Exec C.State (Unit {0})
  delete_engines_in p [] = pure tt
  delete_engines_in p (ns ∷ namespaces) = do
    engines ← read (
        C.chaos_engines.list (record {
          namespace = some ns;
          labels =
              (managed_by_label_key, managed_by_label_val) ∷ (policy_name_label_key, p.name) ∷ [];
        }))
    delete_engines engines
    delete_engines_in p namespaces

  unfoldable pub delete_reports : Policy → List PolicyReport → Exec C.State (Unit {0})
  delete_reports p [] = pure tt
  delete_reports p (report ∷ reports) =
      let rest = delete_reports p reports in
      if report.spec.policy_ref.name == p.name
      then ignore_not_found (call (C.reports.delete report)) >> rest
      else rest

  cleanup_spec : Policy → LitmusPolicySpec → Exec C.State (Unit {0})
  cleanup_spec p l = do
    delete_engines_in p (add_namespaces (p.namespace ∷ []) l.experiments)
    reports ← read (C.reports.list (record { namespace = some p.namespace; labels = [] }))
    delete_reports p reports

  unfoldable pub cleanup : Policy → Exec C.State (Unit {0})
  unfolding cleanup_spec
  cleanup p = elim (p.spec.litmus) [ none ↦ panic | some l ↦ cleanup_spec p l ]
