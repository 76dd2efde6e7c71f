-- ===== src/Tests/Samples.antt =====
-- The objects that the runs of the model act on.
use eirenyx.Base.{ℕ, String, true, false, none, some, List, [], ◌∷◌}
use eirenyx.Base.Int.{pos}
use eirenyx.Api.Meta.{named}
use eirenyx.Api.Policy.{
  Policy, PolicySpec, TrivyScan, TrivyPolicySpec, FalcoPolicySpec, LitmusExperiment,
  policy_finalizer,
}
use eirenyx.Api.Report.{PolicyReport, ReportPhase, empty_summary}
use eirenyx.Api.Tool.{Tool}
use eirenyx.Api.Workload.{Job, ChaosEngine, Pod, PodPhase}
use eirenyx.Policy.Trivy.{scan_job, report_name}

abbrev pub a_spec : String → PolicySpec
a_spec type = record {
  type = type;
  enabled = true;
  target = record { namespace_selector = []; node_selector = [] };
  falco = none;
  trivy = none;
  litmus = none;
}

abbrev pub a_policy : String → PolicySpec → Policy
a_policy name spec = record {
  meta = named name "default";
  spec = spec;
  status = record { phase = ""; conditions = []; last_report = ""; observed_gen = pos 0 };
}

abbrev pub deleted : Policy → Policy
deleted p = record p {
  meta = record (p.meta) { deletion_timestamp = some 9; finalizers = policy_finalizer ∷ [] };
}

abbrev pub a_scan : String → TrivyScan
a_scan name = record {
  name = name;
  image = "nginx";
  severity = "";
  ignore_unfixed = false;
  vulnerability_types = [];
  exit_code = none;
}

abbrev pub two_scans : TrivyPolicySpec
two_scans = record { scans = a_scan "web" ∷ a_scan "db" ∷ [] }

abbrev pub trivy_policy : Policy
trivy_policy = a_policy "images" (record (a_spec "trivy") { trivy = some two_scans })

abbrev pub a_falco_spec : FalcoPolicySpec
a_falco_spec = record {
  observe = record {
    rule_ref = none;
    rule_selector = some (record { tags = "shell" ∷ []; priorities = [] });
  };
  report = none;
}

abbrev pub falco_policy : Policy
falco_policy = a_policy "shells" (record (a_spec "falco") { falco = some a_falco_spec })

abbrev pub an_experiment : LitmusExperiment
an_experiment = record {
  name = "kill";
  experiment_ref = "pod-delete";
  engine_ref = "";
  target_namespace = "";
  app_info = record { app_namespace = "shop"; app_label = "app=web"; app_kind = "deployment" };
  mode = "";
  duration = "";
  parameters = [];
  expected_result = record { verdict = ""; fail_on_chaos_error = none };
}

abbrev pub litmus_policy : Policy
litmus_policy =
    a_policy "chaos"
      (record (a_spec "litmus") { litmus = some (record { experiments = an_experiment ∷ [] }) })

abbrev pub a_tool : String → Tool
a_tool type = record {
  meta = named type "default";
  spec = record { type = type; enabled = true; namespace = "security"; values = "" };
  status = record { installed = false; healthy = false; version = ""; conditions = [] };
}

-- A pending report of the policy with the given name.
abbrev pub report_of : String → String → PolicyReport
report_of type policy = record {
  meta = named (report_name policy) "default";
  spec = record { policy_ref = record { name = policy; generation = pos 0 }; type = type };
  status = record { phase = ReportPhase.pending; summary = empty_summary; details = "" };
}

abbrev pub finished_job : TrivyScan → Job
finished_job scan = record (scan_job trivy_policy scan) {
  status = record { succeeded = pos 1; failed = pos 0 };
}

abbrev pub a_pod : String → List (String × String) → ℕ → Pod
a_pod name labels time = record {
  meta = record (named name "default") { labels = labels; creation_timestamp = time };
  phase = PodPhase.pod_succeeded;
  containers = [];
}

abbrev pub an_engine : String → ChaosEngine
an_engine name = record {
  meta = named name "shop";
  spec = record {
    app_info = record { appns = "shop"; applabel = "app=web"; app_kind = "deployment" };
    engine_state = "active";
    experiments = [];
  };
  status = record { engine_status = ""; experiments = [] };
}
