-- ===== src/Api/Scheme.antt =====
-- The groups, versions and kinds of api/v1alpha1 and api/litmus, and their registration.
use eirenyx.Base.{String, Bool, List, [], ◌∷◌}
use eirenyx.Effect.{Result}

pub record GroupVersion : Type 0 where
  pub group : String
  pub version : String

pub record GroupVersionKind : Type 0 where
  pub group_version : GroupVersion
  pub kind : String

-- `runtime.Scheme` and the builders that add to one: those of the program are given their kinds, the
-- others are Kubernetes' own and the Trivy operator's.
pub record SchemeLib : Type 1 where
  pub Scheme : Type 0
  pub new_scheme : Scheme
  pub add_kinds : GroupVersion → List String → Scheme → Result Scheme
  pub add_client_go : Scheme → Result Scheme
  pub add_aqua : Scheme → Result Scheme
  pub recognizes : Scheme → GroupVersionKind → Bool

abbrev pub eirenyx_group_version : GroupVersion
eirenyx_group_version = record { group = "eirenyx.eirenyx"; version = "v1alpha1" }

abbrev pub litmus_group_version : GroupVersion
litmus_group_version = record { group = "litmuschaos.io"; version = "litmus" }

-- What the `init` functions of the package register.
abbrev pub policy_kinds : List String
policy_kinds = "Policy" ∷ "PolicyList" ∷ []

abbrev pub report_kinds : List String
report_kinds = "PolicyReport" ∷ "PolicyReportList" ∷ []

abbrev pub tool_kinds : List String
tool_kinds = "Tool" ∷ "ToolList" ∷ []

abbrev pub chaos_engine_kinds : List String
chaos_engine_kinds = "ChaosEngine" ∷ "ChaosEngineList" ∷ []

abbrev pub chaos_experiment_kinds : List String
chaos_experiment_kinds = "ChaosExperiment" ∷ "ChaosExperimentList" ∷ []

abbrev pub chaos_result_kinds : List String
chaos_result_kinds = "ChaosResult" ∷ "ChaosResultList" ∷ []
