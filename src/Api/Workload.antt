-- ===== src/Api/Workload.antt =====
-- Kubernetes' and Litmus' objects, the fields that the program reads or writes.
use eirenyx.Base.{ℕ, String, Option, List, []}
use eirenyx.Base.Int.{ℤ, pos}
use eirenyx.Api.Meta.{ObjectMeta}

pub record Namespace : Type 0 where
  pub meta : ObjectMeta

pub record ConfigMap : Type 0 where
  pub meta : ObjectMeta
  pub data_entries : List (String × String)

pub record Container : Type 0 where
  pub name : String
  pub image : String
  pub command : List String
  pub args : List String

pub record JobSpec : Type 0 where
  pub backoff_limit : Option ℤ
  pub ttl_seconds_after_finished : Option ℤ
  pub template_labels : List (String × String)
  pub restart_policy : String
  pub containers : List Container

pub record JobStatus : Type 0 where
  pub succeeded : ℤ
  pub failed : ℤ

pub record Job : Type 0 where
  pub meta : ObjectMeta
  pub spec : JobSpec
  pub status : JobStatus

pub record EnvVar : Type 0 where
  pub name : String
  pub value : String

-- api/litmus/chaosengine_types.go
pub record ApplicationParams : Type 0 where
  pub appns : String
  pub applabel : String
  pub app_kind : String

-- `ConfigMap` and `Secret` of api/litmus/chaosexperiment_types.go.
pub record ExperimentConfigMap : Type 0 where
  pub data_entries : List (String × String)
  pub name : String
  pub mount_path : String

pub record ExperimentSecret : Type 0 where
  pub name : String
  pub mount_path : String

pub record StatusCheckTimeout : Type 0 where
  pub delay : ℤ
  pub timeout : ℤ

-- The pull secrets, the resources and the tolerations, whose types are Kubernetes' own, are left out.
pub record ExperimentComponents : Type 0 where
  pub env : List EnvVar
  pub config_maps : List ExperimentConfigMap
  pub secrets : List ExperimentSecret
  pub experiment_annotations : List (String × String)
  pub experiment_image : String
  pub node_selector : List (String × String)
  pub status_check_timeouts : StatusCheckTimeout

-- The components with an environment, all else at its zero value.
abbrev pub components_of : List EnvVar → ExperimentComponents
components_of env = record {
  env = env;
  config_maps = [];
  secrets = [];
  experiment_annotations = [];
  experiment_image = "";
  node_selector = [];
  status_check_timeouts = record { delay = pos 0; timeout = pos 0 };
}

pub record ExperimentAttributes : Type 0 where
  pub components : ExperimentComponents

pub record ExperimentList : Type 0 where
  pub name : String
  pub spec : ExperimentAttributes

pub record ChaosEngineSpec : Type 0 where
  pub app_info : ApplicationParams
  pub engine_state : String
  pub experiments : List ExperimentList

-- `EngineState`, `ExperimentStatus` and `EngineStatus` are texts with these values.
abbrev pub engine_state_active : String
engine_state_active = "active"

abbrev pub engine_state_stop : String
engine_state_stop = "stop"

abbrev pub experiment_status_running : String
experiment_status_running = "Running"

abbrev pub experiment_status_completed : String
experiment_status_completed = "Completed"

abbrev pub experiment_status_waiting : String
experiment_status_waiting = "Waiting for Job Creation"

abbrev pub experiment_status_not_found : String
experiment_status_not_found = "ChaosExperiment Not Found"

abbrev pub experiment_status_aborted : String
experiment_status_aborted = "Forcefully Aborted"

abbrev pub experiment_skipped : String
experiment_skipped = "Skipped"

abbrev pub engine_status_initialized : String
engine_status_initialized = "initialized"

abbrev pub engine_status_completed : String
engine_status_completed = "completed"

abbrev pub engine_status_stopped : String
engine_status_stopped = "stopped"

pub record ExperimentStatuses : Type 0 where
  pub name : String
  pub runner : String
  pub exp_pod : String
  pub status : String
  pub verdict : String
  pub last_update_time : ℕ

pub record ChaosEngineStatus : Type 0 where
  pub engine_status : String
  pub experiments : List ExperimentStatuses

pub record ChaosEngine : Type 0 where
  pub meta : ObjectMeta
  pub spec : ChaosEngineSpec
  pub status : ChaosEngineStatus

pub data PodPhase : Type 0 where
  pod_pending pod_running pod_succeeded pod_failed pod_unknown : PodPhase

pub record Pod : Type 0 where
  pub meta : ObjectMeta
  pub open meta use {name, namespace}
  pub phase : PodPhase
  pub containers : List Container

-- `appsv1.Deployment`: its generations and conditions.
pub record WorkloadCondition : Type 0 where
  pub type : String
  pub status : String

pub record Deployment : Type 0 where
  pub generation : ℤ
  pub observed_generation : ℤ
  pub conditions : List WorkloadCondition

pub record DaemonSet : Type 0 where
  pub generation : ℤ
  pub observed_generation : ℤ
  pub number_ready : ℤ
  pub desired_number_scheduled : ℤ
