-- ===== src/Cluster.antt =====
-- What the program reaches through its clients, as a parameter: the API server, the libraries of
-- Kubernetes' controller tooling, JSON and the random source. None of it is implemented here.
--
-- `stored` is the ghost of a resource: what the API server holds, which no call of the program reads.
-- `get` and `list` may answer from a cache that lags behind it. No other actor changes the cluster
-- between the calls of one reconcile; a law says only what the documentation of the call promises.
pub mod Frame
pub mod Laws
use eirenyx.Base.{ℕ, String, Bool, Option, List}
use eirenyx.Effect.{Result}
use eirenyx.Helm.{HelmSdk}
use eirenyx.Helm.Values.{Fields}
use eirenyx.Api.Meta.{Key, ObjectMeta, OwnerReference, Condition}
use eirenyx.Api.Policy.{Policy, FalcoPolicySpec, LitmusExperiment}
use eirenyx.Api.Report.{PolicyReport}
use eirenyx.Api.Tool.{Tool}
use eirenyx.Api.Trivy.{TrivyCliReport, TrivyDetails, PodDetails}
use eirenyx.Api.Workload.{Namespace, ConfigMap, Job, ChaosEngine, Pod, Deployment, DaemonSet}

-- `client.InNamespace` and `client.MatchingLabels`
pub record ListOptions : Type 0 where
  pub namespace : Option String
  pub labels : List (String × String)

-- The calls of one kind of object. A write answers with the object as the server holds it then,
-- which the client copies over the caller's. `patch` takes the object before and after the change.
pub record Resource (S A : Type 0) : Type 0 where
  pub get : Key → S → Result A
  pub list : ListOptions → S → Result (List A)
  pub create : A → S → Result A × S
  pub update : A → S → Result A × S
  pub update_status : A → S → Result A × S
  pub patch : A → A → S → Result A × S
  pub delete : A → S → Result (Unit {0}) × S
  pub create_or_update : A → (A → Result A) → S → Result A × S
  pub stored : Key → S → Option A

-- `controllerutil`, `encoding/json` and `fmt`'s `%q`. `unmarshal_values` answers `none` for a null.
pub record Library : Type 0 where
  pub contains_finalizer : List String → String → Bool
  pub add_finalizer : List String → String → List String
  pub remove_finalizer : List String → String → List String
  pub has_owner_reference : List OwnerReference → Tool → Result Bool
  pub set_owner_reference : Tool → ObjectMeta → Result ObjectMeta
  pub set_controller_reference : Policy → ObjectMeta → Result ObjectMeta
  pub set_status_condition : List Condition → Condition → List Condition
  pub marshal_falco : Option FalcoPolicySpec → Result String
  pub marshal_litmus_details : String → List LitmusExperiment → Result String
  pub marshal_falco_details : String → String → String → Result String
  pub marshal_trivy_details : TrivyDetails → Result String
  pub marshal_pods : List PodDetails → Result String
  pub unmarshal_trivy : String → Result TrivyCliReport
  pub unmarshal_values : String → Result (Option Fields)
  pub quote : String → String
  pub format_label_selector : List (String × String) → String

pub record Cluster : Type 1 where
  pub State : Type 0
  pub lib : Library
  pub helm : HelmSdk State
  pub policies : Resource State Policy
  pub tools : Resource State Tool
  pub reports : Resource State PolicyReport
  pub config_maps : Resource State ConfigMap
  pub jobs : Resource State Job
  pub chaos_engines : Resource State ChaosEngine
  pub namespaces : Resource State Namespace
  pub pods : Resource State Pod
  pub deployment : Key → State → Result Deployment
  pub daemon_set : Key → State → Result DaemonSet
  pub LogStream : Type 0
  pub open_logs : String → String → String → State → Result LogStream
  pub copy_logs : LogStream → State → Result String
  pub random_below : ℕ → State → ℕ × State
  pub shuffle : List Pod → State → List Pod × State
  pub range_pods : List PodDetails → State → List PodDetails × State
