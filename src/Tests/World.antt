-- ===== src/Tests/World.antt =====
-- The cluster of the tests: every kind of object in memory, and stand-ins for the libraries.
use eirenyx.Base.{
  ◌%◌, Bool, true, false, ◌==◌, none, some, List, [], ◌∷◌, ◌++◌, String, ◌<>◌, if◌then◌else◌,
  contains, entry, put_entry, arith, Option,
}
use eirenyx.Base.Int.{pos}
use eirenyx.Base.Text.{decimal}
use eirenyx.Effect.{Result, ok, err, errorf}
use eirenyx.Api.Meta.{ObjectMeta, OwnerReference}
use eirenyx.Api.Policy.{Policy}
use eirenyx.Api.Report.{PolicyReport}
use eirenyx.Api.Tool.{Tool}
use eirenyx.Api.Trivy.{TrivyCliReport, TrivyCliVulnerability}
use eirenyx.Api.Workload.{Namespace, ConfigMap, Job, ChaosEngine, Pod, Deployment, DaemonSet}
use eirenyx.Cluster.{Cluster, Library}
use eirenyx.Cluster.Laws.{OwnerLaws}
use eirenyx.Helm.{HelmSdk}
use eirenyx.Helm.Values.{Fields, text, end, field}
use eirenyx.Tests.Memory.{Place, table, missing}

pub record World : Type 0 where
  pub policies : List Policy
  pub tools : List Tool
  pub reports : List PolicyReport
  pub config_maps : List ConfigMap
  pub jobs : List Job
  pub chaos_engines : List ChaosEngine
  pub namespaces : List Namespace
  pub pods : List Pod
  pub deployments : List (String × Deployment)
  pub daemon_sets : List (String × DaemonSet)
  pub logs : List (String × String)
  pub releases : List (String × (String × Option Fields))

abbrev pub empty_world : World
empty_world = record {
  policies = [];
  tools = [];
  reports = [];
  config_maps = [];
  jobs = [];
  chaos_engines = [];
  namespaces = [];
  pods = [];
  deployments = [];
  daemon_sets = [];
  logs = [];
  releases = [];
}

without : String → List String → List String
without t [] = []
without t (s ∷ l) = let rest = without t l in if s == t then rest else s ∷ rest

unfoldable pub owned_by : String → List OwnerReference → Bool
owned_by name [] = false
owned_by name (o ∷ l) = if o.name == name then true else owned_by name l

abbrev pub add_owner : OwnerReference → ObjectMeta → ObjectMeta
add_owner o m = record m { owner_references = m.owner_references ++ (o ∷ []) }

-- One finding for a text that is not the empty object.
abbrev pub a_vulnerability : TrivyCliVulnerability
a_vulnerability = record {
  vulnerability_id = "CVE-1";
  pkg_name = "";
  pkg_path = "lib/a";
  installed_version = "1";
  fixed_version = "2";
  severity = "HIGH";
  title = "";
  description = "";
  primary_url = "";
  references = [];
}

abbrev pub a_report : TrivyCliReport
a_report = record {
  artifact_name = "docker.io/library/nginx";
  artifact_type = "container_image";
  results =
      record {
        target = "debian";
        class = "os-pkgs";
        type = "debian";
        vulnerabilities = a_vulnerability ∷ [];
      }
      ∷ [];
  metadata = none;
}

pub selector_text : List (String × String) → String
selector_text [] = ""
selector_text ((k, v) ∷ l) = k <> ("=" <> (v <> ("," <> selector_text l)))

unfoldable pub library : Library
unfolding without owned_by contains
library = record {
  contains_finalizer = contains;
  add_finalizer = λ l f. if contains l f then l else l ++ (f ∷ []);
  remove_finalizer = λ l f. without f l;
  has_owner_reference = λ owners tool. ok (owned_by tool.name owners);
  set_owner_reference = λ tool m. ok (
      add_owner
        (record { kind = "Tool"; name = tool.name; uid = tool.meta.uid; controller = false }) m);
  set_controller_reference = λ p m. ok (
      add_owner (record { kind = "Policy"; name = p.name; uid = p.meta.uid; controller = true }) m);
  set_status_condition = λ conditions c. conditions ++ (c ∷ []);
  marshal_falco = λ _. ok "{falco}";
  marshal_litmus_details = λ message _. ok message;
  marshal_falco_details = λ message rule _. ok rule;
  marshal_trivy_details = λ d. ok (decimal (pos d.report_count));
  marshal_pods = λ _. ok "{pods}";
  unmarshal_trivy = λ t. if t == "{}" then ok a_report else err (errorf "invalid character");
  unmarshal_values = λ t. if t == "null" then ok none else ok (some (field "portal" (text t) end));
  quote = λ t. t;
  format_label_selector = λ l. selector_text l;
}

pub library-OwnerLaws : OwnerLaws library
unfolding library
library-OwnerLaws = record { controller_keeps_key = λ p m m' e. ground arith }

unfoldable pub find_entry : {A : Type 0} → String → List (String × A) → Result A
unfolding entry
find_entry k l = elim (entry k l) [ none ↦ err missing | some a ↦ ok a ]

-- The map without the key.
unfoldable pub without_entry : {A : Type 0} → String → List (String × A) → List (String × A)
without_entry k [] = []
without_entry k ((j, a) ∷ l) =
    let rest = without_entry k l in if j == k then rest else (j, a) ∷ rest

unfoldable pub helm_sdk : HelmSdk World
unfolding without_entry entry put_entry
helm_sdk = record {
  RepoFile = Unit;
  Repo = Unit;
  Chart = String;
  make_cache = λ w. (ok tt, w);
  config_missing = λ _. false;
  create_config = λ w. (ok tt, w);
  init_config = λ _ _. ok tt;
  load_repo_file = λ _. ok tt;
  has_repo = λ _ _. true;
  update_repo = λ f _ _. f;
  write_repo_file = λ _ w. (ok tt, w);
  chart_repository = λ _ _. ok tt;
  download_index = λ _ w. (ok tt, w);
  load_chart = λ chart _. ok chart;
  get_release = λ _ release w. elim (entry release w.releases) [
    | some _ ↦ ok tt
    | none ↦ err (errorf "release: not found")
  ];
  install = λ _ release chart values w.
      (ok tt, record w { releases = (release, (chart, values)) ∷ w.releases });
  upgrade = λ _ release chart values w.
      (ok tt, record w { releases = put_entry release (chart, values) w.releases });
  uninstall = λ _ release w. elim (entry release w.releases) [
    | some _ ↦ (ok tt, record w { releases = without_entry release w.releases })
    | none ↦ (err (errorf "uninstall: Release not loaded: chaos: release: not found"), w)
  ];
}

abbrev pub policy_place : Place World Policy
policy_place = record { view = World.policies; put = λ l w. record w { policies = l } }

abbrev pub tool_place : Place World Tool
tool_place = record { view = World.tools; put = λ l w. record w { tools = l } }

abbrev pub report_place : Place World PolicyReport
report_place = record { view = World.reports; put = λ l w. record w { reports = l } }

abbrev pub config_map_place : Place World ConfigMap
config_map_place = record { view = World.config_maps; put = λ l w. record w { config_maps = l } }

abbrev pub job_place : Place World Job
job_place = record { view = World.jobs; put = λ l w. record w { jobs = l } }

abbrev pub chaos_engine_place : Place World ChaosEngine
chaos_engine_place = record {
  view = World.chaos_engines;
  put = λ l w. record w { chaos_engines = l };
}

abbrev pub namespace_place : Place World Namespace
namespace_place = record { view = World.namespaces; put = λ l w. record w { namespaces = l } }

abbrev pub pod_place : Place World Pod
pod_place = record { view = World.pods; put = λ l w. record w { pods = l } }

-- The pods are shuffled into the order in which they stand, and three events are drawn.
abbrev pub memory : Cluster
memory = record {
  State = World;
  lib = library;
  helm = helm_sdk;
  policies = table Policy.meta policy_place;
  tools = table Tool.meta tool_place;
  reports = table PolicyReport.meta report_place;
  config_maps = table ConfigMap.meta config_map_place;
  jobs = table Job.meta job_place;
  chaos_engines = table ChaosEngine.meta chaos_engine_place;
  namespaces = table Namespace.meta namespace_place;
  pods = table Pod.meta pod_place;
  deployment = λ key w. find_entry key.name w.deployments;
  daemon_set = λ key w. find_entry key.name w.daemon_sets;
  LogStream = String;
  open_logs = λ _ name _ w. find_entry name w.logs;
  copy_logs = λ stream _. ok stream;
  random_below = λ n w. (3 % n, w);
  shuffle = λ pods w. (pods, w);
  range_pods = λ pods w. (pods, w);
}
