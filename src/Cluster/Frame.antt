-- ===== src/Cluster/Frame.antt =====
-- Which calls keep a property of the state, by the part of the program that makes them.
use eirenyx.Base.{ℕ, String, Option, List}
use eirenyx.Effect.{Result}
use eirenyx.Api.Policy.{Policy}
use eirenyx.Api.Tool.{Tool}
use eirenyx.Api.Trivy.{PodDetails}
use eirenyx.Api.Workload.{Namespace, ConfigMap, Job, ChaosEngine, Pod}
use eirenyx.Cluster.{Cluster}
use eirenyx.Helm.{HelmSdk}
use eirenyx.Helm.Values.{Fields}

-- The calls of the Helm manager.
pub record HelmKeeps {S : Type 0} (H : HelmSdk S) (P : S → Type 0) : Type 0 where
  pub make_cache_keeps : (s : S) → P s → P (H.make_cache s).1
  pub create_config_keeps : (s : S) → P s → P (H.create_config s).1
  pub write_repo_file_keeps : (f : H.RepoFile) (s : S) → P s → P (H.write_repo_file f s).1
  pub download_index_keeps : (r : H.Repo) (s : S) → P s → P (H.download_index r s).1
  pub install_keeps :
      (ns release : String) (chart : H.Chart) (values : Option Fields) (s : S)
      → P s
      → P (H.install ns release chart values s).1
  pub upgrade_keeps :
      (ns release : String) (chart : H.Chart) (values : Option Fields) (s : S)
      → P s
      → P (H.upgrade ns release chart values s).1
  pub uninstall_keeps : (ns release : String) (s : S) → P s → P (H.uninstall ns release s).1

module _ (C : Cluster) (P : C.State → Type 0) where
  -- The calls of the tool controller: tools, namespaces and Helm.
  pub record ToolKeeps : Type 0 where
    pub helm_keeps : HelmKeeps C.helm P
    pub tool_status_keeps : (t : Tool) (s : C.State) → P s → P (C.tools.update_status t s).1
    pub tool_patch_keeps : (t u : Tool) (s : C.State) → P s → P (C.tools.patch t u s).1
    pub namespace_create_keeps : (n : Namespace) (s : C.State) → P s → P (C.namespaces.create n s).1
    pub namespace_delete_keeps : (n : Namespace) (s : C.State) → P s → P (C.namespaces.delete n s).1

  -- The calls of the policy controller and of the engines, those on reports left out.
  pub record PolicyKeeps : Type 0 where
    pub policy_update_keeps : (p : Policy) (s : C.State) → P s → P (C.policies.update p s).1
    pub policy_status_keeps : (p : Policy) (s : C.State) → P s → P (C.policies.update_status p s).1
    pub config_map_store_keeps :
        (c : ConfigMap) (f : ConfigMap → Result ConfigMap) (s : C.State)
        → P s
        → P (C.config_maps.create_or_update c f s).1
    pub config_map_delete_keeps :
        (c : ConfigMap) (s : C.State) → P s → P (C.config_maps.delete c s).1
    pub job_create_keeps : (j : Job) (s : C.State) → P s → P (C.jobs.create j s).1
    pub job_delete_keeps : (j : Job) (s : C.State) → P s → P (C.jobs.delete j s).1
    pub chaos_engine_store_keeps :
        (e : ChaosEngine) (f : ChaosEngine → Result ChaosEngine) (s : C.State)
        → P s
        → P (C.chaos_engines.create_or_update e f s).1
    pub chaos_engine_delete_keeps :
        (e : ChaosEngine) (s : C.State) → P s → P (C.chaos_engines.delete e s).1

  -- The random source of the Falco report handler.
  pub record RandomKeeps : Type 0 where
    pub random_keeps : (n : ℕ) (s : C.State) → P s → P (C.random_below n s).1
    pub shuffle_keeps : (pods : List Pod) (s : C.State) → P s → P (C.shuffle pods s).1
    pub range_keeps : (pods : List PodDetails) (s : C.State) → P s → P (C.range_pods pods s).1
