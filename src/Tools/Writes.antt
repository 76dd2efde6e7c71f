-- ===== src/Tools/Writes.antt =====
-- internal/tools, internal/client: the calls of a tool service that write.
use eirenyx.Base.{String}
use eirenyx.Effect.{call}
use eirenyx.Effect.Keeps.{Keeps, Keeps-if, Keeps-pure, Keeps-then, keeps_rules}
use eirenyx.Api.Tool.{Tool}
use eirenyx.Cluster.{Cluster}
use eirenyx.Cluster.Frame.{HelmKeeps, ToolKeeps}
use eirenyx.Helm.{
  HelmSdk, Manager, settings, add_repo, ensure_repo, install_chart, upgrade_chart,
  install_or_upgrade, uninstall_release,
}
use eirenyx.Kube.{
  create_namespace, ensure_namespace, delete_namespace, deployment_ready, daemon_set_ready,
}
use eirenyx.Tools.{
  ToolService, install_plain, drop_namespace, uninstall_tool, trivy_service, falco_service,
  install_litmus, litmus_service,
}

module _ {S : Type 0} (H : HelmSdk S) {P : S → Type 0} (k : HelmKeeps H P) where
  settings-Keeps : Keeps P (settings H)
  unfolding settings
  settings-Keeps = Keeps-then (search (keeps_rules, k.make_cache_keeps)) (record {
    keeps_at = λ s.
        let create : Keeps P (call H.create_config) = search (keeps_rules, k.create_config_keeps) in
        (Keeps-if (H.config_missing s) create (Keeps-pure tt)).keeps_at s;
  })

  ensure_repo-Keeps : (m : Manager) → Keeps P (ensure_repo H m)
  unfolding ensure_repo add_repo
  ensure_repo-Keeps m =
      search (keeps_rules, k.write_repo_file_keeps, k.download_index_keeps) depth 9

  install_or_upgrade-Keeps : (m : Manager) → Keeps P (install_or_upgrade H m)
  unfolding install_or_upgrade install_chart upgrade_chart
  install_or_upgrade-Keeps m =
      search (keeps_rules, settings-Keeps, ensure_repo-Keeps, k.install_keeps, k.upgrade_keeps)
        depth 9

  uninstall_release-Keeps : (m : Manager) → Keeps P (uninstall_release H m)
  unfolding uninstall_release
  uninstall_release-Keeps m = search (keeps_rules, settings-Keeps, k.uninstall_keeps)

-- A service whose operations keep `P`.
pub record ServiceKeeps {S : Type 0} (P : S → Type 0) (svc : ToolService S) : Type 0 where
  pub install_keeps : (tool : Tool) → Keeps P (svc.ensure_installed tool)
  pub uninstall_keeps : (tool : Tool) → Keeps P (svc.ensure_uninstalled tool)
  pub health_keeps : (tool : Tool) → Keeps P (svc.check_health tool)

module _ (C : Cluster) {P : C.State → Type 0} (k : ToolKeeps C P) where
  ensure_namespace-Keeps : (ns : String) → Keeps P (ensure_namespace C ns)
  unfolding ensure_namespace create_namespace
  ensure_namespace-Keeps ns = search (keeps_rules, k.namespace_create_keeps)

  delete_namespace-Keeps : (ns : String) → Keeps P (delete_namespace C ns)
  unfolding delete_namespace
  delete_namespace-Keeps ns = search (keeps_rules, k.namespace_delete_keeps)

  install_plain-Keeps :
      (label ns : String) (m : Manager) (what : String) → Keeps P (install_plain C label ns m what)
  unfolding install_plain
  install_plain-Keeps label ns m what =
      search (keeps_rules, ensure_namespace-Keeps, install_or_upgrade-Keeps C.helm k.helm_keeps)

  uninstall_tool-Keeps :
      (what label default_ns release : String) (tool : Tool)
      → Keeps P (uninstall_tool C what label default_ns release tool)
  unfolding uninstall_tool drop_namespace
  uninstall_tool-Keeps what label default_ns release tool =
      search (keeps_rules, delete_namespace-Keeps, uninstall_release-Keeps C.helm k.helm_keeps)

  install_litmus-Keeps : (tool : Tool) → Keeps P (install_litmus C tool)
  unfolding install_litmus
  install_litmus-Keeps tool =
      search (keeps_rules, ensure_namespace-Keeps, install_or_upgrade-Keeps C.helm k.helm_keeps)

  deployment_ready-Keeps : (ns name : String) → Keeps P (deployment_ready C ns name)
  unfolding deployment_ready
  deployment_ready-Keeps ns name = search keeps_rules

  daemon_set_ready-Keeps : (ns name : String) → Keeps P (daemon_set_ready C ns name)
  unfolding daemon_set_ready
  daemon_set_ready-Keeps ns name = search keeps_rules

  pub trivy_service-ServiceKeeps : ServiceKeeps P (trivy_service C)
  unfolding trivy_service
  trivy_service-ServiceKeeps = record {
    install_keeps = λ tool. search install_plain-Keeps;
    uninstall_keeps = λ tool. search uninstall_tool-Keeps;
    health_keeps = λ tool. search (keeps_rules, deployment_ready-Keeps);
  }

  pub falco_service-ServiceKeeps : ServiceKeeps P (falco_service C)
  unfolding falco_service
  falco_service-ServiceKeeps = record {
    install_keeps = λ tool. search install_plain-Keeps;
    uninstall_keeps = λ tool. search uninstall_tool-Keeps;
    health_keeps = λ tool. search (keeps_rules, daemon_set_ready-Keeps);
  }

  pub litmus_service-ServiceKeeps : ServiceKeeps P (litmus_service C)
  unfolding litmus_service
  litmus_service-ServiceKeeps = record {
    install_keeps = λ tool. install_litmus-Keeps tool;
    uninstall_keeps = λ tool. search uninstall_tool-Keeps;
    health_keeps = λ tool. search (keeps_rules, deployment_ready-Keeps);
  }
