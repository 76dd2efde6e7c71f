-- ===== src/Tools.antt =====
-- internal/tools: the three tool services, each a Helm release and a namespace.
pub mod Namespaces
pub mod Releases
pub mod Removals
pub mod Values
pub mod Writes
use eirenyx.Base.{String, ◌<>◌, Bool, none, some, if◌then◌else◌}
use eirenyx.Base.Text.{is_blank}
use eirenyx.Effect.{
  Exec, Result, ok, err, errorf, pure, fail, lift, catch, wrap, wrapping, ◌>>=◌, ◌>>◌,
}
use eirenyx.Api.Tool.{Tool}
use eirenyx.Cluster.{Cluster}
use eirenyx.Helm.{
  Manager, new_admin_manager, new_delete_manager, set_values, merge_values, install_or_upgrade,
  uninstall_release, is_release_not_found,
}
use eirenyx.Helm.Values.{Fields, text, obj, end, field}
use eirenyx.Kube.{ensure_namespace, delete_namespace, deployment_ready, daemon_set_ready}

-- The interface `ToolService`.
pub record ToolService (S : Type 0) : Type 0 where
  pub name : String
  pub ensure_installed : Tool → Exec S (Unit {0})
  pub ensure_uninstalled : Tool → Exec S (Unit {0})
  pub check_health : Tool → Exec S Bool

unfoldable pub resolved_namespace : String → String → String
resolved_namespace override default_ns = if is_blank override then default_ns else override

-- What the three services share. Each source file writes these steps out with its own constants.
module _ (C : Cluster) where
  -- `EnsureInstalled` of Trivy and of Falco, which pass no values.
  unfoldable pub install_plain : String → String → Manager → String → Exec C.State (Unit {0})
  install_plain label ns manager what =
      wrapping ("ensuring " <> (label <> " namespace")) (ensure_namespace C ns)
      >> wrapping ("installing " <> what) (install_or_upgrade C.helm manager)

  -- The namespace goes with the release only where the user named none.
  unfoldable pub drop_namespace : String → String → Tool → Exec C.State (Unit {0})
  drop_namespace label ns tool =
      if is_blank tool.spec.namespace
      then wrapping ("deleting " <> (label <> " namespace")) (delete_namespace C ns)
      else pure tt

  -- `EnsureUninstalled`
  unfoldable pub uninstall_tool : String → String → String → String → Tool → Exec C.State (Unit {0})
  uninstall_tool what label default_ns release tool = do
    let ns = resolved_namespace tool.spec.namespace default_ns
    catch (uninstall_release C.helm (new_delete_manager ns release))
        (λ e. if is_release_not_found e then pure tt else fail (wrap ("uninstalling " <> what) e))
        pure
    drop_namespace label ns tool

-- internal/tools/trivy.go
module _ (C : Cluster) where
  unfoldable pub trivy_service : ToolService C.State
  trivy_service = record {
    name = "trivy";
    ensure_installed = λ tool.
        let ns = resolved_namespace tool.spec.namespace "trivy-system" in
        install_plain C "trivy" ns
          (new_admin_manager ns "aqua" "https://aquasecurity.github.io/helm-charts/"
            "aqua/trivy-operator" "trivy-operator")
          "trivy operator";
    ensure_uninstalled = uninstall_tool C "trivy operator" "trivy" "trivy-system" "trivy-operator";
    check_health = λ tool. wrapping "checking trivy deployment health" (
        deployment_ready C (resolved_namespace tool.spec.namespace "trivy-system")
          "trivy-operator");
  }

  -- internal/tools/falco.go
  unfoldable pub falco_service : ToolService C.State
  falco_service = record {
    name = "falco";
    ensure_installed = λ tool.
        let ns = resolved_namespace tool.spec.namespace "falco" in
        install_plain C "falco" ns
          (new_admin_manager ns "falcosecurity" "https://falcosecurity.github.io/charts"
            "falcosecurity/falco" "falco")
          "falco";
    ensure_uninstalled = uninstall_tool C "falco" "falco" "falco" "falco";
    check_health = λ tool.
        wrapping "checking falco daemonset health"
          (daemon_set_ready C (resolved_namespace tool.spec.namespace "falco") "falco");
  }

-- internal/tools/litmus.go
unfoldable pub litmus_default_values : String → String → Fields
litmus_default_values release_name ns =
    let endpoint =
      "http://"
      <> (release_name <> ("-litmus-frontend-service." <> (ns <> ".svc.cluster.local:9091"))) in
    let service = field "service" (obj (field "type" (text "NodePort") end)) end in
    let env = field "CHAOS_CENTER_UI_ENDPOINT" (text endpoint) end in
    let server = field "graphqlServer" (obj (field "genericEnv" (obj env) end)) end in
    field "portal" (obj (field "frontend" (obj service) (field "server" (obj server) end))) end

module _ (C : Cluster) where
  -- The user's values are merged over the defaults. Values that decode to null are refused.
  unfoldable pub litmus_manager : Tool → Manager → Result Manager
  litmus_manager tool manager =
      if is_blank tool.spec.values
      then ok manager
      else elim (C.lib.unmarshal_values tool.spec.values) [
        | err e ↦ err (wrap "decoding helm values" e)
        | ok user ↦ elim user [
          | none ↦ err (errorf "helm values must be a JSON object, got null or non-object")
          | some values ↦ ok (merge_values values manager)
        ]
      ]

  unfoldable pub install_litmus : Tool → Exec C.State (Unit {0})
  install_litmus tool = do
    let ns = resolved_namespace tool.spec.namespace "litmus"
    wrapping "ensuring litmus namespace" (ensure_namespace C ns)
    manager ← lift (
        litmus_manager tool (
          set_values (litmus_default_values "chaos" ns) (
            new_admin_manager ns "litmuschaos" "https://litmuschaos.github.io/litmus-helm/"
              "litmuschaos/litmus" "chaos")))
    wrapping "installing litmus" (install_or_upgrade C.helm manager)

  unfoldable pub litmus_service : ToolService C.State
  litmus_service = record {
    name = "litmus";
    ensure_installed = install_litmus;
    ensure_uninstalled = uninstall_tool C "litmus" "litmus" "litmus" "chaos";
    check_health = λ tool. wrapping "checking litmus deployment health" (
        deployment_ready C (resolved_namespace tool.spec.namespace "litmus") "chaos-litmus-server");
  }
