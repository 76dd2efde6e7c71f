-- ===== src/Tools/Namespaces.antt =====
-- internal/tools: which namespaces a service deletes.
use eirenyx.Base.{◌≡◌, ◌≢◌, ◌⊎◌, String, Bool-cases, inl, inr, arith, eq_iff, ◌==◌}
use eirenyx.Effect.{ok, call}
use eirenyx.Effect.Keeps.{Keeps, keeps_rules, Keeps-pure, Keeps-then, Keeps-if}
use eirenyx.Api.Tool.{Tool}
use eirenyx.Cluster.{Cluster}
use eirenyx.Controller.{new_tool_service}
use eirenyx.Helm.{HelmSdk, Manager, settings, uninstall_release}
use eirenyx.Tools.{
  ToolService, uninstall_tool, drop_namespace, trivy_service, falco_service, litmus_service,
}

-- The Helm calls of an uninstall keep `P`.
pub record UninstallKeeps {S : Type 0} (H : HelmSdk S) (P : S → Type 0) : Type 0 where
  pub cache_keeps : (s : S) → P s → P (H.make_cache s).1
  pub config_keeps : (s : S) → P s → P (H.create_config s).1
  pub uninstall_keeps : (ns release : String) (s : S) → P s → P (H.uninstall ns release s).1

module _ {S : Type 0} (H : HelmSdk S) {P : S → Type 0} (k : UninstallKeeps H P) where
  settings-Keeps : Keeps P (settings H)
  unfolding settings
  settings-Keeps = Keeps-then (search (keeps_rules, k.cache_keeps)) (record {
    keeps_at = λ s.
        let create : Keeps P (call H.create_config) = search (keeps_rules, k.config_keeps) in
        (Keeps-if (H.config_missing s) create (Keeps-pure tt)).keeps_at s;
  })

  uninstall_release-Keeps : (m : Manager) → Keeps P (uninstall_release H m)
  unfolding uninstall_release
  uninstall_release-Keeps m = search (keeps_rules, settings-Keeps, k.uninstall_keeps)

-- A service of the factory is one of the three.
pub new_tool_service_cases :
    (C : Cluster) (tool : Tool) (svc : ToolService C.State)
    → new_tool_service C tool ≡ ok svc
    → (svc ≡ falco_service C) ⊎ ((svc ≡ litmus_service C) ⊎ (svc ≡ trivy_service C))
unfolding new_tool_service
new_tool_service_cases C tool svc e = ground arith

module _ (C : Cluster) {P : C.State → Type 0} (k : UninstallKeeps C.helm P) where
  drop_namespace-Keeps :
      (label ns : String) (tool : Tool)
      → tool.spec.namespace ≢ ""
      → Keeps P (drop_namespace C label ns tool)
  unfolding drop_namespace
  drop_namespace-Keeps label ns tool h = elim (Bool-cases (tool.spec.namespace == "")) [
    | inl same ↦ ground (arith, eq_iff tool.spec.namespace "")
    | inr other ↦ rw other (Keeps-pure tt)
  ]

  uninstall_tool-Keeps :
      (what label default_ns release : String) (tool : Tool)
      → tool.spec.namespace ≢ ""
      → Keeps P (uninstall_tool C what label default_ns release tool)
  unfolding uninstall_tool
  uninstall_tool-Keeps what label default_ns release tool h =
      search (keeps_rules, uninstall_release-Keeps C.helm k, drop_namespace-Keeps)

  -- Whatever the type of the tool, an uninstall of a tool whose user named a namespace keeps
  -- every property of the cluster that the Helm calls of an uninstall keep.
  pub uninstall_keeps_namespaces :
      (tool : Tool) (svc : ToolService C.State) (s : C.State)
      → new_tool_service C tool ≡ ok svc
      → tool.spec.namespace ≢ ""
      → P s
      → P (svc.ensure_uninstalled tool s).1
  unfolding trivy_service falco_service litmus_service
  uninstall_keeps_namespaces tool svc s e h p = elim (new_tool_service_cases C tool svc e) [
    | inl f ↦ rw f ((uninstall_tool-Keeps "falco" "falco" "falco" "falco" tool h).keeps_at s p)
    | inr other ↦ elim other [
      | inl l ↦ rw l ((uninstall_tool-Keeps "litmus" "litmus" "litmus" "chaos" tool h).keeps_at s p)
      | inr t ↦
          let keeps =
            uninstall_tool-Keeps "trivy operator" "trivy" "trivy-system" "trivy-operator" tool h in
          rw t (keeps.keeps_at s p)
    ]
  ]
