-- ===== src/Controller/Tools/Writes.antt =====
-- internal/controller/tool_controller.go: what a reconcile of a tool can change.
use eirenyx.Base.{◌≡◌, inl, inr, Option-cases}
use eirenyx.Effect.{Result-cases, ok}
use eirenyx.Effect.Keeps.{Keeps, keeps_rules}
use eirenyx.Api.Meta.{Key}
use eirenyx.Api.Tool.{Tool}
use eirenyx.Cluster.{Cluster}
use eirenyx.Cluster.Frame.{ToolKeeps}
use eirenyx.Controller.{new_tool_service}
use eirenyx.Controller.Tools.{
  reconcile, with_tool, reconcile_live, serve, run_service, check, publish_health,
  set_failed_condition, handle_deletion, release,
}
use eirenyx.Tools.{ToolService}
use eirenyx.Tools.Namespaces.{new_tool_service_cases}
use eirenyx.Tools.Writes.{
  ServiceKeeps, trivy_service-ServiceKeeps, falco_service-ServiceKeeps, litmus_service-ServiceKeeps,
}

module _ (C : Cluster) {P : C.State → Type 0} (k : ToolKeeps C P) where
  new_tool_service-ServiceKeeps :
      (tool : Tool) (svc : ToolService C.State)
      → new_tool_service C tool ≡ ok svc
      → ServiceKeeps P svc
  new_tool_service-ServiceKeeps tool svc h = elim (new_tool_service_cases C tool svc h) [
    | inl f ↦ rw f (falco_service-ServiceKeeps C k)
    | inr other ↦ elim other [
      | inl l ↦ rw l (litmus_service-ServiceKeeps C k)
      | inr t ↦ rw t (trivy_service-ServiceKeeps C k)
    ]
  ]

  release-Keeps : (tool : Tool) → Keeps P (release C tool)
  unfolding release
  release-Keeps tool = search (keeps_rules, k.tool_patch_keeps)

  handle_deletion-Keeps : (tool : Tool) → Keeps P (handle_deletion C tool)
  unfolding handle_deletion
  handle_deletion-Keeps tool = elim (Result-cases (new_tool_service C tool)) [
    | inl (svc, e) ↦
        let s = new_tool_service-ServiceKeeps tool svc e in
        rw (e, handle_deletion) (search (keeps_rules, s.uninstall_keeps, release-Keeps))
    | inr (f, e) ↦ rw (e, handle_deletion) (release-Keeps tool)
  ]

  run_service-Keeps :
      (svc : ToolService C.State)
      → ServiceKeeps P svc
      → (tool : Tool) → Keeps P (run_service C svc tool)
  unfolding run_service check publish_health
  run_service-Keeps svc s tool =
      search (keeps_rules, s.install_keeps, s.uninstall_keeps, s.health_keeps, k.tool_status_keeps)
        depth 9

  serve-Keeps : (tool : Tool) → Keeps P (serve C tool)
  unfolding serve set_failed_condition
  serve-Keeps tool = elim (Result-cases (new_tool_service C tool)) [
    | inl (svc, e) ↦
        rw (e, serve) (run_service-Keeps svc (new_tool_service-ServiceKeeps tool svc e) tool)
    | inr (f, e) ↦ rw (e, serve) (search (keeps_rules, k.tool_status_keeps))
  ]

  with_tool-Keeps : (tool : Tool) → Keeps P (with_tool C tool)
  unfolding with_tool reconcile_live
  with_tool-Keeps tool = elim (Option-cases tool.meta.deletion_timestamp) [
    | inl e ↦ rw (e, with_tool) (search (keeps_rules, serve-Keeps, k.tool_patch_keeps))
    | inr (t, e) ↦ rw (e, with_tool) (handle_deletion-Keeps tool)
  ]

  -- However it ends, a reconcile of the tool controller keeps every property of the cluster that the
  -- writes of tools and namespaces and the calls of Helm keep: it writes nothing else.
  pub tools_reconcile-Keeps : (key : Key) → Keeps P (reconcile C key)
  unfolding reconcile
  tools_reconcile-Keeps key = search (keeps_rules, with_tool-Keeps)
