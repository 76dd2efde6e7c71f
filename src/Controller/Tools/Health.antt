-- ===== src/Controller/Tools/Health.antt =====
-- internal/controller/tool_controller.go: the answers after a health check.
use eirenyx.Base.{◌≡◌, true, Bool, inl, inr, arith, if◌then◌else◌}
use eirenyx.Effect.{Exec, ok, returned, Result-cases, ◌>>◌}
use eirenyx.Effect.Keeps.{catch-eq_returned}
use eirenyx.Api.Tool.{Tool}
use eirenyx.Cluster.{Cluster}
use eirenyx.Controller.{new_tool_service, completed}
use eirenyx.Controller.Tools.{serve, run_service, check, publish_health, with_health}
use eirenyx.Tools.{ToolService}

-- What is done about a tool before its health is checked.
abbrev pub settle : {S : Type 0} → ToolService S → Tool → Exec S (Unit {0})
settle svc tool =
    if tool.spec.enabled then svc.ensure_installed tool else svc.ensure_uninstalled tool

module _ (C : Cluster) (tool : Tool) (svc : ToolService C.State) where
  publish_health_completes :
      (healthy : Bool) (s : C.State)
      → (publish_health C tool healthy s).0 ≡ returned completed
      → healthy ≡ true
  unfolding publish_health ◌>>◌
  publish_health_completes healthy s h =
      elim (Result-cases (C.tools.update_status (with_health tool healthy) s).0) [
        | inl (a, e) ↦ ground arith
        | inr (f, e) ↦ ground arith
      ]

  check_completes :
      (s : C.State)
      → (check C svc tool s).0 ≡ returned completed
      → (svc.check_health tool s).0 ≡ returned true
  unfolding check ◌>>◌
  check_completes s h = elim (catch-eq_returned (svc.check_health tool s) _ _ h) [
    | inl (healthy, e, eq) ↦
        ground (arith, publish_health_completes healthy (svc.check_health tool s).1)
    | inr (f, e, eq) ↦ ground arith
  ]

  -- The run of a live tool's service asks for no further reconcile only where the install, or for a
  -- disabled tool the uninstall, returned and the health check after it found the workload ready.
  pub serve_completes :
      (s : C.State)
      → new_tool_service C tool ≡ ok svc
      → (serve C tool s).0 ≡ returned completed
      → ((settle svc tool s).0 ≡ returned tt)
        × ((svc.check_health tool (settle svc tool s).1).0 ≡ returned true)
  unfolding serve run_service ◌>>◌
  serve_completes s chosen h =
      let r : (run_service C svc tool s).0 ≡ returned completed = ground arith in
      elim (catch-eq_returned (settle svc tool s) _ _ r) [
        | inl (a, e, eq) ↦ ground (arith, check_completes (settle svc tool s).1)
        | inr (f, e, eq) ↦ ground arith
      ]
