-- ===== src/Controller/Tools/Deletion.antt =====
-- internal/controller/tool_controller.go: `handleDeletion` and the finalizer of a tool.
use eirenyx.Base.{◌≡◌, inl, inr, arith}
use eirenyx.Effect.{ok, returned, resume, pure, Result-cases, ◌>>◌}
use eirenyx.Effect.Keeps.{catch-eq_returned}
use eirenyx.Api.Tool.{Tool}
use eirenyx.Cluster.{Cluster}
use eirenyx.Controller.{new_tool_service, completed, requeued_after}
use eirenyx.Controller.Tools.{handle_deletion, release, without_finalizer}
use eirenyx.Tools.{ToolService}

module _ (C : Cluster) (tool : Tool) where
  release_state :
      (s : C.State) → (release C tool s).1 ≡ (C.tools.patch tool (without_finalizer C tool) s).1
  unfolding release ◌>>◌
  release_state s = elim (Result-cases (C.tools.patch tool (without_finalizer C tool) s).0) [
    | inl (a, e) ↦ ground arith
    | inr (f, e) ↦ ground arith
  ]

  -- For a tool of a known type, the deletion is completed with no requeue and no error only where
  -- the uninstall returned; the finalizer is then taken off in the state that the uninstall left,
  -- and that is the only write after it.
  pub handle_deletion_completes :
      (svc : ToolService C.State) (s : C.State)
      → new_tool_service C tool ≡ ok svc
      → (handle_deletion C tool s).0 ≡ returned completed
      → ((svc.ensure_uninstalled tool s).0 ≡ returned tt)
        × ((handle_deletion C tool s).1
            ≡ (C.tools.patch tool (without_finalizer C tool) (svc.ensure_uninstalled tool s).1).1)
  unfolding handle_deletion ◌>>◌
  handle_deletion_completes svc s chosen h =
      let o = svc.ensure_uninstalled tool s in
      let k : (resume o (λ _. pure (requeued_after 10)) (λ _. release C tool)).0
          ≡ returned completed =
        ground arith in
      elim (catch-eq_returned o _ _ k) [
        | inl (u, e, eq) ↦ ground (arith, release_state o.1)
        | inr (f, e, eq) ↦ ground arith
      ]
