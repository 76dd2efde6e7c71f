-- ===== src/Controller/Tools.antt =====
-- internal/controller/tool_controller.go: `Reconcile` of the tool controller, in its stages.
pub mod Deletion
pub mod Health
pub mod Releases
pub mod Writes
use eirenyx.Base.{String, Bool, none, some, if◌then◌else◌}
use eirenyx.Effect.{Exec, ok, err, pure, read, call, catch, is_not_found}
use eirenyx.Api.Meta.{Key}
use eirenyx.Api.Tool.{Tool, tool_finalizer}
use eirenyx.Cluster.{Cluster}
use eirenyx.Controller.{Answer, completed, completed_with, requeued_after, new_tool_service}
use eirenyx.Tools.{ToolService}

-- The status that a reconcile which got as far as the health check writes.
unfoldable pub with_health : Tool → Bool → Tool
with_health tool healthy = record tool {
  status = record (tool.status) { installed = tool.spec.enabled; healthy = healthy };
}

module _ (C : Cluster) where
  abbrev pub has_finalizer : Tool → Bool
  has_finalizer tool = C.lib.contains_finalizer tool.meta.finalizers tool_finalizer

  abbrev pub with_finalizer : Tool → Tool
  with_finalizer tool = record tool {
    meta = record (tool.meta) {
      finalizers = C.lib.add_finalizer tool.meta.finalizers tool_finalizer;
    };
  }

  abbrev pub without_finalizer : Tool → Tool
  without_finalizer tool = record tool {
    meta = record (tool.meta) {
      finalizers = C.lib.remove_finalizer tool.meta.finalizers tool_finalizer;
    };
  }

  -- The end of `handleDeletion`.
  unfoldable pub release : Tool → Exec C.State Answer
  release tool =
      catch (call (C.tools.patch tool (without_finalizer tool))) (λ e. pure (completed_with e))
        (λ _. pure completed)

  -- A tool of an unknown type is released with nothing to uninstall.
  unfoldable pub handle_deletion : Tool → Exec C.State Answer
  handle_deletion tool = elim (new_tool_service C tool) [
    | err _ ↦ release tool
    | ok svc ↦
        catch (svc.ensure_uninstalled tool) (λ _. pure (requeued_after 10)) (λ _. release tool)
  ]

  -- The time of the condition's last change is not modelled.
  unfoldable pub set_failed_condition : Tool → String → String → Exec C.State Answer
  set_failed_condition tool reason message =
      catch
        (call (
          C.tools.update_status (record tool {
            status = record (tool.status) {
              conditions =
                  C.lib.set_status_condition tool.status.conditions (record {
                    type = "Ready";
                    status = "False";
                    reason = reason;
                    message = message;
                  });
            };
          })))
        (λ _. pure (requeued_after 5)) (λ _. pure completed)

  -- What follows the health check.
  unfoldable pub publish_health : Tool → Bool → Exec C.State Answer
  publish_health tool healthy =
      catch (call (C.tools.update_status (with_health tool healthy))) (λ _. pure (requeued_after 5))
        (λ _. pure (if healthy then completed else requeued_after 5))

  unfoldable pub check : ToolService C.State → Tool → Exec C.State Answer
  check svc tool =
      catch (svc.check_health tool) (λ _. pure (requeued_after 10)) (publish_health tool)

  unfoldable pub run_service : ToolService C.State → Tool → Exec C.State Answer
  run_service svc tool =
      catch (if tool.spec.enabled then svc.ensure_installed tool else svc.ensure_uninstalled tool)
        (λ _. pure (requeued_after 5)) (λ _. check svc tool)

  unfoldable pub serve : Tool → Exec C.State Answer
  serve tool = elim (new_tool_service C tool) [
    | err e ↦ set_failed_condition tool "UnsupportedToolType" e.message
    | ok svc ↦ run_service svc tool
  ]

  -- A tool that is not being deleted: its finalizer first, and on with the server's answer.
  unfoldable pub reconcile_live : Tool → Exec C.State Answer
  reconcile_live tool =
      if has_finalizer tool
      then serve tool
      else catch (call (C.tools.patch tool (with_finalizer tool))) (λ e. pure (completed_with e))
          serve

  unfoldable pub with_tool : Tool → Exec C.State Answer
  with_tool tool = elim (tool.meta.deletion_timestamp) [
    | some _ ↦ handle_deletion tool
    | none ↦ reconcile_live tool
  ]

  unfoldable pub reconcile : Key → Exec C.State Answer
  reconcile key =
      catch (read (C.tools.get key))
        (λ e. pure (if is_not_found e then completed else completed_with e)) with_tool
