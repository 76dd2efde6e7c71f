-- ===== src/Kube.antt =====
-- internal/client/k8s/client.go: namespaces, the health of workloads, pods and their logs.
pub mod Health
pub mod Namespaces
use eirenyx.Base.{String, ◌<>◌, Bool, true, false, some, List, [], ◌∷◌, ◌==◌, ◌&&◌, if◌then◌else◌}
use eirenyx.Base.Int.{ℤ, pos, ltb_ℤ, leb_ℤ}
use eirenyx.Effect.{
  Exec, pure, fail, read, call, catch, wrap, is_not_found, is_already_exists, wrapping, ◌>>=◌,
}
use eirenyx.Api.Meta.{Key, named}
use eirenyx.Api.Workload.{Namespace, Pod, Deployment, DaemonSet, WorkloadCondition}
use eirenyx.Cluster.{Cluster}

-- Namespaces lie in no namespace.
abbrev pub namespace_key : String → Key
namespace_key ns = record { namespace = ""; name = ns }

abbrev pub namespace_object : String → Namespace
namespace_object ns = record { meta = named ns "" }

-- The loop over the conditions.
unfoldable pub is_available : List WorkloadCondition → Bool
is_available [] = false
is_available (cond ∷ conds) =
    if cond.type == "Available" && cond.status == "True" then true else is_available conds

unfoldable pub is_deployment_ready : Deployment → Bool
is_deployment_ready d =
    if ltb_ℤ d.observed_generation d.generation then false else is_available d.conditions

unfoldable pub is_daemon_set_ready : DaemonSet → Bool
is_daemon_set_ready ds =
    if ltb_ℤ ds.observed_generation ds.generation
    then false
    else ltb_ℤ (pos 0) ds.number_ready && leb_ℤ ds.desired_number_scheduled ds.number_ready

module _ (C : Cluster) where
  unfoldable pub create_namespace : String → Exec C.State (Unit {0})
  create_namespace ns =
      catch (call (C.namespaces.create (namespace_object ns)))
        (λ e. if is_already_exists e then pure tt else fail (wrap ("creating namespace " <> ns) e))
        (λ _. pure tt)

  unfoldable pub ensure_namespace : String → Exec C.State (Unit {0})
  ensure_namespace ns =
      catch (read (C.namespaces.get (namespace_key ns)))
        (λ e.
          if is_not_found e
          then create_namespace ns
          else fail (wrap ("getting namespace " <> ns) e))
        (λ _. pure tt)

  unfoldable pub delete_namespace : String → Exec C.State (Unit {0})
  delete_namespace ns =
      catch (call (C.namespaces.delete (namespace_object ns)))
        (λ e. if is_not_found e then pure tt else fail (wrap ("deleting namespace " <> ns) e)) pure

  -- `ListPods`
  unfoldable pub list_pods : String → List (String × String) → Exec C.State (List Pod)
  list_pods namespace selector =
      let sel = C.lib.format_label_selector selector in
      wrapping ("listing pods in " <> (namespace <> (" with selector " <> C.lib.quote sel)))
        (read (C.pods.list (record { namespace = some namespace; labels = selector })))

  abbrev log_source : String → String → String → String
  log_source namespace name container =
      "for pod " <> (namespace <> ("/" <> (name <> (" container " <> C.lib.quote container))))

  -- `GetPodLogs`
  unfoldable pub get_pod_logs : String → String → String → Exec C.State String
  get_pod_logs namespace name container = do
    stream ←
        wrapping ("opening log stream " <> log_source namespace name container)
          (read (C.open_logs namespace name container))
    wrapping ("reading log stream " <> log_source namespace name container)
        (read (C.copy_logs stream))

  -- `IsDeploymentReady` and `IsDaemonSetReady`: a workload that is not there is not ready.
  unfoldable pub deployment_ready : String → String → Exec C.State Bool
  deployment_ready namespace name =
      catch (read (C.deployment (record { namespace = namespace; name = name })))
        (λ e.
          if is_not_found e
          then pure false
          else fail (wrap ("getting deployment " <> (namespace <> ("/" <> name))) e))
        (λ d. pure (is_deployment_ready d))

  unfoldable pub daemon_set_ready : String → String → Exec C.State Bool
  daemon_set_ready namespace name =
      catch (read (C.daemon_set (record { namespace = namespace; name = name })))
        (λ e.
          if is_not_found e
          then pure false
          else fail (wrap ("getting daemonset " <> (namespace <> ("/" <> name))) e))
        (λ ds. pure (is_daemon_set_ready ds))
