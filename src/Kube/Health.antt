-- ===== src/Kube/Health.antt =====
-- internal/client/k8s/client.go: when a workload counts as ready.
use eirenyx.Base.{◌≡◌, ◌↔◌, ◌⊎◌, true, List, [], ◌∷◌, arith, eq_iff}
use eirenyx.Base.Int.{pos, ◌≤ℤ◌}
use eirenyx.Api.Workload.{Deployment, DaemonSet, WorkloadCondition}
use eirenyx.Kube.{is_available, is_deployment_ready, is_daemon_set_ready}

-- Some condition of the list says that the workload is available.
abbrev SaysAvailable : List WorkloadCondition → Type 0
SaysAvailable [] = ⊥
SaysAvailable (c ∷ conds) = ((c.type ≡ "Available") × (c.status ≡ "True")) ⊎ SaysAvailable conds

is_available_iff :
    (conds : List WorkloadCondition) → (is_available conds ≡ true) ↔ SaysAvailable conds
unfolding is_available
is_available_iff [] = (λ h. cc, λ h. absurd h)
is_available_iff (c ∷ conds) =
    ground (arith, eq_iff c.type "Available", eq_iff c.status "True", is_available_iff conds)

-- A deployment is ready exactly if its controller has seen its latest generation and some condition
-- of it says that it is available.
is_deployment_ready_iff :
    (d : Deployment)
    → (is_deployment_ready d ≡ true)
      ↔ ((d.generation ≤ℤ d.observed_generation) × SaysAvailable d.conditions)
unfolding is_deployment_ready
is_deployment_ready_iff d = ground (arith, is_available_iff d.conditions)

-- A daemon set is ready exactly if its controller has seen its latest generation, at least one of
-- its pods is ready, and as many are ready as are wanted.
is_daemon_set_ready_iff :
    (ds : DaemonSet)
    → (is_daemon_set_ready ds ≡ true) ↔ (
        (ds.generation ≤ℤ ds.observed_generation)
        × (pos 1 ≤ℤ ds.number_ready)
        × (ds.desired_number_scheduled ≤ℤ ds.number_ready))
unfolding is_daemon_set_ready
is_daemon_set_ready_iff ds = ground arith
