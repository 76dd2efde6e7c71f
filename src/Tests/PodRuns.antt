-- ===== src/Tests/PodRuns.antt =====
-- A run of the choice of pods.
use mathlib.Core.Path.{subst}
use eirenyx.Base.{refl, ◌≡◌, some, String, List, [], ◌∷◌, All, arith, eq_iff}
use eirenyx.Effect.Ends.{Returns}
use eirenyx.Api.Workload.{Pod}
use eirenyx.Kube.{namespace_object}
use eirenyx.Report.Pods.{get_pod_details}
use eirenyx.Report.Pods.Sample.{PodLaws, Sample, get_pod_details-Sample}
use eirenyx.Tests.Memory.{table, select}
use eirenyx.Tests.Samples.{a_pod}
use eirenyx.Tests.World.{World, empty_world, memory}

selected-within :
    (ns : String) (l : List Pod)
    → All (λ p. p.namespace ≡ ns) (select Pod.meta (record { namespace = some ns; labels = [] }) l)
unfolding select
selected-within ns [] = tt
selected-within ns (p ∷ l) =
    let rest = selected-within ns l in ground (arith, eq_iff p.namespace ns)

memory-PodLaws : PodLaws memory
unfolding table
memory-PodLaws = record {
  listed = λ ns s l e.
      let same : select Pod.meta (record { namespace = some ns; labels = [] }) (s.pods) ≡ l = cc in
      let within : List Pod → Type 0 = λ m. All {A = Pod} (λ p. p.namespace ≡ ns) m in
      subst within same (selected-within ns (s.pods));
  shuffled_all = λ P pods s h. h;
  ranged_once = λ chosen s d. (chosen, refl, refl, d, λ P h. h);
}

-- A pod of the Trivy operator beside two of the user's.
abbrev crowded : World
crowded = record empty_world {
  namespaces = namespace_object "trivy-system" ∷ namespace_object "default" ∷ [];
  pods = a_pod "web" [] 1 ∷ a_pod "db" [] 2 ∷ [];
}

get_pod_details-Sample_example : Returns (Sample memory 1) (get_pod_details memory 1 crowded)
get_pod_details-Sample_example = get_pod_details-Sample memory memory-PodLaws 1 crowded
