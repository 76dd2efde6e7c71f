-- ===== src/Report/Pods.antt =====
-- internal/report/pod_details.go: a random choice of pods outside the system namespaces.
pub mod Choice
pub mod Sample
use eirenyx.Base.{
  ℕ, String, ◌<>◌, none, some, List, [], ◌∷◌, ◌++◌, map, leb, length, contains, entry, is_empty,
  if◌then◌else◌,
}
use eirenyx.Effect.{Exec, pure, lift, read, catch, ◌>>=◌}
use eirenyx.Api.Trivy.{PodDetails}
use eirenyx.Api.Workload.{Namespace, Pod}
use eirenyx.Cluster.{Cluster}

abbrev pub excluded_namespaces : List String
excluded_namespaces = "kube-system" ∷ "eirenyx-system" ∷ "falco" ∷ "litmus" ∷ "trivy-system" ∷ []

unfoldable pub extract_container_names : Pod → List String
extract_container_names pod = map (λ c. c.name) pod.containers

unfoldable pub included_namespaces : List Namespace → List String
included_namespaces [] = []
included_namespaces (ns ∷ namespaces) =
    let rest = included_namespaces namespaces in
    if contains excluded_namespaces ns.meta.name then rest else ns.meta.name ∷ rest

abbrev pub pod_key : Pod → String
pod_key p = p.namespace <> ("/" <> p.name)

abbrev pub details_of : Pod → PodDetails
details_of p = record {
  pod_name = p.name;
  namespace = p.namespace;
  containers = extract_container_names p;
}

-- The loop that fills `podSet`; the entries stand in the order in which they were added.
unfoldable pub pick_pods : ℕ → List (String × PodDetails) → List Pod → List (String × PodDetails)
pick_pods pod_count pod_set [] = pod_set
pick_pods pod_count pod_set (p ∷ pods) =
    let rest =
      pick_pods pod_count
        (elim (entry (pod_key p) pod_set) [
          | some _ ↦ pod_set
          | none ↦ pod_set ++ ((pod_key p, details_of p) ∷ [])
        ])
        pods in
    if leb pod_count (length pod_set) then pod_set else rest

module _ (C : Cluster) where
  -- The pods of the namespaces, one list after the other.
  unfoldable pub collect_pods : List Pod → List String → Exec C.State (List Pod)
  collect_pods collected [] = pure collected
  collect_pods collected (ns ∷ namespaces) = do
    pods ← read (C.pods.list (record { namespace = some ns; labels = [] }))
    collect_pods (collected ++ pods) namespaces

  unfoldable pub shuffled : List Pod → Exec C.State (List Pod)
  shuffled pods s = let (pods', s') = C.shuffle pods s in pure pods' s'

  -- The loop over the map of the chosen pods, which takes them in any order.
  unfoldable pub ranged : List PodDetails → Exec C.State (List PodDetails)
  ranged pods s = let (pods', s') = C.range_pods pods s in pure pods' s'

  -- The raw JSON of the chosen pods; empty where a call failed.
  unfoldable pub get_pod_details : ℕ → Exec C.State String
  unfolding shuffled ranged
  get_pod_details pod_count =
      catch (read (C.namespaces.list (record { namespace = none; labels = [] }))) (λ _. pure "")
        (λ namespaces.
          catch (collect_pods [] (included_namespaces namespaces)) (λ _. pure "")
            (λ pods. if is_empty pods then pure "{\"message\": \"No pods found.\"}" else (do
              pods' ← shuffled pods
              details ← ranged (map (λ (_, d). d) (pick_pods pod_count [] pods'))
              catch (lift (C.lib.marshal_pods details)) (λ _. pure "") pure)))
