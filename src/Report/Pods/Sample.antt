-- ===== src/Report/Pods/Sample.antt =====
-- internal/report/pod_details.go: which pods the details name.
use mathlib.Core.Path.{subst}
use eirenyx.Base.{
  ℕ, ◌≤◌, ◌≡◌, refl, ◌⊎◌, inl, inr, String, none, some, List, [], ◌∷◌, ◌++◌, length, map, All,
  All-map, arith, sym, ap, ◌∙◌, is_empty, if◌then◌else◌,
}
use eirenyx.Effect.{Error, Result-cases, ok, Exec, returned, failed, read, lift, catch, pure, ◌>>=◌}
use eirenyx.Effect.Ends.{
  Returns, catch-returned, catch-failed, bind-returned, bind-failed, read-ok, read-err, lift-ok,
  lift-err,
}
use eirenyx.Api.Trivy.{PodDetails}
use eirenyx.Api.Workload.{Namespace, Pod}
use eirenyx.Cluster.{Cluster, ListOptions}
use eirenyx.Report.Pods.{
  included_namespaces, pick_pods, collect_pods, ranged, shuffled, get_pod_details,
}
use eirenyx.Report.Pods.Choice.{
  IsOutside, IsKeyed, Distinct, All-append, length-pick_pods, pick_pods-Distinct, pick_pods-IsKeyed,
  included-IsOutside,
}

-- What the API server, `math/rand` and Go document: a list of a namespace holds its objects only, a
-- shuffle only reorders, and a range over a map takes each of its entries once, in some order.
pub record PodLaws (C : Cluster) : Type 1 where
  pub listed :
      (ns : String) (s : C.State) (l : List Pod)
      → C.pods.list (record { namespace = some ns; labels = [] }) s ≡ ok l
      → All (λ p. p.namespace ≡ ns) l
  pub shuffled_all :
      (P : Pod → Type 0) (pods : List Pod) (s : C.State) → All P pods → All P (C.shuffle pods s).0
  pub ranged_once :
      (chosen : List (String × PodDetails)) (s : C.State)
      → Distinct chosen
      → (order : List (String × PodDetails)) × (map (λ (_, d). d) order
          ≡ (C.range_pods (map (λ (_, d). d) chosen) s).0)
        × (length order ≡ length chosen)
        × Distinct order
        × ((P : String × PodDetails → Type 0) → All P chosen → All P order)

-- The text is empty, says that there is no pod, or is the JSON of a set of at most `n` pods.
pub data Sample (C : Cluster) (n : ℕ) : String → Type 0 where
  blank : Sample C n ""
  no_pods : Sample C n "{\"message\": \"No pods found.\"}"
  pods_of :
      (written : List (String × PodDetails)) (b : String)
      → length written ≤ n
      → Distinct written
      → All IsKeyed written
      → C.lib.marshal_pods (map (λ (_, d). d) written) ≡ ok b
      → Sample C n b

module _ (C : Cluster) (laws : PodLaws C) where
  -- The loop over the namespaces only reads: it returns pods, or it fails, in the same state.
  collect_pods-IsOutside :
      (collected : List Pod) (names : List String) (s : C.State)
      → All (λ p. IsOutside p.namespace) collected
      → All IsOutside names
      → ((pods : List Pod) × (collect_pods C collected names s ≡ (returned pods, s))
          × All (λ p. IsOutside p.namespace) pods)
        ⊎ ((e : Error) × (collect_pods C collected names s ≡ (failed e, s)))
  unfolding collect_pods pure
  collect_pods-IsOutside collected [] s h k = inl (collected, refl, h)
  collect_pods-IsOutside collected (ns ∷ names) s h (k, ks) =
      let options : ListOptions = record { namespace = some ns; labels = [] } in
      elim (Result-cases (C.pods.list options s)) [
        | inl (pods, e) ↦
            let within = All-map (λ p same. rw same k) pods (laws.listed ns s pods e) in
            let step =
              bind-returned (read (C.pods.list options)) s
                (λ l. collect_pods C (collected ++ l) names) (read-ok (C.pods.list options) s e) in
            elim (collect_pods-IsOutside (collected ++ pods) names s
              (All-append (λ p. IsOutside p.namespace) collected pods h within) ks) [
                | inl (all, f, g) ↦ inl (all, step ∙ f, g)
                | inr (x, f) ↦ inr (x, step ∙ f)
              ]
        | inr (f, e) ↦ inr (
          f,
          bind-failed (read (C.pods.list options)) s (λ l. collect_pods C (collected ++ l) names)
              (read-err (C.pods.list options) s e),
        )
      ]

  -- The JSON of the details, or nothing.
  abbrev written : List PodDetails → Exec C.State String
  written details = catch (lift (C.lib.marshal_pods details)) (λ _. pure "") pure

  abbrev sampled : ℕ → List Pod → Exec C.State String
  sampled n pods = ranged C (map (λ (_, d). d) (pick_pods n [] pods)) >>= written

  sampled-Sample :
      (n : ℕ) (pods : List Pod) (s : C.State)
      → All (λ p. IsOutside p.namespace) pods
      → Returns (Sample C n) (sampled n pods s)
  unfolding ranged pure
  sampled-Sample n pods s h =
      let chosen = pick_pods n [] pods in
      let o = C.range_pods (map (λ (_, d). d) chosen) s in
      let step = bind-returned (ranged C (map (λ (_, d). d) chosen)) s written refl in
      let different = pick_pods-Distinct n [] pods tt in
      let bound : length chosen ≤ n = length-pick_pods n [] pods (ground arith) in
      let (order, same, count, apart, every) = laws.ranged_once chosen s different in
      let m = lift (C.lib.marshal_pods o.0) in
      elim (Result-cases (C.lib.marshal_pods o.0)) [
        | inl (b, e) ↦ (
          b,
          ap (λ r. r.0)
              (step
                ∙ catch-returned m o.1 (λ _. pure "") pure
                    (lift-ok (C.lib.marshal_pods o.0) o.1 e)),
          pods_of order b (omega arith) apart (every IsKeyed (pick_pods-IsKeyed n [] pods tt h))
              (ap C.lib.marshal_pods same ∙ e),
        )
        | inr (f, e) ↦ (
          "",
          ap (λ r. r.0)
              (step
                ∙ catch-failed m o.1 (λ _. pure "") pure (lift-err (C.lib.marshal_pods o.0) o.1 e)),
          blank,
        )
      ]

  blank_Sample : (n : ℕ) (s : C.State) → Returns (Sample C n) (pure "" s)
  unfolding pure
  blank_Sample n s = ("", refl, blank)

  -- What follows the loop over the namespaces.
  abbrev chosen_from : ℕ → List Pod → Exec C.State String
  chosen_from n pods =
      if is_empty pods
      then pure "{\"message\": \"No pods found.\"}"
      else shuffled C pods >>= sampled n

  chosen_from-Sample :
      (n : ℕ) (pods : List Pod) (s : C.State)
      → All (λ p. IsOutside p.namespace) pods
      → Returns (Sample C n) (chosen_from n pods s)
  unfolding shuffled pure
  chosen_from-Sample n [] s h = ("{\"message\": \"No pods found.\"}", refl, no_pods)
  chosen_from-Sample n (p ∷ pods) s h =
      let o = C.shuffle (p ∷ pods) s in
      subst (Returns (Sample C n)) (sym (bind-returned (shuffled C (p ∷ pods)) s (sampled n) refl))
        (sampled-Sample n o.0 o.1 (laws.shuffled_all (λ q. IsOutside q.namespace) (p ∷ pods) s h))

  -- Whatever the server answers, the function returns, and what it returns is a sample: it is empty,
  -- or says that there are no pods, or is the JSON of at most as many pods as were asked for, no two
  -- of which have the same namespace and name, and none of which is from a system namespace; provided
  -- that a list of a namespace holds pods of that namespace only, that a shuffle only reorders, and that
  -- a range over a map takes each of its entries once.
  pub get_pod_details-Sample : (n : ℕ) (s : C.State) → Returns (Sample C n) (get_pod_details C n s)
  unfolding get_pod_details
  get_pod_details-Sample n s =
      let options : ListOptions = record { namespace = none; labels = [] } in
      let m : Exec C.State (List Namespace) = read (C.namespaces.list options) in
      let collect : List Namespace → Exec C.State (List Pod) =
        λ namespaces. collect_pods C [] (included_namespaces namespaces) in
      let empty : Error → Exec C.State String = λ _. pure "" in
      let rest : List Namespace → Exec C.State String =
        λ namespaces. catch (collect namespaces) empty (chosen_from n) in
      elim (Result-cases (C.namespaces.list options s)) [
        | inr (f, e) ↦
            subst (Returns (Sample C n))
              (sym (catch-failed m s empty rest (read-err (C.namespaces.list options) s e)))
              (blank_Sample n s)
        | inl (l, e) ↦
            subst (Returns (Sample C n))
              (sym (catch-returned m s empty rest (read-ok (C.namespaces.list options) s e)))
              (elim (collect_pods-IsOutside [] (included_namespaces l) s tt
                (included-IsOutside l)) [
                  | inl (pods, f, h) ↦
                      subst (Returns (Sample C n))
                        (sym (catch-returned (collect l) s empty (chosen_from n) f))
                        (chosen_from-Sample n pods s h)
                  | inr (x, f) ↦
                      subst (Returns (Sample C n))
                        (sym (catch-failed (collect l) s empty (chosen_from n) f))
                        (blank_Sample n s)
                ])
      ]
