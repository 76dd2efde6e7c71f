-- ===== src/Report/Pods/Choice.antt =====
-- internal/report/pod_details.go: which pods the loop chooses.
use eirenyx.Base.{
  ℕ, ◌≤◌, ◌≡◌, refl, inl, inr, String, ◌<>◌, false, none, Option-cases, List, [], ◌∷◌, ◌++◌, length,
  length-append, entry, contains, All, arith, eq_iff,
}
use eirenyx.Api.Trivy.{PodDetails}
use eirenyx.Api.Workload.{Namespace, Pod}
use eirenyx.Report.Pods.{excluded_namespaces, included_namespaces, pick_pods, pod_key, details_of}

-- From a set that holds no more pods than were asked for, the loop never chooses more than that,
-- whatever the list of pods holds.
pub length-pick_pods :
    (pod_count : ℕ) (pod_set : List (String × PodDetails)) (pods : List Pod)
    → length pod_set ≤ pod_count
    → length (pick_pods pod_count pod_set pods) ≤ pod_count
unfolding pick_pods
length-pick_pods n l [] h = h
length-pick_pods n l (p ∷ pods) h =
    let chosen = l ++ ((pod_key p, details_of p) ∷ []) in
    elim (Option-cases (entry (pod_key p) l)) [
      | inl e ↦
          ground (
            arith,
            length-append l ((pod_key p, details_of p) ∷ []),
            length-pick_pods n chosen pods,
          )
      | inr (d, e) ↦ ground (arith, length-pick_pods n l pods h)
    ]

abbrev pub IsOutside : String → Type 0
IsOutside ns = contains excluded_namespaces ns ≡ false

-- An entry of the set: the details under the pod's key, from a namespace that is not a system's.
abbrev pub IsKeyed : String × PodDetails → Type 0
IsKeyed (k, d) = (d.namespace <> ("/" <> d.pod_name) ≡ k) × IsOutside d.namespace

-- No two entries of the set have one key.
abbrev pub Distinct : List (String × PodDetails) → Type 0
Distinct [] = Unit
Distinct ((k, d) ∷ l) = (entry k l ≡ none) × Distinct l

entry-append :
    (k j : String) (d : PodDetails) (l : List (String × PodDetails))
    → entry k l ≡ none
    → (k ≡ j → ⊥)
    → entry k (l ++ ((j, d) ∷ [])) ≡ none
unfolding entry
entry-append k j d [] h apart = ground (arith, eq_iff j k)
entry-append k j d ((i, e) ∷ l) h apart = ground (arith, entry-append k j d l)

Distinct-append :
    (j : String) (d : PodDetails) (l : List (String × PodDetails))
    → Distinct l
    → entry j l ≡ none
    → Distinct (l ++ ((j, d) ∷ []))
unfolding entry
Distinct-append j d [] h new = (refl, tt)
Distinct-append j d ((i, e) ∷ l) (h, hs) new =
    ground (arith, eq_iff i j, entry-append i j d l h, Distinct-append j d l hs)

pub All-append : {A : Type 0} (P : A → Type 0) (l m : List A) → All P l → All P m → All P (l ++ m)
All-append P [] m h k = k
All-append P (x ∷ l) m (h, hs) k = (h, All-append P l m hs k)

pub pick_pods-Distinct :
    (n : ℕ) (l : List (String × PodDetails)) (pods : List Pod)
    → Distinct l
    → Distinct (pick_pods n l pods)
unfolding pick_pods
pick_pods-Distinct n l [] h = h
pick_pods-Distinct n l (p ∷ pods) h = elim (Option-cases (entry (pod_key p) l)) [
  | inl e ↦
      let added = Distinct-append (pod_key p) (details_of p) l h e in
      ground (arith, pick_pods-Distinct n (l ++ ((pod_key p, details_of p) ∷ [])) pods)
  | inr (d, e) ↦ ground (arith, pick_pods-Distinct n l pods h)
]

pub pick_pods-IsKeyed :
    (n : ℕ) (l : List (String × PodDetails)) (pods : List Pod)
    → All IsKeyed l
    → All (λ p. IsOutside p.namespace) pods
    → All IsKeyed (pick_pods n l pods)
unfolding pick_pods
pick_pods-IsKeyed n l [] h k = h
pick_pods-IsKeyed n l (p ∷ pods) h (k, ks) = elim (Option-cases (entry (pod_key p) l)) [
  | inl e ↦
      let added = All-append IsKeyed l ((pod_key p, details_of p) ∷ []) h ((refl, k), tt) in
      ground (arith, pick_pods-IsKeyed n (l ++ ((pod_key p, details_of p) ∷ [])) pods)
  | inr (d, e) ↦ ground (arith, pick_pods-IsKeyed n l pods h ks)
]

pub included-IsOutside :
    (namespaces : List Namespace) → All IsOutside (included_namespaces namespaces)
unfolding included_namespaces
included-IsOutside [] = tt
included-IsOutside (ns ∷ namespaces) = let rest = included-IsOutside namespaces in ground arith
