-- ===== src/Report/Trivy/Newest.antt =====
-- internal/report/trivy.go: `pickNewestPod`.
use mathlib.Core.Path.{subst}
use eirenyx.Base.{
  ℕ, ◌≤◌, ◌<◌, ◌≡◌, refl, sym, List, [], ◌∷◌, ◌⊎◌, inl, inr, All, Bool-cases, ltb, arith,
}
use eirenyx.Api.Workload.{Pod}
use eirenyx.Report.Trivy.{pick_newest}

abbrev pub created : Pod → ℕ
created p = p.meta.creation_timestamp

-- The pod stands in the list, and every pod before it is older.
abbrev pub IsFirstNewest : Pod → List Pod → Type 0
IsFirstNewest p [] = ⊥
IsFirstNewest p (q ∷ pods) = (p ≡ q) ⊎ ((created q < created p) × IsFirstNewest p pods)

pick_newest-le :
    (newest : Pod) (pods : List Pod)
    → (created newest ≤ created (pick_newest newest pods))
      × All (λ q. created q ≤ created (pick_newest newest pods)) pods
unfolding pick_newest
pick_newest-le newest [] = (omega arith, tt)
pick_newest-le newest (p ∷ pods) = elim (Bool-cases (ltb (created newest) (created p))) [
  | inl later ↦
      let eq : pick_newest newest (p ∷ pods) ≡ pick_newest p pods = rw later in
      let (low, all) = pick_newest-le p pods in
      subst (λ r. (created newest ≤ created r) × All (λ q. created q ≤ created r) (p ∷ pods))
        (sym eq) (ground arith, (low, all))
  | inr not_later ↦
      let eq : pick_newest newest (p ∷ pods) ≡ pick_newest newest pods = rw not_later in
      let (low, all) = pick_newest-le newest pods in
      subst (λ r. (created newest ≤ created r) × All (λ q. created q ≤ created r) (p ∷ pods))
        (sym eq) (low, (ground arith, all))
]

pick_newest_first :
    (newest : Pod) (pods : List Pod) → IsFirstNewest (pick_newest newest pods) (newest ∷ pods)
unfolding pick_newest
pick_newest_first newest [] = inl refl
pick_newest_first newest (p ∷ pods) = elim (Bool-cases (ltb (created newest) (created p))) [
  | inl later ↦
      let eq : pick_newest newest (p ∷ pods) ≡ pick_newest p pods = rw later in
      let (low, _) = pick_newest-le p pods in
      subst (λ r. IsFirstNewest r (newest ∷ p ∷ pods)) (sym eq)
        (inr (ground arith, pick_newest_first p pods))
  | inr not_later ↦
      let eq : pick_newest newest (p ∷ pods) ≡ pick_newest newest pods = rw not_later in
      subst (λ r. IsFirstNewest r (newest ∷ p ∷ pods)) (sym eq)
        (elim (pick_newest_first newest pods) [
          | inl same ↦ inl same
          | inr (lt, rest) ↦ inr (lt, inr (ground arith, rest))
        ])
]

-- The pod that `pickNewestPod` returns is one of the pods, none of them was created later than it,
-- and every pod that stands before it in the list was created earlier.
pub pick_newest_latest :
    (newest : Pod) (pods : List Pod)
    → IsFirstNewest (pick_newest newest pods) (newest ∷ pods)
      × All (λ q. created q ≤ created (pick_newest newest pods)) (newest ∷ pods)
pick_newest_latest newest pods = (pick_newest_first newest pods, pick_newest-le newest pods)
