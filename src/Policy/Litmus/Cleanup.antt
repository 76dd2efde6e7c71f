-- ===== src/Policy/Litmus/Cleanup.antt =====
-- internal/policy/litmus/engine.go, Cleanup: the loops over listed engines and reports.
use mathlib.Core.Path.{subst}
use eirenyx.Base.{
  ◌≡◌, ◌≢◌, ◌⊎◌, sym, ◌∙◌, ap, ◌==◌, Bool-cases, inl, inr, List, [], ◌∷◌, All, arith, eq_iff,
}
use eirenyx.Effect.{returned, call, ignore_not_found, ◌>>◌}
use eirenyx.Effect.Keeps.{Keeps, Keeps-pure, Keeps-then, Keeps-if, keeps_rules, then-eq_returned}
use eirenyx.Api.Meta.{Key, key_of}
use eirenyx.Api.Policy.{Policy}
use eirenyx.Api.Report.{PolicyReport}
use eirenyx.Api.Workload.{ChaosEngine}
use eirenyx.Cluster.{Cluster}
use eirenyx.Cluster.Laws.{DeleteLaws, IsGone, ignore_not_found_state, ignore_not_found-IsDone}
use eirenyx.Policy.Litmus.{delete_reports, delete_engines}

module _ (C : Cluster) (laws : DeleteLaws PolicyReport.meta C.reports) where
  abbrev IsGoneReport : PolicyReport → C.State → Type 0
  IsGoneReport r s = IsGone PolicyReport.meta C.reports (key_of r.meta) s

  delete_reports-Keeps :
      (p : Policy) (reports : List PolicyReport) (x : Key)
      → Keeps (IsGone PolicyReport.meta C.reports x) (delete_reports C p reports)
  unfolding delete_reports
  delete_reports-Keeps p [] x = Keeps-pure tt
  delete_reports-Keeps p (r ∷ reports) x =
      let rest = delete_reports-Keeps p reports x in
      Keeps-if (r.spec.policy_ref.name == p.name)
        (Keeps-then (search (keeps_rules, laws.delete_keeps_gone)) rest) rest

  -- When the loop over the listed reports returns with no error, every report of the list that
  -- refers to the policy is no longer stored or is marked for deletion, also where some of them
  -- were gone before.
  pub delete_reports_gone :
      (p : Policy) (reports : List PolicyReport) (s : C.State)
      → (delete_reports C p reports s).0 ≡ returned tt
      → All
          (λ r. (r.spec.policy_ref.name ≢ p.name) ⊎ IsGoneReport r (delete_reports C p reports s).1)
          reports
  unfolding delete_reports
  delete_reports_gone p [] s h = tt
  delete_reports_gone p (r ∷ reports) s h = elim (Bool-cases (r.spec.policy_ref.name == p.name)) [
    | inl same ↦
        let m = ignore_not_found (call (C.reports.delete r)) in
        let k = delete_reports C p reports in
        let step : delete_reports C p (r ∷ reports) s ≡ (m >> k) s = rw same in
        let (_, first, eq, rest) = then-eq_returned m k s (ap (λ o. o.0) (sym step) ∙ h) in
        subst (λ o. All (λ q. (q.spec.policy_ref.name ≢ p.name) ⊎ IsGoneReport q o.1) (r ∷ reports))
          (sym (step ∙ eq))
          (
            inr (
                (delete_reports-Keeps p reports (key_of r.meta)).keeps_at (m s).1 (
                  rw (ignore_not_found_state (C.reports.delete r) s) (
                    laws.delete_removes r s
                      (ignore_not_found-IsDone (C.reports.delete r) s first)))),
            delete_reports_gone p reports (m s).1 rest,
          )
    | inr other ↦
        let k = delete_reports C p reports in
        let step : delete_reports C p (r ∷ reports) s ≡ k s = rw other in
        subst (λ o. All (λ q. (q.spec.policy_ref.name ≢ p.name) ⊎ IsGoneReport q o.1) (r ∷ reports))
          (sym step)
          (
            inl (λ same. ground (arith, eq_iff r.spec.policy_ref.name p.name)),
            delete_reports_gone p reports s (ap (λ o. o.0) (sym step) ∙ h),
          )
  ]

module _ (C : Cluster) (laws : DeleteLaws ChaosEngine.meta C.chaos_engines) where
  pub delete_engines-Keeps :
      (engines : List ChaosEngine) (x : Key)
      → Keeps (IsGone ChaosEngine.meta C.chaos_engines x) (delete_engines C engines)
  unfolding delete_engines
  delete_engines-Keeps [] x = Keeps-pure tt
  delete_engines-Keeps (e ∷ engines) x =
      Keeps-then (search (keeps_rules, laws.delete_keeps_gone)) (delete_engines-Keeps engines x)

  -- When the loop over the listed ChaosEngines returns with no error, every one of them is no longer
  -- stored or is marked for deletion.
  pub delete_engines-IsGone :
      (engines : List ChaosEngine) (s : C.State)
      → (delete_engines C engines s).0 ≡ returned tt
      → All
          (λ e.
            IsGone ChaosEngine.meta C.chaos_engines (key_of e.meta) (delete_engines C engines s).1)
          engines
  unfolding delete_engines
  delete_engines-IsGone [] s h = tt
  delete_engines-IsGone (e ∷ engines) s h =
      let m = ignore_not_found (call (C.chaos_engines.delete e)) in
      let k = delete_engines C engines in
      let (_, first, eq, rest) = then-eq_returned m k s h in
      subst
        (λ o. All (λ q. IsGone ChaosEngine.meta C.chaos_engines (key_of q.meta) o.1) (e ∷ engines))
        (sym eq)
        (
          (delete_engines-Keeps engines (key_of e.meta)).keeps_at (m s).1 (
              rw (ignore_not_found_state (C.chaos_engines.delete e) s) (
                laws.delete_removes e s
                  (ignore_not_found-IsDone (C.chaos_engines.delete e) s first))),
          delete_engines-IsGone engines (m s).1 rest,
        )
