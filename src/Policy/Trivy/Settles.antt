-- ===== src/Policy/Trivy/Settles.antt =====
-- internal/policy/trivy/engine.go: Reconcile on a server that answers.
use mathlib.Core.Path.{subst}
use eirenyx.Base.{◌≡◌, refl, sym, ◌∙◌, ◌≢◌, inl, inr, none, some, List, [], ◌∷◌, All, arith}
use eirenyx.Effect.{Exec, pure, returned, ◌>>=◌, ◌>>◌}
use eirenyx.Api.Meta.{key_of}
use eirenyx.Api.Policy.{Policy, TrivyScan, TrivyPolicySpec}
use eirenyx.Api.Workload.{Job}
use eirenyx.Cluster.{Cluster}
use eirenyx.Cluster.Laws.{CreateLaws, IsFresh, IsUp, OwnerLaws, OwnerAnswers}
use eirenyx.Policy.Trivy.{
  scan_key, scan_job, create_scan_job, reconcile_scan, reconcile_scans, reconcile,
}
use eirenyx.Policy.Trivy.Jobs.{reconcile_scans-IsStored, key-scan_job}

-- The first run of two returned.
then-returned :
    {S : Type 0} (m k : Exec S (Unit {0})) (s : S) → (m s).0 ≡ returned tt → (m >> k) s ≡ k (m s).1
unfolding ◌>>◌
then-returned m k s h = ground arith

module _ (C : Cluster) (up : IsUp Job.meta C.jobs) (owner : OwnerLaws C.lib) where
  module _ (answers : OwnerAnswers C.lib) where
    create_scan_job_returns :
        (p : Policy) (scan : TrivyScan) (s : C.State)
        → C.jobs.stored (scan_key p scan) s ≡ none
        → (create_scan_job C p scan s).0 ≡ returned tt
    unfolding create_scan_job ◌>>=◌ ◌>>◌
    create_scan_job_returns p scan s h =
        let job = scan_job p scan in
        let (m, e) = answers.controller_answers p job.meta in
        let job' = record job { meta = m } in
        let free : C.jobs.stored (key_of m) s ≡ none =
          ground (arith, h, owner.controller_keeps_key p job.meta m e, key-scan_job p scan) in
        let (b, c) = up.create_answers job' s free in ground (arith, e, c)

    reconcile_scan_returns :
        (p : Policy) (scan : TrivyScan) (s : C.State) → (reconcile_scan C p scan s).0 ≡ returned tt
    unfolding reconcile_scan ◌>>=◌
    reconcile_scan_returns p scan s = elim (up.get_answers (scan_key p scan) s) [
      | inl (j, e) ↦ ground arith
      | inr (f, e, missing) ↦
          let free = up.get_missing (scan_key p scan) s f e in
          ground (arith, create_scan_job_returns p scan s free)
    ]

    reconcile_scans_return :
        (p : Policy) (scans : List TrivyScan) (s : C.State)
        → (reconcile_scans C p scans s).0 ≡ returned tt
    unfolding reconcile_scans pure
    reconcile_scans_return p [] s = refl
    reconcile_scans_return p (scan ∷ scans) s =
        let m = reconcile_scan C p scan in
        rw (then-returned m (reconcile_scans C p scans) s (reconcile_scan_returns p scan s))
          (reconcile_scans_return p scans (m s).1)

  -- Where every scan has its Job, the loop changes nothing.
  reconcile_scans_rest :
      (p : Policy) (scans : List TrivyScan) (s : C.State)
      → All (λ scan. C.jobs.stored (scan_key p scan) s ≢ none) scans
      → reconcile_scans C p scans s ≡ (returned tt, s)
  unfolding reconcile_scans reconcile_scan ◌>>◌
  reconcile_scans_rest p [] s h = refl
  reconcile_scans_rest p (scan ∷ scans) s (h, rest) = elim (up.get_answers (scan_key p scan) s) [
    | inl (j, e) ↦ ground (arith, reconcile_scans_rest p scans s rest)
    | inr (f, e, missing) ↦ absurd (h (up.get_missing (scan_key p scan) s f e))
  ]

  -- On a server that answers, with fresh reads and where setting an owner succeeds and keeps the name,
  -- Reconcile of a policy with a trivy spec returns with no error; and a second one right after it
  -- returns too and changes nothing.
  pub reconcile_settles :
      CreateLaws Job.meta C.jobs
      → IsFresh Job.meta C.jobs
      → OwnerAnswers C.lib
      → (p : Policy) (t : TrivyPolicySpec) (s : C.State) → p.spec.trivy ≡ some t
      → ((reconcile C p s).0 ≡ returned tt)
        × (reconcile C p (reconcile C p s).1 ≡ (returned tt, (reconcile C p s).1))
  unfolding reconcile
  reconcile_settles laws fresh answers p t s e =
      let loop : (u : C.State) → reconcile C p u ≡ reconcile_scans C p t.scans u =
        λ u. ground arith in
      let done = reconcile_scans_return answers p t.scans s in
      let jobs = reconcile_scans-IsStored C laws owner fresh p t.scans s done in
      let u = (reconcile_scans C p t.scans s).1 in
      subst (λ o. (o.0 ≡ returned tt) × (reconcile C p o.1 ≡ (returned tt, o.1))) (sym (loop s))
        (done, loop u ∙ reconcile_scans_rest p t.scans u jobs)
