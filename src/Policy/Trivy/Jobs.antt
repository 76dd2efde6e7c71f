-- ===== src/Policy/Trivy/Jobs.antt =====
-- internal/policy/trivy/engine.go: what Reconcile and Cleanup leave among the stored Jobs.
use eirenyx.Base.{
  ◌≡◌, refl, sym, ap, ◌∙◌, ◌≢◌, inl, inr, none, some, Option-cases, List, [], ◌∷◌, All, arith,
}
use mathlib.Core.Path.{subst}
use eirenyx.Effect.{returned, Result-cases, panic, ◌>>=◌, ◌>>◌}
use eirenyx.Effect.Keeps.{Keeps, Keeps-pure, Keeps-then, keeps_rules, then-eq_returned}
use eirenyx.Api.Meta.{Key, key_of, named}
use eirenyx.Api.Policy.{Policy, TrivyScan, TrivyPolicySpec}
use eirenyx.Api.Workload.{Job}
use eirenyx.Cluster.{Cluster}
use eirenyx.Cluster.Laws.{
  CreateLaws, DeleteLaws, IsFresh, IsGone, OwnerLaws, ignore_not_found_state,
  ignore_not_found-IsDone,
}
use eirenyx.Policy.Trivy.{
  scan_key, scan_job, create_scan_job, reconcile_scan, reconcile_scans, reconcile, cleanup_scans,
  cleanup, delete_scan, bare_job, scan_job_name,
}

pub key-scan_job : (p : Policy) (scan : TrivyScan) → key_of (scan_job p scan).meta ≡ scan_key p scan
unfolding scan_job
key-scan_job p scan = refl

module _ (C : Cluster) (laws : CreateLaws Job.meta C.jobs) where
  -- A Job that is stored stays as it is.
  abbrev Holds : Key → Job → C.State → Type 0
  Holds x j s = C.jobs.stored x s ≡ some j

  create_scan_job-Keeps :
      (p : Policy) (scan : TrivyScan) (x : Key) (j : Job)
      → Keeps (Holds x j) (create_scan_job C p scan)
  unfolding create_scan_job
  create_scan_job-Keeps p scan x j = search (keeps_rules, laws.create_keeps)

  reconcile_scan-Keeps :
      (p : Policy) (scan : TrivyScan) (x : Key) (j : Job)
      → Keeps (Holds x j) (reconcile_scan C p scan)
  unfolding reconcile_scan
  reconcile_scan-Keeps p scan x j = search (keeps_rules, create_scan_job-Keeps)

  reconcile_scans-Keeps :
      (p : Policy) (scans : List TrivyScan) (x : Key) (j : Job)
      → Keeps (Holds x j) (reconcile_scans C p scans)
  unfolding reconcile_scans
  reconcile_scans-Keeps p [] x j = Keeps-pure tt
  reconcile_scans-Keeps p (scan ∷ scans) x j =
      Keeps-then (reconcile_scan-Keeps p scan x j) (reconcile_scans-Keeps p scans x j)

  -- Some Job is stored at the key.
  abbrev IsStored : Key → C.State → Type 0
  IsStored x s = C.jobs.stored x s ≢ none

  create_scan_job-IsStored :
      OwnerLaws C.lib
      → (p : Policy) (scan : TrivyScan) (s : C.State) → (create_scan_job C p scan s).0 ≡ returned tt
      → IsStored (scan_key p scan) (create_scan_job C p scan s).1
  unfolding create_scan_job ◌>>=◌ ◌>>◌
  create_scan_job-IsStored owner p scan s h =
      let job = scan_job p scan in
      elim (Result-cases (C.lib.set_controller_reference p job.meta)) [
        | inl (m, e) ↦ elim (Result-cases (C.jobs.create (record job { meta = m }) s).0) [
          | inl (j, c) ↦ ground (
            arith,
            e,
            key-scan_job p scan,
            owner.controller_keeps_key p job.meta m e,
            laws.create_stores (record job { meta = m }) s j c,
          )
          | inr (f, c) ↦ ground arith
        ]
        | inr (f, e) ↦ ground arith
      ]

  reconcile_scan-IsStored :
      OwnerLaws C.lib
      → IsFresh Job.meta C.jobs
      → (p : Policy) (scan : TrivyScan) (s : C.State) → (reconcile_scan C p scan s).0 ≡ returned tt
      → IsStored (scan_key p scan) (reconcile_scan C p scan s).1
  unfolding reconcile_scan ◌>>=◌
  reconcile_scan-IsStored owner fresh p scan s h =
      elim (Result-cases (C.jobs.get (scan_key p scan) s)) [
        | inl (j, e) ↦ ground (arith, fresh.get_fresh (scan_key p scan) s j e)
        | inr (f, e) ↦ ground (arith, create_scan_job-IsStored owner p scan s)
      ]

  reconcile_scans-keeps_IsStored :
      (p : Policy) (scans : List TrivyScan) (x : Key) (s : C.State)
      → IsStored x s
      → IsStored x (reconcile_scans C p scans s).1
  reconcile_scans-keeps_IsStored p scans x s h = elim (Option-cases (C.jobs.stored x s)) [
    | inl e ↦ absurd (h e)
    | inr (j, e) ↦ ground (arith, (reconcile_scans-Keeps p scans x j).keeps_at s e)
  ]

  pub reconcile_scans-IsStored :
      OwnerLaws C.lib
      → IsFresh Job.meta C.jobs
      → (p : Policy) (scans : List TrivyScan) (s : C.State)
      → (reconcile_scans C p scans s).0 ≡ returned tt
      → All (λ scan. IsStored (scan_key p scan) (reconcile_scans C p scans s).1) scans
  unfolding reconcile_scans
  reconcile_scans-IsStored owner fresh p [] s h = tt
  reconcile_scans-IsStored owner fresh p (scan ∷ scans) s h =
      let m = reconcile_scan C p scan in
      let k = reconcile_scans C p scans in
      let (_, first, eq, rest) = then-eq_returned m k s h in
      subst (λ o. All (λ sc. IsStored (scan_key p sc) o.1) (scan ∷ scans)) (sym eq)
        (
          reconcile_scans-keeps_IsStored p scans (scan_key p scan) (m s).1
              (reconcile_scan-IsStored owner fresh p scan s first),
          reconcile_scans-IsStored owner fresh p scans (m s).1 rest,
        )

  -- When the engine's Reconcile returns with no error, every scan of the policy has a stored Job
  -- under its name, provided that reads are fresh and that setting an owner keeps the name.
  pub reconcile_jobs :
      OwnerLaws C.lib
      → IsFresh Job.meta C.jobs
      → (p : Policy) (t : TrivyPolicySpec) (s : C.State) → p.spec.trivy ≡ some t
      → (reconcile C p s).0 ≡ returned tt
      → All (λ scan. C.jobs.stored (scan_key p scan) (reconcile C p s).1 ≢ none) t.scans
  unfolding reconcile
  reconcile_jobs owner fresh p t s e h =
      let eq : reconcile C p s ≡ reconcile_scans C p t.scans s = ground arith in
      subst (λ o. All (λ sc. IsStored (scan_key p sc) o.1) t.scans) (sym eq)
        (reconcile_scans-IsStored owner fresh p t.scans s (ap (λ o. o.0) (sym eq) ∙ h))

  -- Reconcile never changes a Job that is stored, however it ends: a Job of an earlier generation
  -- of the policy stays as it was created.
  pub reconcile_keeps_jobs :
      (p : Policy) (s : C.State) (x : Key) (j : Job)
      → C.jobs.stored x s ≡ some j
      → C.jobs.stored x (reconcile C p s).1 ≡ some j
  unfolding reconcile panic
  reconcile_keeps_jobs p s x j h = elim (Option-cases p.spec.trivy) [
    | inl e ↦ ground arith
    | inr (t, e) ↦ ground (arith, (reconcile_scans-Keeps p t.scans x j).keeps_at s h)
  ]

module _ (C : Cluster) (laws : DeleteLaws Job.meta C.jobs) where
  cleanup_scans-Keeps :
      (p : Policy) (scans : List TrivyScan) (x : Key)
      → Keeps (IsGone Job.meta C.jobs x) (cleanup_scans C p scans)
  unfolding cleanup_scans delete_scan
  cleanup_scans-Keeps p [] x = Keeps-pure tt
  cleanup_scans-Keeps p (scan ∷ scans) x =
      Keeps-then (search (keeps_rules, laws.delete_keeps_gone)) (cleanup_scans-Keeps p scans x)

  delete_scan-IsGone :
      (p : Policy) (scan : TrivyScan) (s : C.State)
      → (delete_scan C p scan s).0 ≡ returned tt
      → IsGone Job.meta C.jobs (scan_key p scan) (delete_scan C p scan s).1
  unfolding delete_scan
  delete_scan-IsGone p scan s h =
      let job = bare_job (named (scan_job_name p.name scan.name) p.namespace) in
      rw (ignore_not_found_state (C.jobs.delete job) s)
        (laws.delete_removes job s (ignore_not_found-IsDone (C.jobs.delete job) s h))

  cleanup_scans-IsGone :
      (p : Policy) (scans : List TrivyScan) (s : C.State)
      → (cleanup_scans C p scans s).0 ≡ returned tt
      → All (λ scan. IsGone Job.meta C.jobs (scan_key p scan) (cleanup_scans C p scans s).1) scans
  unfolding cleanup_scans
  cleanup_scans-IsGone p [] s h = tt
  cleanup_scans-IsGone p (scan ∷ scans) s h =
      let m = delete_scan C p scan in
      let k = cleanup_scans C p scans in
      let (_, first, eq, rest) = then-eq_returned m k s h in
      subst (λ o. All (λ sc. IsGone Job.meta C.jobs (scan_key p sc) o.1) (scan ∷ scans)) (sym eq)
        (
          (cleanup_scans-Keeps p scans (scan_key p scan)).keeps_at (m s).1
              (delete_scan-IsGone p scan s first),
          cleanup_scans-IsGone p scans (m s).1 rest,
        )

  -- When the engine's Cleanup returns with no error, the Job of every scan of the policy is no
  -- longer stored or is marked for deletion.
  pub cleanup_jobs :
      (p : Policy) (t : TrivyPolicySpec) (s : C.State)
      → p.spec.trivy ≡ some t
      → (cleanup C p s).0 ≡ returned tt
      → All (λ scan. IsGone Job.meta C.jobs (scan_key p scan) (cleanup C p s).1) t.scans
  unfolding cleanup
  cleanup_jobs p t s e h =
      let eq : cleanup C p s ≡ cleanup_scans C p t.scans s = ground arith in
      subst (λ o. All (λ sc. IsGone Job.meta C.jobs (scan_key p sc) o.1) t.scans) (sym eq)
        (cleanup_scans-IsGone p t.scans s (ap (λ o. o.0) (sym eq) ∙ h))
