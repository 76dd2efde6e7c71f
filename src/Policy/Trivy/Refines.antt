-- ===== src/Policy/Trivy/Refines.antt =====
-- internal/policy/trivy/engine.go: Reconcile as an operation on the set of the stored Jobs' keys.
use mathlib.Core.Path.{subst}
use eirenyx.Base.{
  ◌≡◌, refl, sym, ap, ◌∙◌, ◌≢◌, ◌↔◌, ◌⊎◌, inl, inr, none, some, Option-cases, List, [], ◌∷◌, All,
  arith,
}
use eirenyx.Effect.{Error, returned, ok, err, Result-cases, ◌>>=◌, ◌>>◌}
use eirenyx.Effect.Keeps.{Keeps, Keeps-pure, Keeps-then, keeps_rules}
use eirenyx.Api.Meta.{Key, ObjectMeta}
use eirenyx.Api.Policy.{Policy, TrivyScan, TrivyPolicySpec}
use eirenyx.Api.Workload.{Job}
use eirenyx.Cluster.{Cluster}
use eirenyx.Cluster.Laws.{CreateLaws, CreatesOnly, IsFresh, OwnerLaws}
use eirenyx.Policy.Trivy.{
  scan_key, scan_job, create_scan_job, reconcile_scan, reconcile_scans, reconcile,
}
use eirenyx.Policy.Trivy.Jobs.{key-scan_job, reconcile_keeps_jobs, reconcile_jobs}

-- A key that some scan of the list asks for.
abbrev pub IsWanted : Policy → List TrivyScan → Key → Type 0
IsWanted p [] x = ⊥
IsWanted p (scan ∷ scans) x = (x ≡ scan_key p scan) ⊎ IsWanted p scans x

-- Some Job is stored under the key.
abbrev pub HasJob : (C : Cluster) → Key → C.State → Type 0
HasJob C x s = C.jobs.stored x s ≢ none

All_at :
    (P : Key → Type 0) (p : Policy) (scans : List TrivyScan) (x : Key)
    → All (λ scan. P (scan_key p scan)) scans
    → IsWanted p scans x
    → P x
All_at P p [] x h w = absurd w
All_at P p (scan ∷ scans) x (h, rest) (inl e) = rw e h
All_at P p (scan ∷ scans) x (h, rest) (inr w) = All_at P p scans x rest w

module _ (C : Cluster) (only : CreatesOnly Job.meta C.jobs) (owner : OwnerLaws C.lib) where
  -- Every stored Job was stored at the start or is wanted.
  abbrev IsWithin : (Key → Type 0) → C.State → Type 0
  IsWithin W s = (x : Key) (j : Job) → C.jobs.stored x s ≡ some j → W x

  -- The state after the creation of a Job, whether or not the server took it.
  created_state :
      (p : Policy) (scan : TrivyScan) (m : ObjectMeta) (s : C.State)
      → C.lib.set_controller_reference p (scan_job p scan).meta ≡ ok m
      → (create_scan_job C p scan s).1 ≡ (C.jobs.create (record (scan_job p scan) { meta = m }) s).1
  unfolding create_scan_job ◌>>=◌ ◌>>◌
  created_state p scan m s e =
      let job = record (scan_job p scan) { meta = m } in
      elim (Result-cases (C.jobs.create job s).0) [
        | inl (b, c) ↦ ground arith
        | inr (f, c) ↦ ground arith
      ]

  unchanged :
      (p : Policy) (scan : TrivyScan) (s : C.State) (f : Error)
      → C.lib.set_controller_reference p (scan_job p scan).meta ≡ err f
      → (create_scan_job C p scan s).1 ≡ s
  unfolding create_scan_job ◌>>=◌ ◌>>◌
  unchanged p scan s f e = ground arith

  create_scan_job-Keeps :
      (W : Key → Type 0) (p : Policy) (scan : TrivyScan)
      → W (scan_key p scan)
      → Keeps (IsWithin W) (create_scan_job C p scan)
  create_scan_job-Keeps W p scan w = record {
    keeps_at = λ s h x j e.
        elim (Result-cases (C.lib.set_controller_reference p (scan_job p scan).meta)) [
          | inl (m, owned) ↦
              let job = record (scan_job p scan) { meta = m } in
              let stored = rw (created_state p scan m s owned) at e in
              elim (only.create_only job s x j stored) [
                | inl before ↦ h x j before
                | inr new ↦
                    let same = owner.controller_keeps_key p (scan_job p scan).meta m owned in
                    subst W (sym (new ∙ same ∙ key-scan_job p scan)) w
              ]
          | inr (f, refused) ↦ h x j (sym (ap (C.jobs.stored x) (unchanged p scan s f refused)) ∙ e)
        ];
  }

  reconcile_scans-Keeps :
      (W : Key → Type 0) (p : Policy) (scans : List TrivyScan)
      → All (λ scan. W (scan_key p scan)) scans
      → Keeps (IsWithin W) (reconcile_scans C p scans)
  unfolding reconcile_scans reconcile_scan
  reconcile_scans-Keeps W p [] w = Keeps-pure tt
  reconcile_scans-Keeps W p (scan ∷ scans) (w, ws) =
      let one = create_scan_job-Keeps W p scan w in
      Keeps-then (search keeps_rules) (reconcile_scans-Keeps W p scans ws)

  All-wanted :
      (P : Key → Type 0) (p : Policy) (scans : List TrivyScan)
      → ((x : Key) → IsWanted p scans x → P x)
      → All (λ scan. P (scan_key p scan)) scans
  All-wanted P p [] h = tt
  All-wanted P p (scan ∷ scans) h =
      (h (scan_key p scan) (inl refl), All-wanted P p scans (λ x w. h x (inr w)))

  -- When the engine's Reconcile returns with no error, the keys under which Jobs are stored are those
  -- from before together with those of the policy's scans, and no others: on the set of keys it is the
  -- union with the keys that the policy wants; provided that reads are fresh, that a create adds its
  -- object and no other, and that setting an owner keeps the name.
  pub reconcile_refines :
      CreateLaws Job.meta C.jobs
      → IsFresh Job.meta C.jobs
      → (p : Policy) (t : TrivyPolicySpec) (s : C.State) (x : Key) → p.spec.trivy ≡ some t
      → (reconcile C p s).0 ≡ returned tt
      → HasJob C x (reconcile C p s).1 ↔ (HasJob C x s ⊎ IsWanted p t.scans x)
  unfolding reconcile
  reconcile_refines laws fresh p t s x e h = (backward, forward)
    where
      forward : HasJob C x s ⊎ IsWanted p t.scans x → HasJob C x (reconcile C p s).1
      forward (inl before) = elim (Option-cases (C.jobs.stored x s)) [
        | inl gone ↦ absurd (before gone)
        | inr (j, stored) ↦
            λ missing. let still = reconcile_keeps_jobs C laws p s x j stored in ground arith
      ]
      forward (inr wanted) =
          All_at (λ y. HasJob C y (reconcile C p s).1) p t.scans x
            (reconcile_jobs C laws owner fresh p t s e h) wanted

      backward : HasJob C x (reconcile C p s).1 → HasJob C x s ⊎ IsWanted p t.scans x
      backward after = elim (Option-cases (C.jobs.stored x (reconcile C p s).1)) [
        | inl gone ↦ absurd (after gone)
        | inr (j, stored) ↦
            let loop : reconcile C p s ≡ reconcile_scans C p t.scans s = ground arith in
            let W : Key → Type 0 = λ y. HasJob C y s ⊎ IsWanted p t.scans y in
            let keeps = reconcile_scans-Keeps W p t.scans (All-wanted W p t.scans (λ y w. inr w)) in
            keeps.keeps_at s (λ y k f. inl (λ g. ground arith)) x j
              (ap (λ o. C.jobs.stored x o.1) (sym loop) ∙ stored)
      ]
