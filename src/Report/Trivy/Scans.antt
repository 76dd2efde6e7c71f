-- ===== src/Report/Trivy/Scans.antt =====
-- internal/report/trivy.go: how the loop over the scans counts them.
use eirenyx.Base.{ℕ, ◌+◌, suc, ◌≡◌, inl, inr, List, [], ◌∷◌, length, length-append, arith}
use eirenyx.Effect.{Result-cases, returned, pure, ◌>>◌}
use eirenyx.Effect.Keeps.{bind-eq_returned}
use eirenyx.Api.Meta.{Key}
use eirenyx.Api.Policy.{Policy, TrivyScan}
use eirenyx.Api.Workload.{Job}
use eirenyx.Cluster.{Cluster}
use eirenyx.Report.Trivy.{
  Collected, nothing_collected, add_pending, add_report, collect_job, collect_scan, collect_scans,
  scan_job_name,
}

-- The scans accounted for so far.
abbrev pub counted : Collected → ℕ
counted acc = acc.completed_scans + length acc.pending_scans

counted-add_pending :
    (scan : TrivyScan) (acc : Collected) → counted (add_pending scan acc) ≡ suc (counted acc)
unfolding add_pending
counted-add_pending scan acc = omega (arith, length-append {0} acc.pending_scans (scan.name ∷ []))

module _ (C : Cluster) where
  counted-collect_job :
      (p : Policy) (scan : TrivyScan) (acc acc' : Collected) (job : Job) (s : C.State)
      → (collect_job C p scan acc job s).0 ≡ returned acc'
      → counted acc' ≡ suc (counted acc)
  unfolding collect_job add_report ◌>>◌
  counted-collect_job p scan acc acc' job s h = ground (arith, counted-add_pending scan acc)

  counted-collect_scan :
      (p : Policy) (scan : TrivyScan) (acc acc' : Collected) (s : C.State)
      → (collect_scan C p scan acc s).0 ≡ returned acc'
      → counted acc' ≡ suc (counted acc)
  unfolding collect_scan ◌>>◌
  counted-collect_scan p scan acc acc' s h =
      let key : Key = record { namespace = p.namespace; name = scan_job_name p.name scan.name } in
      elim (Result-cases (C.jobs.get key s)) [
        | inl (job, e) ↦ ground (arith, counted-collect_job p scan acc acc' job s)
        | inr (f, e) ↦ ground (arith, counted-add_pending scan acc)
      ]

  pub counted-collect_scans :
      (p : Policy) (scans : List TrivyScan) (acc acc' : Collected) (s : C.State)
      → (collect_scans C p scans acc s).0 ≡ returned acc'
      → counted acc' ≡ counted acc + length scans
  unfolding collect_scans pure
  counted-collect_scans p [] acc acc' s h = ground arith
  counted-collect_scans p (scan ∷ scans) acc acc' s h =
      let (mid, first, eq, rest) =
        bind-eq_returned (collect_scan C p scan acc) (λ a. collect_scans C p scans a) s h in
      omega (
        arith,
        counted-collect_scan p scan acc mid s first,
        counted-collect_scans p scans mid acc' (collect_scan C p scan acc s).1 rest,
      )

  -- The loop from nothing: on success every scan is pending or completed, and counted once.
  pub counted-collect_all :
      (p : Policy) (scans : List TrivyScan) (acc : Collected) (s : C.State)
      → (collect_scans C p scans nothing_collected s).0 ≡ returned acc
      → acc.completed_scans + length acc.pending_scans ≡ length scans
  counted-collect_all p scans acc s h =
      omega (arith, counted-collect_scans p scans nothing_collected acc s h)
