-- ===== src/Report/Sound.antt =====
-- What the status of a report may say, and what the API server promises of statuses.
use eirenyx.Base.{◌≡◌, ◌⊎◌, inl, inr, refl, some, if◌then◌else◌}
use eirenyx.Base.Int.{pos, ltb_ℤ}
use eirenyx.Effect.{ok}
use eirenyx.Api.Meta.{Key}
use eirenyx.Api.Report.{
  PolicyReport, PolicyReportStatus, ReportPhase, ReportSummary, Verdict, empty_summary,
}
use eirenyx.Cluster.{Cluster}

-- The verdict is the one of the failed checks, and either all checks passed or all failed.
abbrev pub IsVerdict : ReportSummary → Type 0
IsVerdict s =
    (s.verdict ≡ (if ltb_ℤ (pos 0) s.failed then Verdict.fail else Verdict.pass))
    × (((s.passed ≡ s.total_checks) × (s.failed ≡ pos 0))
        ⊎ ((s.passed ≡ pos 0) × (s.failed ≡ s.total_checks)))

abbrev pub IsSoundAt : ReportPhase → ReportSummary → Type 0
IsSoundAt ReportPhase.unset s = s ≡ empty_summary
IsSoundAt ReportPhase.pending s = s ≡ empty_summary
IsSoundAt ReportPhase.running s = s ≡ empty_summary
IsSoundAt ReportPhase.completed s = IsVerdict s
IsSoundAt ReportPhase.failed s = ⊥

-- A status before its completion has an empty summary, a completed one a verdict that fits its
-- counts, and none has failed.
abbrev pub IsSound : PolicyReportStatus → Type 0
IsSound st = IsSoundAt st.phase st.summary

abbrev pub unset_status : PolicyReportStatus
unset_status = record { phase = ReportPhase.unset; summary = empty_summary; details = "" }

-- The versions of the report under a key that the API server has stored up to a state, the current
-- one included.
abbrev pub Versions : Cluster → Type 1
Versions C = Key → C.State → PolicyReport → Type 0

module _ (C : Cluster) (V : Versions C) where
  -- Some version of the report under the key has had this status.
  abbrev pub Kept : C.State → Key → PolicyReport → Type 0
  Kept s x b = (c : PolicyReport) × V x s c × (b.status ≡ c.status)

  -- Every report is sound in every version.
  pub record AllSound (s : C.State) : Type 0 where
    pub sound : (x : Key) (b : PolicyReport) → V x s b → IsSound b.status

  -- The status subresource, behind a client that reads from a cache: a read that answers, answers with
  -- a version that the server has stored, be it an old one. A status update writes the status that it is
  -- given, and to no other report; a create stores the status that it is given or drops it, an update
  -- keeps the stored one, and a delete writes no status.
  pub record StatusLaws : Type 0 where
    pub get_version :
        (x : Key) (s : C.State) (b : PolicyReport) → C.reports.get x s ≡ ok b → V x s b
    pub stored_version :
        (x : Key) (s : C.State) (b : PolicyReport) → C.reports.stored x s ≡ some b → V x s b
    pub update_status_writes :
        (a : PolicyReport) (s : C.State) (x : Key) (b : PolicyReport)
        → V x (C.reports.update_status a s).1 b
        → Kept s x b ⊎ (b.status ≡ a.status)
    pub store_writes :
        (a : PolicyReport) (f : PolicyReport → PolicyReport) (s : C.State) (x : Key)
        (b : PolicyReport)
        → ((r : PolicyReport) → (f r).status ≡ r.status)
        → V x (C.reports.create_or_update a (λ r. ok (f r)) s).1 b
        → Kept s x b ⊎ ((b.status ≡ a.status) ⊎ (b.status ≡ unset_status))
    pub delete_writes :
        (a : PolicyReport) (s : C.State) (x : Key) (b : PolicyReport)
        → V x (C.reports.delete a s).1 b
        → Kept s x b

module _ (C : Cluster) {V : Versions C} (laws : StatusLaws C V) where
  Kept-IsSound :
      (s : C.State) (x : Key) (b : PolicyReport)
      → AllSound C V s
      → Kept C V s x b
      → IsSound b.status
  Kept-IsSound s x b h (c, e, same) = rw same (h.sound x c e)

  pub get-IsSound :
      (x : Key) (s : C.State) (b : PolicyReport)
      → AllSound C V s
      → C.reports.get x s ≡ ok b
      → IsSound b.status
  get-IsSound x s b h e = h.sound x b (laws.get_version x s b e)

  pub update_status-AllSound :
      (a : PolicyReport)
      → IsSound a.status
      → (s : C.State) → AllSound C V s
      → AllSound C V (C.reports.update_status a s).1
  update_status-AllSound a q s h = record {
    sound = λ x b e. elim (laws.update_status_writes a s x b e) [
      | inl kept ↦ Kept-IsSound s x b h kept
      | inr same ↦ rw same q
    ];
  }

  pub store-AllSound :
      (a : PolicyReport) (f : PolicyReport → PolicyReport)
      → ((r : PolicyReport) → (f r).status ≡ r.status)
      → IsSound a.status
      → (s : C.State) → AllSound C V s
      → AllSound C V (C.reports.create_or_update a (λ r. ok (f r)) s).1
  store-AllSound a f same q s h = record {
    sound = λ x b e. elim (laws.store_writes a f s x b same e) [
      | inl kept ↦ Kept-IsSound s x b h kept
      | inr other ↦ elim other [ inl given ↦ rw given q | inr dropped ↦ rw dropped refl ]
    ];
  }

  pub delete-AllSound :
      (a : PolicyReport) (s : C.State) → AllSound C V s → AllSound C V (C.reports.delete a s).1
  delete-AllSound a s h = record {
    sound = λ x b e. Kept-IsSound s x b h (laws.delete_writes a s x b e);
  }
