-- ===== src/Controller/Reported.antt =====
-- internal/controller with internal/policy/litmus and internal/report/litmus.go: the way of a Litmus
-- policy to its completed report, and what it asks of the server.
pub mod Handle
pub mod Complete
pub mod Publish
use mathlib.Core.Path.{subst}
use eirenyx.Base.{
  ◌≡◌, ◌⊎◌, refl, sym, ap, ◌∙◌, inl, inr, true, false, none, some, List, [], ◌∷◌, length, arith,
  if◌then◌else◌,
}
use eirenyx.Base.Int.{pos, int32}
use eirenyx.Effect.{
  Error, Reason, Exec, ok, err, returned, pure, call, lift, read, catch, ◌>>◌, ◌>>=◌,
}
use eirenyx.Effect.Ends.{catch-returned, read-ok}
use eirenyx.Api.Meta.{Key, key_of, named}
use eirenyx.Api.Policy.{
  Policy, LitmusExperiment, LitmusPolicySpec, PolicySpec, PolicyStatus, policy_type_litmus,
}
use eirenyx.Api.Report.{PolicyReport, PolicyReportSpec, PolicyReportStatus, ReportPhase, Verdict}
use eirenyx.Api.Tool.{Tool}
use eirenyx.Api.Workload.{ChaosEngine}
use eirenyx.Cluster.{Cluster}
use eirenyx.Controller.{new_policy_engine, new_report_engine, litmus_engine, completed}
use eirenyx.Controller.Policies as PolicyControl
use eirenyx.Controller.Policies.{publish_report, refer_to, observed, run_engine}
use eirenyx.Controller.Policies.Engines.{litmus-chosen}
use eirenyx.Controller.Policies.Finalizer.{tool_key}
use eirenyx.Controller.Policies.Rescan.{publish_report-no_reset}
use eirenyx.Controller.Reports as ReportControl
use eirenyx.Policy.Litmus
use eirenyx.Policy.Litmus.{generate_report, report_name}
use eirenyx.Report.Litmus as LitmusReport
use eirenyx.Report.Sound.{unset_status}

-- The phase of a report that no handler has completed.
abbrev pub IsOpen : PolicyReportStatus → Type 0
IsOpen st = (st.phase ≡ ReportPhase.unset) ⊎ (st.phase ≡ ReportPhase.pending)

-- A server that takes the writes on the way. A report that is created has the status that it is given
-- or none; the next read sees what was written; and a write of one kind of object leaves the reads of
-- the others alone.
pub record ReportServer (C : Cluster) : Type 0 where
  pub report_created :
      (a : PolicyReport) (f : PolicyReport → PolicyReport) (s : C.State) (e : Error)
      → C.reports.get (key_of a.meta) s ≡ err e
      → e.reason ≡ Reason.not_found
      → ((r : PolicyReport) → ((f r).meta ≡ r.meta) × ((f r).status ≡ r.status))
      → (b : PolicyReport) × ((C.reports.create_or_update a (λ r. ok (f r)) s).0 ≡ ok b)
        × (C.reports.get (key_of a.meta) (C.reports.create_or_update a (λ r. ok (f r)) s).1 ≡ ok b)
        × (key_of b.meta ≡ key_of a.meta)
        × (b.spec ≡ (f a).spec)
        × ((b.status ≡ unset_status) ⊎ (b.status ≡ a.status))
  pub report_status_updated :
      (a : PolicyReport) (st : PolicyReportStatus) (s : C.State)
      → C.reports.get (key_of a.meta) s ≡ ok a
      → (b : PolicyReport) × ((C.reports.update_status (record a { status = st }) s).0 ≡ ok b)
        × (C.reports.get (key_of a.meta) (C.reports.update_status (record a { status = st }) s).1
            ≡ ok b)
        × (b.spec ≡ a.spec)
        × (b.status ≡ st)
  pub reports_apart :
      (a : PolicyReport) (f : PolicyReport → PolicyReport) (s : C.State) (x : Key)
      → C.policies.get x (C.reports.create_or_update a (λ r. ok (f r)) s).1 ≡ C.policies.get x s
  pub policy_status_updated :
      (p : Policy) (st : PolicyStatus) (s : C.State)
      → C.policies.get (key_of p.meta) s ≡ ok p
      → (q : Policy) × ((C.policies.update_status (record p { status = st }) s).0 ≡ ok q)
        × (C.policies.get (key_of p.meta) (C.policies.update_status (record p { status = st }) s).1
            ≡ ok q)
        × (q.spec ≡ p.spec)
  pub policy_status_apart :
      (p : Policy) (s : C.State) (x : Key)
      → C.reports.get x (C.policies.update_status p s).1 ≡ C.reports.get x s
  pub engine_stored :
      (a : ChaosEngine) (f : ChaosEngine → ChaosEngine) (s : C.State)
      → ((x : ChaosEngine) → key_of (f x).meta ≡ key_of x.meta)
      → (b : ChaosEngine) × ((C.chaos_engines.create_or_update a (λ x. ok (f x)) s).0 ≡ ok b)
  pub engine_apart :
      (a : ChaosEngine) (f : ChaosEngine → ChaosEngine) (s : C.State) (x : Key)
      → (C.reports.get x (C.chaos_engines.create_or_update a (λ y. ok (f y)) s).1
          ≡ C.reports.get x s)
        × (C.policies.get x (C.chaos_engines.create_or_update a (λ y. ok (f y)) s).1
            ≡ C.policies.get x s)
