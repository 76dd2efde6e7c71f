-- ===== src/Policy/Falco/Cleanup.antt =====
-- internal/policy/falco/engine.go, Cleanup: the loop over the listed reports.
use eirenyx.Base.{◌≡◌, some, List, [], ◌∷◌, arith, eq_iff}
use eirenyx.Effect.{Error, Reason, ok, err, returned, ◌>>◌}
use eirenyx.Api.Policy.{Policy}
use eirenyx.Api.Report.{PolicyReport}
use eirenyx.Cluster.{Cluster}
use eirenyx.Policy.Falco.{cleanup, delete_config_map, delete_reports}

-- Where the ConfigMap's part has returned, the listing answers with a report of the policy first and
-- the delete of that report finds nothing, Cleanup returns with no error in the state that this one
-- delete left: whatever reports the listing names after it, none of them is deleted.
pub cleanup_stops :
    (C : Cluster) (p : Policy) (report : PolicyReport) (reports : List PolicyReport) (s : C.State)
    (e : Error)
    → (delete_config_map C p s).0 ≡ returned tt
    → C.reports.list
        (record { namespace = some p.namespace; labels = [] })
        (delete_config_map C p s).1
      ≡ ok (report ∷ reports)
    → report.spec.policy_ref.name ≡ p.name
    → (C.reports.delete report (delete_config_map C p s).1).0 ≡ err e
    → e.reason ≡ Reason.not_found
    → cleanup C p s ≡ (returned tt, (C.reports.delete report (delete_config_map C p s).1).1)
unfolding cleanup delete_reports ◌>>◌
cleanup_stops C p report reports s e done listed same missing reason =
    ground (arith, eq_iff report.spec.policy_ref.name p.name)
