-- ===== src/Tests/PolicyRuns.antt =====
-- Runs of the policy engines.
use eirenyx.Base.{◌≡◌, ◌≢◌, ◌↔◌, ◌⊎◌, String, refl, some, List, [], ◌∷◌, All, ◌<>◌}
use eirenyx.Effect.{ok, returned, ◌>>◌, ignore_not_found}
use eirenyx.Api.Meta.{key_of, named}
use eirenyx.Api.Report.{PolicyReport}
use eirenyx.Api.Workload.{Job, ChaosEngine}
use eirenyx.Cluster.Laws.{IsGone}
use eirenyx.Cluster.{Cluster}
use eirenyx.Policy.Trivy
use eirenyx.Policy.Trivy.{scan_key, scan_job, scan_job_name}
use eirenyx.Policy.Trivy.Jobs.{reconcile_keeps_jobs}
use eirenyx.Policy.Trivy.Names.{scan_job_name_iff, scan_job_name_collides}
use eirenyx.Policy.Trivy.Validate as TrivyValidate
use eirenyx.Policy.Falco
use eirenyx.Policy.Falco.Cleanup.{cleanup_stops}
use eirenyx.Policy.Falco.Validate as FalcoValidate
use eirenyx.Policy.Litmus
use eirenyx.Policy.Litmus.Cleanup.{delete_reports_gone}
use eirenyx.Policy.Litmus.Validate as LitmusValidate
use eirenyx.Report.Trivy as TrivyReport
use eirenyx.Tests.Memory.{find, remove, table, table-CreateLaws, table-DeleteLaws, missing}
use eirenyx.Tests.World.{World, empty_world, memory, job_place, report_place}
use eirenyx.Tests.Samples.{
  trivy_policy, a_scan, finished_job, falco_policy, litmus_policy, report_of, an_engine,
}

-- The Job of one scan stands, finished; the other scan has none.
abbrev one_job : World
one_job = record empty_world { jobs = finished_job (a_scan "web") ∷ [] }

reconcile_keeps_jobs_example :
    memory.jobs.stored
      (scan_key trivy_policy (a_scan "web"))
      (Trivy.reconcile memory trivy_policy one_job).1
    ≡ some (finished_job (a_scan "web"))
unfolding find scan_job scan_job_name table
reconcile_keeps_jobs_example =
    reconcile_keeps_jobs memory (table-CreateLaws Job.meta job_place (λ l s. refl)) trivy_policy
      one_job (scan_key trivy_policy (a_scan "web")) (finished_job (a_scan "web")) refl

abbrev web : String
web = "web"

scan_job_name_iff_example :
    ((scan_job_name "images" web ≡ scan_job_name "images" "db") ↔ (web ≡ "db"))
    × (TrivyReport.scan_job_name "images" "web" ≡ scan_job_name "images" "web")
scan_job_name_iff_example = scan_job_name_iff "images" "web" "db"

scan_job_name_collides_example :
    scan_job_name ("images" <> ("-" <> "web")) "db"
    ≡ scan_job_name "images" ("web" <> ("-" <> "db"))
scan_job_name_collides_example = scan_job_name_collides "images" "web" "db"

trivy_validate_iff_example :
    (Trivy.validate trivy_policy ≡ ok tt) ↔ TrivyValidate.IsValid trivy_policy
trivy_validate_iff_example = TrivyValidate.trivy_validate_iff trivy_policy

falco_validate_iff_example :
    (Falco.validate falco_policy ≡ ok tt) ↔ FalcoValidate.IsValid falco_policy
falco_validate_iff_example = FalcoValidate.falco_validate_iff falco_policy

litmus_validate_iff_example :
    (Litmus.validate litmus_policy ≡ ok tt) ↔ LitmusValidate.IsValid litmus_policy
litmus_validate_iff_example = LitmusValidate.litmus_validate_iff litmus_policy

abbrev two_reports : List PolicyReport
two_reports = report_of "litmus" "chaos" ∷ report_of "falco" "shells" ∷ []

abbrev reported : World
reported = record empty_world { reports = two_reports }

delete_reports_gone_example :
    All
      (λ r.
        (r.spec.policy_ref.name ≢ "chaos")
        ⊎ IsGone PolicyReport.meta memory.reports
            (key_of r.meta)
            (Litmus.delete_reports memory litmus_policy two_reports reported).1)
      two_reports
unfolding Litmus.delete_reports ◌>>◌ ignore_not_found table find remove
delete_reports_gone_example =
    delete_reports_gone memory (table-DeleteLaws PolicyReport.meta report_place (λ l s. refl))
      litmus_policy two_reports reported refl

abbrev two_engines : List ChaosEngine
two_engines = an_engine "first" ∷ an_engine "second" ∷ []

abbrev second_report : PolicyReport
second_report = record (report_of "falco" "shells") { meta = named "second" "default" }

abbrev one_report : World
one_report = record empty_world { reports = second_report ∷ [] }

-- The cache of the reports still lists one that is gone, before one that is stored.
abbrev lagging : Cluster
lagging = record memory {
  reports = record (memory.reports) {
    list = λ _ _. ok (report_of "falco" "shells" ∷ second_report ∷ []);
  };
}

cleanup_stops_example : (Falco.cleanup lagging falco_policy one_report) ≡ (returned tt, one_report)
unfolding find table remove Falco.delete_config_map ◌>>◌ Falco.config_map_name
cleanup_stops_example =
    cleanup_stops lagging falco_policy (report_of "falco" "shells") (second_report ∷ []) one_report
      missing refl refl refl refl refl
