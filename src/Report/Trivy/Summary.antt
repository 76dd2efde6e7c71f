-- ===== src/Report/Trivy/Summary.antt =====
-- internal/report/trivy.go: the summary of a finished scan.
use eirenyx.Base.{◌<◌, ◌^◌, ◌≡◌, ◌↔◌, ◌≢◌, List, [], ◌∷◌, length, arith}
use eirenyx.Base.Int.{pos, int32_of_small}
use eirenyx.Api.Report.{Verdict}
use eirenyx.Api.Trivy.{UiVulnerability}
use eirenyx.Report.Trivy.{summary_of}

-- With fewer than 2^31 findings the counts are exact: every finding is a failed check, none is a
-- passed one, and the verdict is Pass exactly if there is no finding, and Fail exactly if there is.
pub summary_of_findings :
    (vulns : List UiVulnerability)
    → length vulns < 2 ^ 31
    → ((summary_of vulns).total_checks ≡ pos (length vulns))
      × ((summary_of vulns).failed ≡ pos (length vulns))
      × ((summary_of vulns).passed ≡ pos 0)
      × (((summary_of vulns).verdict ≡ Verdict.pass) ↔ (vulns ≡ []))
      × (((summary_of vulns).verdict ≡ Verdict.fail) ↔ (vulns ≢ []))
unfolding summary_of
summary_of_findings [] h = ground (arith, int32_of_small 0)
summary_of_findings (v ∷ vulns) h = ground (arith, int32_of_small (length (v ∷ vulns)))
