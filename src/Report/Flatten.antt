-- ===== src/Report/Flatten.antt =====
-- `flattenVulnerabilities` of internal/report/trivy_json.go
pub mod Order
use eirenyx.Base.{Option, none, some, List, [], ◌∷◌, ◌++◌, if◌then◌else◌}
use eirenyx.Base.Text.{is_blank}
use eirenyx.Api.Trivy.{TrivyCliReport, TrivyCliResult, TrivyCliVulnerability, UiVulnerability}

-- The shape that the UI reads; the resource is the package's name, or else its path.
unfoldable pub ui_vulnerability : TrivyCliVulnerability → UiVulnerability
ui_vulnerability v = record {
  vulnerability_id = v.vulnerability_id;
  resource = if is_blank v.pkg_name then v.pkg_path else v.pkg_name;
  installed_version = v.installed_version;
  fixed_version = v.fixed_version;
  severity = v.severity;
  title = v.title;
  description = v.description;
  primary_link = v.primary_url;
}

-- The inner loop, on the output so far.
unfoldable pub flatten_vulns :
    List UiVulnerability → List TrivyCliVulnerability → List UiVulnerability
flatten_vulns out [] = out
flatten_vulns out (v ∷ vs) = flatten_vulns (out ++ (ui_vulnerability v ∷ [])) vs

-- The outer loop.
unfoldable pub flatten_results : List UiVulnerability → List TrivyCliResult → List UiVulnerability
flatten_results out [] = out
flatten_results out (r ∷ rs) = flatten_results (flatten_vulns out r.vulnerabilities) rs

unfoldable pub flatten_vulnerabilities : Option TrivyCliReport → List UiVulnerability
flatten_vulnerabilities none = []
flatten_vulnerabilities (some report) = flatten_results [] report.results
