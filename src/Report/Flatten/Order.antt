-- ===== src/Report/Flatten/Order.antt =====
-- internal/report/trivy_json.go: what `flattenVulnerabilities` lists, and in which order.
use eirenyx.Base.{◌≡◌, refl, some, List, [], ◌∷◌, ◌++◌, map}
use eirenyx.Api.Trivy.{TrivyCliReport, TrivyCliResult, TrivyCliVulnerability, UiVulnerability}
use eirenyx.Report.Flatten.{
  ui_vulnerability, flatten_vulns, flatten_results, flatten_vulnerabilities,
}

-- The vulnerabilities of all results, one result after the other.
abbrev pub findings : List TrivyCliResult → List TrivyCliVulnerability
findings [] = []
findings (r ∷ rs) = r.vulnerabilities ++ findings rs

pub append_assoc : {A : Type 0} (xs ys zs : List A) → (xs ++ ys) ++ zs ≡ xs ++ (ys ++ zs)
append_assoc [] ys zs = refl
append_assoc (x ∷ xs) ys zs = cc (append_assoc xs ys zs)

pub append_nil : {A : Type 0} (xs : List A) → xs ++ [] ≡ xs
append_nil [] = refl
append_nil (x ∷ xs) = cc (append_nil xs)

map-append :
    (xs ys : List TrivyCliVulnerability)
    → map ui_vulnerability (xs ++ ys) ≡ map ui_vulnerability xs ++ map ui_vulnerability ys
map-append [] ys = refl
map-append (x ∷ xs) ys = cc (map-append xs ys)

flatten_vulns_lem :
    (out : List UiVulnerability) (vs : List TrivyCliVulnerability)
    → flatten_vulns out vs ≡ out ++ map ui_vulnerability vs
unfolding flatten_vulns
flatten_vulns_lem out [] = cc (append_nil out)
flatten_vulns_lem out (v ∷ vs) = cc (
  flatten_vulns_lem (out ++ (ui_vulnerability v ∷ [])) vs,
  append_assoc out (ui_vulnerability v ∷ []) (map ui_vulnerability vs),
)

flatten_results_lem :
    (out : List UiVulnerability) (rs : List TrivyCliResult)
    → flatten_results out rs ≡ out ++ map ui_vulnerability (findings rs)
unfolding flatten_results
flatten_results_lem out [] = cc (append_nil out)
flatten_results_lem out (r ∷ rs) = cc (
  flatten_results_lem (flatten_vulns out r.vulnerabilities) rs,
  flatten_vulns_lem out r.vulnerabilities,
  map-append r.vulnerabilities (findings rs),
  append_assoc out (map ui_vulnerability r.vulnerabilities) (map ui_vulnerability (findings rs)),
)

-- Flattening a report gives one entry for every vulnerability of every result and no other, in the
-- order of the results and, within one, of its vulnerabilities.
pub flatten_vulnerabilities_lem :
    (report : TrivyCliReport)
    → flatten_vulnerabilities (some report) ≡ map ui_vulnerability (findings report.results)
unfolding flatten_vulnerabilities
flatten_vulnerabilities_lem report = flatten_results_lem [] report.results
