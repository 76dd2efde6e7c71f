-- ===== src/Api/Trivy.antt =====
-- The data that the report handlers read and write as JSON: internal/report/trivy_json.go, and the
-- pod details of internal/report/pod_details.go. An absent text is the empty text.
use eirenyx.Base.{ℕ, String, Option, List}

pub record TrivyCliOs : Type 0 where
  pub family : String
  pub name : String

pub record TrivyCliMetadata : Type 0 where
  pub os : Option TrivyCliOs

pub record TrivyCliVulnerability : Type 0 where
  pub vulnerability_id : String
  pub pkg_name : String
  pub pkg_path : String
  pub installed_version : String
  pub fixed_version : String
  pub severity : String
  pub title : String
  pub description : String
  pub primary_url : String
  pub references : List String

pub record TrivyCliResult : Type 0 where
  pub target : String
  pub class : String
  pub type : String
  pub vulnerabilities : List TrivyCliVulnerability

pub record TrivyCliReport : Type 0 where
  pub artifact_name : String
  pub artifact_type : String
  pub results : List TrivyCliResult
  pub metadata : Option TrivyCliMetadata

pub record UiVulnerability : Type 0 where
  pub vulnerability_id : String
  pub resource : String
  pub installed_version : String
  pub fixed_version : String
  pub severity : String
  pub title : String
  pub description : String
  pub primary_link : String

pub record TrivyDetails : Type 0 where
  pub image : String
  pub vulnerabilities : List UiVulnerability
  pub report_count : ℕ

pub record PodDetails : Type 0 where
  pub pod_name : String
  pub namespace : String
  pub containers : List String
