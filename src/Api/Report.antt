-- ===== src/Api/Report.antt =====
-- api/v1alpha1/policyreport_types.go
use eirenyx.Base.{String}
use eirenyx.Base.Int.{ℤ, pos}
use eirenyx.Api.Meta.{ObjectMeta}

-- `unset` is the empty string, which a report has before its first status update.
pub data ReportPhase : Type 0 where
  unset pending running completed failed : ReportPhase

pub data Verdict : Type 0 where
  unset pass fail unknown : Verdict

pub record ReportSummary : Type 0 where
  pub verdict : Verdict
  pub total_checks : ℤ
  pub passed : ℤ
  pub failed : ℤ

pub record PolicyReference : Type 0 where
  pub name : String
  pub generation : ℤ

pub record PolicyReportSpec : Type 0 where
  pub policy_ref : PolicyReference
  pub type : String

-- The details are the raw bytes of a `runtime.RawExtension`; nil is the empty text.
pub record PolicyReportStatus : Type 0 where
  pub phase : ReportPhase
  pub summary : ReportSummary
  pub details : String

pub record PolicyReport : Type 0 where
  pub meta : ObjectMeta
  pub open meta use {name, namespace}
  pub spec : PolicyReportSpec
  pub status : PolicyReportStatus

-- `ReportSummary{}`
abbrev pub empty_summary : ReportSummary
empty_summary = record {
  verdict = Verdict.unset;
  total_checks = pos 0;
  passed = pos 0;
  failed = pos 0;
}
