-- ===== src/Api/Policy.antt =====
-- api/v1alpha1/policy_*.go. A nil pointer is `none`; a map is a list of its entries in the order in
-- which a range over it goes, which Go leaves open.
use eirenyx.Base.{String, Bool, Option, List}
use eirenyx.Base.Int.{ℤ}
use eirenyx.Api.Meta.{ObjectMeta, Condition}

abbrev pub policy_type_falco : String
policy_type_falco = "falco"

abbrev pub policy_type_trivy : String
policy_type_trivy = "trivy"

abbrev pub policy_type_litmus : String
policy_type_litmus = "litmus"

pub record PolicyTarget : Type 0 where
  pub namespace_selector : List String
  pub node_selector : List String

pub record FalcoRuleRef : Type 0 where
  pub name : String

pub record FalcoRuleSelector : Type 0 where
  pub tags : List String
  pub priorities : List String

pub record FalcoObserveSpec : Type 0 where
  pub rule_ref : Option FalcoRuleRef
  pub rule_selector : Option FalcoRuleSelector

pub record FalcoReportSpec : Type 0 where
  pub create : Bool
  pub severity : String
  pub aggregation_window : String

pub record FalcoPolicySpec : Type 0 where
  pub observe : FalcoObserveSpec
  pub report : Option FalcoReportSpec

pub record TrivyScan : Type 0 where
  pub name : String
  pub image : String
  pub severity : String
  pub ignore_unfixed : Bool
  pub vulnerability_types : List String
  pub exit_code : Option ℤ

pub record TrivyPolicySpec : Type 0 where
  pub scans : List TrivyScan

pub record LitmusAppInfo : Type 0 where
  pub app_namespace : String
  pub app_label : String
  pub app_kind : String

pub record LitmusExpectedResult : Type 0 where
  pub verdict : String
  pub fail_on_chaos_error : Option Bool

pub record LitmusExperiment : Type 0 where
  pub name : String
  pub experiment_ref : String
  pub engine_ref : String
  pub target_namespace : String
  pub app_info : LitmusAppInfo
  pub mode : String
  pub duration : String
  pub parameters : List (String × String)
  pub expected_result : LitmusExpectedResult

pub record LitmusPolicySpec : Type 0 where
  pub experiments : List LitmusExperiment

pub record PolicySpec : Type 0 where
  pub type : String
  pub enabled : Bool
  pub target : PolicyTarget
  pub falco : Option FalcoPolicySpec
  pub trivy : Option TrivyPolicySpec
  pub litmus : Option LitmusPolicySpec

pub record PolicyStatus : Type 0 where
  pub phase : String
  pub conditions : List Condition
  pub last_report : String
  pub observed_gen : ℤ

pub record Policy : Type 0 where
  pub meta : ObjectMeta
  pub open meta use {name, namespace, generation}
  pub spec : PolicySpec
  pub status : PolicyStatus

abbrev pub policy_finalizer : String
policy_finalizer = "eirenyx.policy/finalizer"
