-- ===== src/Api/Tool.antt =====
-- api/v1alpha1/tool_types.go
use eirenyx.Base.{String, Bool, List}
use eirenyx.Api.Meta.{ObjectMeta, Condition}

abbrev pub tool_trivy : String
tool_trivy = "trivy"

abbrev pub tool_falco : String
tool_falco = "falco"

abbrev pub tool_litmus : String
tool_litmus = "litmus"

-- `values` holds the raw bytes of the JSON; nil is the empty text.
pub record ToolSpec : Type 0 where
  pub type : String
  pub enabled : Bool
  pub namespace : String
  pub values : String

pub record ToolStatus : Type 0 where
  pub installed : Bool
  pub healthy : Bool
  pub version : String
  pub conditions : List Condition

pub record Tool : Type 0 where
  pub meta : ObjectMeta
  pub open meta use {name}
  pub spec : ToolSpec
  pub status : ToolStatus

abbrev pub tool_finalizer : String
tool_finalizer = "eirenyx.tool/finalizer"
