-- ===== src/Controller/Setup.antt =====
-- internal/controller/*.go: `SetupWithManager` of the three reconcilers.
use eirenyx.Base.{String}
use eirenyx.Api.Scheme.{GroupVersionKind, eirenyx_group_version}

-- A controller as it is handed to the manager: its name and the kind that it watches.
pub record Registration : Type 0 where
  pub name : String
  pub watched : GroupVersionKind

abbrev own_kind : String → GroupVersionKind
own_kind kind = record { group_version = eirenyx_group_version; kind = kind }

abbrev pub policy_controller : Registration
policy_controller = record { name = "policy"; watched = own_kind "Policy" }

abbrev pub tool_controller : Registration
tool_controller = record { name = "tool"; watched = own_kind "Tool" }

abbrev pub report_controller : Registration
report_controller = record { name = "policyreport"; watched = own_kind "PolicyReport" }
