-- ===== src/Controller/Rbac.antt =====
-- internal/controller/rbac.go: the permissions that its markers ask for, and config/rbac/role.yaml,
-- the role that is deployed.
pub mod Access
pub mod Charts
pub mod Role
pub mod Suffices
use eirenyx.Base.{String, Bool, false, ◌&&◌, ◌||◌, List, [], ◌∷◌, ◌++◌, contains}

pub record Rule : Type 0 where
  pub groups : List String
  pub resources : List String
  pub verbs : List String

-- A call of the API server, as its authorizer sees it.
pub record Request : Type 0 where
  pub group : String
  pub resource : String
  pub verb : String

-- The value is named, or all are.
unfoldable pub names : List String → String → Bool
unfolding contains
names l x = contains l x || contains l "*"

unfoldable pub covers : Rule → Request → Bool
unfolding names
covers r q = names r.groups q.group && (names r.resources q.resource && names r.verbs q.verb)

unfoldable pub covered : List Rule → Request → Bool
unfolding covers
covered [] q = false
covered (r ∷ rules) q = covers r q || covered rules q

-- One marker.
abbrev marker : String → String → List String → Rule
marker group resource verbs = record {
  groups = group ∷ [];
  resources = resource ∷ [];
  verbs = verbs;
}

abbrev all_verbs : List String
all_verbs = "*" ∷ []

abbrev object_verbs : List String
object_verbs = "get" ∷ "list" ∷ "watch" ∷ "create" ∷ "update" ∷ "patch" ∷ "delete" ∷ []

abbrev status_verbs : List String
status_verbs = "get" ∷ "update" ∷ "patch" ∷ []

abbrev own_group : String
own_group = "eirenyx.eirenyx"

unfoldable pub tool_rules : List Rule
tool_rules =
    marker own_group "tools" object_verbs
    ∷ marker own_group "tools/status" status_verbs
    ∷ marker own_group "tools/finalizers" ("update" ∷ [])
    ∷ []

unfoldable pub policy_rules : List Rule
policy_rules =
    marker own_group "policies" object_verbs
    ∷ marker own_group "policies/status" status_verbs
    ∷ marker own_group "policies/finalizers" ("update" ∷ [])
    ∷ []

unfoldable pub report_rules : List Rule
report_rules =
    marker own_group "policyreports" object_verbs
    ∷ marker own_group "policyreports/status" status_verbs
    ∷ marker own_group "policyreports/finalizers" ("update" ∷ [])
    ∷ []

unfoldable pub namespace_rules : List Rule
namespace_rules = marker "" "namespaces" all_verbs ∷ []

unfoldable pub core_rules : List Rule
core_rules =
    marker "" "serviceaccounts" all_verbs
    ∷ marker "" "configmaps" all_verbs
    ∷ marker "" "secrets" all_verbs
    ∷ marker "" "services" all_verbs
    ∷ marker "" "pods" all_verbs
    ∷ marker "" "pods/log" ("get" ∷ "list" ∷ "watch" ∷ [])
    ∷ []

unfoldable pub apps_rules : List Rule
apps_rules =
    marker "apps" "deployments" all_verbs
    ∷ marker "apps" "daemonsets" all_verbs
    ∷ marker "apps" "statefulsets" all_verbs
    ∷ marker "apps" "replicasets" all_verbs
    ∷ []

unfoldable pub batch_rules : List Rule
batch_rules = marker "batch" "jobs" object_verbs ∷ marker "batch" "jobs/status" ("get" ∷ []) ∷ []

abbrev rbac_group : String
rbac_group = "rbac.authorization.k8s.io"

unfoldable pub rbac_rules : List Rule
rbac_rules =
    marker rbac_group "roles" all_verbs
    ∷ marker rbac_group "rolebindings" all_verbs
    ∷ marker rbac_group "clusterroles" all_verbs
    ∷ marker rbac_group "clusterrolebindings" all_verbs
    ∷ []

unfoldable pub crd_rules : List Rule
crd_rules = marker "apiextensions.k8s.io" "*" all_verbs ∷ marker "litmuschaos.io" "*" all_verbs ∷ []

unfoldable pub trivy_operator_rules : List Rule
trivy_operator_rules = marker "aquasecurity.github.io" "*" all_verbs ∷ []

unfoldable pub event_rules : List Rule
event_rules = marker "" "events" ("create" ∷ "patch" ∷ []) ∷ []

-- All markers of the file.
unfoldable pub markers : List Rule
unfolding tool_rules policy_rules report_rules namespace_rules core_rules apps_rules batch_rules
    rbac_rules crd_rules trivy_operator_rules event_rules
markers =
    tool_rules
    ++ (policy_rules
        ++ (report_rules
            ++ (namespace_rules
                ++ (core_rules
                    ++ (apps_rules
                        ++ (batch_rules
                            ++ (rbac_rules
                                ++ (crd_rules ++ (trivy_operator_rules ++ event_rules)))))))))
