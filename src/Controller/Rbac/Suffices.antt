-- ===== src/Controller/Rbac/Suffices.antt =====
-- internal/controller/rbac.go: its markers suffice for the controllers.
use eirenyx.Base.{String, true, ◌≡◌, refl, ap, arith}
use eirenyx.Api.Meta.{Key}
use eirenyx.Cluster.{Cluster}
use eirenyx.Controller.Policies
use eirenyx.Controller.Reports
use eirenyx.Controller.Tools
use eirenyx.Controller.Rbac.{covered, markers}
use eirenyx.Controller.Rbac.Charts.{all_pass, all_pass-weaken, requests_of, helm_kinds}
use eirenyx.Controller.Rbac.Access.{
  Authorizer, AuthorizerLaws, Access, Grants, guarded, access, kind_grants, may,
}

abbrev everything : Grants
everything = record {
  can_read = true;
  can_create = true;
  can_update = true;
  can_patch = true;
  can_delete = true;
}

abbrev full : Access
full = record {
  policies = everything;
  tools = everything;
  reports = everything;
  config_maps = everything;
  jobs = everything;
  chaos_engines = everything;
  namespaces = everything;
  pods = everything;
  policies_status = true;
  tools_status = true;
  reports_status = true;
  deployments = true;
  daemon_sets = true;
  logs = true;
  helm = true;
}

module _ (A : Authorizer) (laws : AuthorizerLaws A) where
  -- The request for a call is covered by some marker.
  abbrev Asked : String → String → String → Type 0
  Asked group resource verb =
      covered markers (record { group = group; resource = resource; verb = verb }) ≡ true

  may-markers :
      (group resource verb : String)
      → Asked group resource verb
      → may A markers group resource verb ≡ true
  may-markers group resource verb h = laws.allows_covered markers _ h

  kind_full :
      (group resource : String)
      → Asked group resource "get"
      → Asked group resource "list"
      → Asked group resource "watch"
      → Asked group resource "create"
      → Asked group resource "update"
      → Asked group resource "patch"
      → Asked group resource "delete"
      → kind_grants A markers group resource ≡ everything
  kind_full group resource get list watch create update patch delete = ground (
    arith,
    may-markers group resource "get" get,
    may-markers group resource "list" list,
    may-markers group resource "watch" watch,
    may-markers group resource "create" create,
    may-markers group resource "update" update,
    may-markers group resource "patch" patch,
    may-markers group resource "delete" delete,
  )

  -- The markers cover every request of Helm, so the authorizer allows it.
  helm-allowed : all_pass (A.allows markers) (requests_of helm_kinds) ≡ true
  unfolding covered markers all_pass requests_of
  helm-allowed =
      all_pass-weaken (covered markers) (A.allows markers) (requests_of helm_kinds)
        (λ q h. laws.allows_covered markers q h) refl

  access-full : access A markers ≡ full
  unfolding covered markers
  access-full = λ i. record {
    policies = kind_full "eirenyx.eirenyx" "policies" refl refl refl refl refl refl refl i;
    tools = kind_full "eirenyx.eirenyx" "tools" refl refl refl refl refl refl refl i;
    reports = kind_full "eirenyx.eirenyx" "policyreports" refl refl refl refl refl refl refl i;
    config_maps = kind_full "" "configmaps" refl refl refl refl refl refl refl i;
    jobs = kind_full "batch" "jobs" refl refl refl refl refl refl refl i;
    chaos_engines = kind_full "litmuschaos.io" "chaosengines" refl refl refl refl refl refl refl i;
    namespaces = kind_full "" "namespaces" refl refl refl refl refl refl refl i;
    pods = kind_full "" "pods" refl refl refl refl refl refl refl i;
    policies_status = may-markers "eirenyx.eirenyx" "policies/status" "update" refl i;
    tools_status = may-markers "eirenyx.eirenyx" "tools/status" "update" refl i;
    reports_status = may-markers "eirenyx.eirenyx" "policyreports/status" "update" refl i;
    deployments = may-markers "apps" "deployments" "get" refl i;
    daemon_sets = may-markers "apps" "daemonsets" "get" refl i;
    logs = may-markers "" "pods/log" "get" refl i;
    helm = helm-allowed i;
  }

  -- With an authorizer that allows what a rule covers, and with the rules that the markers ask for, no
  -- call of the three controllers is refused: on the cluster where the calls through the clients of the
  -- API server are guarded, and where Helm reads and writes releases only if every verb is allowed on
  -- secrets and on the kinds that rbac.go names as those of Helm and its charts, each of the controllers
  -- does what it does where nothing is checked.
  pub markers_suffice :
      (C : Cluster) (key : Key) (s : C.State)
      → (Policies.reconcile (guarded (access A markers) C) key s ≡ Policies.reconcile C key s)
        × (Reports.reconcile (guarded (access A markers) C) key s ≡ Reports.reconcile C key s)
        × (Tools.reconcile (guarded (access A markers) C) key s ≡ Tools.reconcile C key s)
  markers_suffice C key s = (
    ap (λ a. Policies.reconcile (guarded a C) key s) access-full,
    ap (λ a. Reports.reconcile (guarded a C) key s) access-full,
    ap (λ a. Tools.reconcile (guarded a C) key s) access-full,
  )
