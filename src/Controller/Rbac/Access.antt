-- ===== src/Controller/Rbac/Access.antt =====
-- The API server with its authorizer: a call that needs a permission which the rules do not give is
-- refused. A read through the manager's cache also needs its kind to be listed and watched.
use eirenyx.Base.{String, Bool, true, ◌&&◌, ◌≡◌, List, if◌then◌else◌}
use eirenyx.Effect.{Error, Reason, err}
use eirenyx.Cluster.{Cluster, Resource}
use eirenyx.Controller.Rbac.{Rule, Request, covered}
use eirenyx.Controller.Rbac.Charts.{all_pass, requests_of, helm_kinds}
use eirenyx.Helm.{HelmSdk}

-- Kubernetes' RBAC authorizer.
pub record Authorizer : Type 0 where
  pub allows : List Rule → Request → Bool

-- It allows what some rule covers, as its documentation says.
pub record AuthorizerLaws (A : Authorizer) : Type 0 where
  pub allows_covered :
      (rules : List Rule) (q : Request) → covered rules q ≡ true → A.allows rules q ≡ true

-- What may be done with one kind of object.
pub record Grants : Type 0 where
  pub can_read : Bool
  pub can_create : Bool
  pub can_update : Bool
  pub can_patch : Bool
  pub can_delete : Bool

-- What may be done with the kinds that the program uses.
pub record Access : Type 0 where
  pub policies : Grants
  pub tools : Grants
  pub reports : Grants
  pub config_maps : Grants
  pub jobs : Grants
  pub chaos_engines : Grants
  pub namespaces : Grants
  pub pods : Grants
  pub policies_status : Bool
  pub tools_status : Bool
  pub reports_status : Bool
  pub deployments : Bool
  pub daemon_sets : Bool
  pub logs : Bool
  pub helm : Bool

abbrev pub forbidden : Error
forbidden = record { reason = Reason.other; message = "forbidden" }

abbrev pub guarded_by : {S A : Type 0} → Grants → Resource S A → Resource S A
guarded_by g r = record r {
  get = λ x s. if g.can_read then r.get x s else err forbidden;
  list = λ o s. if g.can_read then r.list o s else err forbidden;
  create = λ a s. if g.can_create then r.create a s else (err forbidden, s);
  update = λ a s. if g.can_update then r.update a s else (err forbidden, s);
  patch = λ a b s. if g.can_patch then r.patch a b s else (err forbidden, s);
  delete = λ a s. if g.can_delete then r.delete a s else (err forbidden, s);
  create_or_update = λ a f s.
      if g.can_read && (g.can_create && g.can_update)
      then r.create_or_update a f s
      else (err forbidden, s);
}

abbrev pub with_status : {S A : Type 0} → Bool → Resource S A → Resource S A
with_status b r = record r {
  update_status = λ a s. if b then r.update_status a s else (err forbidden, s);
}

-- Helm where its calls of the API server may be refused: those that read or write a release.
abbrev pub guarded_helm : {S : Type 0} → Bool → HelmSdk S → HelmSdk S
guarded_helm b H = record H {
  get_release = λ ns name s. if b then H.get_release ns name s else err forbidden;
  install = λ ns name c v s. if b then H.install ns name c v s else (err forbidden, s);
  upgrade = λ ns name c v s. if b then H.upgrade ns name c v s else (err forbidden, s);
  uninstall = λ ns name s. if b then H.uninstall ns name s else (err forbidden, s);
}

-- The cluster as a client with this access sees it. The program writes no status of a foreign kind.
abbrev pub guarded : Access → Cluster → Cluster
guarded a C = record C {
  policies = with_status a.policies_status (guarded_by a.policies C.policies);
  tools = with_status a.tools_status (guarded_by a.tools C.tools);
  reports = with_status a.reports_status (guarded_by a.reports C.reports);
  config_maps = guarded_by a.config_maps C.config_maps;
  jobs = guarded_by a.jobs C.jobs;
  chaos_engines = guarded_by a.chaos_engines C.chaos_engines;
  namespaces = guarded_by a.namespaces C.namespaces;
  pods = guarded_by a.pods C.pods;
  deployment = λ x s. if a.deployments then C.deployment x s else err forbidden;
  daemon_set = λ x s. if a.daemon_sets then C.daemon_set x s else err forbidden;
  helm = guarded_helm a.helm C.helm;
  open_logs =
      λ ns name container s. if a.logs then C.open_logs ns name container s else err forbidden;
}

module _ (A : Authorizer) (rules : List Rule) where
  abbrev pub may : String → String → String → Bool
  may group resource verb =
      A.allows rules (record { group = group; resource = resource; verb = verb })

  abbrev pub kind_grants : String → String → Grants
  kind_grants group resource = record {
    can_read =
        may group resource "get" && (may group resource "list" && may group resource "watch");
    can_create = may group resource "create";
    can_update = may group resource "update";
    can_patch = may group resource "patch";
    can_delete = may group resource "delete";
  }

  -- What the rules give.
  abbrev pub access : Access
  access = record {
    policies = kind_grants "eirenyx.eirenyx" "policies";
    tools = kind_grants "eirenyx.eirenyx" "tools";
    reports = kind_grants "eirenyx.eirenyx" "policyreports";
    config_maps = kind_grants "" "configmaps";
    jobs = kind_grants "batch" "jobs";
    chaos_engines = kind_grants "litmuschaos.io" "chaosengines";
    namespaces = kind_grants "" "namespaces";
    pods = kind_grants "" "pods";
    policies_status = may "eirenyx.eirenyx" "policies/status" "update";
    tools_status = may "eirenyx.eirenyx" "tools/status" "update";
    reports_status = may "eirenyx.eirenyx" "policyreports/status" "update";
    deployments = may "apps" "deployments" "get";
    daemon_sets = may "apps" "daemonsets" "get";
    logs = may "" "pods/log" "get";
    helm = all_pass (A.allows rules) (requests_of helm_kinds);
  }
