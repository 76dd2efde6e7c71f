-- ===== src/Controller/Rbac/Charts.antt =====
-- internal/controller/rbac.go: what Helm needs of the API server, by the comments of the markers. It keeps
-- its releases in secrets (the driver that manager.go sets), and the charts create objects of the kinds
-- that are listed as used or created by Helm and its charts.
use eirenyx.Base.{if◌then◌else◌, String, Bool, true, false, ◌≡◌, refl, List, [], ◌∷◌, ◌++◌, arith}
use eirenyx.Controller.Rbac.{Request}

-- Every verb on one kind of object.
unfoldable pub requests_on : String → String → List String → List Request
requests_on group resource [] = []
requests_on group resource (verb ∷ verbs) =
    record { group = group; resource = resource; verb = verb } ∷ requests_on group resource verbs

unfoldable pub requests_of : List (String × String) → List Request
unfolding requests_on
requests_of [] = []
requests_of ((group, resource) ∷ kinds) =
    requests_on group resource
      ("get" ∷ "list" ∷ "watch" ∷ "create" ∷ "update" ∷ "patch" ∷ "delete" ∷ [])
    ++ requests_of kinds

abbrev pub helm_kinds : List (String × String)
helm_kinds =
    ("", "secrets")
    ∷ ("", "serviceaccounts")
    ∷ ("", "configmaps")
    ∷ ("", "services")
    ∷ ("", "pods")
    ∷ ("apps", "deployments")
    ∷ ("apps", "daemonsets")
    ∷ ("apps", "statefulsets")
    ∷ ("apps", "replicasets")
    ∷ ("rbac.authorization.k8s.io", "roles")
    ∷ ("rbac.authorization.k8s.io", "rolebindings")
    ∷ ("rbac.authorization.k8s.io", "clusterroles")
    ∷ ("rbac.authorization.k8s.io", "clusterrolebindings")
    ∷ ("apiextensions.k8s.io", "customresourcedefinitions")
    ∷ []

-- All of the requests pass the test.
unfoldable pub all_pass : (Request → Bool) → List Request → Bool
all_pass test [] = true
all_pass test (q ∷ qs) = let rest = all_pass test qs in if test q then rest else false

pub all_pass-weaken :
    (test weaker : Request → Bool) (qs : List Request)
    → ((q : Request) → test q ≡ true → weaker q ≡ true)
    → all_pass test qs ≡ true
    → all_pass weaker qs ≡ true
unfolding all_pass
all_pass-weaken test weaker [] k h = refl
all_pass-weaken test weaker (q ∷ qs) k h = ground (arith, k q, all_pass-weaken test weaker qs k)
