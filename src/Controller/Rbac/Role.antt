-- ===== src/Controller/Rbac/Role.antt =====
-- config/rbac/role.yaml grants what the markers of internal/controller/rbac.go ask for.
use eirenyx.Base.{
  String, Bool, true, false, Bool-cases, ◌&&◌, ◌||◌, ◌≡◌, refl, sym, ◌∙◌, inl, inr, List, [], ◌∷◌,
  ◌++◌, map, ◌==◌, eq_iff, arith,
}
use eirenyx.Controller.Rbac.{Rule, Request, names, covered, markers}

unfoldable pub manager_role : List Rule
manager_role =
    record {
      groups = "" ∷ [];
      resources =
          "configmaps" ∷ "namespaces" ∷ "pods" ∷ "secrets" ∷ "serviceaccounts" ∷ "services" ∷ [];
      verbs = "*" ∷ [];
    }
    ∷ record { groups = "" ∷ []; resources = "events" ∷ []; verbs = "create" ∷ "patch" ∷ [] }
    ∷ record {
      groups = "" ∷ [];
      resources = "pods/log" ∷ [];
      verbs = "get" ∷ "list" ∷ "watch" ∷ [];
    }
    ∷ record {
      groups = "apiextensions.k8s.io" ∷ "aquasecurity.github.io" ∷ "litmuschaos.io" ∷ [];
      resources = "*" ∷ [];
      verbs = "*" ∷ [];
    }
    ∷ record {
      groups = "apps" ∷ [];
      resources = "daemonsets" ∷ "deployments" ∷ "replicasets" ∷ "statefulsets" ∷ [];
      verbs = "*" ∷ [];
    }
    ∷ record {
      groups = "batch" ∷ [];
      resources = "jobs" ∷ [];
      verbs = "create" ∷ "delete" ∷ "get" ∷ "list" ∷ "patch" ∷ "update" ∷ "watch" ∷ [];
    }
    ∷ record { groups = "batch" ∷ []; resources = "jobs/status" ∷ []; verbs = "get" ∷ [] }
    ∷ record {
      groups = "eirenyx.eirenyx" ∷ [];
      resources = "policies" ∷ "policyreports" ∷ "tools" ∷ [];
      verbs = "create" ∷ "delete" ∷ "get" ∷ "list" ∷ "patch" ∷ "update" ∷ "watch" ∷ [];
    }
    ∷ record {
      groups = "eirenyx.eirenyx" ∷ [];
      resources = "policies/finalizers" ∷ "policyreports/finalizers" ∷ "tools/finalizers" ∷ [];
      verbs = "update" ∷ [];
    }
    ∷ record {
      groups = "eirenyx.eirenyx" ∷ [];
      resources = "policies/status" ∷ "policyreports/status" ∷ "tools/status" ∷ [];
      verbs = "get" ∷ "patch" ∷ "update" ∷ [];
    }
    ∷ record {
      groups = "rbac.authorization.k8s.io" ∷ [];
      resources = "clusterrolebindings" ∷ "clusterroles" ∷ "rolebindings" ∷ "roles" ∷ [];
      verbs = "*" ∷ [];
    }
    ∷ []

-- A single permission: one group, one resource, one verb, each a name or `*`.
abbrev with_verbs : String → String → List String → List Request
with_verbs group resource verbs =
    map (λ verb. record { group = group; resource = resource; verb = verb }) verbs

with_resources : String → List String → List String → List Request
with_resources group [] verbs = []
with_resources group (r ∷ resources) verbs =
    with_verbs group r verbs ++ with_resources group resources verbs

with_groups : List String → List String → List String → List Request
with_groups [] resources verbs = []
with_groups (g ∷ groups) resources verbs =
    with_resources g resources verbs ++ with_groups groups resources verbs

permissions : List Rule → List Request
permissions [] = []
permissions (r ∷ rules) = with_groups r.groups r.resources r.verbs ++ permissions rules

abbrev fits : String → String → Bool
fits pattern_ value = pattern_ == value || pattern_ == "*"

abbrev grants : Request → Request → Bool
grants p q = fits p.group q.group && (fits p.resource q.resource && fits p.verb q.verb)

granted : List Request → Request → Bool
granted [] q = false
granted (p ∷ l) q = grants p q || granted l q

granted-append :
    (k l : List Request) (q : Request) → granted (k ++ l) q ≡ (granted k q || granted l q)
unfolding granted
granted-append [] l q = refl
granted-append (p ∷ k) l q = ground (arith, granted-append k l q)

names-fits : (y : String) (l : List String) (x : String) → names (y ∷ l) x ≡ (fits y x || names l x)
unfolding names
names-fits y l x = ground arith

granted-verbs :
    (g r : String) (verbs : List String) (q : Request)
    → granted (with_verbs g r verbs) q
      ≡ (fits g q.group && (fits r q.resource && names verbs q.verb))
unfolding granted names
granted-verbs g r [] q = ground arith
granted-verbs g r (v ∷ verbs) q =
    ground (arith, names-fits v verbs q.verb, granted-verbs g r verbs q)

granted-resources :
    (g : String) (resources verbs : List String) (q : Request)
    → granted (with_resources g resources verbs) q
      ≡ (fits g q.group && (names resources q.resource && names verbs q.verb))
unfolding granted with_resources names
granted-resources g [] verbs q = ground arith
granted-resources g (r ∷ resources) verbs q = ground (
  arith,
  granted-append (with_verbs g r verbs) (with_resources g resources verbs) q,
  granted-verbs g r verbs q,
  names-fits r resources q.resource,
  granted-resources g resources verbs q,
)

granted-groups :
    (groups resources verbs : List String) (q : Request)
    → granted (with_groups groups resources verbs) q
      ≡ (names groups q.group && (names resources q.resource && names verbs q.verb))
unfolding granted with_groups names
granted-groups [] resources verbs q = ground arith
granted-groups (g ∷ groups) resources verbs q = ground (
  arith,
  granted-append (with_resources g resources verbs) (with_groups groups resources verbs) q,
  granted-resources g resources verbs q,
  names-fits g groups q.group,
  granted-groups groups resources verbs q,
)

covered-granted :
    (rules : List Rule) (q : Request) → covered rules q ≡ granted (permissions rules) q
unfolding covered permissions granted
covered-granted [] q = refl
covered-granted (r ∷ rules) q = ground (
  arith,
  granted-append (with_groups r.groups r.resources r.verbs) (permissions rules) q,
  granted-groups r.groups r.resources r.verbs q,
  covered-granted rules q,
)

abbrev same : Request → Request → Bool
same p q = p.group == q.group && (p.resource == q.resource && p.verb == q.verb)

has : Request → List Request → Bool
has p [] = false
has p (q ∷ l) = same p q || has p l

within : List Request → List Request → Bool
within [] l = true
within (p ∷ k) l = has p l && within k l

granted-has :
    (p : Request) (l : List Request) (q : Request)
    → has p l ≡ true
    → grants p q ≡ true
    → granted l q ≡ true
unfolding has granted
granted-has p [] q h g = cc
granted-has p (r ∷ l) q h g = elim (Bool-cases (same p r)) [
  | inl e ↦
      let group = (eq_iff p.group r.group).0 (ground arith) in
      let resource = (eq_iff p.resource r.resource).0 (ground arith) in
      let verb = (eq_iff p.verb r.verb).0 (ground arith) in
      let one : grants r q ≡ true = rw (← group, ← resource, ← verb) g in rw one refl
  | inr e ↦ ground (arith, granted-has p l q)
]

granted-within :
    (k l : List Request) (q : Request) → within k l ≡ true → granted k q ≡ true → granted l q ≡ true
unfolding within granted
granted-within [] l q h g = cc
granted-within (p ∷ k) l q h g = elim (Bool-cases (grants p q)) [
  | inl e ↦ granted-has p l q (ground arith) e
  | inr e ↦ granted-within k l q (ground arith) (ground arith)
]

both_or_neither : (a b : Bool) → (a ≡ true → b ≡ true) → (b ≡ true → a ≡ true) → a ≡ b
both_or_neither true b h k = sym (h refl)
both_or_neither false true h k = k refl
both_or_neither false false h k = refl

-- The role that is deployed and the markers cover the same requests: whatever group, resource and
-- verb a call names, the role has a rule for it exactly when a marker asks for it.
pub manager_role-markers : (q : Request) → covered manager_role q ≡ covered markers q
unfolding has within permissions with_groups with_resources manager_role markers
manager_role-markers q =
    let role = covered-granted manager_role q in
    let asked = covered-granted markers q in
    let down = granted-within (permissions manager_role) (permissions markers) q refl in
    let up = granted-within (permissions markers) (permissions manager_role) q refl in
    role ∙ (both_or_neither _ _ down up ∙ sym asked)
