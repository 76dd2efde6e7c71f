-- ===== src/Policy/Litmus/Targets.antt =====
-- internal/policy/litmus/engine.go, Cleanup: the namespaces that it goes through.
use mathlib.Core.Path.{subst}
use eirenyx.Base.{
  ◌≡◌, ◌⊎◌, ◌==◌, Bool-cases, inl, inr, true, false, List, [], ◌∷◌, ◌++◌, Any, arith, eq_iff,
  contains, String, ◌||◌, if◌then◌else◌,
}
use eirenyx.Base.Text.{is_blank}
use eirenyx.Api.Policy.{Policy, LitmusExperiment}
use eirenyx.Policy.Litmus.{add_namespaces}

-- The policy's own namespace, or one that an experiment targets.
abbrev pub IsTarget : Policy → List LitmusExperiment → String → Type 0
IsTarget p exps ns =
    (p.namespace ≡ ns)
    ⊎ Any (λ e. (is_blank e.target_namespace ≡ false) × (e.target_namespace ≡ ns)) exps

Any-append_left : {A : Type 0} (P : A → Type 0) (xs ys : List A) → Any P xs → Any P (xs ++ ys)
Any-append_left P [] ys h = absurd h
Any-append_left P (x ∷ xs) ys (inl h) = inl h
Any-append_left P (x ∷ xs) ys (inr h) = inr (Any-append_left P xs ys h)

Any-append_last : {A : Type 0} (P : A → Type 0) (xs : List A) (y : A) → P y → Any P (xs ++ (y ∷ []))
Any-append_last P [] y h = inl h
Any-append_last P (x ∷ xs) y h = inr (Any-append_last P xs y h)

contains-Any : (l : List String) (s : String) → contains l s ≡ true → Any (λ t. t ≡ s) l
unfolding contains
contains-Any [] s h = cc
contains-Any (t ∷ l) s h = elim (Bool-cases (t == s)) [
  | inl e ↦ inl ((eq_iff t s).0 e)
  | inr e ↦ inr (contains-Any l s (ground arith))
]

pub add_namespaces-seen :
    (seen : List String) (exps : List LitmusExperiment) (ns : String)
    → Any (λ t. t ≡ ns) seen
    → Any (λ t. t ≡ ns) (add_namespaces seen exps)
unfolding add_namespaces
add_namespaces-seen seen [] ns h = h
add_namespaces-seen seen (exp ∷ exps) ns h =
    elim (Bool-cases (is_blank exp.target_namespace || contains seen exp.target_namespace)) [
      | inl e ↦ rw e (add_namespaces-seen seen exps ns h)
      | inr e ↦ rw e (
          add_namespaces-seen (seen ++ (exp.target_namespace ∷ [])) exps ns
            (Any-append_left (λ t. t ≡ ns) seen (exp.target_namespace ∷ []) h))
    ]

pub add_namespaces-target :
    (seen : List String) (exps : List LitmusExperiment) (ns : String)
    → Any (λ e. (is_blank e.target_namespace ≡ false) × (e.target_namespace ≡ ns)) exps
    → Any (λ t. t ≡ ns) (add_namespaces seen exps)
unfolding add_namespaces
add_namespaces-target seen [] ns h = absurd h
add_namespaces-target seen (exp ∷ exps) ns (inr h) =
    let seen' =
      if is_blank exp.target_namespace || contains seen exp.target_namespace
      then seen
      else seen ++ (exp.target_namespace ∷ []) in
    add_namespaces-target seen' exps ns h
add_namespaces-target seen (exp ∷ exps) ns (inl (named, same)) =
    elim (Bool-cases (contains seen exp.target_namespace)) [
      | inl e ↦
          rw (named, e)
            (add_namespaces-seen seen exps ns
              (subst (λ t. Any (λ u. u ≡ t) seen) same (contains-Any seen exp.target_namespace e)))
      | inr e ↦
          rw (named, e)
            (add_namespaces-seen (seen ++ (exp.target_namespace ∷ [])) exps ns
              (Any-append_last (λ t. t ≡ ns) seen exp.target_namespace same))
    ]
