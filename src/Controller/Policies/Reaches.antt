-- ===== src/Controller/Policies/Reaches.antt =====
-- internal/controller/policy_controller.go: the way of a live policy to its engine.
use mathlib.Core.Path.{subst}
use eirenyx.Base.{
  ℕ, zero, suc, ◌≤◌, ◌≡◌, refl, sym, ap, ◌∙◌, inl, inr, true, none, Bool, Bool-cases, String, List,
  arith, if◌then◌else◌,
}
use eirenyx.Effect.{ok, ◌>>◌}
use eirenyx.Api.Meta.{Key, ObjectMeta, OwnerReference, key_of}
use eirenyx.Api.Policy.{Policy, PolicySpec, policy_finalizer}
use eirenyx.Api.Tool.{Tool}
use eirenyx.Cluster.{Cluster}
use eirenyx.Controller.{Engine, new_policy_engine}
use eirenyx.Controller.Policies.{
  reconcile, with_policy, with_tool, with_engine, link, run_engine, disable, has_finalizer,
  with_finalizers, update_policy,
}

-- The key under which the controller reads the tool of a policy.
abbrev tool_key : Policy → Key
tool_key p = record { namespace = p.namespace; name = p.spec.type }

-- The parts of a policy that the controller decides by.
pub record SamePolicy (p q : Policy) : Type 0 where
  pub same_key : key_of p.meta ≡ key_of q.meta
  pub same_spec : p.spec ≡ q.spec
  pub same_finalizers : p.meta.finalizers ≡ q.meta.finalizers
  pub same_owners : p.meta.owner_references ≡ q.meta.owner_references
  pub same_deletion : p.meta.deletion_timestamp ≡ q.meta.deletion_timestamp

-- The server takes an update of a policy that is there and is not deleted, and the next read sees
-- what was written; tools stay.
pub record PolicyServer (C : Cluster) : Type 0 where
  pub update_answers :
      (p old : Policy) (s : C.State)
      → C.policies.get (key_of p.meta) s ≡ ok old
      → p.meta.deletion_timestamp ≡ none
      → (q : Policy) × ((C.policies.update p s).0 ≡ ok q)
        × (C.policies.get (key_of p.meta) (C.policies.update p s).1 ≡ ok q)
        × SamePolicy q p
  pub update_keeps_tools :
      (p : Policy) (s : C.State) (x : Key)
      → C.tools.get x (C.policies.update p s).1 ≡ C.tools.get x s

-- `controllerutil`: an added finalizer is there, and setting the tool as owner of an object in its
-- namespace succeeds, is seen, and touches the owner references alone.
pub record LinkLaws (C : Cluster) (tool : Tool) : Type 0 where
  pub added_finalizer :
      (l : List String) (f : String) → C.lib.contains_finalizer (C.lib.add_finalizer l f) f ≡ true
  pub owner_known :
      (owners : List OwnerReference) → (b : Bool) × (C.lib.has_owner_reference owners tool ≡ ok b)
  pub owner_set :
      (m : ObjectMeta)
      → m.namespace ≡ tool.meta.namespace
      → (m' : ObjectMeta) × (C.lib.set_owner_reference tool m ≡ ok m')
        × (C.lib.has_owner_reference m'.owner_references tool ≡ ok true)
        × (key_of m' ≡ key_of m)
        × (m'.finalizers ≡ m.finalizers)
        × (m'.deletion_timestamp ≡ m.deletion_timestamp)

-- Reconciles of one policy, one after the other.
abbrev pub after : (C : Cluster) → ℕ → Key → C.State → C.State
after C zero key s = s
after C (suc n) key s = after C n key (reconcile C key s).1

module _ (C : Cluster) (server : PolicyServer C) (tool : Tool) (links : LinkLaws C tool) where
  -- The controller reads the policy, its tool, and chooses the engine; the policy is not deleted.
  pub record IsLive (engine : Engine C.State) (key : Key) (p : Policy) (s : C.State) : Type 0 where
    pub at_key : key ≡ key_of p.meta
    pub got : C.policies.get key s ≡ ok p
    pub found : C.tools.get (tool_key p) s ≡ ok tool
    pub chosen : new_policy_engine C p ≡ ok engine
    pub together : p.meta.namespace ≡ tool.meta.namespace
    pub alive : p.meta.deletion_timestamp ≡ none

  module _ (engine : Engine C.State) where
    unfold_live :
        (key : Key) (p : Policy) (s : C.State)
        → IsLive engine key p s
        → reconcile C key s ≡ (
            if has_finalizer C p
            then link C engine p tool s
            else update_policy C (with_finalizers C p) s)
    unfolding reconcile with_policy with_tool with_engine ◌>>◌
    unfold_live key p s live = ground (arith, live.got, live.found, live.chosen, live.alive)

    -- After at most `bound` reconciles the server answers with a policy of this specification that has
    -- its finalizer and its owner, and the next reconcile runs the engine on it.
    abbrev pub Reaches : ℕ → Key → PolicySpec → C.State → Type 0
    Reaches bound key spec s =
        (n : ℕ) × (q : Policy) × (n ≤ bound)
        × (C.policies.get key (after C n key s) ≡ ok q)
        × (q.spec ≡ spec)
        × (has_finalizer C q ≡ true)
        × (C.lib.has_owner_reference q.meta.owner_references tool ≡ ok true)
        × (reconcile C key (after C n key s)
            ≡ (if spec.enabled then run_engine C engine q else disable C engine q)
                (after C n key s))

    Reaches-later :
        (bound : ℕ) (key : Key) (spec : PolicySpec) (s : C.State)
        → Reaches bound key spec (reconcile C key s).1
        → Reaches (suc bound) key spec s
    Reaches-later bound key spec s (n, q, h, got, same, held, owned, run) =
        (suc n, q, omega arith, got, same, held, owned, run)

    Reaches-more :
        (bound : ℕ) (key : Key) (spec : PolicySpec) (s : C.State)
        → Reaches bound key spec s
        → Reaches (suc bound) key spec s
    Reaches-more bound key spec s (n, q, h, got, same, held, owned, run) =
        (n, q, omega arith, got, same, held, owned, run)

    engine_of_spec :
        (p q : Policy) → q.spec ≡ p.spec → new_policy_engine C q ≡ new_policy_engine C p
    unfolding new_policy_engine
    engine_of_spec p q h =
        ap (λ (spec : PolicySpec). new_policy_engine C (record p { spec = spec })) h

    update_policy_state :
        (p q : Policy) (s : C.State)
        → (C.policies.update p s).0 ≡ ok q
        → (update_policy C p s).1 ≡ (C.policies.update p s).1
    unfolding update_policy ◌>>◌
    update_policy_state p q s h = ground arith

    -- An update that keeps the specification and the key leaves a live policy behind.
    updated-IsLive :
        (key : Key) (p p' : Policy) (s : C.State)
        → IsLive engine key p s
        → p'.spec ≡ p.spec
        → key_of p'.meta ≡ key_of p.meta
        → p'.meta.deletion_timestamp ≡ p.meta.deletion_timestamp
        → reconcile C key s ≡ update_policy C p' s
        → (q : Policy) × SamePolicy q p' × IsLive engine key q (reconcile C key s).1
    updated-IsLive key p p' s live spec same deletion run =
        let there : C.policies.get (key_of p'.meta) s ≡ ok p =
          rw (same, sym live.at_key) live.got in
        let (q, taken, got, sameq) = server.update_answers p' p s there (deletion ∙ live.alive) in
        let state : (reconcile C key s).1 ≡ (C.policies.update p' s).1 =
          ap (λ o. o.1) run ∙ update_policy_state p' q s taken in
        let at : key ≡ key_of p'.meta = live.at_key ∙ sym same in
        let place : tool_key q ≡ tool_key p =
          ground (arith, sameq.same_key, sameq.same_spec, same, spec) in
        (
          q,
          sameq,
          subst (IsLive engine key q) (sym state) (record {
            at_key = at ∙ sym sameq.same_key;
            got = rw at got;
            found =
                server.update_keeps_tools p' s (tool_key q)
                ∙ (ap (λ x. C.tools.get x s) place ∙ live.found);
            chosen = engine_of_spec p q (sameq.same_spec ∙ spec) ∙ live.chosen;
            together = ap Key.namespace (sameq.same_key ∙ same) ∙ live.together;
            alive = sameq.same_deletion ∙ (deletion ∙ live.alive);
          }),
        )

    linked-Reaches :
        (key : Key) (p : Policy) (s : C.State)
        → IsLive engine key p s
        → has_finalizer C p ≡ true
        → C.lib.has_owner_reference p.meta.owner_references tool ≡ ok true
        → Reaches 0 key p.spec s
    unfolding link ◌>>◌
    linked-Reaches key p s live held owned =
        (0, p, omega arith, live.got, refl, held, owned, unfold_live key p s live ∙ ground arith)

    held-Reaches :
        (key : Key) (p : Policy) (s : C.State)
        → IsLive engine key p s
        → has_finalizer C p ≡ true
        → Reaches 1 key p.spec s
    unfolding link ◌>>◌
    held-Reaches key p s live held =
        let (b, known) = links.owner_known p.meta.owner_references in
        elim (Bool-cases b) [
          | inl yes_ ↦ Reaches-more 0 key p.spec s (linked-Reaches key p s live held (ground arith))
          | inr no_ ↦
              let (m, set, seen, place, finalizers, deletion) =
                links.owner_set p.meta live.together in
              let p' : Policy = record p { meta = m } in
              let run : reconcile C key s ≡ update_policy C p' s =
                unfold_live key p s live ∙ ground arith in
              let (q, same, live') = updated-IsLive key p p' s live refl place deletion run in
              let held' : has_finalizer C q ≡ true =
                ap (λ l. C.lib.contains_finalizer l policy_finalizer)
                  (same.same_finalizers ∙ finalizers)
                ∙ held in
              let seen' : C.lib.has_owner_reference q.meta.owner_references tool ≡ ok true =
                ap (λ l. C.lib.has_owner_reference l tool) same.same_owners ∙ seen in
              let t = (reconcile C key s).1 in
              Reaches-later 0 key p.spec s (
                subst (λ spec. Reaches 0 key spec t) same.same_spec
                  (linked-Reaches key q t live' held' seen'))
        ]

    -- On a server that takes the updates of the policy and whose next read sees them, and where nobody
    -- else acts, the reconciles of a live policy reach its engine: after at most two of them the policy
    -- that the server answers with has its finalizer and its tool as an owner, with its specification
    -- unchanged, and the next reconcile validates and runs the engine on that policy, or cleans up if it
    -- is disabled.
    pub reconcile-Reaches :
        (key : Key) (p : Policy) (s : C.State) → IsLive engine key p s → Reaches 2 key p.spec s
    reconcile-Reaches key p s live = elim (Bool-cases (has_finalizer C p)) [
      | inl held ↦ Reaches-more 1 key p.spec s (held-Reaches key p s live held)
      | inr bare ↦
          let p' = with_finalizers C p in
          let run : reconcile C key s ≡ update_policy C p' s =
            unfold_live key p s live ∙ ground arith in
          let (q, same, live') = updated-IsLive key p p' s live refl refl refl run in
          let held : has_finalizer C q ≡ true =
            ap (λ l. C.lib.contains_finalizer l policy_finalizer) same.same_finalizers
            ∙ (links.added_finalizer p.meta.finalizers policy_finalizer) in
          let t = (reconcile C key s).1 in
          Reaches-later 1 key p.spec s
            (subst (λ spec. Reaches 1 key spec t) same.same_spec (held-Reaches key q t live' held))
    ]
