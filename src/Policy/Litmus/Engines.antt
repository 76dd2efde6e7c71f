-- ===== src/Policy/Litmus/Engines.antt =====
-- internal/policy/litmus/engine.go, Reconcile: the ChaosEngines of a policy.
use mathlib.Core.Path.{subst}
use text.Mathlib.TextLemmas.{append_cancel_left}
use eirenyx.Base.{
  String, ◌<>◌, ◌≡◌, ◌≢◌, refl, sym, ap, ◌∙◌, inl, inr, some, List, [], ◌∷◌, All, entry, arith,
}
use eirenyx.Effect.{Result-cases, ok, returned, ◌>>◌}
use eirenyx.Effect.Keeps.{Keeps, Keeps-pure, Keeps-then, keeps_rules, then-eq_returned}
use eirenyx.Api.Meta.{Key, named}
use eirenyx.Api.Policy.{Policy, LitmusExperiment, LitmusPolicySpec}
use eirenyx.Api.Workload.{ChaosEngine, components_of}
use eirenyx.Cluster.{Cluster}
use eirenyx.Cluster.Laws.{StoreLaws}
use eirenyx.Policy.Litmus.{
  engine_key, chaos_engine_name, bare_engine, fill_engine, build_env_vars, engine_namespace,
  reconcile_experiment, reconcile_experiments, reconcile, litmus_experiment_label,
}
use eirenyx.Policy.Litmus.Removes.{IsLabelled}

-- What the server keeps of a ChaosEngine that it is given.
abbrev pub SameEngine : ChaosEngine → ChaosEngine → Type 0
SameEngine e c = (e.spec ≡ c.spec) × (e.meta.labels ≡ c.meta.labels)

-- The ChaosEngine asks for the experiment, on the application, and bears the policy's labels.
pub record Runs (p : Policy) (exp : LitmusExperiment) (e : ChaosEngine) : Type 0 where
  pub application : e.spec.app_info ≡ record {
    appns = exp.app_info.app_namespace;
    applabel = exp.app_info.app_label;
    app_kind = exp.app_info.app_kind;
  }
  pub active : e.spec.engine_state ≡ "active"
  pub experiment :
      e.spec.experiments
      ≡ record {
        name = exp.experiment_ref;
        spec = record { components = components_of (build_env_vars exp) };
      }
        ∷ []
  pub labelled : IsLabelled p e
  pub named_after : entry litmus_experiment_label e.meta.labels ≡ some exp.name

-- No two experiments have the same name.
abbrev pub HaveOwnNames : List LitmusExperiment → Type 0
HaveOwnNames [] = Unit
HaveOwnNames (exp ∷ exps) = All (λ e. e.name ≢ exp.name) exps × HaveOwnNames exps

SameEngine-Runs :
    (p : Policy) (exp : LitmusExperiment) (e c : ChaosEngine)
    → SameEngine e (fill_engine p exp c)
    → Runs p exp e
unfolding fill_engine entry
SameEngine-Runs p exp e c (spec, labels) = record {
  application = ap (λ s. s.app_info) spec;
  active = ap (λ s. s.engine_state) spec;
  experiment = ap (λ s. s.experiments) spec;
  labelled = (rw labels refl, rw labels refl);
  named_after = rw labels refl;
}

chaos_engine_name-cancel :
    (policy a b : String) → chaos_engine_name policy a ≡ chaos_engine_name policy b → a ≡ b
unfolding chaos_engine_name
chaos_engine_name-cancel policy a b h =
    append_cancel_left "-" a b
      (append_cancel_left policy ("-" <> a) ("-" <> b) (append_cancel_left "eirenyx-litmus-" _ _ h))

engine_key-ne :
    (p : Policy) (a b : LitmusExperiment) → b.name ≢ a.name → engine_key p a ≢ engine_key p b
engine_key-ne p a b h same =
    h (sym (chaos_engine_name-cancel p.name a.name b.name (ap Key.name same)))

module _ (C : Cluster) (laws : StoreLaws ChaosEngine.meta C.chaos_engines SameEngine) where
  -- The ChaosEngine of the experiment is stored.
  abbrev pub HasEngine : Policy → LitmusExperiment → C.State → Type 0
  HasEngine p exp s =
      (e : ChaosEngine) × (C.chaos_engines.stored (engine_key p exp) s ≡ some e) × Runs p exp e

  abbrev bare : Policy → LitmusExperiment → ChaosEngine
  bare p exp = bare_engine (named (chaos_engine_name p.name exp.name) (engine_namespace p exp))

  reconcile_experiment-HasEngine :
      (p : Policy) (exp : LitmusExperiment) (s : C.State)
      → (reconcile_experiment C p exp s).0 ≡ returned tt
      → HasEngine p exp (reconcile_experiment C p exp s).1
  unfolding reconcile_experiment ◌>>◌
  reconcile_experiment-HasEngine p exp s h =
      let f = fill_engine p exp in
      elim (Result-cases (C.chaos_engines.create_or_update (bare p exp) (λ x. ok (f x)) s).0) [
        | inl (b, e) ↦
            let (g, current, stored, same) = laws.store_writes (bare p exp) f s b e in
            rw e (g, stored, SameEngine-Runs p exp g current same)
        | inr (x, e) ↦ ground arith
      ]

  reconcile_experiment-elsewhere :
      (p : Policy) (a b : LitmusExperiment)
      → b.name ≢ a.name
      → Keeps (HasEngine p a) (reconcile_experiment C p b)
  unfolding reconcile_experiment
  reconcile_experiment-elsewhere p a b h =
      let f = fill_engine p b in
      let one : (s : C.State)
          → HasEngine p a s
          → HasEngine p a (C.chaos_engines.create_or_update (bare p b) (λ x. ok (f x)) s).1 =
        λ s (e, stored, runs). (
          e,
          laws.store_elsewhere (bare p b) f s (engine_key p a) (engine_key-ne p a b h) ∙ stored,
          runs,
        ) in
      Keeps-then (search (keeps_rules, one)) (Keeps-pure tt)

  reconcile_experiments-elsewhere :
      (p : Policy) (a : LitmusExperiment) (exps : List LitmusExperiment)
      → All (λ e. e.name ≢ a.name) exps
      → Keeps (HasEngine p a) (reconcile_experiments C p exps)
  unfolding reconcile_experiments
  reconcile_experiments-elsewhere p a [] h = Keeps-pure tt
  reconcile_experiments-elsewhere p a (b ∷ exps) (h, hs) =
      Keeps-then (reconcile_experiment-elsewhere p a b h)
        (reconcile_experiments-elsewhere p a exps hs)

  reconcile_experiments-HasEngine :
      (p : Policy) (exps : List LitmusExperiment) (s : C.State)
      → HaveOwnNames exps
      → (reconcile_experiments C p exps s).0 ≡ returned tt
      → All (λ exp. HasEngine p exp (reconcile_experiments C p exps s).1) exps
  unfolding reconcile_experiments
  reconcile_experiments-HasEngine p [] s own h = tt
  reconcile_experiments-HasEngine p (exp ∷ exps) s (fresh, own) h =
      let m = reconcile_experiment C p exp in
      let k = reconcile_experiments C p exps in
      let (_, first, eq, rest) = then-eq_returned m k s h in
      subst (λ o. All (λ e. HasEngine p e o.1) (exp ∷ exps)) (sym eq)
        (
          (reconcile_experiments-elsewhere p exp exps fresh).keeps_at (m s).1
              (reconcile_experiment-HasEngine p exp s first),
          reconcile_experiments-HasEngine p exps (m s).1 own rest,
        )

  -- When the engine's Reconcile returns with no error, and no two experiments of the policy have the
  -- same name, every experiment has a stored ChaosEngine under its name in its namespace, which is
  -- active, runs that experiment with its environment on its application, and bears the policy's
  -- labels; whatever was stored there before.
  pub litmus_reconcile-HasEngine :
      (p : Policy) (l : LitmusPolicySpec) (s : C.State)
      → p.spec.litmus ≡ some l
      → HaveOwnNames l.experiments
      → (reconcile C p s).0 ≡ returned tt
      → All (λ exp. HasEngine p exp (reconcile C p s).1) l.experiments
  unfolding reconcile
  litmus_reconcile-HasEngine p l s spec own h =
      let loop : reconcile C p s ≡ reconcile_experiments C p l.experiments s = ground arith in
      subst (λ o. All (λ exp. HasEngine p exp o.1) l.experiments) (sym loop)
        (reconcile_experiments-HasEngine p l.experiments s own (ap (λ o. o.0) (sym loop) ∙ h))
