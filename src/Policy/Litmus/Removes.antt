-- ===== src/Policy/Litmus/Removes.antt =====
-- internal/policy/litmus/engine.go, Cleanup: the ChaosEngines of a policy, in all its namespaces.
use mathlib.Core.Path.{subst}
use eirenyx.Base.{
  ◌≡◌, ◌≢◌, ◌⊎◌, refl, sym, ◌∙◌, ap, ◌==◌, inl, inr, none, some, Option-cases, List, [], ◌∷◌, All,
  Any, arith, entry, String,
}
use eirenyx.Effect.{Exec, ok, returned, read, ◌>>=◌, ◌>>◌}
use eirenyx.Effect.Keeps.{
  Keeps, Keeps-pure, Keeps-then, Keeps-if, Keeps-bind, Keeps-read, keeps_rules, then-eq_returned,
}
use eirenyx.Effect.Ends.{read-eq_returned}
use eirenyx.Api.Meta.{Key, key_of}
use eirenyx.Api.Policy.{Policy, LitmusPolicySpec}
use eirenyx.Api.Report.{PolicyReport}
use eirenyx.Api.Workload.{ChaosEngine}
use eirenyx.Cluster.{Cluster, ListOptions}
use eirenyx.Cluster.Laws.{DeleteLaws, ListLaws, IsGone}
use eirenyx.Policy.Litmus.{
  delete_reports, delete_engines, delete_engines_in, add_namespaces, cleanup, cleanup_spec,
  managed_by_label_key, managed_by_label_val, policy_name_label_key,
}
use eirenyx.Policy.Litmus.Targets.{IsTarget, add_namespaces-seen, add_namespaces-target}
use eirenyx.Policy.Litmus.Cleanup.{delete_engines-IsGone, delete_engines-Keeps}

-- The ChaosEngine carries the labels that the engine puts on those of the policy.
abbrev pub IsLabelled : Policy → ChaosEngine → Type 0
IsLabelled p e =
    (entry managed_by_label_key e.meta.labels ≡ some managed_by_label_val)
    × (entry policy_name_label_key e.meta.labels ≡ some p.name)

module _ (C : Cluster) (laws : DeleteLaws ChaosEngine.meta C.chaos_engines)
    (listing : ListLaws ChaosEngine.meta C.chaos_engines) where
  abbrev Gone : Key → C.State → Type 0
  Gone x s = IsGone ChaosEngine.meta C.chaos_engines x s

  -- What is stored under the key is marked for deletion or carries the policy's labels.
  abbrev pub IsOwn : Policy → Key → C.State → Type 0
  IsOwn p x s =
      (a : ChaosEngine)
      → C.chaos_engines.stored x s ≡ some a
      → (a.meta.deletion_timestamp ≢ none) ⊎ IsLabelled p a

  delete_engines-IsOwn :
      (p : Policy) (x : Key) (engines : List ChaosEngine)
      → Keeps (IsOwn p x) (delete_engines C engines)
  unfolding delete_engines
  delete_engines-IsOwn p x [] = Keeps-pure tt
  delete_engines-IsOwn p x (e ∷ engines) =
      let one : (s : C.State) → IsOwn p x s → IsOwn p x (C.chaos_engines.delete e s).1 =
        λ s h a stored.
          let (c, before, how) = listing.delete_marks e s x a stored in
          elim how [ inl same ↦ rw same (h c before) | inr marked ↦ inl marked ] in
      Keeps-then (search (keeps_rules, one)) (delete_engines-IsOwn p x engines)

  delete_engines_in-Keeps :
      (P : C.State → Type 0) (p : Policy) (namespaces : List String)
      → ((engines : List ChaosEngine) → Keeps P (delete_engines C engines))
      → Keeps P (delete_engines_in C p namespaces)
  unfolding delete_engines_in
  delete_engines_in-Keeps P p [] k = Keeps-pure tt
  delete_engines_in-Keeps P p (ns ∷ namespaces) k =
      let rest = delete_engines_in-Keeps P p namespaces k in search (keeps_rules, k)

  -- Of a listed ChaosEngine, whose key is `x`.
  listed-IsGone :
      (x : Key) (engines : List ChaosEngine) (s : C.State)
      → All (λ e. Gone (key_of e.meta) s) engines
      → Any (λ e. key_of e.meta ≡ x) engines
      → Gone x s
  listed-IsGone x [] s h w = absurd w
  listed-IsGone x (e ∷ engines) s (h, hs) (inl same) = subst (λ y. Gone y s) same h
  listed-IsGone x (e ∷ engines) s (h, hs) (inr w) = listed-IsGone x engines s hs w

  abbrev options : Policy → String → ListOptions
  options p ns = record {
    namespace = some ns;
    labels = (managed_by_label_key, managed_by_label_val) ∷ (policy_name_label_key, p.name) ∷ [];
  }

  namespace-IsGone :
      (p : Policy) (x : Key) (engines : List ChaosEngine) (s : C.State)
      → IsOwn p x s
      → C.chaos_engines.list (options p x.namespace) s ≡ ok engines
      → (delete_engines C engines s).0 ≡ returned tt
      → Gone x (delete_engines C engines s).1
  namespace-IsGone p x engines s own e h =
      let keep = delete_engines-Keeps C laws engines x in
      elim (Option-cases (C.chaos_engines.stored x s)) [
        | inl free ↦ keep.keeps_at s (λ a stored. ground arith)
        | inr (a, there) ↦ elim (own a there) [
          | inl marked ↦
              keep.keeps_at s (λ b stored. let same : b ≡ a = ground arith in rw same marked)
          | inr (managed, named) ↦
              let at = listing.stored_key x s a there in
              let any =
                listing.list_complete (options p x.namespace) s engines x a e there
                  (ap Key.namespace at, (managed, (named, tt))) in
              listed-IsGone x engines (delete_engines C engines s).1
                (delete_engines-IsGone C laws engines s h) any
        ]
      ]

  delete_engines_in-IsGone :
      (p : Policy) (x : Key) (namespaces : List String) (s : C.State)
      → IsOwn p x s
      → Any (λ ns. ns ≡ x.namespace) namespaces
      → (delete_engines_in C p namespaces s).0 ≡ returned tt
      → Gone x (delete_engines_in C p namespaces s).1
  unfolding delete_engines_in
  delete_engines_in-IsGone p x [] s own w h = absurd w
  delete_engines_in-IsGone p x (ns ∷ namespaces) s own w h =
      let k = delete_engines_in C p namespaces in
      let (engines, listed, run) =
        read-eq_returned (C.chaos_engines.list (options p ns)) (λ l. delete_engines C l >> k) s h in
      let m = delete_engines C engines in
      let (_, first, eq, rest) = then-eq_returned m k s (ap (λ o. o.0) (sym run) ∙ h) in
      subst (λ o. Gone x o.1) (sym (run ∙ eq))
        (elim w [
          | inl same ↦
              (delete_engines_in-Keeps (Gone x) p namespaces
                  (λ l. delete_engines-Keeps C laws l x)).keeps_at
                (m s).1
                (namespace-IsGone p x engines s own
                  (subst (λ n. C.chaos_engines.list (options p n) s ≡ ok engines) same listed)
                  first)
          | inr later ↦
              delete_engines_in-IsGone p x namespaces (m s).1
                ((delete_engines-IsOwn p x engines).keeps_at s own) later rest
        ])

  module _
      (apart : (r : PolicyReport) (x : Key) (s : C.State)
        → Gone x s
        → Gone x (C.reports.delete r s).1) where
    delete_reports_apart :
        (p : Policy) (reports : List PolicyReport) (x : Key)
        → Keeps (Gone x) (delete_reports C p reports)
    unfolding delete_reports
    delete_reports_apart p [] x = Keeps-pure tt
    delete_reports_apart p (r ∷ reports) x =
        let rest = delete_reports_apart p reports x in
        let one : (s : C.State) → Gone x s → Gone x (C.reports.delete r s).1 = apart r x in
        Keeps-if (r.spec.policy_ref.name == p.name) (Keeps-then (search (keeps_rules, one)) rest)
          rest

    -- When the engine's Cleanup returns with no error, a key in the policy's namespace or in one that
    -- an experiment targets, at which any ChaosEngine was marked for deletion or carried the policy's
    -- labels, holds none that is not marked for deletion; provided that lists are complete and that
    -- the delete of a report brings no ChaosEngine back.
    pub cleanup-IsGone :
        (p : Policy) (l : LitmusPolicySpec) (x : Key) (s : C.State)
        → p.spec.litmus ≡ some l
        → IsTarget p l.experiments x.namespace
        → IsOwn p x s
        → (cleanup C p s).0 ≡ returned tt
        → Gone x (cleanup C p s).1
    unfolding cleanup cleanup_spec
    cleanup-IsGone p l x s spec target own h =
        let namespaces = add_namespaces (p.namespace ∷ []) l.experiments in
        let m = delete_engines_in C p namespaces in
        let k : Exec C.State (Unit {0}) =
          read (C.reports.list (record { namespace = some p.namespace; labels = [] }))
          >>= delete_reports C p in
        let run : cleanup C p s ≡ (m >> k) s = rw spec refl in
        let (_, first, eq, rest) = then-eq_returned m k s (ap (λ o. o.0) (sym run) ∙ h) in
        let within : Any (λ ns. ns ≡ x.namespace) namespaces = elim target [
          | inl same ↦ add_namespaces-seen (p.namespace ∷ []) l.experiments x.namespace (inl same)
          | inr targeted ↦
              add_namespaces-target (p.namespace ∷ []) l.experiments x.namespace targeted
        ] in
        let last : Keeps (Gone x) k =
          Keeps-bind (Keeps-read _) (λ reports. delete_reports_apart p reports x) in
        subst (λ o. Gone x o.1) (sym (run ∙ eq))
          (last.keeps_at (m s).1 (delete_engines_in-IsGone p x namespaces s own within first))
