-- ===== src/Tools/Removals.antt =====
-- internal/tools, EnsureUninstalled: what is left of the Helm release of a tool.
use mathlib.Core.Path.{subst}
use eirenyx.Base.{
  ◌≡◌, sym, ◌∙◌, String, ◌<>◌, Bool-cases, ◌⊎◌, inl, inr, none, arith, ◌==◌, if◌then◌else◌,
}
use eirenyx.Effect.{ok, returned, Exec, pure, fail, catch, wrap, ◌>>◌}
use eirenyx.Effect.Keeps.{Keeps, keeps_rules, then-eq_returned, catch-eq_returned}
use eirenyx.Api.Tool.{Tool, tool_falco, tool_litmus}
use eirenyx.Api.Workload.{Namespace}
use eirenyx.Cluster.{Cluster}
use eirenyx.Controller.{new_tool_service}
use eirenyx.Helm.{Manager, settings, uninstall_release, new_delete_manager, is_release_not_found}
use eirenyx.Helm.Releases.{ReleaseLaws}
use eirenyx.Helm.Uninstalls.{
  SilentLaws, Unloaded, uninstall_release-returned, uninstall_release-IsSilent,
}
use eirenyx.Kube.{delete_namespace, namespace_object}
use eirenyx.Tools.Releases.{SameReleases, service-cases}
use eirenyx.Tools.{
  ToolService, uninstall_tool, drop_namespace, resolved_namespace, trivy_service, falco_service,
  litmus_service,
}

module _ (C : Cluster) (laws : ReleaseLaws C.helm) where
  -- In `t` the release is not there, or Helm could not load it when it was to be uninstalled in the run
  -- from `s`.
  abbrev pub Undeploys : String → String → C.State → C.State → Type 0
  Undeploys ns name s t =
      (laws.deployed ns name t ≡ none) ⊎ Unloaded C.helm laws ns name (settings C.helm s).1

  module _ (silent : SilentLaws C.helm)
      (apart : (n : Namespace) (s : C.State) (ns name : String)
        → laws.deployed ns name s ≡ none
        → laws.deployed ns name (C.namespaces.delete n s).1 ≡ none) where
    delete_namespace-apart :
        (target ns name : String)
        → Keeps (λ t. laws.deployed ns name t ≡ none) (delete_namespace C target)
    unfolding delete_namespace
    delete_namespace-apart target ns name =
        let one : (s : C.State)
            → laws.deployed ns name s ≡ none
            → laws.deployed ns name (C.namespaces.delete (namespace_object target) s).1 ≡ none =
          λ s h. apart (namespace_object target) s ns name h in
        search (keeps_rules, one)

    drop_namespace-apart :
        (label target : String) (tool : Tool) (ns name : String)
        → Keeps (λ t. laws.deployed ns name t ≡ none) (drop_namespace C label target tool)
    unfolding drop_namespace
    drop_namespace-apart label target tool ns name = search (keeps_rules, delete_namespace-apart)

    -- The call of Helm with its second test for a release that is not there.
    uninstalling-Undeploys :
        (what : String) (m : Manager) (s : C.State)
        → (catch
            (uninstall_release C.helm m)
            (λ e.
              if is_release_not_found e then pure tt else fail (wrap ("uninstalling " <> what) e))
            pure
            s).0
          ≡ returned tt
        → Undeploys m.namespace m.release_name s
            (catch
              (uninstall_release C.helm m)
              (λ e.
                if is_release_not_found e then pure tt else fail (wrap ("uninstalling " <> what) e))
              pure
              s).1
    unfolding ◌>>◌ is_release_not_found
    uninstalling-Undeploys what m s h =
        elim (catch-eq_returned (uninstall_release C.helm m s) _ _ h) [
          | inl (a, e, eq) ↦
              subst (λ o. Undeploys m.namespace m.release_name s o.1) (sym eq)
                (uninstall_release-returned C.helm laws m s e)
          | inr (f, e, eq) ↦
              let quiet = uninstall_release-IsSilent C.helm silent m s f e in absurd (ground arith)
        ]

    pub uninstall_tool-Undeploys :
        (what label default_ns name : String) (tool : Tool) (s : C.State)
        → (uninstall_tool C what label default_ns name tool s).0 ≡ returned tt
        → Undeploys
            (resolved_namespace tool.spec.namespace default_ns)
            name
            s
            (uninstall_tool C what label default_ns name tool s).1
    unfolding uninstall_tool is_release_not_found
    uninstall_tool-Undeploys what label default_ns name tool s h =
        let ns = resolved_namespace tool.spec.namespace default_ns in
        let m = new_delete_manager ns name in
        let first : Exec C.State (Unit {0}) =
          catch (uninstall_release C.helm m)
            (λ e.
              if is_release_not_found e then pure tt else fail (wrap ("uninstalling " <> what) e))
            pure in
        let drop = drop_namespace C label ns tool in
        let (_, done, eq, _) = then-eq_returned first drop s h in
        let left = uninstalling-Undeploys what m s done in
        subst (λ o. Undeploys ns name s o.1) (sym eq)
          (elim left [
            | inl gone ↦
                inl ((drop_namespace-apart label ns tool ns name).keeps_at (first s).1 gone)
            | inr unloaded ↦ inr unloaded
          ])

    -- The same of the release of a tool.
    abbrev pub Removed : Tool → C.State → C.State → Type 0
    Removed tool s t =
        if tool.spec.type == tool_falco
        then Undeploys (resolved_namespace tool.spec.namespace "falco") "falco" s t
        else if tool.spec.type == tool_litmus
        then Undeploys (resolved_namespace tool.spec.namespace "litmus") "chaos" s t
        else Undeploys (resolved_namespace tool.spec.namespace "trivy-system") "trivy-operator" s t

    pub ensure_uninstalled-Removed :
        (tool : Tool) (svc : ToolService C.State) (s : C.State)
        → new_tool_service C tool ≡ ok svc
        → (svc.ensure_uninstalled tool s).0 ≡ returned tt
        → Removed tool s (svc.ensure_uninstalled tool s).1
    unfolding trivy_service falco_service litmus_service
    ensure_uninstalled-Removed tool svc s chosen h = elim (service-cases C tool svc chosen) [
      | inl (f, same) ↦ rw (f, same) (uninstall_tool-Undeploys _ _ _ _ tool s (rw same at h))
      | inr (inl (f, l, same)) ↦
          rw (f, l, same) (uninstall_tool-Undeploys _ _ _ _ tool s (rw same at h))
      | inr (inr (f, l, same)) ↦
          rw (f, l, same) (uninstall_tool-Undeploys _ _ _ _ tool s (rw same at h))
    ]

    Undeploys-same :
        (ns name : String) (start s t : C.State)
        → SameReleases C laws s t
        → Undeploys ns name start s
        → Undeploys ns name start t
    Undeploys-same ns name start s t same (inl gone) = inl (same ns name ∙ gone)
    Undeploys-same ns name start s t same (inr unloaded) = inr unloaded

    pub Removed-same :
        (tool : Tool) (start s t : C.State)
        → SameReleases C laws s t
        → Removed tool start s
        → Removed tool start t
    Removed-same tool start s t same h = elim (Bool-cases (tool.spec.type == tool_falco)) [
      | inl f ↦ rw f (Undeploys-same _ _ start s t same (rw f at h))
      | inr f ↦ elim (Bool-cases (tool.spec.type == tool_litmus)) [
        | inl l ↦ rw (f, l) (Undeploys-same _ _ start s t same (rw (f, l) at h))
        | inr l ↦ rw (f, l) (Undeploys-same _ _ start s t same (rw (f, l) at h))
      ]
    ]
