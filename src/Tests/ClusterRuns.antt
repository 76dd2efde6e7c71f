-- ===== src/Tests/ClusterRuns.antt =====
-- Runs of the Kubernetes, Helm and tool modules.
use eirenyx.Base.{◌≡◌, refl, arith, eq_iff, inl, inr, Option-cases, none, [], ◌∷◌, entry}
use eirenyx.Controller.{new_tool_service}
use eirenyx.Helm.Values.{Fields, text, obj, end, field}
use eirenyx.Kube.{namespace_object}
use eirenyx.Tools.{falco_service}
use eirenyx.Tools.Namespaces.{uninstall_keeps_namespaces, UninstallKeeps}
use eirenyx.Tests.World.{World, empty_world, memory, helm_sdk}
use eirenyx.Tests.Samples.{a_tool}

abbrev defaults : Fields
defaults = field "portal" (obj (field "type" (text "NodePort") end)) end

abbrev chosen : Fields
chosen = field "portal" (obj (field "host" (text "chaos") end)) (field "size" (text "1") end)

-- Helm's calls leave the table of namespaces alone.
abbrev SameNamespaces : World → Type 0
SameNamespaces w = w.namespaces ≡ namespace_object "security" ∷ []

helm_keeps : UninstallKeeps helm_sdk SameNamespaces
unfolding helm_sdk
helm_keeps = record {
  cache_keeps = λ s h. h;
  config_keeps = λ s h. h;
  uninstall_keeps = λ ns release s h. elim (Option-cases (entry release s.releases)) [
    | inl e ↦ rw (e, helm_sdk) h
    | inr (a, e) ↦ rw (e, helm_sdk) h
  ];
}

abbrev settled : World
settled = record empty_world {
  namespaces = namespace_object "security" ∷ [];
  releases = ("falco", ("falcosecurity/falco", none)) ∷ [];
}

uninstall_keeps_namespaces_example :
    SameNamespaces ((falco_service memory).ensure_uninstalled (a_tool "falco") settled).1
unfolding new_tool_service
uninstall_keeps_namespaces_example =
    uninstall_keeps_namespaces memory helm_keeps (a_tool "falco") (falco_service memory) settled
      refl (λ h. ground (arith, eq_iff "security" "")) refl
