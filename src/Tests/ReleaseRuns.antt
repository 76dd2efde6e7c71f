-- ===== src/Tests/ReleaseRuns.antt =====
-- Runs of the tool controller and their Helm releases.
use eirenyx.Base.{
  ◌≡◌, refl, String, inl, inr, none, some, List, [], ◌∷◌, Option-cases, arith, eq_iff, entry,
  put_entry, entry-put_entry, ◌∙◌, ap, contains,
}
use eirenyx.Effect.{◌>>◌, wrapping}
use eirenyx.Api.Meta.{Key, key_of, named}
use eirenyx.Api.Tool.{Tool, tool_finalizer}
use eirenyx.Api.Workload.{Namespace}
use eirenyx.Controller.{new_tool_service}
use eirenyx.Controller.Tools as ToolControl
use eirenyx.Controller.Tools.Releases.{ReleasesApart, IsSettled, tool_reconcile-IsSettled}
use eirenyx.Helm.{
  uninstall_release, install_or_upgrade, settings, ensure_repo, add_repo, install_chart,
  upgrade_chart,
}
use eirenyx.Helm.Releases.{ReleaseLaws}
use eirenyx.Helm.Uninstalls.{SilentLaws}
use eirenyx.Kube
use eirenyx.Tools
use eirenyx.Tools.{trivy_service}
use eirenyx.Tests.ControllerRuns.{healthy_world}
use eirenyx.Tests.Memory.{find, replace, table}
use eirenyx.Tests.Memory.Answers.{delete_apart}
use eirenyx.Tests.Samples.{a_tool}
use eirenyx.Tests.World.{
  World, memory, library, helm_sdk, without_entry, find_entry, namespace_place,
}

entry-without_entry :
    {A : Type 0} (k : String) (l : List (String × A)) → entry k (without_entry k l) ≡ none
unfolding entry without_entry
entry-without_entry k [] = refl
entry-without_entry k ((j, a) ∷ l) = ground (arith, eq_iff j k, entry-without_entry k l)

helm-ReleaseLaws : ReleaseLaws helm_sdk
unfolding helm_sdk
helm-ReleaseLaws = record {
  deployed = λ _ name w. entry name w.releases;
  installed = λ ns name c v s h. ground (arith, eq_iff name name);
  upgraded = λ ns name c v s h.
      (v, ground (arith, eq_iff name name, entry-put_entry name name (c, v) s.releases), inl refl);
  uninstalled = λ ns name s h. elim (Option-cases (entry name s.releases)) [
    | inl e ↦ absurd (ground arith)
    | inr (a, e) ↦ rw (e, helm_sdk) (entry-without_entry name s.releases)
  ];
  not_found = λ ns name s e h t. elim (Option-cases (entry name s.releases)) [
    | inl e ↦ rw (e, helm_sdk) e
    | inr (a, e) ↦ absurd (ground arith)
  ];
}

helm-SilentLaws : SilentLaws helm_sdk
unfolding helm_sdk
helm-SilentLaws = record {
  cache_silent = λ s e h. cc;
  create_silent = λ s e h. cc;
  init_silent = λ ns s e h. cc;
}

status_same : (t : Tool) (w : World) → (memory.tools.update_status t w).1.releases ≡ w.releases
unfolding table
status_same t w = elim (Option-cases (find Tool.meta (key_of t.meta) w.tools)) [
  | inl e ↦ rw e refl
  | inr (b, e) ↦ rw e refl
]

patch_same : (t u : Tool) (w : World) → (memory.tools.patch t u w).1.releases ≡ w.releases
unfolding table
patch_same t u w = elim (Option-cases (find Tool.meta (key_of u.meta) w.tools)) [
  | inl e ↦ rw e refl
  | inr (b, e) ↦ rw e refl
]

memory-ReleasesApart : ReleasesApart memory helm-ReleaseLaws
unfolding helm-ReleaseLaws
memory-ReleasesApart = record {
  status_apart = λ t w ns name. ap (entry name) (status_same t w);
  patch_apart = λ t u w ns name. ap (entry name) (patch_same t u w);
  namespace_apart = λ n w ns name gone.
      ap (entry name) (delete_apart Namespace.meta namespace_place World.releases (λ l t. refl) n w)
      ∙ gone;
}

-- A tool that has its finalizer, and its release and its deployment.
abbrev held_tool : Tool
held_tool = record (a_tool "trivy") {
  meta = record (named "trivy" "default") { finalizers = tool_finalizer ∷ [] };
}

abbrev held_world : World
held_world = record healthy_world { tools = held_tool ∷ [] }

abbrev trivy_key : Key
trivy_key = record { namespace = "default"; name = "trivy" }

-- The tool on its way out.
abbrev leaving_tool : Tool
leaving_tool = record held_tool { meta = record (held_tool.meta) { deletion_timestamp = some 9 } }

abbrev leaving_world : World
leaving_world = record healthy_world { tools = leaving_tool ∷ [] }

tool_reconcile-IsSettled_example :
    IsSettled memory helm-ReleaseLaws helm-SilentLaws memory-ReleasesApart held_tool held_world
      (ToolControl.reconcile memory trivy_key held_world).1
    × IsSettled memory helm-ReleaseLaws helm-SilentLaws memory-ReleasesApart leaving_tool
        leaving_world
        (ToolControl.reconcile memory trivy_key leaving_world).1
unfolding new_tool_service ToolControl.reconcile ToolControl.with_tool ToolControl.reconcile_live
    ToolControl.serve ToolControl.run_service trivy_service Tools.install_plain ◌>>◌ wrapping
    Kube.ensure_namespace table Kube.create_namespace find replace install_or_upgrade settings
    helm_sdk ensure_repo add_repo install_chart upgrade_chart ToolControl.check
    ToolControl.publish_health Kube.deployment_ready Kube.is_deployment_ready Kube.is_available
    Tools.resolved_namespace find_entry entry put_entry contains ToolControl.with_health library
    ToolControl.handle_deletion ToolControl.release Tools.uninstall_tool Tools.drop_namespace
    uninstall_release Kube.delete_namespace
tool_reconcile-IsSettled_example = (
  tool_reconcile-IsSettled memory helm-ReleaseLaws helm-SilentLaws memory-ReleasesApart trivy_key
      held_tool (trivy_service memory) held_world refl refl refl refl,
  tool_reconcile-IsSettled memory helm-ReleaseLaws helm-SilentLaws memory-ReleasesApart trivy_key
      leaving_tool (trivy_service memory) leaving_world refl refl refl refl,
)
