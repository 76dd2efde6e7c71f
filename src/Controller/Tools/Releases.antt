-- ===== src/Controller/Tools/Releases.antt =====
-- internal/controller/tool_controller.go with internal/tools and internal/client/helm: a completed
-- reconcile of a tool and its Helm release.
use mathlib.Core.Path.{subst}
use eirenyx.Base.{
  ◌≡◌, sym, ap, ◌∙◌, String, Bool, true, false, Bool-cases, Option-cases, inl, inr, none, some,
  arith, if◌then◌else◌,
}
use eirenyx.Effect.{Exec, ok, returned, ◌>>◌}
use eirenyx.Effect.Keeps.{Keeps, Keeps-catch, keeps_rules, catch-eq_returned}
use eirenyx.Api.Meta.{Key}
use eirenyx.Api.Tool.{Tool}
use eirenyx.Api.Workload.{Namespace}
use eirenyx.Cluster.{Cluster}
use eirenyx.Controller.{new_tool_service, completed}
use eirenyx.Controller.Tools.{
  reconcile, with_tool, reconcile_live, has_finalizer, serve, run_service, check, publish_health,
  handle_deletion, without_finalizer,
}
use eirenyx.Controller.Tools.Deletion.{handle_deletion_completes}
use eirenyx.Controller.Tools.Health.{settle}
use eirenyx.Helm.Releases.{ReleaseLaws}
use eirenyx.Helm.Uninstalls.{SilentLaws}
use eirenyx.Kube.{deployment_ready, daemon_set_ready}
use eirenyx.Tools.{ToolService, trivy_service, falco_service, litmus_service}
use eirenyx.Tools.Releases.{
  SameReleases, Installed, Installed-same, ensure_installed-Installed, service-cases,
}
use eirenyx.Tools.Removals.{Removed, Removed-same, ensure_uninstalled-Removed}

-- One of two runs returned.
chosen_run :
    {S : Type 0} (b : Bool) (m n : Exec S (Unit {0})) (P Q : S → Type 0) (s : S)
    → ((m s).0 ≡ returned tt → P (m s).1)
    → ((n s).0 ≡ returned tt → Q (n s).1)
    → ((if b then m else n) s).0 ≡ returned tt
    → (if b then P ((if b then m else n) s).1 else Q ((if b then m else n) s).1)
chosen_run true m n P Q s p q h = p h
chosen_run false m n P Q s p q h = q h

-- The health check only reads.
module _ (C : Cluster) {P : C.State → Type 0} where
  deployment_ready-Keeps : (ns name : String) → Keeps P (deployment_ready C ns name)
  unfolding deployment_ready
  deployment_ready-Keeps ns name = search keeps_rules

  daemon_set_ready-Keeps : (ns name : String) → Keeps P (daemon_set_ready C ns name)
  unfolding daemon_set_ready
  daemon_set_ready-Keeps ns name = search keeps_rules

  check_health-Keeps :
      (tool : Tool) (svc : ToolService C.State)
      → new_tool_service C tool ≡ ok svc
      → Keeps P (svc.check_health tool)
  unfolding trivy_service falco_service litmus_service
  check_health-Keeps tool svc chosen = elim (service-cases C tool svc chosen) [
    | inl (_, same) ↦ rw same (search (keeps_rules, daemon_set_ready-Keeps))
    | inr (inl (_, _, same)) ↦ rw same (search (keeps_rules, deployment_ready-Keeps))
    | inr (inr (_, _, same)) ↦ rw same (search (keeps_rules, deployment_ready-Keeps))
  ]

  check-Keeps :
      (tool : Tool) (svc : ToolService C.State)
      → Keeps P (svc.check_health tool)
      → ((t : Tool) (s : C.State) → P s → P (C.tools.update_status t s).1)
      → Keeps P (check C svc tool)
  unfolding check publish_health
  check-Keeps tool svc health status =
      Keeps-catch health (λ e. search keeps_rules) (λ healthy. search (keeps_rules, status))

-- The writes of tools and the delete of a namespace leave the releases alone.
pub record ReleasesApart (C : Cluster) (laws : ReleaseLaws C.helm) : Type 0 where
  pub status_apart : (t : Tool) (s : C.State) → SameReleases C laws s (C.tools.update_status t s).1
  pub patch_apart : (t u : Tool) (s : C.State) → SameReleases C laws s (C.tools.patch t u s).1
  pub namespace_apart :
      (n : Namespace) (s : C.State) (ns name : String)
      → laws.deployed ns name s ≡ none
      → laws.deployed ns name (C.namespaces.delete n s).1 ≡ none

module _ (C : Cluster) (laws : ReleaseLaws C.helm) (silent : SilentLaws C.helm)
    (apart : ReleasesApart C laws) where
  -- What the tool asks for of `t`, after a run from `s`: its release, or for one that is disabled or
  -- being deleted none.
  abbrev pub IsSettled : Tool → C.State → C.State → Type 0
  IsSettled tool s t = elim (tool.meta.deletion_timestamp) [
    | some _ ↦ Removed C laws silent apart.namespace_apart tool s t
    | none ↦
        if tool.spec.enabled
        then Installed C laws tool t
        else Removed C laws silent apart.namespace_apart tool s t
  ]

  abbrev Serves : Tool → C.State → C.State → Type 0
  Serves tool s t =
      if tool.spec.enabled
      then Installed C laws tool t
      else Removed C laws silent apart.namespace_apart tool s t

  Serves-same :
      (tool : Tool) (start s t : C.State)
      → SameReleases C laws s t
      → Serves tool start s
      → Serves tool start t
  Serves-same tool start s t same h = elim (Bool-cases tool.spec.enabled) [
    | inl e ↦ rw e (Installed-same C laws tool s t same (rw e at h))
    | inr e ↦
        rw e (Removed-same C laws silent apart.namespace_apart tool start s t same (rw e at h))
  ]

  settle-Serves :
      (tool : Tool) (svc : ToolService C.State) (s : C.State)
      → new_tool_service C tool ≡ ok svc
      → (settle svc tool s).0 ≡ returned tt
      → Serves tool s (settle svc tool s).1
  settle-Serves tool svc s chosen h =
      chosen_run tool.spec.enabled (svc.ensure_installed tool) (svc.ensure_uninstalled tool)
        (Installed C laws tool) (Removed C laws silent apart.namespace_apart tool s) s
        (ensure_installed-Installed C laws tool svc s chosen)
        (ensure_uninstalled-Removed C laws silent apart.namespace_apart tool svc s chosen) h

  check-Serves :
      (tool : Tool) (svc : ToolService C.State) (start : C.State)
      → new_tool_service C tool ≡ ok svc
      → Keeps (Serves tool start) (check C svc tool)
  check-Serves tool svc start chosen =
      check-Keeps C tool svc (check_health-Keeps C tool svc chosen)
        (λ t s. Serves-same tool start s (C.tools.update_status t s).1 (apart.status_apart t s))

  serve-Serves :
      (tool : Tool) (svc : ToolService C.State) (s : C.State)
      → new_tool_service C tool ≡ ok svc
      → (serve C tool s).0 ≡ returned completed
      → Serves tool s (serve C tool s).1
  unfolding serve run_service ◌>>◌
  serve-Serves tool svc s chosen h =
      let r : serve C tool s ≡ run_service C svc tool s = ground arith in
      elim (catch-eq_returned (settle svc tool s) _ _ (ap (λ o. o.0) (sym r) ∙ h)) [
        | inl (a, e, eq) ↦
            subst (λ o. Serves tool s o.1) (sym (r ∙ eq))
              ((check-Serves tool svc s chosen).keeps_at (settle svc tool s).1
                (settle-Serves tool svc s chosen e))
        | inr (f, e, eq) ↦ absurd (ground arith)
      ]

  -- When the reconcile of a tool of a known type that has its finalizer is completed with no requeue
  -- and no error, the cluster is as the tool asks for: an enabled tool's release is there with its
  -- chart, and Litmus with the values of the tool; the release of a tool that is disabled or being
  -- deleted is gone, or else Helm's uninstall answers, in the state in which this reconcile calls it,
  -- with an error that says "Release not loaded" and not "release: not found", which the code takes
  -- for success; provided that Helm keeps to what it documents, and that the writes of tools and the
  -- delete of a namespace leave the releases alone.
  pub tool_reconcile-IsSettled :
      (key : Key) (tool : Tool) (svc : ToolService C.State) (s : C.State)
      → C.tools.get key s ≡ ok tool
      → new_tool_service C tool ≡ ok svc
      → has_finalizer C tool ≡ true
      → (reconcile C key s).0 ≡ returned completed
      → IsSettled tool s (reconcile C key s).1
  unfolding reconcile with_tool reconcile_live ◌>>◌
  tool_reconcile-IsSettled key tool svc s got chosen held h =
      elim (Option-cases tool.meta.deletion_timestamp) [
        | inl alive ↦
            let run : reconcile C key s ≡ serve C tool s = ground arith in
            rw alive (
              subst (λ o. Serves tool s o.1) (sym run)
                (serve-Serves tool svc s chosen (ap (λ o. o.0) (sym run) ∙ h)))
        | inr (time, deleted) ↦
            let run : reconcile C key s ≡ handle_deletion C tool s = ground arith in
            let (done, last) =
              handle_deletion_completes C tool svc s chosen (ap (λ o. o.0) (sym run) ∙ h) in
            let left = (svc.ensure_uninstalled tool s).1 in
            rw deleted (
              subst (Removed C laws silent apart.namespace_apart tool s)
                (sym (ap (λ o. o.1) run ∙ last))
                (Removed-same C laws silent apart.namespace_apart tool s left
                  (C.tools.patch tool (without_finalizer C tool) left).1
                  (apart.patch_apart tool (without_finalizer C tool) left)
                  (ensure_uninstalled-Removed C laws silent apart.namespace_apart tool svc s chosen
                    done)))
      ]
