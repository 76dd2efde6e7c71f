-- ===== src/Tools/Releases.antt =====
-- internal/tools: the Helm release of a tool.
use mathlib.Core.Path.{subst}
use eirenyx.Base.{
  ◌≡◌, sym, ap, ◌∙◌, String, ◌<>◌, true, false, Bool-cases, ◌⊎◌, inl, inr, Option, none, some,
  arith, ◌==◌, if◌then◌else◌,
}
use eirenyx.Effect.{Result-cases, ok, returned, Exec, lift, wrapping, ◌>>=◌}
use eirenyx.Effect.Ends.{bind-returned, bind-failed, lift-ok, lift-err}
use eirenyx.Effect.Keeps.{then-eq_returned}
use eirenyx.Api.Tool.{Tool, tool_falco, tool_litmus}
use eirenyx.Cluster.{Cluster}
use eirenyx.Controller.{new_tool_service}
use eirenyx.Helm.{Manager, install_or_upgrade, new_admin_manager, set_values}
use eirenyx.Helm.Values.{Fields}
use eirenyx.Helm.Releases.{ReleaseLaws, Deploys, install_or_upgrade-Deploys}
use eirenyx.Kube.{ensure_namespace}
use eirenyx.Tools.Values.{LitmusValues, LitmusValues-blank, litmus_manager-eq_ok}
use eirenyx.Tools.{
  ToolService, install_plain, resolved_namespace, trivy_service, falco_service, litmus_service,
  install_litmus, litmus_manager, litmus_default_values,
}

-- The service that the factory chooses, by the type of the tool.
pub service-cases :
    (C : Cluster) (tool : Tool) (svc : ToolService C.State)
    → new_tool_service C tool ≡ ok svc
    → (((tool.spec.type == tool_falco) ≡ true) × (svc ≡ falco_service C))
      ⊎ (((tool.spec.type == tool_falco) ≡ false)
          × ((tool.spec.type == tool_litmus) ≡ true)
          × (svc ≡ litmus_service C))
      ⊎ (((tool.spec.type == tool_falco) ≡ false)
          × ((tool.spec.type == tool_litmus) ≡ false)
          × (svc ≡ trivy_service C))
unfolding new_tool_service
service-cases C tool svc e = ground arith

module _ (C : Cluster) (laws : ReleaseLaws C.helm) where
  -- A call under another text returned.
  wrapping-eq_returned :
      {A : Type 0} (text : String) (m : Exec C.State A) (s : C.State) {a : A}
      → (wrapping text m s).0 ≡ returned a
      → ((m s).0 ≡ returned a) × ((wrapping text m s).1 ≡ (m s).1)
  unfolding wrapping ◌>>=◌
  wrapping-eq_returned text m s h = ground arith

  abbrev DeploysAt : Manager → C.State → Type 0
  DeploysAt m t = Deploys C.helm laws m.namespace m.release_name m.chart_ref m.values t

  installing-Deploys :
      (what : String) (m : Manager) (s : C.State)
      → (wrapping what (install_or_upgrade C.helm m) s).0 ≡ returned tt
      → DeploysAt m (wrapping what (install_or_upgrade C.helm m) s).1
  installing-Deploys what m s h =
      let (done, same) = wrapping-eq_returned what (install_or_upgrade C.helm m) s h in
      subst (DeploysAt m) (sym same) (install_or_upgrade-Deploys C.helm laws m s done)

  install_plain-Deploys :
      (label ns : String) (m : Manager) (what : String) (s : C.State)
      → (install_plain C label ns m what s).0 ≡ returned tt
      → DeploysAt m (install_plain C label ns m what s).1
  unfolding install_plain
  install_plain-Deploys label ns m what s h =
      let ensure = wrapping ("ensuring " <> (label <> " namespace")) (ensure_namespace C ns) in
      let install = wrapping ("installing " <> what) (install_or_upgrade C.helm m) in
      let (_, _, eq, last) = then-eq_returned ensure install s h in
      subst (λ o. DeploysAt m o.1) (sym eq)
        (installing-Deploys ("installing " <> what) m (ensure s).1 last)

  -- Litmus is installed with the values that its tool asks for.
  install_litmus-Deploys :
      (tool : Tool) (s : C.State)
      → (install_litmus C tool s).0 ≡ returned tt
      → (u : Fields) × LitmusValues C (resolved_namespace tool.spec.namespace "litmus") tool u
        × Deploys C.helm laws
            (resolved_namespace tool.spec.namespace "litmus")
            "chaos"
            "litmuschaos/litmus"
            (some u)
            (install_litmus C tool s).1
  unfolding install_litmus
  install_litmus-Deploys tool s h =
      let ns = resolved_namespace tool.spec.namespace "litmus" in
      let base : Manager =
        new_admin_manager ns "litmuschaos" "https://litmuschaos.github.io/litmus-helm/"
          "litmuschaos/litmus" "chaos" in
      let chosen = litmus_manager C tool (set_values (litmus_default_values "chaos" ns) base) in
      let install : Manager → Exec C.State (Unit {0}) =
        λ m. wrapping "installing litmus" (install_or_upgrade C.helm m) in
      let ensure : Exec C.State (Unit {0}) =
        wrapping "ensuring litmus namespace" (ensure_namespace C ns) in
      let (_, _, eq, last) = then-eq_returned ensure (lift chosen >>= install) s h in
      let t = (ensure s).1 in
      elim (Result-cases chosen) [
        | inr (e, f) ↦
            let stop = bind-failed (lift chosen) t install (lift-err chosen t f) in
            absurd (let k = ap (λ o. o.0) (sym stop) ∙ last in cc)
        | inl (m, f) ↦
            let (u, same, wanted) = litmus_manager-eq_ok C ns tool base m f in
            let step = bind-returned (lift chosen) t install (lift-ok chosen t f) in
            let there =
              installing-Deploys "installing litmus" m t (ap (λ o. o.0) (sym step) ∙ last) in
            (
              u,
              wanted,
              subst (λ o. Deploys C.helm laws ns "chaos" "litmuschaos/litmus" (some u) o.1)
                  (sym (eq ∙ step))
                  (subst
                    (λ x.
                      Deploys C.helm laws x.namespace x.release_name x.chart_ref x.values
                        (install m t).1)
                    (sym same) there),
            )
      ]

  -- Litmus is there, with the values that its tool asks for.
  abbrev LitmusInstalled : String → Tool → C.State → Type 0
  LitmusInstalled ns tool t =
      (u : Fields) × LitmusValues C ns tool u
      × (d : Deploys C.helm laws ns "chaos" "litmuschaos/litmus" (some u) t) × (d.values ≡ some u)

  litmus-Installed :
      (tool : Tool) (s : C.State)
      → (install_litmus C tool s).0 ≡ returned tt
      → LitmusInstalled
          (resolved_namespace tool.spec.namespace "litmus")
          tool
          (install_litmus C tool s).1
  litmus-Installed tool s h =
      let (u, wanted, there) = install_litmus-Deploys tool s h in
      (
        u,
        wanted,
        there,
        elim there.given [
          | inl same ↦ same
          | inr blank ↦ absurd (
              LitmusValues-blank C (resolved_namespace tool.spec.namespace "litmus") tool u wanted
                blank)
        ],
      )

  -- The release of a tool is there, with its chart, and for Litmus with the values asked for.
  abbrev pub Installed : Tool → C.State → Type 0
  Installed tool t =
      if tool.spec.type == tool_falco
      then Deploys C.helm laws (resolved_namespace tool.spec.namespace "falco") "falco"
          "falcosecurity/falco" none t
      else if tool.spec.type == tool_litmus
      then LitmusInstalled (resolved_namespace tool.spec.namespace "litmus") tool t
      else Deploys C.helm laws (resolved_namespace tool.spec.namespace "trivy-system")
          "trivy-operator" "aqua/trivy-operator" none t

  -- An install of a tool that returned has left the tool's release.
  pub ensure_installed-Installed :
      (tool : Tool) (svc : ToolService C.State) (s : C.State)
      → new_tool_service C tool ≡ ok svc
      → (svc.ensure_installed tool s).0 ≡ returned tt
      → Installed tool (svc.ensure_installed tool s).1
  unfolding trivy_service falco_service litmus_service
  ensure_installed-Installed tool svc s chosen h = elim (service-cases C tool svc chosen) [
    | inl (f, same) ↦ rw (f, same) (install_plain-Deploys _ _ _ _ s (rw same at h))
    | inr (inl (f, l, same)) ↦ rw (f, l, same) (litmus-Installed tool s (rw same at h))
    | inr (inr (f, l, same)) ↦ rw (f, l, same) (install_plain-Deploys _ _ _ _ s (rw same at h))
  ]

  -- Only the releases count.
  abbrev pub SameReleases : C.State → C.State → Type 0
  SameReleases s t = (ns name : String) → laws.deployed ns name t ≡ laws.deployed ns name s

  Deploys-same :
      (ns name ref : String) (v : Option Fields) (s t : C.State)
      → SameReleases s t
      → Deploys C.helm laws ns name ref v s
      → Deploys C.helm laws ns name ref v t
  Deploys-same ns name ref v s t same d = record {
    chart = d.chart;
    values = d.values;
    there = same ns name ∙ d.there;
    loaded = d.loaded;
    given = d.given;
  }

  LitmusInstalled-same :
      (ns : String) (tool : Tool) (s t : C.State)
      → SameReleases s t
      → LitmusInstalled ns tool s
      → LitmusInstalled ns tool t
  unfolding Deploys-same
  LitmusInstalled-same ns tool s t same (u, wanted, d, values) =
      (u, wanted, Deploys-same ns "chaos" "litmuschaos/litmus" (some u) s t same d, values)

  pub Installed-same :
      (tool : Tool) (s t : C.State) → SameReleases s t → Installed tool s → Installed tool t
  Installed-same tool s t same h = elim (Bool-cases (tool.spec.type == tool_falco)) [
    | inl f ↦ rw f (Deploys-same _ _ _ none s t same (rw f at h))
    | inr f ↦ elim (Bool-cases (tool.spec.type == tool_litmus)) [
      | inl l ↦
          rw (f, l)
            (LitmusInstalled-same (resolved_namespace tool.spec.namespace "litmus") tool s t same
              (rw (f, l) at h))
      | inr l ↦ rw (f, l) (Deploys-same _ _ _ none s t same (rw (f, l) at h))
    ]
  ]
