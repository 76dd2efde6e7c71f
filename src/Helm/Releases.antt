-- ===== src/Helm/Releases.antt =====
-- internal/client/helm/manager.go: which releases an install, an upgrade or an uninstall leaves.
use mathlib.Core.Path.{subst}
use eirenyx.Base.{◌≡◌, refl, sym, ap, ◌∙◌, String, true, ◌⊎◌, inl, inr, Option, none, some}
use eirenyx.Base.Text.{has_text}
use eirenyx.Effect.{Error, Result-cases, ok, err, returned, Exec, read, call, catch, ◌>>◌}
use eirenyx.Effect.Ends.{
  catch-returned, catch-failed, read-ok, read-err, read-eq_returned, call-eq_returned, call_state,
}
use eirenyx.Effect.Keeps.{then-eq_returned}
use eirenyx.Helm.{
  HelmSdk, Manager, settings, ensure_repo, install_chart, upgrade_chart, install_or_upgrade,
}
use eirenyx.Helm.Values.{Fields, end, field}

-- No values are given.
abbrev pub IsBlank : Option Fields → Type 0
IsBlank none = Unit
IsBlank (some end) = Unit
IsBlank (some (field k v m)) = ⊥

-- What Helm documents of its releases: an install or an upgrade that succeeds leaves the chart with
-- the values, where an upgrade without values keeps those that the release has; an uninstall that
-- succeeds leaves no release, and one that says "release: not found" found none.
pub record ReleaseLaws {S : Type 0} (H : HelmSdk S) : Type 0 where
  pub deployed : String → String → S → Option (H.Chart × Option Fields)
  pub installed :
      (ns name : String) (c : H.Chart) (v : Option Fields) (s : S)
      → (H.install ns name c v s).0 ≡ ok tt
      → deployed ns name (H.install ns name c v s).1 ≡ some (c, v)
  pub upgraded :
      (ns name : String) (c : H.Chart) (v : Option Fields) (s : S)
      → (H.upgrade ns name c v s).0 ≡ ok tt
      → (w : Option Fields) × (deployed ns name (H.upgrade ns name c v s).1 ≡ some (c, w))
        × ((w ≡ v) ⊎ IsBlank v)
  pub uninstalled :
      (ns name : String) (s : S)
      → (H.uninstall ns name s).0 ≡ ok tt
      → deployed ns name (H.uninstall ns name s).1 ≡ none
  pub not_found :
      (ns name : String) (s : S) (e : Error)
      → (H.uninstall ns name s).0 ≡ err e
      → has_text e.message "release: not found" ≡ true
      → deployed ns name (H.uninstall ns name s).1 ≡ none

module _ {S : Type 0} (H : HelmSdk S) (laws : ReleaseLaws H) where
  -- The release is there, with the chart of this reference, and with these values if there are any.
  pub record Deploys (ns name ref : String) (v : Option Fields) (s : S) : Type 0 where
    pub chart : H.Chart
    pub values : Option Fields
    pub there : laws.deployed ns name s ≡ some (chart, values)
    pub loaded : (t : S) × (H.load_chart ref t ≡ ok chart)
    pub given : (values ≡ v) ⊎ IsBlank v

  install_chart-Deploys :
      (m : Manager) (s : S)
      → (install_chart H m s).0 ≡ returned tt
      → Deploys m.namespace m.release_name m.chart_ref m.values (install_chart H m s).1
  unfolding install_chart
  install_chart-Deploys m s h =
      let run : H.Chart → Exec S (Unit {0}) =
        λ c. call (H.install m.namespace m.release_name c m.values) in
      let (c, loaded, eq) = read-eq_returned (H.load_chart m.chart_ref) run s h in
      let done =
        call-eq_returned (H.install m.namespace m.release_name c m.values) s
          (ap (λ o. o.0) (sym eq) ∙ h) in
      subst (λ o. Deploys m.namespace m.release_name m.chart_ref m.values o.1) (sym eq)
        (record {
          chart = c;
          values = m.values;
          there =
              ap (laws.deployed m.namespace m.release_name)
                (call_state (H.install m.namespace m.release_name c m.values) s)
              ∙ laws.installed m.namespace m.release_name c m.values s done;
          loaded = (s, loaded);
          given = inl refl;
        })

  upgrade_chart-Deploys :
      (m : Manager) (s : S)
      → (upgrade_chart H m s).0 ≡ returned tt
      → Deploys m.namespace m.release_name m.chart_ref m.values (upgrade_chart H m s).1
  unfolding upgrade_chart
  upgrade_chart-Deploys m s h =
      let run : H.Chart → Exec S (Unit {0}) =
        λ c. call (H.upgrade m.namespace m.release_name c m.values) in
      let (c, loaded, eq) = read-eq_returned (H.load_chart m.chart_ref) run s h in
      let done =
        call-eq_returned (H.upgrade m.namespace m.release_name c m.values) s
          (ap (λ o. o.0) (sym eq) ∙ h) in
      let (w, there, given) = laws.upgraded m.namespace m.release_name c m.values s done in
      subst (λ o. Deploys m.namespace m.release_name m.chart_ref m.values o.1) (sym eq)
        (record {
          chart = c;
          values = w;
          there =
              ap (laws.deployed m.namespace m.release_name)
                (call_state (H.upgrade m.namespace m.release_name c m.values) s)
              ∙ there;
          loaded = (s, loaded);
          given = given;
        })

  -- Install or upgrade, as the lookup of the release says.
  chosen-Deploys :
      (m : Manager) (s : S)
      → (catch
          (read (H.get_release m.namespace m.release_name))
          (λ _. install_chart H m)
          (λ _. upgrade_chart H m)
          s).0
        ≡ returned tt
      → Deploys m.namespace m.release_name m.chart_ref m.values
          (catch
            (read (H.get_release m.namespace m.release_name))
            (λ _. install_chart H m)
            (λ _. upgrade_chart H m)
            s).1
  chosen-Deploys m s h =
      let get = H.get_release m.namespace m.release_name in
      let D : S → Type 0 = λ t. Deploys m.namespace m.release_name m.chart_ref m.values t in
      elim (Result-cases (get s)) [
        | inl (u, e) ↦
            let eq =
              catch-returned (read get) s (λ _. install_chart H m) (λ _. upgrade_chart H m)
                (read-ok get s e) in
            subst (λ o. D o.1) (sym eq) (upgrade_chart-Deploys m s (ap (λ o. o.0) (sym eq) ∙ h))
        | inr (f, e) ↦
            let eq =
              catch-failed (read get) s (λ _. install_chart H m) (λ _. upgrade_chart H m)
                (read-err get s e) in
            subst (λ o. D o.1) (sym eq) (install_chart-Deploys m s (ap (λ o. o.0) (sym eq) ∙ h))
      ]

  -- An install that returned has left the release.
  pub install_or_upgrade-Deploys :
      (m : Manager) (s : S)
      → (install_or_upgrade H m s).0 ≡ returned tt
      → Deploys m.namespace m.release_name m.chart_ref m.values (install_or_upgrade H m s).1
  unfolding install_or_upgrade
  install_or_upgrade-Deploys m s h =
      let last : Exec S (Unit {0}) =
        catch (read (H.get_release m.namespace m.release_name)) (λ _. install_chart H m)
          (λ _. upgrade_chart H m) in
      let third : Exec S (Unit {0}) = read (H.init_config m.namespace) >> last in
      let (_, _, eq1, h1) = then-eq_returned (settings H) (ensure_repo H m >> third) s h in
      let t = (settings H s).1 in
      let (_, _, eq2, h2) = then-eq_returned (ensure_repo H m) third t h1 in
      let u = (ensure_repo H m t).1 in
      let (_, _, eq3, h3) = then-eq_returned (read (H.init_config m.namespace)) last u h2 in
      let v = (read (H.init_config m.namespace) u).1 in
      subst (λ o. Deploys m.namespace m.release_name m.chart_ref m.values o.1)
        (sym (eq1 ∙ (eq2 ∙ eq3))) (chosen-Deploys m v h3)
