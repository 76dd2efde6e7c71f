-- ===== src/Helm/Uninstalls.antt =====
-- internal/client/helm/manager.go, Uninstall: what is left of the release.
use mathlib.Core.Path.{subst}
use eirenyx.Base.{
  ◌≡◌, sym, ◌∙◌, String, true, false, Bool-cases, ◌⊎◌, inl, inr, none, arith, if◌then◌else◌,
}
use eirenyx.Base.Text.{has_text}
use eirenyx.Effect.{
  Error, Result-cases, err, returned, failed, Exec, pure, fail, read, call, catch, ◌>>◌,
}
use eirenyx.Effect.Ends.{then-eq_failed, read-eq_failed, call-eq_failed}
use eirenyx.Effect.Keeps.{then-eq_returned}
use eirenyx.Helm.{HelmSdk, Manager, settings, uninstall_release, is_absent_release}
use eirenyx.Helm.Releases.{ReleaseLaws}

-- The error does not speak of a release that is not there.
abbrev pub IsSilent : Error → Type 0
IsSilent e = has_text e.message "release: not found" ≡ false

-- The errors of the file system and of the configuration do not.
pub record SilentLaws {S : Type 0} (H : HelmSdk S) : Type 0 where
  pub cache_silent : (s : S) (e : Error) → (H.make_cache s).0 ≡ err e → IsSilent e
  pub create_silent : (s : S) (e : Error) → (H.create_config s).0 ≡ err e → IsSilent e
  pub init_silent : (ns : String) (s : S) (e : Error) → H.init_config ns s ≡ err e → IsSilent e

module _ {S : Type 0} (H : HelmSdk S) (laws : ReleaseLaws H) where
  -- The uninstall of the release in this state answers that it could not load it, for another reason
  -- than that there is none.
  abbrev pub Unloaded : String → String → S → Type 0
  Unloaded ns name s =
      (e : Error) × ((H.uninstall ns name s).0 ≡ err e)
      × IsSilent e
      × (has_text e.message "Release not loaded" ≡ true)

  -- An uninstall that returned has left no release, or its error was that of a release that could not
  -- be loaded.
  uninstall-returned :
      (ns name : String) (s : S)
      → (catch
          (call (H.uninstall ns name))
          (λ e. if is_absent_release e then pure tt else fail e)
          pure
          s).0
        ≡ returned tt
      → (laws.deployed ns name
            (catch
              (call (H.uninstall ns name))
              (λ e. if is_absent_release e then pure tt else fail e)
              pure
              s).1
          ≡ none)
        ⊎ Unloaded ns name s
  unfolding ◌>>◌ is_absent_release
  uninstall-returned ns name s h = elim (Result-cases (H.uninstall ns name s).0) [
    | inl (u, e) ↦ inl (ground (arith, laws.uninstalled ns name s))
    | inr (f, e) ↦ elim (Bool-cases (has_text f.message "release: not found")) [
      | inl absent ↦ inl (ground (arith, laws.not_found ns name s f e))
      | inr other ↦ inr (f, e, other, ground arith)
    ]
  ]

  pub uninstall_release-returned :
      (m : Manager) (s : S)
      → (uninstall_release H m s).0 ≡ returned tt
      → (laws.deployed m.namespace m.release_name (uninstall_release H m s).1 ≡ none)
        ⊎ Unloaded m.namespace m.release_name (settings H s).1
  unfolding uninstall_release read
  uninstall_release-returned m s h =
      let last : Exec S (Unit {0}) =
        catch (call (H.uninstall m.namespace m.release_name))
          (λ e. if is_absent_release e then pure tt else fail e) pure in
      let (_, _, eq1, h1) =
        then-eq_returned (settings H) (read (H.init_config m.namespace) >> last) s h in
      let t = (settings H s).1 in
      let (_, _, eq2, h2) = then-eq_returned (read (H.init_config m.namespace)) last t h1 in
      let u = (read (H.init_config m.namespace) t).1 in
      subst
        (λ o.
          (laws.deployed m.namespace m.release_name o.1 ≡ none)
          ⊎ Unloaded m.namespace m.release_name (settings H s).1)
        (sym (eq1 ∙ eq2)) (uninstall-returned m.namespace m.release_name u h2)

module _ {S : Type 0} (H : HelmSdk S) (silent : SilentLaws H) where
  created-IsSilent :
      (s : S) (e : Error)
      → ((if H.config_missing s then call H.create_config else pure tt) s).0 ≡ failed e
      → IsSilent e
  unfolding pure
  created-IsSilent s e h = elim (Bool-cases (H.config_missing s)) [
    | inl missing ↦ silent.create_silent s e (call-eq_failed H.create_config s (rw missing at h))
    | inr there ↦ absurd (ground arith)
  ]

  settings-IsSilent : (s : S) (e : Error) → (settings H s).0 ≡ failed e → IsSilent e
  unfolding settings
  settings-IsSilent s e h =
      let create : Exec S (Unit {0}) =
        λ t. (if H.config_missing t then call H.create_config else pure tt) t in
      elim (then-eq_failed (call H.make_cache) create s h) [
        | inl first ↦ silent.cache_silent s e (call-eq_failed H.make_cache s first)
        | inr later ↦ created-IsSilent (call H.make_cache s).1 e later
      ]

  uninstalled-IsSilent :
      (ns name : String) (s : S) (e : Error)
      → (catch
          (call (H.uninstall ns name))
          (λ x. if is_absent_release x then pure tt else fail x)
          pure
          s).0
        ≡ failed e
      → IsSilent e
  unfolding ◌>>◌ is_absent_release
  uninstalled-IsSilent ns name s e h = elim (Result-cases (H.uninstall ns name s).0) [
    | inl (u, f) ↦ absurd (ground arith)
    | inr (g, f) ↦ elim (Bool-cases (has_text g.message "release: not found")) [
      | inl absent ↦ absurd (ground arith)
      | inr other ↦ let same : g ≡ e = ground arith in subst IsSilent same other
    ]
  ]

  -- An uninstall that failed has not failed for want of a release.
  pub uninstall_release-IsSilent :
      (m : Manager) (s : S) (e : Error) → (uninstall_release H m s).0 ≡ failed e → IsSilent e
  unfolding uninstall_release
  uninstall_release-IsSilent m s e h =
      let last : Exec S (Unit {0}) =
        catch (call (H.uninstall m.namespace m.release_name))
          (λ x. if is_absent_release x then pure tt else fail x) pure in
      let init : Exec S (Unit {0}) = read (H.init_config m.namespace) in
      elim (then-eq_failed (settings H) (init >> last) s h) [
        | inl first ↦ settings-IsSilent s e first
        | inr later ↦ elim (then-eq_failed init last (settings H s).1 later) [
          | inl second ↦
              silent.init_silent m.namespace (settings H s).1 e
                (read-eq_failed (H.init_config m.namespace) (settings H s).1 second)
          | inr third ↦
              uninstalled-IsSilent m.namespace m.release_name (init (settings H s).1).1 e third
        ]
      ]
