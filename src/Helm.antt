-- ===== src/Helm.antt =====
-- internal/client/helm: the wrapper of the Helm SDK. The SDK and the file system are a parameter.
pub mod Values
pub mod Merge
pub mod Paths
pub mod Releases
pub mod Uninstalls
use eirenyx.Base.{String, Bool, Option, none, some, ◌||◌, if◌then◌else◌}
use eirenyx.Base.Text.{has_text}
use eirenyx.Effect.{Error, Result, Exec, pure, fail, lift, read, call, catch, ◌>>=◌, ◌>>◌}
use eirenyx.Helm.Values.{Fields, end, deep_merge}

-- What the manager calls of Helm, of its repository file and of the file system under /tmp/helm.
-- `load_chart` is `LocateChart` with `helmloader.Load`.
pub record HelmSdk (S : Type 0) : Type 1 where
  pub RepoFile : Type 0
  pub Repo : Type 0
  pub Chart : Type 0
  pub make_cache : S → Result (Unit {0}) × S
  pub config_missing : S → Bool
  pub create_config : S → Result (Unit {0}) × S
  pub init_config : String → S → Result (Unit {0})
  pub load_repo_file : S → Result RepoFile
  pub has_repo : RepoFile → String → Bool
  pub update_repo : RepoFile → String → String → RepoFile
  pub write_repo_file : RepoFile → S → Result (Unit {0}) × S
  pub chart_repository : RepoFile → String → Result Repo
  pub download_index : Repo → S → Result (Unit {0}) × S
  pub load_chart : String → S → Result Chart
  pub get_release : String → String → S → Result (Unit {0})
  pub install : String → String → Chart → Option Fields → S → Result (Unit {0}) × S
  pub upgrade : String → String → Chart → Option Fields → S → Result (Unit {0}) × S
  pub uninstall : String → String → S → Result (Unit {0}) × S

-- Nil values are `none`.
pub record Manager : Type 0 where
  pub namespace : String
  pub repo_name : String
  pub repo_url : String
  pub chart_ref : String
  pub release_name : String
  pub values : Option Fields

abbrev pub new_admin_manager : String → String → String → String → String → Manager
new_admin_manager namespace repo_name repo_url chart_ref release_name = record {
  namespace = namespace;
  repo_name = repo_name;
  repo_url = repo_url;
  chart_ref = chart_ref;
  release_name = release_name;
  values = none;
}

abbrev pub new_delete_manager : String → String → Manager
new_delete_manager namespace release_name = record {
  namespace = namespace;
  repo_name = "";
  repo_url = "";
  chart_ref = "";
  release_name = release_name;
  values = none;
}

abbrev pub set_values : Fields → Manager → Manager
set_values values m = record m { values = some values }

unfoldable pub merge_values : Fields → Manager → Manager
merge_values user m = record m {
  values = some (deep_merge (elim (m.values) [ none ↦ end | some v ↦ v ]) user);
}

-- `IsReleaseNotFound`, of an error that is there.
unfoldable pub is_release_not_found : Error → Bool
is_release_not_found e = has_text e.message "release: not found"

-- The test of `Uninstall`.
unfoldable pub is_absent_release : Error → Bool
is_absent_release e =
    has_text e.message "release: not found" || has_text e.message "Release not loaded"

module _ {S : Type 0} (H : HelmSdk S) where
  unfoldable pub settings : Exec S (Unit {0})
  settings = do
    call H.make_cache
    λ s. (if H.config_missing s then call H.create_config else pure tt) s

  -- The repository file as it stands after the repository was added where it lacked it.
  unfoldable pub add_repo : Manager → H.RepoFile → Exec S H.RepoFile
  add_repo m file = if H.has_repo file m.repo_name then pure file else (do
    let added = H.update_repo file m.repo_name m.repo_url
    call (H.write_repo_file added)
    pure added)

  unfoldable pub ensure_repo : Manager → Exec S (Unit {0})
  ensure_repo m = do
    file ← read H.load_repo_file
    file' ← add_repo m file
    repo ← lift (H.chart_repository file' m.repo_name)
    call (H.download_index repo)

  unfoldable pub install_chart : Manager → Exec S (Unit {0})
  install_chart m = do
    chart ← read (H.load_chart m.chart_ref)
    call (H.install m.namespace m.release_name chart m.values)

  unfoldable pub upgrade_chart : Manager → Exec S (Unit {0})
  upgrade_chart m = do
    chart ← read (H.load_chart m.chart_ref)
    call (H.upgrade m.namespace m.release_name chart m.values)

  -- Any error of the lookup counts as "no release".
  unfoldable pub install_or_upgrade : Manager → Exec S (Unit {0})
  install_or_upgrade m = do
    settings
    ensure_repo m
    read (H.init_config m.namespace)
    catch (read (H.get_release m.namespace m.release_name)) (λ _. install_chart m)
        (λ _. upgrade_chart m)

  unfoldable pub uninstall_release : Manager → Exec S (Unit {0})
  uninstall_release m = do
    settings
    read (H.init_config m.namespace)
    catch (call (H.uninstall m.namespace m.release_name))
        (λ e. if is_absent_release e then pure tt else fail e) pure
