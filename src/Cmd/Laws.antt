-- ===== src/Cmd/Laws.antt =====
-- What controller-runtime documents of the manager and of the scheme that cmd/main.go makes.
use eirenyx.Base.{String, true, ◌≡◌, List, [], ◌∷◌, ◌++◌, All}
use eirenyx.Effect.{ok}
use eirenyx.Api.Scheme.{GroupVersion, GroupVersionKind, SchemeLib}
use eirenyx.Controller.Setup.{Registration}
use eirenyx.Cmd.{Runtime, ManagerOptions}

-- What a manager was told, as controller-runtime documents it: a new one has been told nothing but its
-- options, and each call that succeeds adds its own.
pub record ManagerLaws (R : Runtime) : Type 0 where
  pub options : R.Manager → ManagerOptions R.Tls (R.schemes.Scheme)
  pub controllers : R.Manager → R.State → List Registration
  pub healthz : R.Manager → R.State → List String
  pub readyz : R.Manager → R.State → List String
  pub made :
      (cfg : R.RestConfig) (o : ManagerOptions R.Tls (R.schemes.Scheme)) (s : R.State)
      (m : R.Manager)
      → (R.new_manager cfg o s).0 ≡ ok m
      → (options m ≡ o)
        × (controllers m (R.new_manager cfg o s).1 ≡ [])
        × (healthz m (R.new_manager cfg o s).1 ≡ [])
        × (readyz m (R.new_manager cfg o s).1 ≡ [])
  pub completed :
      (m : R.Manager) (r : Registration) (s : R.State)
      → (R.complete m r s).0 ≡ ok tt
      → (controllers m (R.complete m r s).1 ≡ controllers m s ++ (r ∷ []))
        × (healthz m (R.complete m r s).1 ≡ healthz m s)
        × (readyz m (R.complete m r s).1 ≡ readyz m s)
  pub healthz_added :
      (m : R.Manager) (name : String) (s : R.State)
      → (R.add_healthz_check m name s).0 ≡ ok tt
      → (controllers m (R.add_healthz_check m name s).1 ≡ controllers m s)
        × (healthz m (R.add_healthz_check m name s).1 ≡ healthz m s ++ (name ∷ []))
        × (readyz m (R.add_healthz_check m name s).1 ≡ readyz m s)
  pub readyz_added :
      (m : R.Manager) (name : String) (s : R.State)
      → (R.add_readyz_check m name s).0 ≡ ok tt
      → (controllers m (R.add_readyz_check m name s).1 ≡ controllers m s)
        × (healthz m (R.add_readyz_check m name s).1 ≡ healthz m s)
        × (readyz m (R.add_readyz_check m name s).1 ≡ readyz m s ++ (name ∷ []))

-- `AddKnownTypes`: the kinds that were added are recognized, and the Trivy operator's come on top.
pub record SchemeLaws (L : SchemeLib) : Type 0 where
  pub added :
      (gv : GroupVersion) (kinds : List String) (s t : L.Scheme)
      → L.add_kinds gv kinds s ≡ ok t
      → All (λ kind. L.recognizes t (record { group_version = gv; kind = kind }) ≡ true) kinds
  pub aqua_keeps :
      (s t : L.Scheme) (k : GroupVersionKind)
      → L.add_aqua s ≡ ok t
      → L.recognizes s k ≡ true
      → L.recognizes t k ≡ true
