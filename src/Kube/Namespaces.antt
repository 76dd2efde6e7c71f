-- ===== src/Kube/Namespaces.antt =====
-- internal/client/k8s/client.go: what the namespace helpers leave behind.
use eirenyx.Base.{◌≡◌, ◌≢◌, inl, inr, none, String, arith}
use eirenyx.Effect.{Error, returned, Result-cases, err, Reason, ◌>>◌}
use eirenyx.Api.Meta.{key_of}
use eirenyx.Api.Workload.{Namespace}
use eirenyx.Cluster.{Cluster}
use eirenyx.Cluster.Laws.{CreateLaws, DeleteLaws, IsFresh, IsGone, IsDone}
use eirenyx.Kube.{
  namespace_key, namespace_object, create_namespace, ensure_namespace, delete_namespace,
}

module _ (C : Cluster) (laws : CreateLaws Namespace.meta C.namespaces) where
  -- `create` answers "already exists" only where the object is there.
  abbrev pub RefusesExisting : Type 0
  RefusesExisting =
      (n : Namespace) (s : C.State)
      → (e : Error) → (C.namespaces.create n s).0 ≡ err e
      → e.reason ≡ Reason.already_exists
      → C.namespaces.stored (key_of n.meta) (C.namespaces.create n s).1 ≢ none

  -- When EnsureNamespace returns with no error the namespace is stored, whether it was there, was
  -- created, or was created by someone else in between.
  pub ensure_namespace_stored :
      IsFresh Namespace.meta C.namespaces
      → RefusesExisting
      → (ns : String) (s : C.State) → (ensure_namespace C ns s).0 ≡ returned tt
      → C.namespaces.stored (namespace_key ns) (ensure_namespace C ns s).1 ≢ none
  unfolding ensure_namespace create_namespace ◌>>◌
  ensure_namespace_stored fresh refuses ns s h =
      let o = namespace_object ns in
      elim (Result-cases (C.namespaces.get (namespace_key ns) s)) [
        | inl (a, e) ↦ ground (arith, fresh.get_fresh (namespace_key ns) s a e)
        | inr (f, e) ↦ elim (Result-cases (C.namespaces.create o s).0) [
          | inl (a, c) ↦ ground (arith, laws.create_stores o s a c)
          | inr (g, c) ↦ ground (arith, refuses o s g c)
        ]
      ]

-- When DeleteNamespace returns with no error the namespace is no longer stored or is marked for
-- deletion, also where it was not there.
delete_namespace-IsGone :
    (C : Cluster)
    → DeleteLaws Namespace.meta C.namespaces
    → (ns : String) (s : C.State) → (delete_namespace C ns s).0 ≡ returned tt
    → IsGone Namespace.meta C.namespaces (namespace_key ns) (delete_namespace C ns s).1
unfolding delete_namespace ◌>>◌
delete_namespace-IsGone C laws ns s h =
    let o = namespace_object ns in
    let done : IsDone (C.namespaces.delete o s).0 =
      elim (Result-cases (C.namespaces.delete o s).0) [
        | inl (a, c) ↦ rw c tt
        | inr (g, c) ↦ rw c (ground arith)
      ] in
    let same : (delete_namespace C ns s).1 ≡ (C.namespaces.delete o s).1 =
      elim (Result-cases (C.namespaces.delete o s).0) [
        | inl (a, c) ↦ ground arith
        | inr (g, c) ↦ ground arith
      ] in
    rw same (laws.delete_removes o s done)
