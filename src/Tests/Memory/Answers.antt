-- ===== src/Tests/Memory/Answers.antt =====
-- The cluster in memory: what its writes leave behind, and that it answers.
use mathlib.Core.Path.{subst}
use eirenyx.Base.{
  ◌≡◌, refl, sym, ap, ◌∙◌, ◌⊎◌, inl, inr, true, ◌&&◌, Option, Option-cases, none, some, Bool-cases,
  arith, List, [], ◌∷◌, All, Any, entry, String, eq_iff,
}
use eirenyx.Effect.{Result, Result-cases, ok}
use eirenyx.Api.Meta.{Key, ObjectMeta, key_of, same_key}
use eirenyx.Cluster.{ListOptions}
use eirenyx.Cluster.Laws.{CreatesOnly, IsUp, ListLaws, Matches}
use eirenyx.Tests.Memory.{
  Place, table, find, select, has_labels, in_namespace, replace, remove, find-replace, same_key_iff,
  add, overwrite, drop, upsert, stored_at, stored-add, stored-drop, or_missing, key, missing,
}

module _ {A : Type 0} (meta : A → ObjectMeta) where
  labels_match :
      (want have : List (String × String))
      → All (λ (k, v). entry k have ≡ some v) want
      → has_labels meta want have ≡ true
  unfolding has_labels
  labels_match [] have h = refl
  labels_match ((k, v) ∷ want) have (h, hs) = ground (arith, labels_match want have hs, eq_iff v v)

  namespace_match :
      (o : ListOptions) (a : A) → Matches o (meta a) → in_namespace meta o.namespace a ≡ true
  namespace_match o a (h, _) = elim (Option-cases o.namespace) [
    | inl e ↦ ground arith
    | inr (ns, e) ↦ ground (arith, eq_iff (meta a).namespace ns)
  ]

  -- A stored object that matches is selected.
  select-Any :
      (o : ListOptions) (l : List A) (x : Key) (a : A)
      → find meta x l ≡ some a
      → Matches o (meta a)
      → Any (λ b. key_of (meta b) ≡ x) (select meta o l)
  unfolding find select
  select-Any o [] x a e m = cc
  select-Any o (b ∷ l) x a e m = elim (Bool-cases (same_key (key_of (meta b)) x)) [
    | inl hit ↦
        let same : b ≡ a = ground arith in
        let place = (same_key_iff (key_of (meta b)) x).0 hit in
        rw (same, namespace_match o a m, labels_match o.labels (meta a).labels m.1)
          (inl (ap (λ c. key_of (meta c)) (sym same) ∙ place))
    | inr other ↦
        elim (Bool-cases
          (in_namespace meta o.namespace b && has_labels meta o.labels (meta b).labels)) [
            | inl taken ↦ rw taken (inr (select-Any o l x a (ground arith) m))
            | inr left ↦ rw left (select-Any o l x a (ground arith) m)
          ]
  ]

  pub find-key : (x : Key) (l : List A) (a : A) → find meta x l ≡ some a → key_of (meta a) ≡ x
  unfolding find
  find-key x [] a e = cc
  find-key x (b ∷ l) a e = elim (Bool-cases (same_key (key_of (meta b)) x)) [
    | inl hit ↦ ground (arith, same_key_iff (key_of (meta b)) x)
    | inr other ↦ find-key x l a (ground arith)
  ]

module _ {S A : Type 0} (meta : A → ObjectMeta) (at : Place S A) where
  -- A view of the state that the table does not touch.
  module _ {V : Type 0} (view : S → V)
      (apart : (l : List A) (s : S) → view (at.put l s) ≡ view s) where
    add_apart : (a : A) (s : S) (o : Option A) → view (add meta at a s o).1 ≡ view s
    unfolding add
    add_apart a s none = apart _ s
    add_apart a s (some b) = refl

    overwrite_apart : (a : A) (s : S) (o : Option A) → view (overwrite meta at a s o).1 ≡ view s
    unfolding overwrite
    overwrite_apart a s none = refl
    overwrite_apart a s (some b) = apart _ s

    pub update_apart : (a : A) (s : S) → view ((table meta at).update a s).1 ≡ view s
    unfolding table
    update_apart a s = overwrite_apart a s (stored_at meta at (key meta at a) s)

    pub status_apart : (a : A) (s : S) → view ((table meta at).update_status a s).1 ≡ view s
    unfolding table
    status_apart a s = overwrite_apart a s (stored_at meta at (key meta at a) s)

    pub patch_apart : (a b : A) (s : S) → view ((table meta at).patch a b s).1 ≡ view s
    unfolding table
    patch_apart a b s = overwrite_apart b s (stored_at meta at (key meta at b) s)

    pub create_apart : (a : A) (s : S) → view ((table meta at).create a s).1 ≡ view s
    unfolding table
    create_apart a s = add_apart a s (stored_at meta at (key meta at a) s)

    pub delete_apart : (a : A) (s : S) → view ((table meta at).delete a s).1 ≡ view s
    unfolding table drop
    delete_apart a s = elim (Option-cases (stored_at meta at (key meta at a) s)) [
      | inl e ↦ ground arith
      | inr (b, e) ↦ ground (arith, apart (remove meta (key meta at a) (at.view s)) s)
    ]

    pub store_apart :
        (a : A) (f : A → Result A) (s : S)
        → view ((table meta at).create_or_update a f s).1 ≡ view s
    unfolding table upsert
    store_apart a f s = elim (Option-cases (stored_at meta at (key meta at a) s)) [
      | inl e ↦ elim (Result-cases (f a)) [
        | inl (b, g) ↦ ground (arith, add_apart b s none)
        | inr (x, g) ↦ ground arith
      ]
      | inr (b, e) ↦ elim (Result-cases (f b)) [
        | inl (c, g) ↦ ground (arith, overwrite_apart c s (some b))
        | inr (x, g) ↦ ground arith
      ]
    ]

  module _ (law : (l : List A) (s : S) → at.view (at.put l s) ≡ l) where
    -- What is stored after an update was stored before or is what was written.
    pub stored-update :
        (a : A) (s : S) (x : Key) (b : A)
        → (table meta at).stored x ((table meta at).update_status a s).1 ≡ some b
        → ((table meta at).stored x s ≡ some b) ⊎ ((b ≡ a) × (x ≡ key_of (meta a)))
    unfolding table overwrite
    stored-update a s x b h = elim (Option-cases (stored_at meta at (key meta at a) s)) [
      | inl e ↦ inl (ground arith)
      | inr (c, e) ↦ ground (
        arith,
        law (replace meta a (at.view s)) s,
        find-replace meta x a (at.view s),
        same_key_iff (key meta at a) x,
      )
    ]

    pub stored-create :
        (a : A) (s : S) (x : Key) (b : A)
        → (table meta at).stored x ((table meta at).create a s).1 ≡ some b
        → ((table meta at).stored x s ≡ some b) ⊎ ((b ≡ a) × (x ≡ key_of (meta a)))
    unfolding table add
    stored-create a s x b h = elim (Option-cases (stored_at meta at (key meta at a) s)) [
      | inl e ↦ elim (Option-cases (stored_at meta at x s)) [
        | inl g ↦
            inr (ground (arith, stored-add meta at law a s x e, same_key_iff (key meta at a) x))
        | inr (c, g) ↦ inl (ground (arith, stored-add meta at law a s x e))
      ]
      | inr (c, e) ↦ inl (ground arith)
    ]

    pub table-CreatesOnly : CreatesOnly meta (table meta at)
    table-CreatesOnly = record {
      create_only = λ a s x b h. elim (stored-create a s x b h) [
        | inl before ↦ inl before
        | inr (_, at_) ↦ inr at_
      ];
    }

    pub stored-delete :
        (a : A) (s : S) (x : Key) (b : A)
        → (table meta at).stored x ((table meta at).delete a s).1 ≡ some b
        → (table meta at).stored x s ≡ some b
    stored-delete a s x b h = ground (arith, stored-drop meta at law a s x)

    -- What is stored after `create_or_update` was stored before, is the created object, or is a stored
    -- one as the mutation made it.
    pub stored-store :
        (a : A) (f : A → A) (s : S) (x : Key) (b : A)
        → (table meta at).stored x ((table meta at).create_or_update a (λ r. ok (f r)) s).1 ≡ some b
        → ((table meta at).stored x s ≡ some b)
          ⊎ ((b ≡ f a) ⊎ ((c : A) × ((table meta at).stored x s ≡ some c) × (b ≡ f c)))
    unfolding table upsert overwrite
    stored-store a f s x b h = elim (Option-cases (stored_at meta at (key meta at a) s)) [
      | inl e ↦ elim (Bool-cases (same_key (key meta at (f a)) (key meta at a))) [
        | inr k ↦ inl (ground arith)
        | inl k ↦
            let same = (same_key_iff (key meta at (f a)) (key meta at a)).0 k in
            let free : stored_at meta at (key meta at (f a)) s ≡ none = rw same e in
            let now = stored-add meta at law (f a) s x free in
            elim (Option-cases (stored_at meta at x s)) [
              | inl g ↦ inr (inl (ground arith))
              | inr (c, g) ↦ inl (ground arith)
            ]
      ]
      | inr (c, e) ↦ elim (Bool-cases (same_key (key meta at (f c)) (key meta at a))) [
        | inr k ↦ inl (ground arith)
        | inl k ↦
            let same = (same_key_iff (key meta at (f c)) (key meta at a)).0 k in
            let now = find-replace meta x (f c) (at.view s) in
            let there = law (replace meta (f c) (at.view s)) s in
            elim (Bool-cases (same_key (key meta at (f c)) x)) [
              | inr other ↦ inl (ground arith)
              | inl hit ↦
                  let place = (same_key_iff (key meta at (f c)) x).0 hit in
                  let stored : stored_at meta at x s ≡ some c = rw (sym place, same) e in
                  inr (inr (c, stored, ground arith))
            ]
      ]
    ]

    pub table-ListLaws : ListLaws meta (table meta at)
    unfolding table
    table-ListLaws = record {
      list_complete = λ o s l x a listed stored m.
          let same : select meta o (at.view s) ≡ l = ground arith in
          subst (Any (λ b. key_of (meta b) ≡ x)) same (select-Any meta o (at.view s) x a stored m);
      stored_key = λ x s a stored. find-key meta x (at.view s) a stored;
      delete_marks = λ a s x b stored. (b, stored-delete a s x b stored, inl refl);
    }

  pub table-IsUp : IsUp meta (table meta at)
  unfolding table or_missing add
  table-IsUp = record {
    get_answers = λ x s. elim (Option-cases (stored_at meta at x s)) [
      | inl e ↦ inr (missing, ground arith, refl)
      | inr (b, e) ↦ inl (b, ground arith)
    ];
    get_missing = λ x s e h. elim (Option-cases (stored_at meta at x s)) [
      | inl g ↦ g
      | inr (b, g) ↦ ground arith
    ];
    create_answers = λ a s h. (a, ground arith);
  }
