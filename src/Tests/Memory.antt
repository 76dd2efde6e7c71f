-- ===== src/Tests/Memory.antt =====
-- A cluster in memory, to run the model and to show that the laws can hold. Each kind of object is
-- a list; a delete takes effect at once.
pub mod Answers
pub mod Stores
pub mod Writes
use eirenyx.Base.{
  ◌≡◌, refl, ◌↔◌, Bool, true, false, ◌&&◌, ◌==◌, eq_iff, inl, inr, Option, Option-cases, none, some,
  List, [], ◌∷◌, ◌++◌, String, arith, entry, if◌then◌else◌,
}
use eirenyx.Effect.{Error, Reason, Result, ok, err}
use eirenyx.Api.Meta.{Key, ObjectMeta, key_of, same_key}
use eirenyx.Cluster.{Resource, ListOptions}
use eirenyx.Cluster.Laws.{CreateLaws, DeleteLaws, IsFresh}

pub same_key_iff : (x y : Key) → (same_key x y ≡ true) ↔ (x ≡ y)
same_key_iff x y = ground (arith, eq_iff x.namespace y.namespace, eq_iff x.name y.name)

abbrev pub missing : Error
missing = record { reason = Reason.not_found; message = "not found" }

abbrev pub existing : Error
existing = record { reason = Reason.already_exists; message = "already exists" }

abbrev moved : Error
moved = record {
  reason = Reason.other;
  message = "MutateFn cannot mutate object name and/or object namespace";
}

module _ {A : Type 0} (meta : A → ObjectMeta) where
  unfoldable pub find : Key → List A → Option A
  find x [] = none
  find x (a ∷ l) = if same_key (key_of (meta a)) x then some a else find x l

  unfoldable pub replace : A → List A → List A
  replace a [] = []
  replace a (b ∷ l) =
      if same_key (key_of (meta b)) (key_of (meta a)) then a ∷ l else b ∷ replace a l

  unfoldable pub remove : Key → List A → List A
  remove x [] = []
  remove x (a ∷ l) =
      let rest = remove x l in if same_key (key_of (meta a)) x then rest else a ∷ rest

  abbrev pub has_label : String → String → List (String × String) → Bool
  has_label k v have = elim (entry k have) [ none ↦ false | some w ↦ w == v ]

  unfoldable pub has_labels : List (String × String) → List (String × String) → Bool
  has_labels [] have = true
  has_labels ((k, v) ∷ want) have = has_label k v have && has_labels want have

  abbrev in_namespace : Option String → A → Bool
  in_namespace o a = elim o [ none ↦ true | some ns ↦ (meta a).namespace == ns ]

  unfoldable pub select : ListOptions → List A → List A
  select o [] = []
  select o (a ∷ l) =
      let rest = select o l in
      if in_namespace o.namespace a && has_labels o.labels (meta a).labels then a ∷ rest else rest

  find-append :
      (x : Key) (l : List A) (a : A)
      → find x (l ++ (a ∷ [])) ≡ elim (find x l) [
        | some b ↦ some b
        | none ↦ if same_key (key_of (meta a)) x then some a else none
      ]
  unfolding find
  find-append x [] a = refl
  find-append x (b ∷ l) a = ground (arith, find-append x l a)

  find-remove :
      (x y : Key) (l : List A) → find x (remove y l) ≡ (if same_key y x then none else find x l)
  unfolding find remove
  find-remove x y [] = ground arith
  find-remove x y (a ∷ l) = ground (
    arith,
    same_key_iff (key_of (meta a)) y,
    same_key_iff (key_of (meta a)) x,
    same_key_iff y x,
    find-remove x y l,
  )

  pub find-replace :
      (x : Key) (a : A) (l : List A)
      → find x (replace a l) ≡ elim (find x l) [
        | some b ↦ if same_key (key_of (meta a)) x then some a else some b
        | none ↦ none
      ]
  unfolding find replace
  find-replace x a [] = refl
  find-replace x a (b ∷ l) = elim (Option-cases (find x l)) [
    | inl e ↦ ground (
      arith,
      find-replace x a l,
      same_key_iff (key_of (meta a)) x,
      same_key_iff (key_of (meta b)) x,
      same_key_iff (key_of (meta b)) (key_of (meta a)),
    )
    | inr (c, e) ↦ ground (
      arith,
      find-replace x a l,
      same_key_iff (key_of (meta a)) x,
      same_key_iff (key_of (meta b)) x,
      same_key_iff (key_of (meta b)) (key_of (meta a)),
    )
  ]

-- Where the objects of a kind lie in a state.
pub record Place (S A : Type 0) : Type 0 where
  pub view : S → List A
  pub put : List A → S → S

module _ {S A : Type 0} (meta : A → ObjectMeta) (at : Place S A) where
  or_missing : Option A → Result A
  or_missing none = err missing
  or_missing (some a) = ok a

  abbrev key : A → Key
  key a = key_of (meta a)

  add : A → S → Option A → Result A × S
  add a s none = (ok a, at.put (at.view s ++ (a ∷ [])) s)
  add a s (some b) = (err existing, s)

  overwrite : A → S → Option A → Result A × S
  overwrite a s none = (err missing, s)
  overwrite a s (some b) = (ok a, at.put (replace meta a (at.view s)) s)

  drop : A → S → Option A → Result (Unit {0}) × S
  drop a s none = (err missing, s)
  drop a s (some b) = (ok tt, at.put (remove meta (key a) (at.view s)) s)

  -- The mutation may change neither the name nor the namespace.
  upsert : (A → Result A) → A → S → Option A → Result A × S
  upsert f a s none = elim (f a) [
    | err e ↦ (err e, s)
    | ok b ↦ if same_key (key b) (key a) then add b s none else (err moved, s)
  ]
  upsert f a s (some b) = elim (f b) [
    | err e ↦ (err e, s)
    | ok c ↦ if same_key (key c) (key a) then overwrite c s (some b) else (err moved, s)
  ]

  abbrev pub stored_at : Key → S → Option A
  stored_at x s = find meta x (at.view s)

  unfoldable pub table : Resource S A
  unfolding find replace remove select has_labels or_missing add overwrite drop upsert
  table = record {
    get = λ x s. or_missing (stored_at x s);
    list = λ o s. ok (select meta o (at.view s));
    create = λ a s. add a s (stored_at (key a) s);
    update = λ a s. overwrite a s (stored_at (key a) s);
    update_status = λ a s. overwrite a s (stored_at (key a) s);
    patch = λ _ a s. overwrite a s (stored_at (key a) s);
    delete = λ a s. drop a s (stored_at (key a) s);
    create_or_update = λ a f s. upsert f a s (stored_at (key a) s);
    stored = stored_at;
  }

  module _ (law : (l : List A) (s : S) → at.view (at.put l s) ≡ l) where
    stored-add :
        (a : A) (s : S) (x : Key)
        → stored_at (key a) s ≡ none
        → stored_at x (add a s none).1 ≡ elim (stored_at x s) [
          | some b ↦ some b
          | none ↦ if same_key (key a) x then some a else none
        ]
    unfolding add
    stored-add a s x h = rw law (find-append meta x (at.view s) a)

    create_stores :
        (a : A) (s : S) (b : A)
        → (table.create a s).0 ≡ ok b
        → table.stored (key a) (table.create a s).1 ≡ some b
    unfolding table add find
    create_stores a s b h = elim (Option-cases (stored_at (key a) s)) [
      | inl e ↦ ground (arith, stored-add a s (key a) e, same_key_iff (key a) (key a))
      | inr (c, e) ↦ ground arith
    ]

    create_keeps :
        (a : A) (s : S) (x : Key) (b : A)
        → table.stored x s ≡ some b
        → table.stored x (table.create a s).1 ≡ some b
    unfolding table add
    create_keeps a s x b h = elim (Option-cases (stored_at (key a) s)) [
      | inl e ↦ ground (arith, stored-add a s x e)
      | inr (c, e) ↦ ground arith
    ]

    pub table-CreateLaws : CreateLaws meta table
    table-CreateLaws = record { create_stores = create_stores; create_keeps = create_keeps }

    stored-drop :
        (a : A) (s : S) (x : Key)
        → table.stored x (table.delete a s).1
          ≡ (if same_key (key a) x then none else table.stored x s)
    unfolding table drop
    stored-drop a s x = elim (Option-cases (stored_at (key a) s)) [
      | inl e ↦ ground (arith, same_key_iff (key a) x)
      | inr (b, e) ↦
          ground
            (arith, law (remove meta (key a) (at.view s)) s, find-remove meta x (key a) (at.view s))
    ]

    pub table-DeleteLaws : DeleteLaws meta table
    table-DeleteLaws = record {
      delete_removes =
          λ a s h b e. ground (arith, stored-drop a s (key a), same_key_iff (key a) (key a));
      delete_keeps_gone = λ a s x g b e. g b (ground (arith, stored-drop a s x));
    }

  pub table-IsFresh : IsFresh meta table
  unfolding table or_missing
  table-IsFresh = record {
    get_fresh = λ x s a h. elim (Option-cases (stored_at x s)) [
      | inl e ↦ ground arith
      | inr (b, e) ↦ ground arith
    ];
  }
