-- ===== src/Tests/Memory/Stores.antt =====
-- The cluster in memory: `create_or_update`.
use eirenyx.Base.{
  ◌≡◌, ◌≢◌, ◌⊎◌, sym, ap, ◌∙◌, inl, inr, false, Option-cases, none, some, Bool-cases, arith, List,
}
use eirenyx.Effect.{ok}
use eirenyx.Api.Meta.{Key, ObjectMeta, same_key}
use eirenyx.Cluster.Laws.{StoreLaws}
use eirenyx.Tests.Memory.{
  Place, table, replace, find-replace, same_key_iff, add, overwrite, upsert, stored_at, stored-add,
  key,
}

apart_key : (y x k : Key) → y ≡ k → x ≢ k → same_key y x ≡ false
apart_key y x k same h = elim (Bool-cases (same_key y x)) [
  | inl hit ↦ absurd (h (sym ((same_key_iff y x).0 hit) ∙ same))
  | inr miss ↦ miss
]

module _ {S A : Type 0} (meta : A → ObjectMeta) (at : Place S A)
    (law : (l : List A) (s : S) → at.view (at.put l s) ≡ l) where
  -- A `create_or_update` that succeeds wrote what the mutation made, under the key.
  stored-store_key :
      (a : A) (f : A → A) (s : S) (b : A)
      → ((table meta at).create_or_update a (λ r. ok (f r)) s).0 ≡ ok b
      → (c : A) × ((table meta at).stored
            (key meta at a)
            ((table meta at).create_or_update a (λ r. ok (f r)) s).1
          ≡ some (f c))
  unfolding table upsert overwrite add
  stored-store_key a f s b h = elim (Option-cases (stored_at meta at (key meta at a) s)) [
    | inl e ↦ elim (Bool-cases (same_key (key meta at (f a)) (key meta at a))) [
      | inr k ↦ ground arith
      | inl k ↦
          let same = (same_key_iff (key meta at (f a)) (key meta at a)).0 k in
          let free : stored_at meta at (key meta at (f a)) s ≡ none = rw same e in
          let now = stored-add meta at law (f a) s (key meta at a) free in (a, ground arith)
    ]
    | inr (c, e) ↦ elim (Bool-cases (same_key (key meta at (f c)) (key meta at a))) [
      | inr k ↦ ground arith
      | inl k ↦
          let now = find-replace meta (key meta at a) (f c) (at.view s) in
          let there = law (replace meta (f c) (at.view s)) s in (c, ground arith)
    ]
  ]

  stored-store_elsewhere :
      (a : A) (f : A → A) (s : S) (x : Key)
      → x ≢ key meta at a
      → (table meta at).stored x ((table meta at).create_or_update a (λ r. ok (f r)) s).1
        ≡ (table meta at).stored x s
  unfolding table upsert overwrite add
  stored-store_elsewhere a f s x h = elim (Option-cases (stored_at meta at (key meta at a) s)) [
    | inl e ↦ elim (Bool-cases (same_key (key meta at (f a)) (key meta at a))) [
      | inr k ↦ ground arith
      | inl k ↦
          let same = (same_key_iff (key meta at (f a)) (key meta at a)).0 k in
          let free : stored_at meta at (key meta at (f a)) s ≡ none = rw same e in
          let now = stored-add meta at law (f a) s x free in
          let other = apart_key (key meta at (f a)) x (key meta at a) same h in
          elim (Option-cases (stored_at meta at x s)) [
            | inl g ↦ ground arith
            | inr (c, g) ↦ ground arith
          ]
    ]
    | inr (c, e) ↦ elim (Bool-cases (same_key (key meta at (f c)) (key meta at a))) [
      | inr k ↦ ground arith
      | inl k ↦
          let same = (same_key_iff (key meta at (f c)) (key meta at a)).0 k in
          let now = find-replace meta x (f c) (at.view s) in
          let there = law (replace meta (f c) (at.view s)) s in
          let other = apart_key (key meta at (f c)) x (key meta at a) same h in
          elim (Option-cases (stored_at meta at x s)) [
            | inl g ↦ ground arith
            | inr (d, g) ↦ ground arith
          ]
    ]
  ]

  -- What was stored under a key is so after a store, or is what the mutation made of it.
  pub store-stored :
      (a : A) (f : A → A) (s : S) (x : Key) (b : A)
      → (table meta at).stored x s ≡ some b
      → ((table meta at).stored x ((table meta at).create_or_update a (λ r. ok (f r)) s).1 ≡ some b)
        ⊎ ((table meta at).stored x ((table meta at).create_or_update a (λ r. ok (f r)) s).1
            ≡ some (f b))
  unfolding table upsert overwrite add
  store-stored a f s x b h = elim (Option-cases (stored_at meta at (key meta at a) s)) [
    | inl e ↦ elim (Bool-cases (same_key (key meta at (f a)) (key meta at a))) [
      | inr k ↦ inl (ground arith)
      | inl k ↦
          let same = (same_key_iff (key meta at (f a)) (key meta at a)).0 k in
          let free : stored_at meta at (key meta at (f a)) s ≡ none = rw same e in
          let now = stored-add meta at law (f a) s x free in inl (ground arith)
    ]
    | inr (c, e) ↦ elim (Bool-cases (same_key (key meta at (f c)) (key meta at a))) [
      | inr k ↦ inl (ground arith)
      | inl k ↦
          let now = find-replace meta x (f c) (at.view s) in
          let there = law (replace meta (f c) (at.view s)) s in
          elim (Bool-cases (same_key (key meta at (f c)) x)) [
            | inr apart ↦ inl (ground arith)
            | inl hit ↦
                let place : x ≡ key meta at a =
                  sym ((same_key_iff (key meta at (f c)) x).0 hit)
                  ∙ (same_key_iff (key meta at (f c)) (key meta at a)).0 k in
                let one : some c ≡ some b =
                  sym e ∙ (ap (λ y. stored_at meta at y s) (sym place) ∙ h) in
                inr (ground arith)
          ]
    ]
  ]

  pub table-StoreLaws :
      (Same : A → A → Type 0) → ((a : A) → Same a a) → StoreLaws meta (table meta at) Same
  table-StoreLaws Same reflexive = record {
    store_writes = λ a f s b h.
        let (c, stored) = stored-store_key a f s b h in (f c, c, stored, reflexive (f c));
    store_elsewhere = λ a f s x h. stored-store_elsewhere a f s x h;
  }
