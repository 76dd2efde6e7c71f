-- ===== src/Tests/Memory/Writes.antt =====
-- The cluster in memory: writes that are taken, and the reads after them.
use eirenyx.Base.{◌≡◌, ap, ◌∙◌, inl, inr, Option-cases, none, arith, List}
use eirenyx.Effect.{Error, ok, err}
use eirenyx.Api.Meta.{Key, ObjectMeta}
use eirenyx.Tests.Memory.Answers.{find-key}
use eirenyx.Tests.Memory.{
  Place, find, table, replace, find-replace, same_key_iff, add, overwrite, upsert, or_missing,
  stored_at, stored-add, key,
}

module _ {S A : Type 0} (meta : A → ObjectMeta) (at : Place S A)
    (law : (l : List A) (s : S) → at.view (at.put l s) ≡ l) where
  pub store_missing :
      (a : A) (f : A → A) (s : S) (e : Error)
      → (table meta at).get (key meta at a) s ≡ err e
      → key meta at (f a) ≡ key meta at a
      → (((table meta at).create_or_update a (λ r. ok (f r)) s).0 ≡ ok (f a))
        × ((table meta at).get
              (key meta at a)
              ((table meta at).create_or_update a (λ r. ok (f r)) s).1
            ≡ ok (f a))
  unfolding table upsert add or_missing
  store_missing a f s e h same = elim (Option-cases (stored_at meta at (key meta at a) s)) [
    | inr (c, g) ↦ absurd (ground arith)
    | inl g ↦
        let hit = (same_key_iff (key meta at (f a)) (key meta at a)).1 same in
        let free : stored_at meta at (key meta at (f a)) s ≡ none = rw same g in
        let now = stored-add meta at law (f a) s (key meta at a) free in
        (ground arith, ground arith)
  ]

  pub status_taken :
      (a b : A) (s : S)
      → (table meta at).get (key meta at a) s ≡ ok b
      → (((table meta at).update_status a s).0 ≡ ok a)
        × ((table meta at).get (key meta at a) ((table meta at).update_status a s).1 ≡ ok a)
  unfolding table overwrite or_missing
  status_taken a b s h = elim (Option-cases (stored_at meta at (key meta at a) s)) [
    | inl g ↦ absurd (ground arith)
    | inr (c, g) ↦
        let hit = (same_key_iff (key meta at a) (key meta at a)) in
        let now = find-replace meta (key meta at a) a (at.view s) in
        let there = law (replace meta a (at.view s)) s in (ground arith, ground arith)
  ]

  pub store_answers :
      (a : A) (f : A → A) (s : S)
      → ((x : A) → key meta at (f x) ≡ key meta at x)
      → (b : A) × (((table meta at).create_or_update a (λ r. ok (f r)) s).0 ≡ ok b)
  unfolding table upsert add overwrite
  store_answers a f s same = elim (Option-cases (stored_at meta at (key meta at a) s)) [
    | inl g ↦
        let hit = (same_key_iff (key meta at (f a)) (key meta at a)).1 (same a) in
        (f a, ground arith)
    | inr (c, g) ↦
        let own = find-key meta (key meta at a) (at.view s) c g in
        let hit = (same_key_iff (key meta at (f c)) (key meta at a)).1 (same c ∙ own) in
        (f c, ground arith)
  ]

-- A read depends on the table alone.
pub get_apart :
    {S A : Type 0} (meta : A → ObjectMeta) (at : Place S A) (x : Key) (v w : S)
    → at.view v ≡ at.view w
    → (table meta at).get x v ≡ (table meta at).get x w
unfolding table or_missing
get_apart meta at x v w same = ap (λ l. or_missing meta at (find meta x l)) same
