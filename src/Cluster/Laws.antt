-- ===== src/Cluster/Laws.antt =====
-- What the documentation of the API server promises of one kind of object, as hypotheses. The laws
-- speak of what is stored, whatever the reads answer.
use eirenyx.Base.{List, All, Any, entry, ◌⊎◌, ◌≡◌, ◌≢◌, inl, inr, none, some, arith}
use eirenyx.Effect.{Error, Result, Result-cases, ok, err, Reason, returned, call, ignore_not_found}
use eirenyx.Api.Meta.{Key, ObjectMeta, key_of}
use eirenyx.Api.Policy.{Policy}
use eirenyx.Cluster.{Resource, ListOptions, Library}

-- A delete that went through, or that found nothing to delete.
abbrev pub IsDone : {A : Type 0} → Result A → Type 0
IsDone (ok a) = Unit
IsDone (err e) = e.reason ≡ Reason.not_found

-- A delete whose "not found" is ignored: it ends in the state of the call, and if it returns the
-- call is done.
pub ignore_not_found_state :
    {S : Type 0} (f : S → Result (Unit {0}) × S) (s : S) → (ignore_not_found (call f) s).1 ≡ (f s).1
unfolding ignore_not_found call
ignore_not_found_state f s = elim (Result-cases (f s).0) [
  | inl (a, e) ↦ ground arith
  | inr (e, h) ↦ ground arith
]

pub ignore_not_found-IsDone :
    {S : Type 0} (f : S → Result (Unit {0}) × S) (s : S)
    → (ignore_not_found (call f) s).0 ≡ returned tt
    → IsDone (f s).0
unfolding ignore_not_found call
ignore_not_found-IsDone f s h = elim (Result-cases (f s).0) [
  | inl (a, e) ↦ rw e tt
  | inr (d, e) ↦ rw e (ground arith)
]

-- The object is one that a list with these options asks for.
abbrev pub Matches : ListOptions → ObjectMeta → Type 0
Matches o m =
    (elim (o.namespace) [ none ↦ Unit {0} | some ns ↦ m.namespace ≡ ns ])
    × All (λ (k, v). entry k m.labels ≡ some v) o.labels

module _ {S A : Type 0} (meta : A → ObjectMeta) (r : Resource S A) where
  -- Whatever is still stored at the key is marked for deletion: it waits for its finalizers.
  abbrev pub IsGone : Key → S → Type 0
  IsGone x s = (a : A) → r.stored x s ≡ some a → (meta a).deletion_timestamp ≢ none

  -- `create` stores the object that it answers with, and never replaces one.
  pub record CreateLaws : Type 0 where
    pub create_stores :
        (a : A) (s : S) (b : A)
        → (r.create a s).0 ≡ ok b
        → r.stored (key_of (meta a)) (r.create a s).1 ≡ some b
    pub create_keeps :
        (a : A) (s : S) (x : Key) (b : A)
        → r.stored x s ≡ some b
        → r.stored x (r.create a s).1 ≡ some b

  -- After `delete` the object is gone or marked, and a delete brings nothing back.
  pub record DeleteLaws : Type 0 where
    pub delete_removes :
        (a : A) (s : S) → IsDone (r.delete a s).0 → IsGone (key_of (meta a)) (r.delete a s).1
    pub delete_keeps_gone : (a : A) (s : S) (x : Key) → IsGone x s → IsGone x (r.delete a s).1

  -- A read that answers, answers with what is stored.
  pub record IsFresh : Type 0 where
    pub get_fresh : (x : Key) (s : S) (a : A) → r.get x s ≡ ok a → r.stored x s ≡ some a

  -- `create` adds nothing but the object that it is given.
  pub record CreatesOnly : Type 0 where
    pub create_only :
        (a : A) (s : S) (x : Key) (b : A)
        → r.stored x (r.create a s).1 ≡ some b
        → (r.stored x s ≡ some b) ⊎ (x ≡ key_of (meta a))

  -- A list that answers holds every stored object that matches; objects stand under their keys; and
  -- a delete changes nothing but to remove objects or to mark them for deletion.
  pub record ListLaws : Type 0 where
    pub list_complete :
        (o : ListOptions) (s : S) (l : List A) (x : Key) (a : A)
        → r.list o s ≡ ok l
        → r.stored x s ≡ some a
        → Matches o (meta a)
        → Any (λ b. key_of (meta b) ≡ x) l
    pub stored_key : (x : Key) (s : S) (a : A) → r.stored x s ≡ some a → key_of (meta a) ≡ x
    pub delete_marks :
        (a : A) (s : S) (x : Key) (b : A)
        → r.stored x (r.delete a s).1 ≡ some b
        → (c : A) × (r.stored x s ≡ some c) × ((b ≡ c) ⊎ ((meta b).deletion_timestamp ≢ none))

  -- `CreateOrUpdate` that succeeds leaves an object under the key that is in `Same` to what the
  -- mutation made of the current one, or of the given one, and touches no other key.
  pub record StoreLaws (Same : A → A → Type 0) : Type 0 where
    pub store_writes :
        (a : A) (f : A → A) (s : S) (b : A)
        → (r.create_or_update a (λ x. ok (f x)) s).0 ≡ ok b
        → (e : A) × (current : A) × (r.stored
              (key_of (meta a))
              (r.create_or_update a (λ x. ok (f x)) s).1
            ≡ some e)
          × Same e (f current)
    pub store_elsewhere :
        (a : A) (f : A → A) (s : S) (x : Key)
        → x ≢ key_of (meta a)
        → r.stored x (r.create_or_update a (λ y. ok (f y)) s).1 ≡ r.stored x s

  -- A server that answers: a read finds the object or says that there is none, which is then so, and
  -- a create of an object that is not there succeeds.
  pub record IsUp : Type 0 where
    pub get_answers :
        (x : Key) (s : S)
        → ((a : A) × (r.get x s ≡ ok a))
          ⊎ ((e : Error) × (r.get x s ≡ err e) × (e.reason ≡ Reason.not_found))
    pub get_missing : (x : Key) (s : S) (e : Error) → r.get x s ≡ err e → r.stored x s ≡ none
    pub create_answers :
        (a : A) (s : S) → r.stored (key_of (meta a)) s ≡ none → (b : A) × ((r.create a s).0 ≡ ok b)

-- Setting an owner touches neither the name nor the namespace of the object that is owned.
pub record OwnerLaws (lib : Library) : Type 0 where
  pub controller_keeps_key :
      (p : Policy) (m m' : ObjectMeta)
      → lib.set_controller_reference p m ≡ ok m'
      → key_of m' ≡ key_of m

-- Setting an owner succeeds: the scheme knows the types.
pub record OwnerAnswers (lib : Library) : Type 0 where
  pub controller_answers :
      (p : Policy) (m : ObjectMeta) → (m' : ObjectMeta) × (lib.set_controller_reference p m ≡ ok m')
