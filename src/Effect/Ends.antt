-- ===== src/Effect/Ends.antt =====
-- How a run goes on once the end of its first part is known.
use eirenyx.Base.{◌≡◌, ◌⊎◌, refl, inl, inr, arith}
use eirenyx.Effect.{
  Exec, Error, Outcome, Result, ok, err, returned, failed, Result-cases, call, read, lift, fail,
  resume, catch, ◌>>=◌, ◌>>◌,
}

-- The run returned a value, of which `Q` holds.
abbrev pub Returns : {S A : Type 0} → (A → Type 0) → Outcome A × S → Type 0
Returns {A = A} Q o = (a : A) × (o.0 ≡ returned a) × Q a

module _ {S A B : Type 0} (m : Exec S A) (s : S) where
  pub catch-returned :
      (handler : Error → Exec S B) (rest : A → Exec S B) {a : A} {t : S}
      → m s ≡ (returned a, t)
      → catch m handler rest s ≡ rest a t
  unfolding catch resume
  catch-returned handler rest h = rw h refl

  pub catch-failed :
      (handler : Error → Exec S B) (rest : A → Exec S B) {e : Error} {t : S}
      → m s ≡ (failed e, t)
      → catch m handler rest s ≡ handler e t
  unfolding catch resume
  catch-failed handler rest h = rw h refl

  pub bind-returned :
      (rest : A → Exec S B) {a : A} {t : S} → m s ≡ (returned a, t) → (m >>= rest) s ≡ rest a t
  unfolding ◌>>=◌ resume
  bind-returned rest h = rw h refl

  pub bind-failed :
      (rest : A → Exec S B) {e : Error} {t : S}
      → m s ≡ (failed e, t)
      → (m >>= rest) s ≡ (failed e, t)
  unfolding ◌>>=◌ resume fail
  bind-failed rest h = rw h refl

module _ {S A : Type 0} where
  pub read-ok : (f : S → Result A) (s : S) {a : A} → f s ≡ ok a → read f s ≡ (returned a, s)
  unfolding read
  read-ok f s h = rw h refl

  pub read-err : (f : S → Result A) (s : S) {e : Error} → f s ≡ err e → read f s ≡ (failed e, s)
  unfolding read
  read-err f s h = rw h refl

  pub lift-ok : (r : Result A) (s : S) {a : A} → r ≡ ok a → lift r s ≡ (returned a, s)
  unfolding lift
  lift-ok r s h = rw h refl

  pub lift-err : (r : Result A) (s : S) {e : Error} → r ≡ err e → lift r s ≡ (failed e, s)
  unfolding lift
  lift-err r s h = rw h refl

-- Inversion of a run that returned.
pub read-eq_returned :
    {S A B : Type 0} (f : S → Result A) (rest : A → Exec S B) (s : S) {b : B}
    → ((read f >>= rest) s).0 ≡ returned b
    → (a : A) × (f s ≡ ok a) × ((read f >>= rest) s ≡ rest a s)
unfolding ◌>>=◌
read-eq_returned f rest s h = elim (Result-cases (f s)) [
  | inl (a, e) ↦ (a, e, ground arith)
  | inr (x, e) ↦ ground arith
]

pub call-eq_returned :
    {S A : Type 0} (f : S → Result A × S) (s : S) {a : A}
    → (call f s).0 ≡ returned a
    → (f s).0 ≡ ok a
unfolding call
call-eq_returned f s h = elim (Result-cases (f s).0) [
  | inl (a, e) ↦ ground arith
  | inr (x, e) ↦ ground arith
]

pub call_state : {S A : Type 0} (f : S → Result A × S) (s : S) → (call f s).1 ≡ (f s).1
unfolding call
call_state f s = refl

-- Inversion of a run that failed.
pub then-eq_failed :
    {S A B : Type 0} (m : Exec S A) (k : Exec S B) (s : S) {e : Error}
    → ((m >> k) s).0 ≡ failed e
    → ((m s).0 ≡ failed e) ⊎ ((k (m s).1).0 ≡ failed e)
unfolding ◌>>◌
then-eq_failed m k s h = ground arith

pub read-eq_failed :
    {S A : Type 0} (f : S → Result A) (s : S) {e : Error} → (read f s).0 ≡ failed e → f s ≡ err e
unfolding read
read-eq_failed f s h = elim (Result-cases (f s)) [
  | inl (a, e) ↦ ground arith
  | inr (x, e) ↦ ground arith
]

pub call-eq_failed :
    {S A : Type 0} (f : S → Result A × S) (s : S) {e : Error}
    → (call f s).0 ≡ failed e
    → (f s).0 ≡ err e
unfolding call
call-eq_failed f s h = elim (Result-cases (f s).0) [
  | inl (a, e) ↦ ground arith
  | inr (x, e) ↦ ground arith
]
