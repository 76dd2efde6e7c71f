-- ===== src/Effect.antt =====
-- Go's control flow: errors as values, panics, and state passed through the calls. An `error` keeps
-- what the program asks of one: the API reason that `apierrors` reads through wrapping, and the text.
pub mod Calm
pub mod Ends
pub mod Keeps
pub mod Yields
use eirenyx.Base.{String, ◌<>◌, Bool, true, false, ◌≡◌, refl, ◌⊎◌, inl, inr, if◌then◌else◌}

-- `apierrors.IsNotFound`, `apierrors.IsAlreadyExists`, and every other error.
pub data Reason : Type 0 where
  not_found already_exists other : Reason

pub record Error : Type 0 where
  pub reason : Reason
  pub message : String

abbrev pub is_not_found : Error → Bool
is_not_found e = elim (e.reason) [ Reason.not_found ↦ true | _ ↦ false ]

abbrev pub is_already_exists : Error → Bool
is_already_exists e = elim (e.reason) [ Reason.already_exists ↦ true | _ ↦ false ]

-- `fmt.Errorf` with no wrapped error
abbrev pub errorf : String → Error
errorf text = record { reason = other; message = text }

-- `fmt.Errorf("...: %w", err)` and `errors.Wrap`
abbrev pub wrap : String → Error → Error
wrap text e = record e { message = text <> ": " <> e.message }

-- What a call outside the program returns.
pub data Result (A : Type 0) : Type 0 where
  ok : A → Result A
  err : Error → Result A

pub Result-cases :
    {A : Type 0} (r : Result A) → ((a : A) × (r ≡ ok a)) ⊎ ((e : Error) × (r ≡ err e))
Result-cases (ok a) = inl (a, refl)
Result-cases (err e) = inr (e, refl)

-- What a function of the program does: `panicked` is a nil dereference.
pub data Outcome (A : Type 0) : Type 0 where
  returned : A → Outcome A
  failed : Error → Outcome A
  panicked : Outcome A

abbrev pub Exec : Type 0 → Type 0 → Type 0
Exec S A = S → Outcome A × S

abbrev pub outcome : {A : Type 0} → Result A → Outcome A
outcome (ok a) = returned a
outcome (err e) = failed e

module _ {S A : Type 0} where
  unfoldable pub pure : A → Exec S A
  pure a s = (returned a, s)

  unfoldable pub fail : Error → Exec S A
  fail e s = (failed e, s)

  unfoldable pub panic : Exec S A
  panic s = (panicked, s)

  unfoldable pub lift : Result A → Exec S A
  lift r s = (outcome r, s)

  unfoldable pub read : (S → Result A) → Exec S A
  read f s = (outcome (f s), s)

  unfoldable pub call : (S → Result A × S) → Exec S A
  call f s = let (r, s') = f s in (outcome r, s')

-- How a run goes on from what a call came to, by its three ends.
unfoldable pub resume :
    {S A B : Type 0} → Outcome A × S → (Error → Exec S B) → (A → Exec S B) → Outcome B × S
resume (returned a, s) handler rest = rest a s
resume (failed e, s) handler rest = handler e s
resume (panicked, s) handler rest = (panicked, s)

-- `if v, err := m; err != nil { handler } else { rest }`
unfoldable pub catch : {S A B : Type 0} → Exec S A → (Error → Exec S B) → (A → Exec S B) → Exec S B
unfolding resume
catch m handler rest s = resume (m s) handler rest

infixl 5 ◌>>=◌ ◌>>◌
unfoldable pub ◌>>=◌ : {S A B : Type 0} → Exec S A → (A → Exec S B) → Exec S B
unfolding catch resume pure fail panic lift read call
m >>= rest = catch m fail rest

unfoldable pub ◌>>◌ : {S A B : Type 0} → Exec S A → Exec S B → Exec S B
unfolding ◌>>=◌
m >> k = m >>= λ _. k

-- `return fmt.Errorf("text: %w", err)` on failure
unfoldable pub wrapping : {S A : Type 0} → String → Exec S A → Exec S A
unfolding ◌>>=◌
wrapping text m = catch m (λ e. fail (wrap text e)) pure

-- `client.IgnoreNotFound(err)`: not found counts as success.
unfoldable pub ignore_not_found : {S : Type 0} → Exec S (Unit {0}) → Exec S (Unit {0})
unfolding ◌>>=◌
ignore_not_found m = catch m (λ e. if is_not_found e then pure tt else fail e) pure
