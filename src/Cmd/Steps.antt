-- ===== src/Cmd/Steps.antt =====
-- cmd/main.go: the steps at which the program may exit.
use eirenyx.Base.{ℕ, ◌≡◌, refl, inl, inr, arith, ◌⊎◌}
use eirenyx.Effect.{
  Exec, Error, Outcome, Result, Result-cases, ok, err, returned, panic, pure, call, lift, catch,
}
use eirenyx.Cmd.{and_then, Exit, finished, exited, or_exit}

pub and_then-eq_ok :
    {A B : Type 0} (r : Result A) (f : A → Result B) {b : B}
    → and_then r f ≡ ok b
    → (a : A) × (r ≡ ok a) × (f a ≡ ok b)
and_then-eq_ok (ok a) f h = (a, refl, h)
and_then-eq_ok (err e) f h = cc

-- A step of `main` that did not end the program: its call was answered, and the rest ran after it.
pub or_exit-call :
    {S A : Type 0} (f : S → Result A × S) (rest : A → Exec S Exit) (s : S)
    → (or_exit (call f) rest s).0 ≡ returned finished
    → (a : A) × ((f s).0 ≡ ok a) × (or_exit (call f) rest s ≡ rest a (f s).1)
unfolding catch call pure
or_exit-call f rest s h = elim (Result-cases (f s).0) [
  | inl (a, e) ↦ (a, e, ground arith)
  | inr (x, e) ↦ ground arith
]

pub catch-call :
    {S A B : Type 0} (f : S → Result A × S) (g : Error → Exec S B) (rest : A → Exec S B) (s : S)
    (a : A)
    → (f s).0 ≡ ok a
    → catch (call f) g rest s ≡ rest a (f s).1
unfolding catch call
catch-call f g rest s a e = ground arith

pub catch-call_failed :
    {S A B : Type 0} (f : S → Result A × S) (g : Error → Exec S B) (rest : A → Exec S B) (s : S)
    (e : Error)
    → (f s).0 ≡ err e
    → catch (call f) g rest s ≡ g e (f s).1
unfolding catch call
catch-call_failed f g rest s e h = ground arith

-- A program that exits on a failed call is not finished.
pub catch-unfinished :
    {S A : Type 0} (f : S → Result A × S) (code : Error → ℕ) (rest : A → Exec S Exit) (s : S)
    (x : Error)
    → (f s).0 ≡ err x
    → (catch (call f) (λ e. pure (exited (code e))) rest s).0 ≡ returned finished
    → ⊥
unfolding catch call pure
catch-unfinished f code rest s x e h = ground arith

pub panic_unfinished : {S : Type 0} (s : S) → (panic s).0 ≡ returned finished → ⊥
unfolding panic
panic_unfinished s h = cc

pub or_exit-lift :
    {S A : Type 0} (r : Result A) (rest : A → Exec S Exit) (s : S)
    → (or_exit (lift r) rest s).0 ≡ returned finished
    → (a : A) × (or_exit (lift r) rest s ≡ rest a s)
unfolding catch lift pure
or_exit-lift r rest s h = elim (Result-cases r) [
  | inl (a, e) ↦ (a, ground arith)
  | inr (x, e) ↦ ground arith
]

pub pure_state : {S A : Type 0} (a : A) (s : S) → (pure a s).1 ≡ s
unfolding pure
pure_state a s = refl

-- The program has ended: its manager returned, or it exits with 1.
abbrev pub Ends : Outcome Exit → Type 0
Ends o = (o ≡ returned finished) ⊎ (o ≡ returned (exited 1))

pub or_exit-call-Ends :
    {S A : Type 0} (f : S → Result A × S) (rest : A → Exec S Exit)
    → ((a : A) (s : S) → Ends (rest a s).0)
    → (s : S) → Ends (or_exit (call f) rest s).0
unfolding catch call pure
or_exit-call-Ends f rest k s = elim (Result-cases (f s).0) [
  | inl (a, e) ↦ let end = k a (f s).1 in ground arith
  | inr (x, e) ↦ ground arith
]

pub or_exit-lift-Ends :
    {S A : Type 0} (r : Result A) (rest : A → Exec S Exit)
    → ((a : A) (s : S) → Ends (rest a s).0)
    → (s : S) → Ends (or_exit (lift r) rest s).0
unfolding catch lift pure
or_exit-lift-Ends r rest k s = elim (Result-cases r) [
  | inl (a, e) ↦ let end = k a s in ground arith
  | inr (x, e) ↦ ground arith
]
