-- ===== src/Effect/Yields.antt =====
-- Invariants with a postcondition on the value that a run returns.
use eirenyx.Base.{◌≡◌, refl}
use eirenyx.Effect.{
  Exec, Error, Result, ok, err, Outcome, returned, failed, panicked, outcome, pure, fail, lift,
  read, resume, catch, ◌>>=◌,
}
use eirenyx.Effect.Keeps.{Keeps}

-- What `Q` says of the value, where there is one.
abbrev pub After : {A : Type 0} → (A → Type 0) → Outcome A → Type 0
After Q (returned a) = Q a
After Q (failed e) = Unit
After Q panicked = Unit

-- `m` keeps `P`, and a value that it returns satisfies `Q`.
pub record Yields {S A : Type 0} (P : S → Type 0) (Q : A → Type 0) (m : Exec S A) : Type 0 where
  pub yields_at : (s : S) → P s → P (m s).1 × After Q (m s).0

module _ {S A : Type 0} {P : S → Type 0} {Q : A → Type 0} where
  pub Yields-read :
      (f : S → Result A) → ((s : S) → P s → (a : A) → f s ≡ ok a → Q a) → Yields P Q (read f)
  unfolding read
  Yields-read f k = record { yields_at = λ s h. (h, after (f s) (k s h)) }
    where
      after : (r : Result A) → ((a : A) → r ≡ ok a → Q a) → After Q (outcome r)
      after (ok a) k = k a refl
      after (err e) k = tt

  pub Yields-pure : (a : A) → Q a → Yields P Q (pure {S = S} a)
  unfolding pure
  Yields-pure a q = record { yields_at = λ s h. (h, q) }

  pub Yields-fail : (e : Error) → Yields P Q (fail {S = S} e)
  unfolding fail
  Yields-fail e = record { yields_at = λ s h. (h, tt) }

  pub Yields-catch :
      {B : Type 0} {R : B → Type 0} {m : Exec S B} {handler : Error → Exec S A}
      {rest : B → Exec S A}
      → Yields P R m
      → ((e : Error) → Yields P Q (handler e))
      → ((b : B) → R b → Yields P Q (rest b))
      → Yields P Q (catch m handler rest)
  unfolding catch resume
  Yields-catch {B} {R} {m} {handler} {rest} k f l = record {
    yields_at = λ s h. after (m s) (k.yields_at s h);
  }
    where
      after :
          (o : Outcome B × S)
          → P o.1 × After R o.0
          → P (resume o handler rest).1 × After Q (resume o handler rest).0
      after (returned b, t) (h, r) = (l b r).yields_at t h
      after (failed e, t) (h, r) = (f e).yields_at t h
      after (panicked, t) (h, r) = (h, tt)

  pub Yields-bind :
      {B : Type 0} {R : B → Type 0} {m : Exec S B} {rest : B → Exec S A}
      → Yields P R m
      → ((b : B) → R b → Yields P Q (rest b))
      → Yields P Q (m >>= rest)
  unfolding ◌>>=◌
  Yields-bind k l = Yields-catch k Yields-fail l

  -- The rest of a run may use what the run before it yields.
  pub Keeps-catch_yield :
      {B : Type 0} {m : Exec S A} {handler : Error → Exec S B} {rest : A → Exec S B}
      → Yields P Q m
      → ((e : Error) → Keeps P (handler e))
      → ((a : A) → Q a → Keeps P (rest a))
      → Keeps P (catch m handler rest)
  unfolding catch resume
  Keeps-catch_yield {B} {m} {handler} {rest} k f l = record {
    keeps_at = λ s h. after (m s) (k.yields_at s h);
  }
    where
      after : (o : Outcome A × S) → P o.1 × After Q o.0 → P (resume o handler rest).1
      after (returned a, t) (h, q) = (l a q).keeps_at t h
      after (failed e, t) (h, q) = (f e).keeps_at t h
      after (panicked, t) (h, q) = h

-- The rest may use that the value comes from the call.
pub Keeps-catch-lift :
    {S A B : Type 0} {P : S → Type 0} (r : Result A) {handler : Error → Exec S B}
    {rest : A → Exec S B}
    → ((e : Error) → Keeps P (handler e))
    → ((a : A) → r ≡ ok a → Keeps P (rest a))
    → Keeps P (catch (lift r) handler rest)
unfolding catch resume lift
Keeps-catch-lift (ok a) f l = record { keeps_at = λ s h. (l a refl).keeps_at s h }
Keeps-catch-lift (err e) f l = record { keeps_at = λ s h. (f e).keeps_at s h }

-- A run that keeps `P` yields it, with nothing said of its value.
pub Yields-of_Keeps :
    {S A : Type 0} {P : S → Type 0} {m : Exec S A} → Keeps P m → Yields P (λ _. Unit {0}) m
Yields-of_Keeps {A = A} {m = m} k = record { yields_at = λ s h. (k.keeps_at s h, after (m s).0) }
  where
    after : (o : Outcome A) → After (λ _. Unit {0}) o
    after (returned a) = tt
    after (failed e) = tt
    after panicked = tt
