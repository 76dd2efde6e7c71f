-- ===== src/Effect/Keeps.antt =====
-- Invariants of the state with a rule for each combinator, and the inversion of a run that returned.
use eirenyx.Base.{
  Option, none, some, ◌≡◌, refl, ◌⊎◌, inl, inr, Bool, String, true, false, arith, if◌then◌else◌,
}
use eirenyx.Effect.{
  Exec, Error, Result, Outcome, returned, failed, panicked, pure, fail, panic, lift, read, call,
  resume, catch, ◌>>=◌, ◌>>◌, ignore_not_found, is_not_found, wrapping, wrap,
}

-- `m` keeps `P`, however it ends.
pub record Keeps {S A : Type 0} (P : S → Type 0) (m : Exec S A) : Type 0 where
  pub keeps_at : (s : S) → P s → P (m s).1

module _ {S : Type 0} {P : S → Type 0} where
  pub Keeps-pure : {A : Type 0} (a : A) → Keeps P (pure {S = S} a)
  unfolding pure
  Keeps-pure a = record { keeps_at = λ s h. h }

  pub Keeps-fail : {A : Type 0} (e : Error) → Keeps P (fail {S = S} {A = A} e)
  unfolding fail
  Keeps-fail e = record { keeps_at = λ s h. h }

  pub Keeps-panic : {A : Type 0} → Keeps P (panic {S = S} {A = A})
  unfolding panic
  Keeps-panic = record { keeps_at = λ s h. h }

  pub Keeps-lift : {A : Type 0} (r : Result A) → Keeps P (lift {S = S} r)
  unfolding lift
  Keeps-lift r = record { keeps_at = λ s h. h }

  pub Keeps-read : {A : Type 0} (f : S → Result A) → Keeps P (read f)
  unfolding read
  Keeps-read f = record { keeps_at = λ s h. h }

  pub Keeps-call :
      {A : Type 0} (f : S → Result A × S) → ((s : S) → P s → P (f s).1) → Keeps P (call f)
  unfolding call
  Keeps-call f k = record { keeps_at = k }

  pub Keeps-catch :
      {A B : Type 0} {m : Exec S A} {handler : Error → Exec S B} {rest : A → Exec S B}
      → Keeps P m
      → ((e : Error) → Keeps P (handler e))
      → ((a : A) → Keeps P (rest a))
      → Keeps P (catch m handler rest)
  unfolding catch resume
  Keeps-catch {A} {m} {handler} {rest} k f l = record {
    keeps_at = λ s h. after (m s) (k.keeps_at s h);
  }
    where
      after : (o : Outcome A × S) → P o.1 → P (resume o handler rest).1
      after (returned a, t) h = (l a).keeps_at t h
      after (failed e, t) h = (f e).keeps_at t h
      after (panicked, t) h = h

  pub Keeps-bind :
      {A B : Type 0} {m : Exec S A} {rest : A → Exec S B}
      → Keeps P m
      → ((a : A) → Keeps P (rest a))
      → Keeps P (m >>= rest)
  unfolding ◌>>=◌
  Keeps-bind k l = Keeps-catch k Keeps-fail l

  pub Keeps-if :
      {A : Type 0} (b : Bool) {m k : Exec S A}
      → Keeps P m
      → Keeps P k
      → Keeps P (if b then m else k)
  Keeps-if true h k = h
  Keeps-if false h k = k

  pub Keeps-option :
      {A B : Type 0} (o : Option A) {m : Exec S B} {f : A → Exec S B}
      → Keeps P m
      → ((a : A) → Keeps P (f a))
      → Keeps P (elim o [ none ↦ m | some a ↦ f a ])
  Keeps-option none k l = k
  Keeps-option (some a) k l = l a

  pub Keeps-then :
      {A B : Type 0} {m : Exec S A} {k : Exec S B} → Keeps P m → Keeps P k → Keeps P (m >> k)
  unfolding ◌>>◌
  Keeps-then k l = Keeps-bind k (λ _. l)

  pub Keeps-ignore : {m : Exec S (Unit {0})} → Keeps P m → Keeps P (ignore_not_found m)
  unfolding ignore_not_found
  Keeps-ignore k =
      Keeps-catch k (λ e. Keeps-if (is_not_found e) (Keeps-pure tt) (Keeps-fail e)) Keeps-pure

  pub Keeps-wrapping :
      {A : Type 0} (text : String) {m : Exec S A} → Keeps P m → Keeps P (wrapping text m)
  unfolding wrapping
  Keeps-wrapping text k = Keeps-catch k (λ e. Keeps-fail (wrap text e)) Keeps-pure

pub ruleset keeps_rules = (
  Keeps-wrapping, Keeps-pure, Keeps-fail, Keeps-panic, Keeps-lift, Keeps-read, Keeps-call,
  Keeps-catch, Keeps-bind, Keeps-then, Keeps-ignore, Keeps-if,
)

-- Inversion of a run that returned: the call before it returned or failed, and the rest returned.
pub catch-eq_returned :
    {S A B : Type 0} (o : Outcome A × S) (handler : Error → Exec S B) (rest : A → Exec S B) {b : B}
    → (resume o handler rest).0 ≡ returned b
    → ((a : A) × (o.0 ≡ returned a) × (resume o handler rest ≡ rest a o.1))
      ⊎ ((e : Error) × (o.0 ≡ failed e) × (resume o handler rest ≡ handler e o.1))
unfolding resume
catch-eq_returned (returned a, t) handler rest h = inl (a, refl, refl)
catch-eq_returned (failed e, t) handler rest h = inr (e, refl, refl)
catch-eq_returned (panicked, t) handler rest h = cc

pub bind-eq_returned :
    {S A B : Type 0} (m : Exec S A) (rest : A → Exec S B) (s : S) {b : B}
    → ((m >>= rest) s).0 ≡ returned b
    → (a : A) × ((m s).0 ≡ returned a)
      × ((m >>= rest) s ≡ rest a (m s).1)
      × ((rest a (m s).1).0 ≡ returned b)
unfolding ◌>>=◌
bind-eq_returned m rest s h = ground arith

pub then-eq_returned :
    {S A B : Type 0} (m : Exec S A) (k : Exec S B) (s : S) {b : B}
    → ((m >> k) s).0 ≡ returned b
    → (a : A) × ((m s).0 ≡ returned a) × ((m >> k) s ≡ k (m s).1) × ((k (m s).1).0 ≡ returned b)
unfolding ◌>>◌
then-eq_returned m k s h = ground arith
