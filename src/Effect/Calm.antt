-- ===== src/Effect/Calm.antt =====
-- Runs that end without a panic, with a rule for each combinator.
use eirenyx.Base.{Option, none, some, ◌≡◌, refl, ◌≢◌, Bool, String, true, false, if◌then◌else◌}
use eirenyx.Effect.{
  Exec, Error, Result, ok, err, Outcome, returned, failed, panicked, outcome, pure, fail, lift,
  read, call, resume, catch, ◌>>=◌, ◌>>◌, ignore_not_found, is_not_found, wrapping, wrap,
}

-- `m` never panics, whatever state it starts in.
pub record IsCalm {S A : Type 0} (m : Exec S A) : Type 0 where
  pub calm_at : (s : S) → (m s).0 ≢ panicked

outcome-calm : {A : Type 0} (r : Result A) → outcome r ≢ panicked
outcome-calm (ok a) h = cc
outcome-calm (err e) h = cc

-- A run goes on without a panic where neither the call nor what follows it panics.
pub resume-calm :
    {S A B : Type 0} (o : Outcome A × S) {handler : Error → Exec S B} {rest : A → Exec S B}
    → (o.0 ≢ panicked)
    → ((e : Error) → IsCalm (handler e))
    → ((a : A) → o.0 ≡ returned a → IsCalm (rest a))
    → (resume o handler rest).0 ≢ panicked
unfolding resume
resume-calm (returned a, t) h f l = (l a refl).calm_at t
resume-calm (failed e, t) h f l = (f e).calm_at t
resume-calm (panicked, t) h f l = absurd (h refl)

module _ {S : Type 0} where
  pub IsCalm-pure : {A : Type 0} (a : A) → IsCalm (pure {S = S} a)
  unfolding pure
  IsCalm-pure a = record { calm_at = λ s h. cc }

  pub IsCalm-fail : {A : Type 0} (e : Error) → IsCalm (fail {S = S} {A = A} e)
  unfolding fail
  IsCalm-fail e = record { calm_at = λ s h. cc }

  pub IsCalm-lift : {A : Type 0} (r : Result A) → IsCalm (lift {S = S} r)
  unfolding lift
  IsCalm-lift r = record { calm_at = λ s. outcome-calm r }

  pub IsCalm-read : {A : Type 0} (f : S → Result A) → IsCalm (read f)
  unfolding read
  IsCalm-read f = record { calm_at = λ s. outcome-calm (f s) }

  pub IsCalm-call : {A : Type 0} (f : S → Result A × S) → IsCalm (call f)
  unfolding call
  IsCalm-call f = record { calm_at = λ s. outcome-calm (f s).0 }

  pub IsCalm-catch :
      {A B : Type 0} {m : Exec S A} {handler : Error → Exec S B} {rest : A → Exec S B}
      → IsCalm m
      → ((e : Error) → IsCalm (handler e))
      → ((a : A) → IsCalm (rest a))
      → IsCalm (catch m handler rest)
  unfolding catch
  IsCalm-catch {m = m} k f l = record {
    calm_at = λ s. resume-calm (m s) (k.calm_at s) f (λ a _. l a);
  }

  -- The rest may rely on what the lifted result is.
  pub IsCalm-catch-lift :
      {A B : Type 0} (r : Result A) {handler : Error → Exec S B} {rest : A → Exec S B}
      → ((e : Error) → IsCalm (handler e))
      → ((a : A) → r ≡ ok a → IsCalm (rest a))
      → IsCalm (catch (lift r) handler rest)
  unfolding catch lift resume
  IsCalm-catch-lift (ok a) f l = record { calm_at = (l a refl).calm_at }
  IsCalm-catch-lift (err e) f l = record { calm_at = (f e).calm_at }

  pub IsCalm-bind :
      {A B : Type 0} {m : Exec S A} {rest : A → Exec S B}
      → IsCalm m
      → ((a : A) → IsCalm (rest a))
      → IsCalm (m >>= rest)
  unfolding ◌>>=◌
  IsCalm-bind k l = IsCalm-catch k IsCalm-fail l

  pub IsCalm-if :
      {A : Type 0} (b : Bool) {m k : Exec S A} → IsCalm m → IsCalm k → IsCalm (if b then m else k)
  IsCalm-if true h k = h
  IsCalm-if false h k = k

  -- The second branch may rely on the test.
  pub IsCalm-switch :
      {A : Type 0} (b : Bool) {m k : Exec S A}
      → IsCalm m
      → (b ≡ false → IsCalm k)
      → IsCalm (if b then m else k)
  IsCalm-switch true h k = h
  IsCalm-switch false h k = k refl

  pub IsCalm-option :
      {A B : Type 0} (o : Option A) {m : Exec S B} {f : A → Exec S B}
      → (o ≡ none → IsCalm m)
      → ((a : A) → IsCalm (f a))
      → IsCalm (elim o [ none ↦ m | some a ↦ f a ])
  IsCalm-option none k l = k refl
  IsCalm-option (some a) k l = l a

  pub IsCalm-then :
      {A B : Type 0} {m : Exec S A} {k : Exec S B} → IsCalm m → IsCalm k → IsCalm (m >> k)
  unfolding ◌>>◌
  IsCalm-then k l = IsCalm-bind k (λ _. l)

  pub IsCalm-ignore : {m : Exec S (Unit {0})} → IsCalm m → IsCalm (ignore_not_found m)
  unfolding ignore_not_found
  IsCalm-ignore k =
      IsCalm-catch k (λ e. IsCalm-if (is_not_found e) (IsCalm-pure tt) (IsCalm-fail e)) IsCalm-pure

  pub IsCalm-wrapping :
      {A : Type 0} (text : String) {m : Exec S A} → IsCalm m → IsCalm (wrapping text m)
  unfolding wrapping
  IsCalm-wrapping text k = IsCalm-catch k (λ e. IsCalm-fail (wrap text e)) IsCalm-pure

pub ruleset calm_rules = (
  IsCalm-wrapping, IsCalm-pure, IsCalm-fail, IsCalm-lift, IsCalm-read, IsCalm-call, IsCalm-catch,
  IsCalm-bind, IsCalm-then, IsCalm-ignore, IsCalm-if,
)
