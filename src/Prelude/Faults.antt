-- ===== src/Prelude/Faults.antt =====
-- Exceptions as values. What a state is after an exception is not kept: an exception in the engine
-- ends its thread (server/engine_worker.py).
use mathlib.Core.Path.{◌≡◌, refl, subst}
use mathlib.Core.Logic.{◌⊎◌, inl, inr}
use mathlib.Core.Bool.{Bool, true, false}
use mathlib.Core.Option.{Option, none, some}

pub data Fault : Type 0 where
  value_error out_of_memory key_error index_error assertion_error runtime_error : Fault
  zero_division_error : Fault
  -- The source would count below zero here, which the model does not follow.
  negative_counter : Fault

pub data Result {ℓ} (A : Type ℓ) : Type ℓ where
  err : (fault : Fault) → Result A
  ok : (value : A) → Result A

-- `if not test: raise fault`
abbrev pub guard : (test : Bool) (fault : Fault) → Result (Unit {0})
guard false fault = err fault
guard true fault = ok tt

infixl 5 ◌>>=◌
abbrev pub ◌>>=◌ {ℓ ℓ'} : {X : Type ℓ} {Y : Type ℓ'} → Result X → (next : X → Result Y) → Result Y
err fault >>= next = err fault
ok x >>= next = next x

infixl 5 ◌>>◌
abbrev pub ◌>>◌ {ℓ} : {Y : Type ℓ} → Result (Unit {0}) → Result Y → Result Y
test >> rest = test >>= (λ done. rest)

-- `raise e` where there is nothing
abbrev pub or_raise {ℓ} : {A : Type ℓ} → Option A → Fault → Result A
or_raise none e = err e
or_raise (some a) e = ok a

-- The value, or `d` in place of an exception.
abbrev pub value_or {ℓ} : {A : Type ℓ} → Result A → A → A
value_or (ok a) d = a
value_or (err e) d = d

-- What holds of the value, where there is one.
abbrev pub OnOk {ℓ} : {A : Type ℓ} → (A → Type 0) → Result A → Type 0
OnOk P (ok a) = P a
OnOk P (err e) = Unit

pub OnOk-use {ℓ} : {A : Type ℓ} (P : A → Type 0) (r : Result A) {a : A} → OnOk P r → r ≡ ok a → P a
OnOk-use P r h e = subst (OnOk P) e h

pub Result-cases {ℓ} :
    {A : Type ℓ} (r : Result A) → ((e : Fault) × (r ≡ err e)) ⊎ ((a : A) × (r ≡ ok a))
Result-cases (err e) = inl (e, refl)
Result-cases (ok a) = inr (a, refl)

-- The rule for a chain of steps.
pub OnOk-bind {ℓ κ} :
    {A : Type ℓ} {B : Type κ} (Q : A → Type 0) (P : B → Type 0) (m : Result A) (f : A → Result B)
    → OnOk Q m
    → ((a : A) → Q a → OnOk P (f a))
    → OnOk P (m >>= f)
OnOk-bind Q P (ok a) f h k = k a h
OnOk-bind Q P (err e) f h k = tt

pub OnOk-mono {ℓ} :
    {A : Type ℓ} (Q P : A → Type 0) (r : Result A) → ((a : A) → Q a → P a) → OnOk Q r → OnOk P r
OnOk-mono Q P (ok a) k h = k a h
OnOk-mono Q P (err e) k h = tt

pub OnOk-any {ℓ} : {A : Type ℓ} (r : Result A) → OnOk (λ a. Unit) r
OnOk-any (ok a) = tt
OnOk-any (err e) = tt

pub OnOk-both {ℓ} :
    {A : Type ℓ} (P Q : A → Type 0) (r : Result A) → OnOk P r → OnOk Q r → OnOk (λ a. P a × Q a) r
OnOk-both P Q (ok a) h k = (h, k)
OnOk-both P Q (err e) h k = tt

pub OnOk-self : {A : Type 0} (r : Result A) → OnOk (λ a. r ≡ ok a) r
OnOk-self (ok a) = refl
OnOk-self (err e) = tt

-- What a chain that returns `z` has gone through first.
abbrev pub Through {ℓ κ} : {X : Type ℓ} {Z : Type κ} → Result X → (X → Result Z) → Z → Type (ℓ ⊔ κ)
Through {X = X} call next z = (x : X) × (call ≡ ok x) × (next x ≡ ok z)

pub bind_ok {ℓ κ} :
    {X : Type ℓ} {Z : Type κ} {z : Z} (call : Result X) (next : X → Result Z)
    → (call >>= next) ≡ ok z
    → Through call next z
bind_ok (err fault) next returned = cc
bind_ok (ok x) next returned = (x, refl, returned)

pub guard_ok {ℓ} :
    {B : Type ℓ} (test : Bool) (e : Fault) (rest : Result B) {b : B}
    → (guard test e >> rest) ≡ ok b
    → (test ≡ true) × (rest ≡ ok b)
guard_ok true e rest h = (refl, h)
guard_ok false e rest h = cc

pub ok_inj {ℓ} : {A : Type ℓ} {a b : A} → ok a ≡ ok b → a ≡ b
ok_inj h = cc

pub OnOk-guard : (test : Bool) (e : Fault) → OnOk (λ u. test ≡ true) (guard test e)
OnOk-guard true e = refl
OnOk-guard false e = tt
