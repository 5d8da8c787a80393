-- ===== src/Base/Errors.antt =====
-- seekbase/_types.py: the exception classes, and results of code that may raise one of them.
-- The text of a message is left out, except where it crosses the wire (Wire).
use mathlib.Core.Logic.{◌⊎◌, inl, inr}
use mathlib.Core.Path.{◌≡◌, refl, subst}

-- `SeekbaseError` and its subclasses; `other` is any exception that is not a `SeekbaseError`.
pub data Error : Type 0 where
  seekbase_error seekbase_unavailable schema_error embedder_invalid : Error
  read_only_error query_error permission_denied not_found other : Error

pub data Result {ℓ} (A : Type ℓ) : Type ℓ where
  ok : (value : A) → Result A
  err : (raised : Error) → Result A

-- What a returned value satisfies; nothing is said of an error.
abbrev pub OnOk {ℓ κ} : {A : Type ℓ} → (A → Type κ) → Result A → Type κ
OnOk P (ok a) = P a
OnOk P (err e) = Unit

-- A call that may raise, and what is done with the value that it returns.
infixl 5 ◌>>=◌ ◌>>◌
abbrev pub ◌>>=◌ {κ ℓ} : {A : Type κ} → {B : Type ℓ} → Result A → (A → Result B) → Result B
err raised >>= then_do = err raised
ok value >>= then_do = then_do value

abbrev pub ◌>>◌ {ℓ} : {A : Type ℓ} → Result (Unit {0}) → Result A → Result A
first >> after = first >>= λ done. after

-- A value is returned only if the first call returned one.
pub >>=-eq-ok {κ ℓ} :
    {A : Type κ} {B : Type ℓ} (first : Result A) (then_do : A → Result B) {result : B}
    → first >>= then_do ≡ ok result
    → (value : A) × (first ≡ ok value) × (then_do value ≡ ok result)
>>=-eq-ok (err raised) then_do e = cc
>>=-eq-ok (ok value) then_do e = (value, refl, e)

pub OnOk-bind {ℓ κ μ} :
    {A : Type ℓ} {B : Type κ} (P : B → Type μ) (m : Result A) (f : A → Result B)
    → ((a : A) → m ≡ ok a → OnOk P (f a))
    → OnOk P (m >>= f)
OnOk-bind P (ok a) f h = h a refl
OnOk-bind P (err e) f h = tt

pub OnOk-ok {ℓ κ} : {A : Type ℓ} (P : A → Type κ) {m : Result A} {a : A} → m ≡ ok a → OnOk P m → P a
OnOk-ok P e h = subst (OnOk P) e h

pub OnOk-and {ℓ κ μ} :
    {A : Type ℓ} (P : A → Type κ) (Q : A → Type μ) (m : Result A)
    → OnOk P m
    → OnOk Q m
    → OnOk (λ a. P a × Q a) m
OnOk-and P Q (ok a) p q = (p, q)
OnOk-and P Q (err e) p q = tt

pub Result-cases {ℓ} :
    {A : Type ℓ} (r : Result A) → ((a : A) × (r ≡ ok a)) ⊎ ((e : Error) × (r ≡ err e))
Result-cases (ok a) = inl (a, refl)
Result-cases (err e) = inr (e, refl)
