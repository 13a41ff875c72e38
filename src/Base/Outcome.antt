-- ===== src/Base/Outcome.antt =====
-- Code that may raise: a value or an error, and the monad of both.
use mathlib.Core.Path.{◌≡◌, refl, subst}
use mathlib.Core.Option.{Option, none, some}
use mathlib.Core.Bool.{Bool, true, false}
use mathlib.Core.Logic.{◌↔◌, ◌⊎◌, inl, inr}

pub data Outcome {ℓ κ} (E : Type ℓ) (A : Type κ) : Type (ℓ ⊔ κ) where
  ok : A → Outcome E A
  err : E → Outcome E A

-- `raise e` unless the value is there.
abbrev pub or_raise {ℓ κ} : {E : Type ℓ} {A : Type κ} → Option A → E → Outcome E A
or_raise none e = err e
or_raise (some a) e = ok a

-- `if not test: raise e`
abbrev pub guard {ℓ} : {E : Type ℓ} → Bool → E → Outcome E (Unit {0})
guard false x = err x
guard true x = ok tt

abbrev pub ◌>>=◌ {ℓ κ μ} :
    {E : Type ℓ} {A : Type κ} {B : Type μ} → Outcome E A → (A → Outcome E B) → Outcome E B
err x >>= next = err x
ok v >>= next = next v

abbrev pub ◌>>◌ {ℓ κ} : {X : Type ℓ} {V : Type κ} → Outcome X (Unit {0}) → Outcome X V → Outcome X V
err x >> next = err x
ok done >> next = next

infixl 5 ◌>>=◌ ◌>>◌
-- A sequence succeeds exactly if both parts do.
pub >>-eq-ok {ℓ κ} :
    {E : Type ℓ} {B : Type κ} (m : Outcome E (Unit {0})) (k : Outcome E B) (b : B)
    → ((m >> k) ≡ ok b) ↔ ((m ≡ ok tt) × (k ≡ ok b))
>>-eq-ok (ok tt) k b = (λ h. (refl, h), λ h. h.1)
>>-eq-ok (err e) k b = (λ h. cc, λ h. cc)

pub guard-eq-ok {ℓ} : {E : Type ℓ} (b : Bool) (x : E) → (guard b x ≡ ok tt) ↔ (b ≡ true)
guard-eq-ok true x = (λ _. refl, λ _. refl)
guard-eq-ok false x = (λ h. cc, λ h. cc)

-- A value of a sequence comes from a value of its first part.
pub >>=-ok {ℓ κ μ} :
    {X : Type ℓ} {V : Type κ} {W : Type μ} (first : Outcome X V) (next : V → Outcome X W) {w : W}
    → (first >>= next) ≡ ok w
    → (v : V) × (first ≡ ok v) × (next v ≡ ok w)
>>=-ok (ok v) next came = (v, refl, came)
>>=-ok (err x) next came = cc

pub ok_inj {ℓ κ} : {E : Type ℓ} {A : Type κ} {a b : A} → ◌≡◌ {A = Outcome E A} (ok a) (ok b) → a ≡ b
ok_inj h = cc

pub Outcome-cases {ℓ κ} :
    {E : Type ℓ} {A : Type κ} (o : Outcome E A) → ((a : A) × (o ≡ ok a)) ⊎ ((e : E) × (o ≡ err e))
Outcome-cases (ok a) = inl (a, refl)
Outcome-cases (err e) = inr (e, refl)

pub or_raise-ok : {E A : Type 0} (o : Option A) (x : E) {a : A} → or_raise o x ≡ ok a → o ≡ some a
or_raise-ok none x h = cc
or_raise-ok (some b) x h = cc

-- Each result has a property.
abbrev pub Ensures {ℓ} : {E A : Type 0} → (A → Type ℓ) → Outcome E A → Type ℓ
Ensures Q o = (a : _) → o ≡ ok a → Q a

pub ok-Ensures : {E A : Type 0} (Q : A → Type 0) (a : A) → Q a → Ensures {E = E} Q (ok a)
ok-Ensures Q a h b same = subst Q (ok_inj same) h

pub >>=-Ensures :
    {E A B : Type 0} (Q : B → Type 0) (o : Outcome E A) (next : A → Outcome E B)
    → ((a : A) → o ≡ ok a → Ensures Q (next a))
    → Ensures Q (o >>= next)
>>=-Ensures Q (ok a) next h = h a refl
>>=-Ensures Q (err e) next h = λ b same. cc

pub >>-Ensures :
    {E B : Type 0} (Q : B → Type 0) (o : Outcome E (Unit {0})) (rest : Outcome E B)
    → Ensures Q rest
    → Ensures Q (o >> rest)
>>-Ensures Q (ok tt) rest h = h
>>-Ensures Q (err e) rest h = λ b same. cc

-- The code ends without an error.
abbrev pub Ends {ℓ κ} : {E : Type ℓ} {A : Type κ} → Outcome E A → Type (ℓ ⊔ κ)
Ends {E} {A} o = (a : A) × (o ≡ ok a)

pub or_raise-Ends : {E A : Type 0} (o : Option A) (x : E) {a : A} → o ≡ some a → Ends (or_raise o x)
or_raise-Ends o x {a} h = (a, rw h refl)

pub >>=-Ends :
    {E A B : Type 0} (o : Outcome E A) (next : A → Outcome E B)
    → ((a : A) → o ≡ ok a → Ends (next a))
    → Ends o
    → Ends (o >>= next)
>>=-Ends (ok a) next h e = h a refl
>>=-Ends (err x) next h e = cc

-- An error of a sequence comes from its first part, or from the rest after a value of it.
pub >>=-err :
    {E A B : Type 0} (o : Outcome E A) (next : A → Outcome E B) {x : E}
    → (o >>= next) ≡ err x
    → (o ≡ err x) ⊎ ((a : A) × (o ≡ ok a) × (next a ≡ err x))
>>=-err (ok a) next h = inr (a, refl, h)
>>=-err (err y) next h = inl (cc)
