-- ===== src/Base/Results.antt =====
-- What a call of a method gives back: a value, or the error that it throws.
use mathlib.Core.Path.{◌≡◌, refl}
use mathlib.Core.Logic.{◌⊎◌, inl, inr}
use mathlib.Core.Option.{Option, none, some}

pub data Outcome {ℓ κ} (E : Type ℓ) (A : Type κ) : Type (ℓ ⊔ κ) where
  ok : A → Outcome E A
  throws : E → Outcome E A

infixl 5 ◌>>=◌
abbrev pub ◌>>=◌ {ℓ κ μ} :
    {E : Type ℓ} {A : Type κ} {B : Type μ} → Outcome E A → (A → Outcome E B) → Outcome E B
ok a >>= f = f a
throws e >>= f = throws e

-- `o ?? d` in the source.
abbrev pub get_or {ℓ} : {A : Type ℓ} → Option A → A → A
get_or none d = d
get_or (some a) d = a

-- A chain that succeeds has a first call that succeeds.
pub bind_ok {ℓ κ μ} :
    {E : Type ℓ} {A : Type κ} {B : Type μ} (r : Outcome E A) (f : A → Outcome E B) (b : B)
    → (r >>= f) ≡ ok b
    → (a : A) × (r ≡ ok a) × (f a ≡ ok b)
bind_ok (ok a) f b h = (a, refl, h)
bind_ok (throws e) f b h = absurd (cc)

pub ok-inj {ℓ κ} : {E : Type ℓ} {A : Type κ} (a b : A) → Path (Outcome E A) (ok a) (ok b) → a ≡ b
ok-inj a b h = cc

pub Outcome-cases {ℓ κ} :
    {E : Type ℓ} {A : Type κ} (r : Outcome E A)
    → ((a : A) × (r ≡ ok a)) ⊎ ((e : E) × (r ≡ throws e))
Outcome-cases (ok a) = inl (a, refl)
Outcome-cases (throws e) = inr (e, refl)

pub throws-inj {ℓ κ} :
    {E : Type ℓ} {A : Type κ} (x y : E) → Path (Outcome E A) (throws x) (throws y) → x ≡ y
throws-inj x y h = cc

pub ok-throws {ℓ κ} :
    {E : Type ℓ} {A : Type κ} {a : A} (x : E) → Path (Outcome E A) (ok a) (throws x) → ⊥
ok-throws x h = cc
