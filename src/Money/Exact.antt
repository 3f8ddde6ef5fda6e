-- ===== src/Money/Exact.antt =====
-- Sums and differences are exact or refused, for src/money/arithmetic.ts.
use ddd_kit_ts.Base.{
  ◌<◌, ◌≡◌, refl, sym, ap, ◌∙◌, ◌↔◌, ◌⊎◌, inl, inr, true, arith, ◌==◌, Bool-cases, ok, throws,
  ok-throws,
}
use mathlib.Core.Path.{subst}
use ddd_kit_ts.Base.JsString.{str_eq, str_eq_iff}
use ddd_kit_ts.Base.Int.{ℤ, ◌+ℤ◌, neg, magnitude, +ℤ-cancel, neg-neg}
use ddd_kit_ts.Money.Types.{MoneyError, Money, money_amount_limit}
use ddd_kit_ts.Money.Bounds.{IsMoney, of_minor_valid, of_minor_ok}
use ddd_kit_ts.Money.Arithmetic.{
  assert_same_unit, of_minor_like, add_money, subtract_money, negate_money,
}

-- Money in the unit of `m`.
abbrev pub with_amount : Money → ℤ → Money
with_amount m a = record { amount_minor = a; currency = m.currency; scale = m.scale }

abbrev pub SameUnit : Money → Money → Type 0
SameUnit a b = (a.currency ≡ b.currency) × (a.scale ≡ b.scale)

pub with_amount-IsMoney :
    (m : Money) (a : ℤ) → IsMoney m → magnitude a < money_amount_limit → IsMoney (with_amount m a)
with_amount-IsMoney m a v h = record {
  amount_bound = h;
  currency_valid = v.currency_valid;
  scale_bound = v.scale_bound;
}

pub of_minor_like_fits :
    (m : Money) (a : ℤ)
    → IsMoney m
    → magnitude a < money_amount_limit
    → of_minor_like m a ≡ ok (with_amount m a)
unfolding of_minor_like
of_minor_like_fits m a v h = of_minor_valid (with_amount m a) (with_amount-IsMoney m a v h)

pub of_minor_like_ok :
    (m : Money) (a : ℤ) (r : Money)
    → of_minor_like m a ≡ ok r
    → (magnitude a < money_amount_limit) × (r ≡ with_amount m a)
unfolding of_minor_like
of_minor_like_ok m a r h =
    let (bounds, e) = of_minor_ok a (m.currency) (m.scale) r h in
    (subst (λ x. magnitude (x.amount_minor) < money_amount_limit) e (bounds.amount_bound), e)

pub SameUnit-passes : (a b : Money) → SameUnit a b → assert_same_unit a b ≡ ok tt
unfolding assert_same_unit
SameUnit-passes a b (c, s) =
    let named : str_eq (a.currency) (b.currency) ≡ true = (str_eq_iff _ _).1 c in
    let scaled : (a.scale == b.scale) ≡ true = ground arith in rw (named, scaled) refl

pub SameUnit-cases :
    (a b : Money) → (SameUnit a b) ⊎ ((e : MoneyError) × (assert_same_unit a b ≡ throws e))
unfolding assert_same_unit
SameUnit-cases a b = elim (Bool-cases (str_eq (a.currency) (b.currency))) [
  | inr differs ↦ inr (MoneyError.currency_mismatch (a.currency) (b.currency), rw differs refl)
  | inl named ↦ elim (Bool-cases (a.scale == b.scale)) [
    | inr differs ↦ inr (MoneyError.scale_mismatch (a.scale) (b.scale), rw (named, differs) refl)
    | inl scaled ↦ inl ((str_eq_iff _ _).0 named, ground arith)
  ]
]

-- A sum with money within the bounds succeeds exactly if currency and scale agree and the exact
-- sum of the amounts is below the limit in absolute value, and then it is that sum in the same
-- unit.
pub add_money_iff :
    (a b r : Money)
    → IsMoney a
    → (add_money a b ≡ ok r) ↔ (
        (SameUnit a b)
        × (magnitude (a.amount_minor +ℤ b.amount_minor) < money_amount_limit)
        × (r ≡ with_amount a (a.amount_minor +ℤ b.amount_minor)))
unfolding add_money
add_money_iff a b r v = (
  (λ h. elim (SameUnit-cases a b) [
    | inl same ↦
        let sum =
          of_minor_like_ok a (a.amount_minor +ℤ b.amount_minor) r
            (rw (SameUnit-passes a b same) at h) in
        (same, sum.0, sum.1)
    | inr (e, refused) ↦ absurd (ok-throws e (sym (rw refused at h)))
  ]),
  (λ (same, fits, made).
      rw (SameUnit-passes a b same) (of_minor_like_fits a _ v fits ∙ ap ok (sym made))),
)

-- Subtracting what was added gives the money back.
pub subtract-add :
    (a b sum : Money) → IsMoney a → add_money a b ≡ ok sum → subtract_money sum b ≡ ok a
unfolding subtract_money of_minor_like
subtract-add a b sum v h =
    let (same, fits, made) = (add_money_iff a b sum v).0 h in
    let back : subtract_money (with_amount a (a.amount_minor +ℤ b.amount_minor)) b ≡ ok a =
      rw (SameUnit-passes (with_amount a (a.amount_minor +ℤ b.amount_minor)) b same) (
        rw (+ℤ-cancel (a.amount_minor) (b.amount_minor))
          (of_minor_like_fits a (a.amount_minor) v (v.amount_bound))) in
    subst (λ x. subtract_money x b ≡ ok a) (sym made) back

magnitude-neg : (a : ℤ) → magnitude (neg a) ≡ magnitude a
magnitude-neg a = ground arith

-- Negating money never fails, and negating it twice gives it back.
pub negate_twice :
    (m : Money) → IsMoney m → (n : Money) × (negate_money m ≡ ok n) × (negate_money n ≡ ok m)
unfolding negate_money of_minor_like
negate_twice m v =
    let fits : magnitude (neg (m.amount_minor)) < money_amount_limit =
      rw (magnitude-neg (m.amount_minor)) (v.amount_bound) in
    let back : of_minor_like m (neg (neg (m.amount_minor))) ≡ ok m =
      rw (neg-neg (m.amount_minor)) (of_minor_like_fits m _ v (v.amount_bound)) in
    (with_amount m (neg (m.amount_minor)), of_minor_like_fits m _ v fits, back)
