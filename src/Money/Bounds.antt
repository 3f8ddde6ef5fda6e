-- ===== src/Money/Bounds.antt =====
-- What the validation of money lets through, for src/money/money.ts.
use ddd_kit_ts.Base.{
  ℕ, ◌≤◌, ◌<◌, ◌≡◌, refl, sym, inl, inr, true, false, arith, Bool-cases, ok, throws, ok-inj,
  ok-throws,
}
use ddd_kit_ts.Base.JsString.{JsString}
use mathlib.Core.Path.{subst}
use ddd_kit_ts.Base.Int.{ℤ, magnitude}
use ddd_kit_ts.Money.Types.{
  JsValue, MoneyError, Money, money_amount_limit, max_money_scale, is_valid_amount,
  is_valid_currency, is_valid_scale, assert_valid_currency, assert_valid_scale, money_of_minor,
  is_money, assert_money, digits_value,
}

-- The bounds of a money value.
pub record IsMoney (m : Money) : Type 0 where
  pub amount_bound : magnitude (m.amount_minor) < money_amount_limit
  pub currency_valid : is_valid_currency (JsValue.string (m.currency)) ≡ true
  pub scale_bound : m.scale ≤ max_money_scale

pub amount_in_bounds :
    (a : ℤ) → magnitude a < money_amount_limit → is_valid_amount (JsValue.bigint a) ≡ true
unfolding is_valid_amount
amount_in_bounds a h = ground arith

pub amount_out_of_bounds :
    (a : ℤ) → money_amount_limit ≤ magnitude a → is_valid_amount (JsValue.bigint a) ≡ false
unfolding is_valid_amount
amount_out_of_bounds a h = ground arith

pub valid_amount_bound :
    (a : ℤ) → is_valid_amount (JsValue.bigint a) ≡ true → magnitude a < money_amount_limit
unfolding is_valid_amount
valid_amount_bound a h = ground arith

pub scale_in_bounds : (n : ℕ) → n ≤ max_money_scale → is_valid_scale (digits_value n) ≡ true
unfolding is_valid_scale
scale_in_bounds n h = ground arith

pub valid_scale_bound : (n : ℕ) → is_valid_scale (digits_value n) ≡ true → n ≤ max_money_scale
unfolding is_valid_scale
valid_scale_bound n h = ground arith

pub assert_scale : (n : ℕ) → n ≤ max_money_scale → assert_valid_scale (digits_value n) ≡ ok n
unfolding assert_valid_scale
assert_scale n h = rw (scale_in_bounds n h) refl

-- Parts within their bounds give the money that has them.
pub of_minor_valid :
    (m : Money)
    → IsMoney m
    → money_of_minor
        (JsValue.bigint (m.amount_minor))
        (JsValue.string (m.currency))
        (digits_value (m.scale))
      ≡ ok m
unfolding money_of_minor assert_valid_currency assert_valid_scale
of_minor_valid m v =
    rw (amount_in_bounds (m.amount_minor) (v.amount_bound))
      (rw (v.currency_valid) (rw (scale_in_bounds (m.scale) (v.scale_bound)) refl))

-- An amount past the bound is refused, whatever the other parts.
pub of_minor_too_large :
    (a : ℤ) (currency scale : JsValue)
    → money_amount_limit ≤ magnitude a
    → money_of_minor (JsValue.bigint a) currency scale ≡ throws MoneyError.invalid_money
unfolding money_of_minor
of_minor_too_large a currency scale h = rw (amount_out_of_bounds a h) refl

pub assert_money_valid : (m : Money) → IsMoney m → assert_money m ≡ ok m
unfolding assert_money is_money
assert_money_valid m v =
    rw (amount_in_bounds (m.amount_minor) (v.amount_bound))
      (rw (v.currency_valid) (rw (scale_in_bounds (m.scale) (v.scale_bound)) refl))

valid_parts :
    (a : ℤ) (c : JsString) (s : ℕ)
    → is_valid_amount (JsValue.bigint a) ≡ true
    → is_valid_currency (JsValue.string c) ≡ true
    → is_valid_scale (digits_value s) ≡ true
    → IsMoney record { amount_minor = a; currency = c; scale = s }
valid_parts a c s good named scaled = record {
  amount_bound = valid_amount_bound a good;
  currency_valid = named;
  scale_bound = valid_scale_bound s scaled;
}

-- Whatever its arguments, only money within the bounds is made, and it has the parts given.
pub of_minor_ok :
    (a : ℤ) (c : JsString) (s : ℕ) (m : Money)
    → money_of_minor (JsValue.bigint a) (JsValue.string c) (digits_value s) ≡ ok m
    → (IsMoney m) × (m ≡ record { amount_minor = a; currency = c; scale = s })
unfolding money_of_minor assert_valid_currency assert_valid_scale
of_minor_ok a c s m h = elim (Bool-cases (is_valid_amount (JsValue.bigint a))) [
  | inr bad ↦ absurd (ok-throws MoneyError.invalid_money (sym (rw bad at h)))
  | inl good ↦ elim (Bool-cases (is_valid_currency (JsValue.string c))) [
    | inr bad ↦ absurd (ok-throws MoneyError.invalid_money (sym (rw (good, bad) at h)))
    | inl named ↦ elim (Bool-cases (is_valid_scale (digits_value s))) [
      | inr bad ↦ absurd (ok-throws MoneyError.invalid_money (sym (rw (good, named, bad) at h)))
      | inl scaled ↦
          let made : record { amount_minor = a; currency = c; scale = s } ≡ m =
            ok-inj _ _ (rw (good, named, scaled) at h) in
          (subst IsMoney made (valid_parts a c s good named scaled), sym made)
    ]
  ]
]
