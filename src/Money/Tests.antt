-- ===== src/Money/Tests.antt =====
-- Runs of the money operations, and the theorems about them at concrete amounts.
use ddd_kit_ts.Base.{ℕ, ◌≡◌, refl, ◌<◌, ok, throws, ◌>>=◌, ◌↔◌, [], ◌∷◌, arith}
use ddd_kit_ts.Base.JsString.{JsString, str_eq}
use ddd_kit_ts.Base.Int.{ℤ, pos, negsuc, ◌+ℤ◌, magnitude, remainder, quotient}
use ddd_kit_ts.Base.Decimal.{decimal}
use ddd_kit_ts.Money.Types.{
  JsValue, MoneyError, Money, money_amount_limit, is_valid_currency, is_valid_scale,
  assert_valid_scale, assert_valid_currency, is_valid_amount, money_of_minor, digits_value,
}
use ddd_kit_ts.Money.Bounds.{IsMoney}
use ddd_kit_ts.Money.Arithmetic.{
  add_money, assert_same_unit, rescale_money, rescale_to, rescale_down, of_minor_like,
}
use ddd_kit_ts.Money.Exact.{add_money_iff, SameUnit, with_amount}
use ddd_kit_ts.Money.Rescaling.{rescale_exact, value_at}
use ddd_kit_ts.Money.Text.{
  decimal_text, money_to_decimal_string, parse_money_input, parse_at, match_decimal, parse_match,
  pad_start,
}
use ddd_kit_ts.Money.RoundTrip.{parse-print}
use ddd_kit_ts.Money.Conversions.{money_to_dto, money_from_dto, Unknown}
use ddd_kit_ts.Money.Transfer.{from_dto-to_dto}

abbrev eur : JsString
eur = b'E' ∷ b'U' ∷ b'R' ∷ []

abbrev minor : ℤ → ℕ → Money
minor a s = record { amount_minor = a; currency = eur; scale = s }

-- 10.99 and -0.05.
abbrev price : Money
price = minor (pos 1099) 2

abbrev refund : Money
refund = minor (negsuc 4) 2

price-IsMoney : IsMoney price
unfolding money_amount_limit is_valid_currency
price-IsMoney = record {
  amount_bound = omega arith;
  currency_valid = refl;
  scale_bound = omega arith;
}

refund-IsMoney : IsMoney refund
unfolding money_amount_limit is_valid_currency
refund-IsMoney = record {
  amount_bound = omega arith;
  currency_valid = refl;
  scale_bound = omega arith;
}

adds : add_money price refund ≡ ok (minor (pos 1094) 2)
unfolding add_money assert_same_unit of_minor_like money_of_minor is_valid_amount money_amount_limit
    assert_valid_currency assert_valid_scale is_valid_currency is_valid_scale ◌+ℤ◌ str_eq
adds = refl

prints : decimal_text refund ≡ b'-' ∷ b'0' ∷ b'.' ∷ b'0' ∷ b'5' ∷ []
unfolding decimal_text decimal pad_start
prints = refl

too_precise :
    parse_money_input
      (JsValue.string (b'1' ∷ b'.' ∷ b'0' ∷ b'0' ∷ b'5' ∷ []))
      (JsValue.string eur)
      (digits_value 2)
    ≡ throws MoneyError.precision_loss
unfolding parse_money_input parse_at match_decimal parse_match assert_valid_scale is_valid_scale
too_precise = refl

scientific :
    parse_money_input
      (JsValue.string (b'1' ∷ b'e' ∷ b'5' ∷ []))
      (JsValue.string eur)
      (digits_value 2)
    ≡ throws MoneyError.invalid_money
unfolding parse_money_input parse_at match_decimal parse_match assert_valid_scale is_valid_scale
scientific = refl

add_money_iff_example : (add_money price refund ≡ ok (minor (pos 1094) 2)) ↔ (
    (SameUnit price refund)
    × (magnitude (pos 1099 +ℤ negsuc 4) < money_amount_limit)
    × (minor (pos 1094) 2 ≡ with_amount price (pos 1099 +ℤ negsuc 4)))
add_money_iff_example = add_money_iff price refund (minor (pos 1094) 2) price-IsMoney

-- 1.00 at the scale 2 is 1 at the scale 0.
abbrev one_euro : Money
one_euro = minor (pos 100) 2

one_euro-IsMoney : IsMoney one_euro
unfolding money_amount_limit is_valid_currency
one_euro-IsMoney = record {
  amount_bound = omega arith;
  currency_valid = refl;
  scale_bound = omega arith;
}

rescales : rescale_money one_euro (digits_value 0) ≡ ok (minor (pos 1) 0)
unfolding rescale_money rescale_to rescale_down assert_valid_scale is_valid_scale money_of_minor
    is_valid_amount money_amount_limit assert_valid_currency is_valid_currency remainder quotient
rescales = refl

rescale_loses : rescale_money price (digits_value 1) ≡ throws MoneyError.precision_loss
unfolding rescale_money rescale_to rescale_down assert_valid_scale is_valid_scale remainder
rescale_loses = refl

rescale_exact_example :
    (digits_value 0 ≡ digits_value 0)
    × (value_at one_euro 0 ≡ value_at (minor (pos 1) 0) 2)
    × (rescale_money (minor (pos 1) 0) (digits_value 2) ≡ ok one_euro)
rescale_exact_example =
    rescale_exact one_euro (minor (pos 1) 0) (digits_value 0) one_euro-IsMoney rescales

parse-print_example :
    (money_to_decimal_string refund >>= λ s.
    parse_money_input (JsValue.string s) (JsValue.string eur) (digits_value 2))
    ≡ ok refund
parse-print_example = parse-print refund refund-IsMoney

from_dto-to_dto_example :
    (money_to_dto refund >>= λ dto. money_from_dto (Unknown.object dto)) ≡ ok refund
from_dto-to_dto_example = from_dto-to_dto refund refund-IsMoney
