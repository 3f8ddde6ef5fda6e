-- ===== src/Money/Arithmetic.antt =====
-- src/money/arithmetic.ts: exact sums, differences, negation and rescaling.
use ddd_kit_ts.Base.{ℕ, ◌-◌, ◌^◌, not, ltb, ◌==◌, if◌then◌else◌, Outcome, ok, throws, ◌>>=◌}
use ddd_kit_ts.Base.JsString.{str_eq}
use ddd_kit_ts.Base.Int.{ℤ, pos, ◌+ℤ◌, ◌-ℤ◌, neg, times, quotient, remainder, ◌==ℤ◌}
use ddd_kit_ts.Money.Types.{
  JsValue, MoneyError, Money, digits_value, assert_valid_scale, money_of_minor,
}

-- `assertSameUnit`
unfoldable pub assert_same_unit : Money → Money → Outcome {0, 0} MoneyError Unit
assert_same_unit a b =
    if not (str_eq (a.currency) (b.currency))
    then throws (MoneyError.currency_mismatch (a.currency) (b.currency))
    else (if not (a.scale == b.scale)
        then throws (MoneyError.scale_mismatch (a.scale) (b.scale))
        else ok tt)

-- The amount `a` in the unit of `m`.
unfoldable pub of_minor_like : Money → ℤ → Outcome MoneyError Money
of_minor_like m a =
    money_of_minor (JsValue.bigint a) (JsValue.string (m.currency)) (digits_value (m.scale))

unfoldable pub add_money : Money → Money → Outcome MoneyError Money
add_money a b = do _ ← assert_same_unit a b; of_minor_like a (a.amount_minor +ℤ b.amount_minor)

unfoldable pub subtract_money : Money → Money → Outcome MoneyError Money
subtract_money a b = do _ ← assert_same_unit a b; of_minor_like a (a.amount_minor -ℤ b.amount_minor)

unfoldable pub negate_money : Money → Outcome MoneyError Money
negate_money m = of_minor_like m (neg (m.amount_minor))

-- The scale of the result, and the amount there.
abbrev pub rescaled : Money → ℕ → ℤ → Outcome MoneyError Money
rescaled m scale a =
    money_of_minor (JsValue.bigint a) (JsValue.string (m.currency)) (digits_value scale)

-- `rescaleMoney` for a scale that is lower.
unfoldable pub rescale_down : Money → ℕ → Outcome MoneyError Money
rescale_down m scale =
    let factor = 10 ^ (m.scale - scale) in
    if not (remainder (m.amount_minor) factor ==ℤ pos 0)
    then throws MoneyError.precision_loss
    else rescaled m scale (quotient (m.amount_minor) factor)

-- `rescaleMoney` after its guard.
unfoldable pub rescale_to : Money → ℕ → Outcome MoneyError Money
rescale_to m scale =
    if scale == m.scale
    then ok m
    else (if ltb (m.scale) scale
        then rescaled m scale (times (m.amount_minor) (10 ^ (scale - m.scale)))
        else rescale_down m scale)

-- `rescaleMoney`
unfoldable pub rescale_money : Money → JsValue → Outcome MoneyError Money
rescale_money m scale = do n ← assert_valid_scale scale; rescale_to m n
