-- ===== src/Money/Types.antt =====
-- src/money/money.ts and src/money/errors.ts: money and the validation of its parts.
use ddd_kit_ts.Base.{
  ℕ, ◌^◌, Bool, false, not, ◌&&◌, ◌||◌, [], ◌∷◌, ltb, leb, ◌==◌, if◌then◌else◌, Outcome, ok, throws,
  ◌>>=◌, length,
}
use ddd_kit_ts.Base.JsNumber.{JsNumber, max_safe_integer}
use ddd_kit_ts.Base.JsString.{JsString, str_eq}
use ddd_kit_ts.Base.Int.{ℤ, pos, ltb_ℤ, neg, ◌==ℤ◌}

-- An `unknown` value, as far as the validation looks at it; an object has the fields that
-- are read off it in Conversions, and is `other` where an amount, a currency or a scale is read.
pub data JsValue : Type 0 where
  undefined : JsValue
  null : JsValue
  number : JsNumber → JsValue
  bigint : ℤ → JsValue
  string : JsString → JsValue
  other : JsValue

-- The errors without their messages.
pub data MoneyError : Type 0 where
  invalid_money : MoneyError
  currency_mismatch : JsString → JsString → MoneyError
  scale_mismatch : ℕ → ℕ → MoneyError
  precision_loss : MoneyError
  unknown_currency : JsValue → MoneyError

-- The brand exists only in the type.
pub record Money : Type 0 where
  pub amount_minor : ℤ
  pub currency : JsString
  pub scale : ℕ

-- It has 97 digits.
unfoldable pub money_amount_limit : ℕ
money_amount_limit = 10 ^ 96

abbrev pub max_money_scale : ℕ
max_money_scale = 64

abbrev pub max_currency_length : ℕ
max_currency_length = 32

-- The white space of a regular expression's `\s`.
abbrev pub is_space : ℕ → Bool
is_space c =
    leb 9 c && leb c 13
    || c == 32
    || c == 160
    || c == 5760
    || leb 8192 c && leb c 8202
    || c == 8232
    || c == 8233
    || c == 8239
    || c == 8287
    || c == 12288
    || c == 65279

abbrev pub has_space : JsString → Bool
has_space [] = false
has_space (c ∷ cs) = is_space c || has_space cs

unfoldable pub is_valid_amount : JsValue → Bool
is_valid_amount (JsValue.bigint a) =
    ltb_ℤ a (pos money_amount_limit) && ltb_ℤ (neg (pos money_amount_limit)) a
is_valid_amount _ = false

unfoldable pub is_valid_currency : JsValue → Bool
is_valid_currency (JsValue.string s) =
    ltb 0 (length s) && leb (length s) max_currency_length && not (has_space s)
is_valid_currency _ = false

unfoldable pub is_valid_scale : JsValue → Bool
is_valid_scale (JsValue.number (JsNumber.int n)) = leb n max_safe_integer && leb n max_money_scale
is_valid_scale _ = false

-- `assertValidCurrency`, which narrows its argument to a string.
unfoldable pub assert_valid_currency : JsValue → Outcome MoneyError JsString
assert_valid_currency (JsValue.string s) =
    if is_valid_currency (JsValue.string s) then ok s else throws MoneyError.invalid_money
assert_valid_currency _ = throws MoneyError.invalid_money

-- `assertValidScale`, which narrows its argument to a number of digits.
unfoldable pub assert_valid_scale : JsValue → Outcome MoneyError ℕ
assert_valid_scale (JsValue.number (JsNumber.int n)) =
    if is_valid_scale (JsValue.number (JsNumber.int n))
    then ok n
    else throws MoneyError.invalid_money
assert_valid_scale _ = throws MoneyError.invalid_money

-- The number `n` as a value.
abbrev pub digits_value : ℕ → JsValue
digits_value n = JsValue.number (JsNumber.int n)

-- `moneyOfMinor`
unfoldable pub money_of_minor : JsValue → JsValue → JsValue → Outcome MoneyError Money
money_of_minor (JsValue.bigint a) currency scale =
    if not (is_valid_amount (JsValue.bigint a)) then throws MoneyError.invalid_money else (do
      c ← assert_valid_currency currency
      s ← assert_valid_scale scale
      ok record { amount_minor = a; currency = c; scale = s })
money_of_minor _ currency scale = throws MoneyError.invalid_money

-- `isMoney` of a value that has the three parts of a Money.
unfoldable pub is_money : Money → Bool
is_money m =
    is_valid_amount (JsValue.bigint (m.amount_minor))
    && is_valid_currency (JsValue.string (m.currency))
    && is_valid_scale (digits_value (m.scale))

-- `assertMoney`
unfoldable pub assert_money : Money → Outcome MoneyError Money
assert_money m = if is_money m then ok m else throws MoneyError.invalid_money

-- `moneyEquals`, `isZeroMoney`, `isPositiveMoney` and `isNegativeMoney`
unfoldable pub money_equals : Money → Money → Bool
money_equals a b =
    a.amount_minor ==ℤ b.amount_minor && str_eq (a.currency) (b.currency) && a.scale == b.scale

unfoldable pub is_zero_money : Money → Bool
is_zero_money m = m.amount_minor ==ℤ pos 0

unfoldable pub is_positive_money : Money → Bool
is_positive_money m = ltb_ℤ (pos 0) (m.amount_minor)

unfoldable pub is_negative_money : Money → Bool
is_negative_money m = ltb_ℤ (m.amount_minor) (pos 0)
