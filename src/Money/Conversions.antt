-- ===== src/Money/Conversions.antt =====
-- The transfer object of src/money/money.ts, src/money/snapshot.ts and src/money/factory.ts.
use ddd_kit_ts.Base.{
  ℕ, suc, Bool, true, false, not, ◌&&◌, ◌||◌, Option, none, some, [], ◌∷◌, leb, ltb, ◌==◌,
  if◌then◌else◌, Outcome, ok, throws, ◌>>=◌, length,
}
use ddd_kit_ts.Base.JsMap
use ddd_kit_ts.Base.JsMap.{JsMap}
use ddd_kit_ts.Base.JsNumber.{JsNumber, max_safe_integer}
use ddd_kit_ts.Base.JsString.{JsString, JsString-discrete}
use ddd_kit_ts.Base.Int.{ℤ, pos, negsuc}
use ddd_kit_ts.Money.Types.{
  JsValue, MoneyError, Money, money_of_minor, assert_money, digits_value, is_valid_amount,
  is_valid_currency, is_valid_scale,
}
use ddd_kit_ts.Money.Text.{digits_of, only_digits, int_text, read_int, parse_money_input}

-- The fields of an object that are read as a MoneyDto, each of any type.
pub record MoneyDto : Type 0 where
  pub amount_minor : JsValue
  pub currency : JsValue
  pub scale : JsValue

-- An `unknown` argument: an object, read at some fields, or anything else.
pub data Unknown {ℓ} (A : Type ℓ) : Type ℓ where
  object : A → Unknown A
  not_object : Unknown A

abbrev pub max_dto_amount_length : ℕ
max_dto_amount_length = 97

-- `/^\d+$/.test`
abbrev pub has_only_digits : JsString → Bool
has_only_digits s = elim (only_digits ((digits_of s).0) ((digits_of s).1)) [
  | none ↦ false
  | some ds ↦ true
]

-- `INTEGER_STRING.test`
unfoldable pub is_integer_string : JsString → Bool
is_integer_string [] = false
is_integer_string (c ∷ cs) = if c == b'-' then has_only_digits cs else has_only_digits (c ∷ cs)

-- `moneyFromDto` of an object.
unfoldable pub money_from_fields : MoneyDto → JsValue → Outcome MoneyError Money
money_from_fields dto (JsValue.string s) =
    if ltb max_dto_amount_length (length s) || not (is_integer_string s)
    then throws MoneyError.invalid_money
    else money_of_minor (JsValue.bigint (read_int s)) (dto.currency) (dto.scale)
money_from_fields dto _ = throws MoneyError.invalid_money

-- `moneyFromDto`
unfoldable pub money_from_dto : Unknown MoneyDto → Outcome MoneyError Money
money_from_dto (Unknown.object dto) = money_from_fields dto (dto.amount_minor)
money_from_dto Unknown.not_object = throws MoneyError.invalid_money

-- `moneyToDto`
unfoldable pub money_to_dto : Money → Outcome MoneyError MoneyDto
money_to_dto m = do
  _ ← assert_money m
  ok record {
    amount_minor = JsValue.string (int_text (m.amount_minor));
    currency = JsValue.string (m.currency);
    scale = digits_value (m.scale);
  }

-- `isMoney` of any value, and `moneyFromUnknown`, whose object has the fields of the same names.
unfoldable pub is_money_value : Unknown MoneyDto → Bool
is_money_value (Unknown.object v) =
    is_valid_amount (v.amount_minor) && is_valid_currency (v.currency) && is_valid_scale (v.scale)
is_money_value Unknown.not_object = false

unfoldable pub money_from_unknown : Unknown MoneyDto → Outcome MoneyError Money
money_from_unknown (Unknown.object v) =
    if is_money_value (Unknown.object v)
    then money_of_minor (v.amount_minor) (v.currency) (v.scale)
    else throws MoneyError.invalid_money
money_from_unknown Unknown.not_object = throws MoneyError.invalid_money

-- The currency of a snapshot as an object.
pub record CurrencyObject : Type 0 where
  pub code : JsValue
  pub base : JsValue
  pub exponent : JsValue

pub data CurrencyField : Type 0 where
  plain : JsValue → CurrencyField
  currency_object : CurrencyObject → CurrencyField

pub record MoneySnapshotLike : Type 0 where
  pub amount : JsValue
  pub currency : CurrencyField
  pub scale : JsValue

-- `toBigIntAmount`
unfoldable pub to_big_int_amount : JsValue → Outcome MoneyError ℤ
to_big_int_amount (JsValue.bigint a) = ok a
to_big_int_amount (JsValue.number (JsNumber.int n)) =
    if leb n max_safe_integer then ok (pos n) else throws MoneyError.invalid_money
to_big_int_amount (JsValue.number (JsNumber.negative n)) =
    if leb (suc n) max_safe_integer then ok (negsuc n) else throws MoneyError.invalid_money
to_big_int_amount _ = throws MoneyError.invalid_money

-- `Number` of a `bigint`. The code tests at once whether the number is a safe integer; a `bigint`
-- past the safe integers is rounded, but not to a safe integer.
abbrev pub to_number : ℤ → JsNumber
to_number (pos n) = JsNumber.int n
to_number (negsuc n) = JsNumber.negative n

-- `Number.isSafeInteger`
abbrev pub is_safe_integer : JsNumber → Bool
is_safe_integer (JsNumber.int n) = leb n max_safe_integer
is_safe_integer (JsNumber.negative n) = leb (suc n) max_safe_integer
is_safe_integer JsNumber.non_integer = false

abbrev pub safe_number : JsNumber → Outcome MoneyError JsNumber
safe_number n = if is_safe_integer n then ok n else throws MoneyError.invalid_money

-- `toScaleNumber`
unfoldable pub to_scale_number : JsValue → Outcome MoneyError JsNumber
to_scale_number (JsValue.bigint a) = safe_number (to_number a)
to_scale_number (JsValue.number n) = safe_number n
to_scale_number _ = throws MoneyError.invalid_money

-- The currency of `moneyFromSnapshot` as an object.
abbrev pub resolve_currency : CurrencyField → Outcome MoneyError CurrencyObject
resolve_currency (CurrencyField.plain (JsValue.string s)) =
    ok record { code = JsValue.string s; base = JsValue.undefined; exponent = JsValue.undefined }
resolve_currency (CurrencyField.plain _) = throws MoneyError.invalid_money
resolve_currency (CurrencyField.currency_object o) = ok o

-- Only a base of ten, or none, is accepted.
abbrev pub is_base_ten : JsValue → Bool
is_base_ten JsValue.undefined = true
is_base_ten (JsValue.number (JsNumber.int n)) = n == 10
is_base_ten (JsValue.bigint (pos n)) = n == 10
is_base_ten _ = false

abbrev pub assert_base : JsValue → Outcome {0, 0} MoneyError Unit
assert_base base = if is_base_ten base then ok tt else throws MoneyError.invalid_money

-- `scale ?? exponent`
abbrev pub scale_source : JsValue → JsValue → JsValue
scale_source JsValue.undefined exponent = exponent
scale_source JsValue.null exponent = exponent
scale_source scale exponent = scale

abbrev pub assert_defined : JsValue → Outcome MoneyError JsValue
assert_defined JsValue.undefined = throws MoneyError.invalid_money
assert_defined v = ok v

-- `moneyFromSnapshot` of an object.
unfoldable pub money_from_snapshot_fields : MoneySnapshotLike → Outcome MoneyError Money
money_from_snapshot_fields snapshot = do
  currency ← resolve_currency (snapshot.currency)
  _ ← assert_base (currency.base)
  source ← assert_defined (scale_source (snapshot.scale) (currency.exponent))
  amount ← to_big_int_amount (snapshot.amount)
  scale ← to_scale_number source
  money_of_minor (JsValue.bigint amount) (currency.code) (JsValue.number scale)

-- `moneyFromSnapshot`
unfoldable pub money_from_snapshot : Unknown MoneySnapshotLike → Outcome MoneyError Money
money_from_snapshot (Unknown.object snapshot) = money_from_snapshot_fields snapshot
money_from_snapshot Unknown.not_object = throws MoneyError.invalid_money

-- `moneyToSnapshot`
unfoldable pub money_to_snapshot : Money → Outcome MoneyError MoneySnapshotLike
money_to_snapshot m = do
  _ ← assert_money m
  amount ← safe_number (to_number (m.amount_minor))
  ok record {
    amount = JsValue.number amount;
    currency = CurrencyField.currency_object record {
      code = JsValue.string (m.currency);
      base = digits_value 10;
      exponent = digits_value (m.scale);
    };
    scale = digits_value (m.scale);
  }

-- A factory of `createMoneyFactory` with its resolver of scales; the resolver is the application's.
module _ (scale_for : JsValue → Option JsNumber) where
  unfoldable pub scale_of : JsValue → Outcome MoneyError JsNumber
  scale_of currency = elim (scale_for currency) [
    | none ↦ throws (MoneyError.unknown_currency currency)
    | some scale ↦ ok scale
  ]

  unfoldable pub factory_of_minor : JsValue → JsValue → Outcome MoneyError Money
  factory_of_minor amount currency = do
    scale ← scale_of currency
    money_of_minor amount currency (JsValue.number scale)

  unfoldable pub factory_parse : JsValue → JsValue → Outcome MoneyError Money
  factory_parse input currency = do
    scale ← scale_of currency
    parse_money_input input currency (JsValue.number scale)

  unfoldable pub factory_zero : JsValue → Outcome MoneyError Money
  factory_zero currency = do
    scale ← scale_of currency
    money_of_minor (JsValue.bigint (pos 0)) currency (JsValue.number scale)

-- `currencyScaleFromRecord`; what is no string is no key of the map.
unfoldable pub currency_scale_from_record : JsMap JsString JsNumber → JsValue → Option JsNumber
currency_scale_from_record scales (JsValue.string s) = JsMap.get JsString-discrete s scales
currency_scale_from_record scales _ = none
