-- ===== src/Money/Text.antt =====
-- The decimal strings of src/money/money.ts and the parsing of src/money/parse.ts.
use ddd_kit_ts.Base.{
  ℕ, zero, suc, ◌+◌, ◌-◌, Bool, true, ◌&&◌, Option, none, some, [], ◌∷◌, ◌++◌, leb, ltb, ◌==◌,
  if◌then◌else◌, Outcome, ok, throws, ◌>>=◌, length, take, drop,
}
use ddd_kit_ts.Base.JsString.{JsString}
use ddd_kit_ts.Base.Decimal.{decimal, read_decimal}
use ddd_kit_ts.Base.Int.{ℤ, pos, magnitude, neg_of, ltb_ℤ}
use ddd_kit_ts.Money.Types.{
  JsValue, MoneyError, Money, money_of_minor, assert_money, assert_valid_scale, digits_value,
}

abbrev pub is_digit : ℕ → Bool
is_digit c = leb b'0' c && leb c b'9'

-- `n` times the character.
abbrev pub repeat : ℕ → ℕ → JsString
repeat zero c = []
repeat (suc n) c = c ∷ repeat n c

-- `String.prototype.padStart` and `padEnd` with one character.
unfoldable pub pad_start : JsString → ℕ → ℕ → JsString
pad_start s n c = repeat (n - length s) c ++ s

unfoldable pub pad_end : JsString → ℕ → ℕ → JsString
pad_end s n c = s ++ repeat (n - length s) c

-- `"-"` for a negative amount and `""` for another.
abbrev pub sign_of : ℤ → JsString
sign_of a = if ltb_ℤ a (pos 0) then b'-' ∷ [] else []

-- `BigInt.prototype.toString`
unfoldable pub int_text : ℤ → JsString
int_text a = sign_of a ++ decimal (magnitude a)

-- `BigInt(text)` for an optional minus sign and digits.
unfoldable pub read_int : JsString → ℤ
read_int [] = pos 0
read_int (c ∷ cs) = if c == b'-' then neg_of (read_decimal cs) else pos (read_decimal (c ∷ cs))

-- `moneyToDecimalString` after its guard; a slice from `-scale` is one from the length less the
-- scale.
unfoldable pub decimal_text : Money → JsString
decimal_text m =
    let digits = decimal (magnitude (m.amount_minor)) in
    let padded = pad_start digits (m.scale + 1) b'0' in
    let point = length padded - m.scale in
    if m.scale == 0
    then sign_of (m.amount_minor) ++ digits
    else sign_of (m.amount_minor) ++ (take point padded ++ b'.' ∷ drop point padded)

-- `moneyToDecimalString`
unfoldable pub money_to_decimal_string : Money → Outcome MoneyError JsString
money_to_decimal_string m = do _ ← assert_money m; ok (decimal_text m)

-- The groups of `/^(-?)(\d+)(?:\.(\d+))?$/`; `fraction` is empty if there is none.
pub record DecimalMatch : Type 0 where
  pub sign : JsString
  pub whole : JsString
  pub fraction : JsString

-- The longest prefix of digits, and the rest.
abbrev pub digits_of : JsString → JsString × JsString
digits_of [] = ([], [])
digits_of (c ∷ cs) =
    let rest = digits_of cs in if is_digit c then (c ∷ rest.0, rest.1) else ([], c ∷ cs)

-- One digit at least, and nothing after the digits.
abbrev pub only_digits : JsString → JsString → Option JsString
only_digits [] rest = none
only_digits (d ∷ ds) [] = some (d ∷ ds)
only_digits (d ∷ ds) (r ∷ rs) = none

-- What follows the whole digits: the end, or a point and digits up to the end.
abbrev pub match_fraction : JsString → Option JsString
match_fraction [] = some []
match_fraction (c ∷ cs) =
    if c == b'.' then only_digits ((digits_of cs).0) ((digits_of cs).1) else none

abbrev pub match_groups : JsString → JsString → Option JsString → Option DecimalMatch
match_groups sign [] fraction = none
match_groups sign (d ∷ ds) none = none
match_groups sign (d ∷ ds) (some fraction) =
    some record { sign = sign; whole = d ∷ ds; fraction = fraction }

abbrev pub match_unsigned : JsString → JsString → Option DecimalMatch
match_unsigned sign s = match_groups sign ((digits_of s).0) (match_fraction ((digits_of s).1))

-- `DECIMAL_INPUT.exec`
unfoldable pub match_decimal : JsString → Option DecimalMatch
match_decimal [] = none
match_decimal (c ∷ cs) =
    if c == b'-' then match_unsigned (b'-' ∷ []) cs else match_unsigned [] (c ∷ cs)

abbrev pub max_input_length : ℕ
max_input_length = 256

-- `/^0+$/.test`, for digits that are not empty.
abbrev pub all_zeros : JsString → Bool
all_zeros [] = true
all_zeros (c ∷ cs) = c == b'0' && all_zeros cs

-- The amount of a match at a scale.
unfoldable pub parse_match : DecimalMatch → JsValue → ℕ → Outcome MoneyError Money
parse_match m currency scale =
    if leb (length (m.fraction)) scale
    then money_of_minor
        (JsValue.bigint (read_int (m.sign ++ (m.whole ++ pad_end (m.fraction) scale b'0'))))
        currency (digits_value scale)
    else (if all_zeros (drop scale (m.fraction))
        then money_of_minor
            (JsValue.bigint (read_int (m.sign ++ (m.whole ++ take scale (m.fraction))))) currency
            (digits_value scale)
        else throws MoneyError.precision_loss)

-- `parseMoneyInput` after the match.
abbrev pub parse_groups : Option DecimalMatch → JsValue → ℕ → Outcome MoneyError Money
parse_groups none currency scale = throws MoneyError.invalid_money
parse_groups (some m) currency scale = parse_match m currency scale

-- `parseMoneyInput` after the guard of the scale.
unfoldable pub parse_at : JsValue → JsValue → ℕ → Outcome MoneyError Money
parse_at (JsValue.string s) currency scale =
    if ltb max_input_length (length s)
    then throws MoneyError.invalid_money
    else parse_groups (match_decimal s) currency scale
parse_at _ currency scale = throws MoneyError.invalid_money

-- `parseMoneyInput`
unfoldable pub parse_money_input : JsValue → JsValue → JsValue → Outcome MoneyError Money
parse_money_input input currency scale = do n ← assert_valid_scale scale; parse_at input currency n
