-- ===== src/Money/RoundTrip.antt =====
-- Parsing a printed amount gives it back, for src/money/money.ts and src/money/parse.ts.
use ddd_kit_ts.Base.{
  ℕ, ◌+◌, ◌-◌, ◌≤◌, ◌<◌, ◌≡◌, refl, sym, ap, ◌∙◌, inl, inr, true, false, some, [], ◌∷◌, ◌++◌, leb,
  ltb, ◌==◌, arith, ok, ◌>>=◌, length, take, drop, Bool-cases, take-append-drop, length-append,
  length-drop, length-take, max,
}
use ddd_kit_ts.Base.JsString.{JsString}
use ddd_kit_ts.Base.Decimal.{
  decimal, read_decimal, All-decimal, read_decimal-decimal, All-append, IsDigit, length-decimal,
  decimal_nonempty,
}
use ddd_kit_ts.Base.Int.{ℤ, magnitude}
use ddd_kit_ts.Money.Types.{JsValue, Money, money_amount_limit, digits_value}
use ddd_kit_ts.Money.Bounds.{IsMoney, of_minor_valid, assert_money_valid, assert_scale}
use ddd_kit_ts.Money.Text.{
  repeat, pad_start, pad_end, sign_of, match_decimal, DecimalMatch, decimal_text, parse_match,
  parse_at, parse_money_input, money_to_decimal_string, max_input_length,
}
use ddd_kit_ts.Money.Printed.{
  AllDigits, read_int-digits, match_signed_whole, match_signed_fraction, read_padded, All-repeat,
  length-repeat, All-take, All-drop,
}

append-nil : (s : JsString) → s ++ [] ≡ s
append-nil [] = refl
append-nil (c ∷ cs) = ap (λ t. c ∷ t) (append-nil cs)

-- No padding is needed at the full length.
pad_end_full : (s : JsString) (n c : ℕ) → length s ≡ n → pad_end s n c ≡ s
unfolding pad_end
pad_end_full s n c h = let nothing : n - length s ≡ 0 = omega arith in rw nothing (append-nil s)

-- Digits with as many after the point as the scale are read as the amount that they write.
parse_match_exact :
    (m : Money) (whole fraction : JsString)
    → IsMoney m
    → AllDigits (whole ++ fraction)
    → 0 < length (whole ++ fraction)
    → length fraction ≡ m.scale
    → read_decimal (whole ++ fraction) ≡ magnitude (m.amount_minor)
    → parse_match
        record { sign = sign_of (m.amount_minor); whole = whole; fraction = fraction }
        (JsValue.string (m.currency))
        (m.scale)
      ≡ ok m
unfolding parse_match
parse_match_exact m whole fraction v h n e r =
    let fits : leb (length fraction) (m.scale) ≡ true = ground arith in
    rw
      (
        fits,
        pad_end_full fraction (m.scale) b'0' e,
        read_int-digits (m.amount_minor) (whole ++ fraction) h n r,
      )
      (of_minor_valid m v)

pub sign_length : (a : ℤ) → length (sign_of a) ≤ 1
sign_length a = ground arith

-- An amount has at most 96 digits.
pub digits_length : (m : Money) → IsMoney m → length (decimal (magnitude (m.amount_minor))) ≤ 96
unfolding money_amount_limit
digits_length m v = length-decimal (magnitude (m.amount_minor)) 95 (v.amount_bound)

-- Parsing a text that is short enough and matches.
parse_at_match :
    (s : JsString) (g : DecimalMatch) (currency : JsValue) (scale : ℕ)
    → length s ≤ max_input_length
    → match_decimal s ≡ some g
    → parse_at (JsValue.string s) currency scale ≡ parse_match g currency scale
unfolding parse_at
parse_at_match s g currency scale h e =
    let short : ltb max_input_length (length s) ≡ false = ground arith in rw (short, e) refl

-- Both forms of a printed amount are read back at their scale.
parse_whole :
    (m : Money)
    → IsMoney m
    → m.scale ≡ 0
    → parse_at
        (JsValue.string (sign_of (m.amount_minor) ++ decimal (magnitude (m.amount_minor))))
        (JsValue.string (m.currency))
        (m.scale)
      ≡ ok m
parse_whole m v z =
    let a = m.amount_minor in
    let digits = decimal (magnitude a) in
    let short : length (sign_of a ++ digits) ≤ max_input_length =
      rw (length-append (sign_of a) digits) (omega (arith, sign_length a, digits_length m v)) in
    let all : AllDigits (digits ++ []) = rw (append-nil digits) (All-decimal (magnitude a)) in
    let some_digit : 0 < length (digits ++ []) =
      rw (append-nil digits) (decimal_nonempty (magnitude a)) in
    let reads : read_decimal (digits ++ []) ≡ magnitude a =
      rw (append-nil digits) (read_decimal-decimal (magnitude a)) in
    parse_at_match (sign_of a ++ digits) _ (JsValue.string (m.currency)) (m.scale) short
      (match_signed_whole a digits (All-decimal (magnitude a)) (decimal_nonempty (magnitude a)))
    ∙ parse_match_exact m digits [] v all some_digit (sym z) reads

-- The padded digits of an amount.
abbrev padded_of : Money → JsString
padded_of m = pad_start (decimal (magnitude (m.amount_minor))) (m.scale + 1) b'0'

All-padded : (m : Money) → AllDigits (padded_of m)
unfolding pad_start
All-padded m = All-append IsDigit _ _ (All-repeat _) (All-decimal (magnitude (m.amount_minor)))

length-padded :
    (m : Money)
    → length (padded_of m) ≡ max (m.scale + 1) (length (decimal (magnitude (m.amount_minor))))
unfolding pad_start
length-padded m =
    let digits = decimal (magnitude (m.amount_minor)) in
    rw (length-append (repeat (m.scale + 1 - length digits) b'0') digits)
      (rw (length-repeat (m.scale + 1 - length digits) b'0') (omega arith))

read-padded : (m : Money) → read_decimal (padded_of m) ≡ magnitude (m.amount_minor)
unfolding pad_start
read-padded m =
    read_padded (m.scale + 1 - length (decimal (magnitude (m.amount_minor))))
      (decimal (magnitude (m.amount_minor)))
    ∙ read_decimal-decimal (magnitude (m.amount_minor))

parse_fractional :
    (m : Money) (whole fraction : JsString)
    → IsMoney m
    → whole ++ fraction ≡ padded_of m
    → AllDigits whole
    → AllDigits fraction
    → 0 < length whole
    → 0 < length fraction
    → length fraction ≡ m.scale
    → parse_at
        (JsValue.string (sign_of (m.amount_minor) ++ (whole ++ b'.' ∷ fraction)))
        (JsValue.string (m.currency))
        (m.scale)
      ≡ ok m
parse_fractional m whole fraction v e hw hf nw nf s =
    let a = m.amount_minor in
    let size : length whole + length fraction ≤ 96 = omega (
      arith,
      length-append whole fraction,
      ap length e,
      length-padded m,
      digits_length m v,
      v.scale_bound,
    ) in
    let short : length (sign_of a ++ (whole ++ b'.' ∷ fraction)) ≤ max_input_length =
      rw (length-append (sign_of a) (whole ++ b'.' ∷ fraction))
        (rw (length-append whole (b'.' ∷ fraction)) (omega (arith, sign_length a))) in
    let some_digit : 0 < length (whole ++ fraction) =
      rw (length-append whole fraction) (omega arith) in
    parse_at_match (sign_of a ++ (whole ++ b'.' ∷ fraction)) _ (JsValue.string (m.currency))
      (m.scale) short (match_signed_fraction a whole fraction hw hf nw nf)
    ∙ parse_match_exact m whole fraction v (All-append IsDigit whole fraction hw hf) some_digit s
        (ap read_decimal e ∙ read-padded m)

parse_text :
    (m : Money)
    → IsMoney m
    → parse_at (JsValue.string (decimal_text m)) (JsValue.string (m.currency)) (m.scale) ≡ ok m
unfolding decimal_text
parse_text m v = elim (Bool-cases (m.scale == 0)) [
  | inl none_after ↦ rw none_after (parse_whole m v (ground arith))
  | inr some_after ↦
      let padded = padded_of m in
      let point = length padded - m.scale in
      let size = length-padded m in
      let nonzero : 0 < m.scale = ground arith in
      let whole_size : 0 < length (take point padded) =
        rw (length-take point padded) (omega arith) in
      let fraction_size : length (drop point padded) ≡ m.scale =
        rw (length-drop point padded) (omega arith) in
      rw some_after (
        parse_fractional m (take point padded) (drop point padded) v (take-append-drop point padded)
          (All-take point padded (All-padded m)) (All-drop point padded (All-padded m)) whole_size
          (omega arith) fraction_size)
]

-- Printing money within the bounds succeeds, and parsing the text at its scale and currency gives
-- that money back.
pub parse-print :
    (m : Money)
    → IsMoney m
    → (money_to_decimal_string m >>= λ s.
        parse_money_input (JsValue.string s) (JsValue.string (m.currency)) (digits_value (m.scale)))
      ≡ ok m
unfolding money_to_decimal_string parse_money_input
parse-print m v =
    rw (assert_money_valid m v) (rw (assert_scale (m.scale) (v.scale_bound)) (parse_text m v))
