-- ===== src/Money/Transfer.antt =====
-- What leaves as a transfer object, a snapshot or money of a factory comes back, for
-- src/money/money.ts, src/money/snapshot.ts and src/money/factory.ts.
use ddd_kit_ts.Base.{
  ℕ, suc, ◌≤◌, ◌<◌, ◌≡◌, refl, ap, ◌∙◌, true, false, none, some, [], ◌∷◌, ◌++◌, arith, leb, ltb,
  ◌==◌, ok, ◌>>=◌, length, length-append,
}
use ddd_kit_ts.Base.JsNumber.{JsNumber, max_safe_integer}
use ddd_kit_ts.Base.JsString.{JsString}
use ddd_kit_ts.Base.Decimal.{decimal, All-decimal, read_decimal-decimal, decimal_nonempty}
use ddd_kit_ts.Base.Int.{ℤ, pos, negsuc, magnitude}
use ddd_kit_ts.Money.Types.{JsValue, Money, digits_value}
use ddd_kit_ts.Money.Bounds.{IsMoney, of_minor_valid, assert_money_valid}
use ddd_kit_ts.Money.Text.{sign_of, int_text, read_int, only_digits}
use ddd_kit_ts.Money.Printed.{
  AllDigits, read_int-digits, digits_of_all, sign_of-pos, sign_of-negsuc,
}
use ddd_kit_ts.Money.RoundTrip.{sign_length, digits_length}
use ddd_kit_ts.Money.Conversions.{
  Unknown, max_dto_amount_length, has_only_digits, is_integer_string, money_from_fields,
  money_from_dto, money_to_dto, to_big_int_amount, to_number, is_safe_integer, to_scale_number,
  money_from_snapshot_fields, money_from_snapshot, money_to_snapshot,
}

only_digits-pass : (s : JsString) → AllDigits s → 0 < length s → has_only_digits s ≡ true
only_digits-pass [] h n = absurd (omega arith)
only_digits-pass (c ∷ cs) h n =
    ap (λ p. elim (only_digits (p.0) (p.1)) [ none ↦ false | some ds ↦ true ])
      (digits_of_all (c ∷ cs) h)

-- A printed integer passes the test for one.
integer_text :
    (a : ℤ) (s : JsString) → AllDigits s → 0 < length s → is_integer_string (sign_of a ++ s) ≡ true
unfolding is_integer_string
integer_text a [] h n = absurd (omega arith)
integer_text (pos k) (c ∷ cs) h n =
    let differs : (c == b'-') ≡ false = ground arith in
    ap (λ t. is_integer_string (t ++ c ∷ cs)) (sign_of-pos k)
    ∙ rw differs (only_digits-pass (c ∷ cs) h n)
integer_text (negsuc k) (c ∷ cs) h n =
    ap (λ t. is_integer_string (t ++ c ∷ cs)) (sign_of-negsuc k) ∙ only_digits-pass (c ∷ cs) h n

int_text_short :
    (m : Money) → IsMoney m → length (int_text (m.amount_minor)) ≤ max_dto_amount_length
unfolding int_text
int_text_short m v =
    rw (length-append (sign_of (m.amount_minor)) (decimal (magnitude (m.amount_minor))))
      (omega (arith, sign_length (m.amount_minor), digits_length m v))

int_text_whole : (a : ℤ) → is_integer_string (int_text a) ≡ true
unfolding int_text
int_text_whole a =
    integer_text a (decimal (magnitude a)) (All-decimal (magnitude a))
      (decimal_nonempty (magnitude a))

read_int-int_text : (a : ℤ) → read_int (int_text a) ≡ a
unfolding int_text
read_int-int_text a =
    read_int-digits a (decimal (magnitude a)) (All-decimal (magnitude a))
      (decimal_nonempty (magnitude a)) (read_decimal-decimal (magnitude a))

-- Money within the bounds is turned into a transfer object, and what is read from that object is
-- the same money.
pub from_dto-to_dto :
    (m : Money) → IsMoney m → (money_to_dto m >>= λ dto. money_from_dto (Unknown.object dto)) ≡ ok m
unfolding money_to_dto money_from_dto money_from_fields
from_dto-to_dto m v =
    let a = m.amount_minor in
    let short : ltb max_dto_amount_length (length (int_text a)) ≡ false =
      ground (arith, int_text_short m v) in
    rw (assert_money_valid m v)
      (rw (short, int_text_whole a) (rw (read_int-int_text a) (of_minor_valid m v)))

number_is_safe : (a : ℤ) → magnitude a ≤ max_safe_integer → is_safe_integer (to_number a) ≡ true
number_is_safe (pos n) h = ground arith
number_is_safe (negsuc n) h = ground arith

amount_back :
    (a : ℤ)
    → magnitude a ≤ max_safe_integer
    → to_big_int_amount (JsValue.number (to_number a)) ≡ ok a
unfolding to_big_int_amount
amount_back (pos n) h = let safe : leb n max_safe_integer ≡ true = ground arith in rw safe refl
amount_back (negsuc n) h =
    let safe : leb (suc n) max_safe_integer ≡ true = ground arith in rw safe refl

scale_number : (n : ℕ) → n ≤ 64 → to_scale_number (digits_value n) ≡ ok (JsNumber.int n)
unfolding to_scale_number
scale_number n h = let safe : leb n max_safe_integer ≡ true = ground arith in rw safe refl

-- A snapshot that is taken is restored to the same money.
pub from_snapshot-to_snapshot :
    (m : Money)
    → IsMoney m
    → magnitude (m.amount_minor) ≤ max_safe_integer
    → (money_to_snapshot m >>= λ s. money_from_snapshot (Unknown.object s)) ≡ ok m
unfolding money_to_snapshot money_from_snapshot money_from_snapshot_fields
from_snapshot-to_snapshot m v h = rw (assert_money_valid m v) (
    rw (number_is_safe (m.amount_minor) h) (
      rw (amount_back (m.amount_minor) h)
        (rw (scale_number (m.scale) (v.scale_bound)) (of_minor_valid m v))))
