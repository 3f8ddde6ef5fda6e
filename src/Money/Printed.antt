-- ===== src/Money/Printed.antt =====
-- Parsing a printed amount gives it back, for src/money/money.ts and src/money/parse.ts.
use ddd_kit_ts.Base.{
  ℕ, zero, suc, ◌<◌, ◌≡◌, refl, sym, ap, ◌∙◌, true, false, some, [], ◌∷◌, ◌++◌, ◌==◌, arith, length,
  take, drop, All,
}
use ddd_kit_ts.Base.JsString.{JsString}
use ddd_kit_ts.Base.Decimal.{read_decimal, IsDigit}
use ddd_kit_ts.Base.Int.{ℤ, pos, negsuc, magnitude, neg_of}
use ddd_kit_ts.Money.Text.{
  is_digit, repeat, sign_of, read_int, digits_of, match_fraction, match_unsigned, match_decimal,
  only_digits, match_groups,
}

abbrev pub AllDigits : JsString → Type 0
AllDigits s = All IsDigit s

-- Digits and what cannot continue them are told apart.
digits_of-append :
    (ds rest : JsString)
    → AllDigits ds
    → digits_of rest ≡ ([], rest)
    → digits_of (ds ++ rest) ≡ (ds, rest)
digits_of-append [] rest h e = e
digits_of-append (d ∷ ds) rest h e =
    let here : is_digit d ≡ true = ground arith in rw (here, digits_of-append ds rest (h.1) e) refl

pub digits_of_all : (ds : JsString) → AllDigits ds → digits_of ds ≡ (ds, [])
digits_of_all [] h = refl
digits_of_all (d ∷ ds) h =
    let here : is_digit d ≡ true = ground arith in rw (here, digits_of_all ds (h.1)) refl

match_groups_both :
    (sign ds fs : JsString)
    → 0 < length ds
    → 0 < length fs
    → match_groups sign ds (only_digits fs [])
      ≡ some record { sign = sign; whole = ds; fraction = fs }
match_groups_both sign [] fs n m = absurd (omega arith)
match_groups_both sign (d ∷ ds) [] n m = absurd (omega arith)
match_groups_both sign (d ∷ ds) (f ∷ fs) n m = refl

-- Whole digits and a fraction are matched.
match_fractional :
    (sign ds fs : JsString)
    → AllDigits ds
    → AllDigits fs
    → 0 < length ds
    → 0 < length fs
    → match_unsigned sign (ds ++ b'.' ∷ fs) ≡ some record { sign = sign; whole = ds; fraction = fs }
match_fractional sign ds fs hd hf nd nf =
    ap (λ p. match_groups sign (p.0) (match_fraction (p.1)))
      (digits_of-append ds (b'.' ∷ fs) hd refl)
    ∙ ap (λ p. match_groups sign ds (only_digits (p.0) (p.1))) (digits_of_all fs hf)
    ∙ match_groups_both sign ds fs nd nf

match_whole :
    (sign ds : JsString)
    → AllDigits ds
    → 0 < length ds
    → match_unsigned sign ds ≡ some record { sign = sign; whole = ds; fraction = [] }
match_whole sign [] hd nd = absurd (omega arith)
match_whole sign (d ∷ ds) hd nd =
    ap (λ p. match_groups sign (p.0) (match_fraction (p.1))) (digits_of_all (d ∷ ds) hd)

pub sign_of-pos : (n : ℕ) → sign_of (pos n) ≡ []
sign_of-pos n = ground arith

pub sign_of-negsuc : (n : ℕ) → sign_of (negsuc n) ≡ b'-' ∷ []
sign_of-negsuc n = ground arith

-- A sign in front of digits is seen.
match_signed :
    (a : ℤ) (d : ℕ) (rest : JsString)
    → IsDigit d
    → match_decimal (sign_of a ++ d ∷ rest) ≡ match_unsigned (sign_of a) (d ∷ rest)
unfolding match_decimal
match_signed (pos n) d rest h =
    let differs : (d == b'-') ≡ false = ground arith in
    ap (λ s. match_decimal (s ++ d ∷ rest)) (sign_of-pos n)
    ∙ rw differs refl
    ∙ ap (λ s. match_unsigned s (d ∷ rest)) (sym (sign_of-pos n))
match_signed (negsuc n) d rest h =
    ap (λ s. match_decimal (s ++ d ∷ rest)) (sign_of-negsuc n)
    ∙ ap (λ s. match_unsigned s (d ∷ rest)) (sym (sign_of-negsuc n))

pub read_int-digits :
    (a : ℤ) (s : JsString)
    → AllDigits s
    → 0 < length s
    → read_decimal s ≡ magnitude a
    → read_int (sign_of a ++ s) ≡ a
unfolding read_int
read_int-digits a [] h n e = absurd (omega arith)
read_int-digits (pos k) (c ∷ cs) h n e =
    let differs : (c == b'-') ≡ false = ground arith in
    ap (λ s. read_int (s ++ c ∷ cs)) (sign_of-pos k) ∙ rw differs (ap pos e)
read_int-digits (negsuc k) (c ∷ cs) h n e =
    ap (λ s. read_int (s ++ c ∷ cs)) (sign_of-negsuc k) ∙ ap neg_of e

-- Zeros in front do not count.
pub read_padded : (k : ℕ) (s : JsString) → read_decimal (repeat k b'0' ++ s) ≡ read_decimal s
read_padded zero s = refl
read_padded (suc k) s = read_padded k s

pub All-repeat : (k : ℕ) → AllDigits (repeat k b'0')
All-repeat zero = tt
All-repeat (suc k) = ((omega arith, omega arith), All-repeat k)

pub length-repeat : (k c : ℕ) → length (repeat k c) ≡ k
length-repeat zero c = refl
length-repeat (suc k) c = ap suc (length-repeat k c)

pub All-take : (n : ℕ) (s : JsString) → AllDigits s → AllDigits (take n s)
All-take zero s h = tt
All-take (suc n) [] h = tt
All-take (suc n) (c ∷ cs) h = (h.0, All-take n cs (h.1))

pub All-drop : (n : ℕ) (s : JsString) → AllDigits s → AllDigits (drop n s)
All-drop zero s h = h
All-drop (suc n) [] h = tt
All-drop (suc n) (c ∷ cs) h = All-drop n cs (h.1)

pub match_signed_whole :
    (a : ℤ) (ds : JsString)
    → AllDigits ds
    → 0 < length ds
    → match_decimal (sign_of a ++ ds) ≡ some record { sign = sign_of a; whole = ds; fraction = [] }
match_signed_whole a [] h n = absurd (omega arith)
match_signed_whole a (d ∷ ds) h n = match_signed a d ds (h.0) ∙ match_whole (sign_of a) (d ∷ ds) h n

pub match_signed_fraction :
    (a : ℤ) (ds fs : JsString)
    → AllDigits ds
    → AllDigits fs
    → 0 < length ds
    → 0 < length fs
    → match_decimal (sign_of a ++ (ds ++ b'.' ∷ fs))
      ≡ some record { sign = sign_of a; whole = ds; fraction = fs }
match_signed_fraction a [] fs h k n l = absurd (omega arith)
match_signed_fraction a (d ∷ ds) fs h k n l =
    match_signed a d (ds ++ b'.' ∷ fs) (h.0) ∙ match_fractional (sign_of a) (d ∷ ds) fs h k n l
