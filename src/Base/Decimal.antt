-- ===== src/Base/Decimal.antt =====
-- A natural number in decimal, as `String(n)` and `BigInt.prototype.toString` write it, and its
-- reading by `BigInt(text)`.
use Prim.Native.Nat.{ℕ, zero, suc, ◌+◌, ◌-◌, ◌*◌, ◌/◌, ◌%◌, ◌^◌, ◌≤◌, ◌<◌}
use mathlib.Core.Path.{◌≡◌, refl, ap, sym, ◌∙◌}
use mathlib.Core.List.{List, [], ◌∷◌, ◌++◌}
use native.Mathlib.Omega.{arith}
use ddd_kit_ts.Base.Tests.{ltb, lt→ltb, if◌then◌else◌, Bool-cases}
use native.Mathlib.Nat.{pow-succ'}
use ddd_kit_ts.Base.Lists.{All, length, length-append}
use ddd_kit_ts.Base.JsString.{JsString}
use mathlib.Core.Logic.{inl, inr}
use mathlib.Core.Bool.{true}

-- The digits of a number, the last first computed; `fuel` bounds how many there are.
decimal_from : ℕ → ℕ → JsString
decimal_from zero n = []
decimal_from (suc fuel) n =
    let rest = decimal_from fuel (n / 10) in
    if ltb n 10 then (b'0' + n) ∷ [] else rest ++ (b'0' + n % 10) ∷ []

unfoldable pub decimal : ℕ → JsString
unfolding decimal_from
decimal n = decimal_from (n + 1) n

abbrev pub read_decimal_from : ℕ → JsString → ℕ
read_decimal_from acc [] = acc
read_decimal_from acc (c ∷ cs) = read_decimal_from (acc * 10 + (c - b'0')) cs

abbrev pub read_decimal : JsString → ℕ
read_decimal s = read_decimal_from 0 s

abbrev pub IsDigit : ℕ → Type 0
IsDigit c = (b'0' ≤ c) × (c ≤ b'9')

pub read_decimal_from-append :
    (acc : ℕ) (xs ys : JsString)
    → read_decimal_from acc (xs ++ ys) ≡ read_decimal_from (read_decimal_from acc xs) ys
read_decimal_from-append acc [] ys = refl
read_decimal_from-append acc (x ∷ xs) ys = read_decimal_from-append (acc * 10 + (x - b'0')) xs ys

read-decimal_from : (fuel n : ℕ) → n < fuel → read_decimal (decimal_from fuel n) ≡ n
unfolding decimal_from
read-decimal_from zero n h = absurd (omega arith)
read-decimal_from (suc fuel) n h = elim (Bool-cases (ltb n 10)) [
  | inl small ↦ rw small (omega arith)
  | inr large ↦
      let ih : read_decimal (decimal_from fuel (n / 10)) ≡ n / 10 =
        read-decimal_from fuel (n / 10) (ground arith) in
      rw large (
        read_decimal_from-append 0 (decimal_from fuel (n / 10)) ((b'0' + n % 10) ∷ [])
        ∙ rw ih (omega arith))
]

-- Reading what was written gives the number back.
pub read_decimal-decimal : (n : ℕ) → read_decimal (decimal n) ≡ n
unfolding decimal
read_decimal-decimal n = read-decimal_from (n + 1) n (omega arith)

pub decimal-inj : (m n : ℕ) → decimal m ≡ decimal n → m ≡ n
decimal-inj m n h = sym (read_decimal-decimal m) ∙ ap read_decimal h ∙ read_decimal-decimal n

pub All-append {ℓ κ} :
    {A : Type ℓ} (P : A → Type κ) (xs ys : List A) → All P xs → All P ys → All P (xs ++ ys)
All-append P [] ys hx hy = hy
All-append P (x ∷ xs) ys hx hy = (hx.0, All-append P xs ys hx.1 hy)

All-decimal_from : (fuel n : ℕ) → All IsDigit (decimal_from fuel n)
unfolding decimal_from
All-decimal_from zero n = tt
All-decimal_from (suc fuel) n = elim (Bool-cases (ltb n 10)) [
  | inl small ↦ rw small (ground arith)
  | inr large ↦ rw large (
      All-append IsDigit (decimal_from fuel (n / 10)) _ (All-decimal_from fuel (n / 10))
        (omega arith))
]

pub All-decimal : (n : ℕ) → All IsDigit (decimal n)
unfolding decimal
All-decimal n = All-decimal_from (n + 1) n

length-decimal_from : (fuel n k : ℕ) → n < 10 ^ suc k → length (decimal_from fuel n) ≤ suc k
unfolding decimal_from
length-decimal_from zero n k h = omega arith
length-decimal_from (suc fuel) n zero h =
    let small : ltb n 10 ≡ true = lt→ltb n 10 h in rw small (omega arith)
length-decimal_from (suc fuel) n (suc j) h = elim (Bool-cases (ltb n 10)) [
  | inl small ↦ rw small (omega arith)
  | inr large ↦
      let power : 10 ^ suc (suc j) ≡ 10 * 10 ^ suc j = pow-succ' 10 (suc j) in
      let ih : length (decimal_from fuel (n / 10)) ≤ suc j =
        length-decimal_from fuel (n / 10) j (omega arith) in
      rw large
        (rw (length-append (decimal_from fuel (n / 10)) ((b'0' + n % 10) ∷ [])) (omega arith))
]

-- A number below 10 ^ k has at most k digits.
pub length-decimal : (n k : ℕ) → n < 10 ^ suc k → length (decimal n) ≤ suc k
unfolding decimal
length-decimal n k h = length-decimal_from (n + 1) n k h

decimal_from_nonempty : (fuel n : ℕ) → 0 < fuel → 0 < length (decimal_from fuel n)
unfolding decimal_from
decimal_from_nonempty zero n h = absurd (omega arith)
decimal_from_nonempty (suc fuel) n h = elim (Bool-cases (ltb n 10)) [
  | inl small ↦ rw small (omega arith)
  | inr large ↦
      rw large
        (rw (length-append (decimal_from fuel (n / 10)) ((b'0' + n % 10) ∷ [])) (omega arith))
]

pub decimal_nonempty : (n : ℕ) → 0 < length (decimal n)
unfolding decimal
decimal_nonempty n = decimal_from_nonempty (n + 1) n (omega arith)
