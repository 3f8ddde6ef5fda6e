-- ===== src/Base/Int.antt =====
-- A `bigint`: signed integers over the native numbers, under the library's names (its ℤ stands on
-- the unary ℕ).
use Prim.Native.Nat.{ℕ, zero, suc, ◌+◌, ◌-◌, ◌*◌, ◌/◌, ◌%◌, ◌^◌, ◌<◌}
use mathlib.Core.Path.{◌≡◌, refl, sym, ap, ◌∙◌}
use mathlib.Core.Logic.{◌↔◌}
use mathlib.Core.Bool.{Bool}
use native.Mathlib.Omega.{arith}
use native.Mathlib.Nat.{mul-div_cancel, div-add-mod', zero-div, mul_assoc, pow-zero, pow-succ'}
use ddd_kit_ts.Base.Tests.{ltb, leb, ◌==◌, if◌then◌else◌}

-- `negsuc n` is -(n + 1).
pub data ℤ : Type 0 where
  pos : ℕ → ℤ
  negsuc : ℕ → ℤ

abbrev pub pos_part : ℤ → ℕ
pos_part (pos n) = n
pos_part (negsuc n) = 0

abbrev pub neg_part : ℤ → ℕ
neg_part (pos n) = 0
neg_part (negsuc n) = suc n

-- The absolute value.
abbrev pub magnitude : ℤ → ℕ
magnitude (pos n) = n
magnitude (negsuc n) = suc n

-- a - b, as an integer.
abbrev pub sub_ℕ : ℕ → ℕ → ℤ
sub_ℕ a b = if leb b a then pos (a - b) else negsuc (b - a - 1)

infixl 65 ◌+ℤ◌ ◌-ℤ◌
unfoldable pub ◌+ℤ◌ : ℤ → ℤ → ℤ
a +ℤ b = sub_ℕ (pos_part a + pos_part b) (neg_part a + neg_part b)

unfoldable pub ◌-ℤ◌ : ℤ → ℤ → ℤ
a -ℤ b = sub_ℕ (pos_part a + neg_part b) (neg_part a + pos_part b)

abbrev pub neg : ℤ → ℤ
neg a = sub_ℕ (neg_part a) (pos_part a)

abbrev pub ltb_ℤ : ℤ → ℤ → Bool
ltb_ℤ a b = ltb (pos_part a + neg_part b) (pos_part b + neg_part a)

abbrev pub ◌==ℤ◌ : ℤ → ℤ → Bool

infix 50 ◌==ℤ◌
a ==ℤ b = pos_part a + neg_part b == pos_part b + neg_part a

-- -n, as an integer.
abbrev pub neg_of : ℕ → ℤ
neg_of zero = pos 0
neg_of (suc n) = negsuc n

-- The product with a factor that is not negative.
unfoldable pub times : ℤ → ℕ → ℤ
times (pos n) k = pos (n * k)
times (negsuc n) k = neg_of (suc n * k)

-- `a / k` and `a % k` for a factor that is not negative: both round towards zero, so a remainder
-- has the sign of `a`.
unfoldable pub quotient : ℤ → ℕ → ℤ
quotient (pos n) k = pos (n / k)
quotient (negsuc n) k = neg_of (suc n / k)

unfoldable pub remainder : ℤ → ℕ → ℤ
remainder (pos n) k = pos (n % k)
remainder (negsuc n) k = neg_of (suc n % k)

pub ==ℤ_sound : (a b : ℤ) → (a ==ℤ b) ≡ Bool.true → a ≡ b
==ℤ_sound a b h = ground arith

pub +ℤ-cancel : (a b : ℤ) → a +ℤ b -ℤ b ≡ a
unfolding ◌+ℤ◌ ◌-ℤ◌
+ℤ-cancel a b = ground arith

pub neg-neg : (a : ℤ) → neg (neg a) ≡ a
neg-neg a = ground arith

div-whole : (n k : ℕ) → n % k ≡ 0 → n / k * k ≡ n
div-whole n k h = omega (arith, div-add-mod' n k)

magnitude-neg_of : (n : ℕ) → magnitude (neg_of n) ≡ n
magnitude-neg_of zero = refl
magnitude-neg_of (suc n) = refl

neg_of-zero_iff : (n : ℕ) → ((neg_of n ==ℤ pos 0) ≡ Bool.true) ↔ (n ≡ 0)
neg_of-zero_iff zero = ground arith
neg_of-zero_iff (suc n) = ground arith

pub magnitude-times : (a : ℤ) (k : ℕ) → magnitude (times a k) ≡ magnitude a * k
unfolding times
magnitude-times (pos n) k = refl
magnitude-times (negsuc n) k = magnitude-neg_of (suc n * k)

pub magnitude-quotient : (a : ℤ) (k : ℕ) → magnitude (quotient a k) ≡ magnitude a / k
unfolding quotient
magnitude-quotient (pos n) k = refl
magnitude-quotient (negsuc n) k = magnitude-neg_of (suc n / k)

-- No remainder is left exactly if none is left of the absolute value.
pub remainder-zero_iff :
    (a : ℤ) (k : ℕ) → ((remainder a k ==ℤ pos 0) ≡ Bool.true) ↔ (magnitude a % k ≡ 0)
unfolding remainder
remainder-zero_iff (pos n) k = ground arith
remainder-zero_iff (negsuc n) k = neg_of-zero_iff (suc n % k)

quotient-neg_of : (n k : ℕ) → 0 < k → quotient (neg_of n) k ≡ neg_of (n / k)
unfolding quotient
quotient-neg_of zero k h = rw (zero-div k) refl
quotient-neg_of (suc n) k h = refl

times-neg_of : (n k : ℕ) → times (neg_of n) k ≡ neg_of (n * k)
unfolding times
times-neg_of zero k = let e : 0 * k ≡ 0 = omega arith in rw e refl
times-neg_of (suc n) k = refl

pub quotient-times : (a : ℤ) (k : ℕ) → 0 < k → quotient (times a k) k ≡ a
unfolding quotient times
quotient-times (pos n) k h = ap pos (mul-div_cancel n h)
quotient-times (negsuc n) k h =
    quotient-neg_of (suc n * k) k h ∙ ap neg_of (mul-div_cancel (suc n) h)

pub times-quotient : (a : ℤ) (k : ℕ) → magnitude a % k ≡ 0 → times (quotient a k) k ≡ a
unfolding quotient times
times-quotient (pos n) k h = ap pos (div-whole n k h)
times-quotient (negsuc n) k h = times-neg_of (suc n / k) k ∙ ap neg_of (div-whole (suc n) k h)

pub times-times : (a : ℤ) (j k : ℕ) → times (times a j) k ≡ times a (j * k)
unfolding times
times-times (pos n) j k = ap pos (mul_assoc n j k)
times-times (negsuc n) j k = times-neg_of (suc n * j) k ∙ ap neg_of (mul_assoc (suc n) j k)

pub pow-add : (b j k : ℕ) → b ^ (j + k) ≡ b ^ j * b ^ k
pow-add b zero k =
    let shift : 0 + k ≡ k = omega arith in
    let one : b ^ k ≡ 1 * b ^ k = omega arith in
    ap (λ n. b ^ n) shift ∙ one ∙ ap (λ n. n * b ^ k) (sym (pow-zero b))
pow-add b (suc j) k =
    let shift : suc j + k ≡ suc (j + k) = omega arith in
    ap (λ n. b ^ n) shift
    ∙ pow-succ' b (j + k)
    ∙ ap (λ n. b * n) (pow-add b j k)
    ∙ sym (mul_assoc b (b ^ j) (b ^ k))
    ∙ ap (λ n. n * b ^ k) (sym (pow-succ' b j))
