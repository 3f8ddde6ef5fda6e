-- ===== src/Money/Rescaling.antt =====
-- Rescaling keeps the value and can be undone, for `rescaleMoney` of src/money/arithmetic.ts.
use ddd_kit_ts.Base.{
  ℕ, ◌+◌, ◌-◌, ◌%◌, ◌^◌, ◌≤◌, ◌<◌, ◌≡◌, refl, sym, ap, ◌∙◌, ◌⊎◌, inl, inr, true, false, arith, ltb,
  ◌==◌, Bool-cases, ok, ok-inj, ok-throws, bind_ok,
}
use mathlib.Core.Path.{subst}
use native.Mathlib.Nat.{one-le-pow, mul-mod_left}
use ddd_kit_ts.Base.Int.{
  ℤ, pos, magnitude, times, quotient, remainder, ◌==ℤ◌, magnitude-times, remainder-zero_iff,
  quotient-times, times-quotient, times-times, pow-add,
}
use ddd_kit_ts.Money.Types.{
  JsValue, MoneyError, Money, max_money_scale, is_valid_scale, digits_value, assert_valid_scale,
}
use ddd_kit_ts.Money.Bounds.{IsMoney, of_minor_valid, of_minor_ok, assert_scale}
use ddd_kit_ts.Money.Arithmetic.{rescaled, rescale_down, rescale_to, rescale_money}

abbrev pub at_scale : Money → ℕ → ℤ → Money
at_scale m s a = record { amount_minor = a; currency = m.currency; scale = s }

-- What a scale is that passes its guard.
assert_scale_ok :
    (v : JsValue) (n : ℕ)
    → assert_valid_scale v ≡ ok n
    → (v ≡ digits_value n) × (n ≤ max_money_scale)
unfolding assert_valid_scale is_valid_scale
assert_scale_ok v n h = ground arith

factor_pos : (k : ℕ) → 0 < 10 ^ k
factor_pos k = one-le-pow k 10 (omega arith)

-- The other way for money whose amount was multiplied.
pub rescale_down-times :
    (m : Money) (s : ℕ)
    → IsMoney m
    → m.scale < s
    → rescale_down (at_scale m s (times (m.amount_minor) (10 ^ (s - m.scale)))) (m.scale) ≡ ok m
unfolding rescale_down
rescale_down-times m s v h =
    let factor = 10 ^ (s - m.scale) in
    let whole : (remainder (times (m.amount_minor) factor) factor ==ℤ pos 0) ≡ true =
      (remainder-zero_iff (times (m.amount_minor) factor) factor).1 (
        ap (λ n. n % factor) (magnitude-times (m.amount_minor) factor)
        ∙ mul-mod_left (magnitude (m.amount_minor)) factor) in
    rw (whole, quotient-times (m.amount_minor) factor (factor_pos (s - m.scale)))
      (of_minor_valid m v)

-- The branches of a rescaling that succeeds.
pub rescale_to_cases :
    (m r : Money) (s : ℕ)
    → rescale_to m s ≡ ok r
    → (s ≡ m.scale) × (r ≡ m)
      ⊎ (m.scale < s) × (rescaled m s (times (m.amount_minor) (10 ^ (s - m.scale))) ≡ ok r)
      ⊎ (s < m.scale) × (rescale_down m s ≡ ok r)
unfolding rescale_to
rescale_to_cases m r s h = elim (Bool-cases (s == m.scale)) [
  | inl same ↦ inl (ground arith, sym (ok-inj _ _ (rw same at h)))
  | inr differs ↦ elim (Bool-cases (ltb (m.scale) s)) [
    | inl up ↦ inr (inl (ground arith, rw (differs, up) at h))
    | inr down ↦ inr (inr (ground arith, rw (differs, down) at h))
  ]
]

rescale_to_up :
    (m : Money) (s : ℕ)
    → m.scale < s
    → rescale_to m s ≡ rescaled m s (times (m.amount_minor) (10 ^ (s - m.scale)))
unfolding rescale_to
rescale_to_up m s h =
    let differs : (s == m.scale) ≡ false = ground arith in
    let up : ltb (m.scale) s ≡ true = ground arith in rw (differs, up) refl

rescale_to_down : (m : Money) (s : ℕ) → s < m.scale → rescale_to m s ≡ rescale_down m s
unfolding rescale_to
rescale_to_down m s h =
    let differs : (s == m.scale) ≡ false = ground arith in
    let down : ltb (m.scale) s ≡ false = ground arith in rw (differs, down) refl

rescale_to_same : (m : Money) → rescale_to m (m.scale) ≡ ok m
unfolding rescale_to
rescale_to_same m = let same : (m.scale == m.scale) ≡ true = ground arith in rw same refl

-- A rescaling to a lower scale that succeeds divides the amount without a remainder.
rescale_down_ok :
    (m r : Money) (s : ℕ)
    → rescale_down m s ≡ ok r
    → (times (quotient (m.amount_minor) (10 ^ (m.scale - s))) (10 ^ (m.scale - s)) ≡ m.amount_minor)
      × (IsMoney r)
      × (r ≡ at_scale m s (quotient (m.amount_minor) (10 ^ (m.scale - s))))
unfolding rescale_down
rescale_down_ok m r s h =
    let factor = 10 ^ (m.scale - s) in
    elim (Bool-cases (remainder (m.amount_minor) factor ==ℤ pos 0)) [
      | inr left ↦ absurd (ok-throws MoneyError.precision_loss (sym (rw left at h)))
      | inl whole ↦
          let made = of_minor_ok _ (m.currency) s r (rw whole at h) in
          (
            times-quotient (m.amount_minor) factor
                ((remainder-zero_iff (m.amount_minor) factor).0 whole),
            made.0,
            made.1,
          )
    ]

-- A successful rescaling is undone by rescaling to the old scale.
rescale_to_back :
    (m r : Money) (s : ℕ)
    → IsMoney m
    → rescale_to m s ≡ ok r
    → (r.scale ≡ s) × (rescale_to r (m.scale) ≡ ok m)
rescale_to_back m r s v h = elim (rescale_to_cases m r s h) [
  | inl (same, e) ↦ (
    ap (λ x. x.scale) e ∙ sym same,
    subst (λ x. rescale_to x (m.scale) ≡ ok m) (sym e) (rescale_to_same m),
  )
  | inr (inl (up, made)) ↦
      let e = (of_minor_ok _ (m.currency) s r made).1 in
      (
        ap (λ x. x.scale) e,
        subst (λ x. rescale_to x (m.scale) ≡ ok m) (sym e)
            (rescale_to_down (at_scale m s (times (m.amount_minor) (10 ^ (s - m.scale)))) (m.scale)
                up
              ∙ rescale_down-times m s v up),
      )
  | inr (inr (down, made)) ↦
      let (product, valid, e) = rescale_down_ok m r s made in
      (
        ap (λ x. x.scale) e,
        subst (λ x. rescale_to x (m.scale) ≡ ok m) (sym e)
            (rescale_to_up (at_scale m s (quotient (m.amount_minor) (10 ^ (m.scale - s)))) (m.scale)
                down
              ∙ rw product (of_minor_valid m v)),
      )
]

-- The value in units of the scale `k`: what `amount_minor` is times a power of ten.
abbrev pub value_at : Money → ℕ → ℤ
value_at m k = times (m.amount_minor) (10 ^ k)

-- An amount that was multiplied on the way to a higher scale has kept the value.
times_up :
    (a : ℤ) (low high : ℕ)
    → low < high
    → times a (10 ^ high) ≡ times (times a (10 ^ (high - low))) (10 ^ low)
times_up a low high h =
    let split : high - low + low ≡ high = omega arith in
    sym (
      times-times a (10 ^ (high - low)) (10 ^ low)
      ∙ ap (times a) (sym (pow-add 10 (high - low) low) ∙ ap (λ n. 10 ^ n) split))

-- A rescaling keeps the value: the two amounts, each in units of the other's scale, are equal.
rescale_to-value :
    (m r : Money) (s : ℕ) → rescale_to m s ≡ ok r → value_at m (r.scale) ≡ value_at r (m.scale)
rescale_to-value m r s h = elim (rescale_to_cases m r s h) [
  | inl (same, e) ↦ subst (λ x. value_at m (x.scale) ≡ value_at x (m.scale)) (sym e) refl
  | inr (inl (up, made)) ↦
      subst (λ x. value_at m (x.scale) ≡ value_at x (m.scale))
        (sym ((of_minor_ok _ (m.currency) s r made).1)) (times_up (m.amount_minor) (m.scale) s up)
  | inr (inr (down, made)) ↦
      let (product, valid, e) = rescale_down_ok m r s made in
      let q = quotient (m.amount_minor) (10 ^ (m.scale - s)) in
      subst (λ x. value_at m (x.scale) ≡ value_at x (m.scale)) (sym e)
        (ap (λ a. times a (10 ^ s)) (sym product) ∙ sym (times_up q s (m.scale) down))
]

-- A successful rescaling of money within the bounds is to the scale given, keeps the value, and is
-- undone by rescaling to the old scale.
pub rescale_exact :
    (m r : Money) (scale : JsValue)
    → IsMoney m
    → rescale_money m scale ≡ ok r
    → (scale ≡ digits_value (r.scale))
      × (value_at m (r.scale) ≡ value_at r (m.scale))
      × (rescale_money r (digits_value (m.scale)) ≡ ok m)
unfolding rescale_money
rescale_exact m r scale v h =
    let (n, passed, made) = bind_ok (assert_valid_scale scale) (rescale_to m) r h in
    let (at_n, back) = rescale_to_back m r n v made in
    (
      (assert_scale_ok scale n passed).0 ∙ ap digits_value (sym at_n),
      rescale_to-value m r n made,
      rw (assert_scale (m.scale) (v.scale_bound)) back,
    )
