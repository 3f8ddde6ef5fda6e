-- ===== src/Base/JsNumber.antt =====
-- A JavaScript `number` argument, as far as the guards of the program look at it, and the shared
-- guards of src/utils/validate.ts.
use Prim.Native.Nat.{ℕ}
use mathlib.Core.Bool.{◌&&◌}
use mathlib.Core.Option.{Option, none, some}
use ddd_kit_ts.Base.Tests.{leb, if◌then◌else◌}
use ddd_kit_ts.Base.Results.{Outcome, ok, throws}

-- `negative n` is -(n + 1); `non_integer` is NaN, an infinity or a fraction.
pub data JsNumber : Type 0 where
  int : ℕ → JsNumber
  negative : ℕ → JsNumber
  non_integer : JsNumber

-- `Number.MAX_SAFE_INTEGER`
abbrev pub max_safe_integer : ℕ
max_safe_integer = 9007199254740991

-- `assertPositiveSafeInteger`: the number if it passes.
unfoldable pub assert_positive_safe_integer {ℓ} : {E : Type ℓ} → E → JsNumber → Outcome E ℕ
assert_positive_safe_integer e (JsNumber.int n) =
    if leb 1 n && leb n max_safe_integer then ok n else throws e
assert_positive_safe_integer e _ = throws e

-- The same guard on an option that may be left out.
unfoldable pub assert_optional_limit {ℓ} : {E : Type ℓ} → E → Option JsNumber → Outcome E (Option ℕ)
unfolding assert_positive_safe_integer
assert_optional_limit e none = ok none
assert_optional_limit e (some n) = elim (assert_positive_safe_integer e n) [
  | ok limit ↦ ok (some limit)
  | throws x ↦ throws x
]

-- `assertPositiveInteger`
unfoldable pub assert_positive_integer {ℓ} : {E : Type ℓ} → E → JsNumber → Outcome E ℕ
assert_positive_integer e (JsNumber.int n) = if leb 1 n then ok n else throws e
assert_positive_integer e _ = throws e
