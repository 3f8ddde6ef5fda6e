-- ===== src/Base/JsString.antt =====
-- A JavaScript string: its UTF-16 code units.
use Prim.Native.Nat.{ℕ}
use mathlib.Core.List.{List}
use mathlib.Core.Path.{◌≡◌}
use mathlib.Core.Logic.{◌↔◌}
use mathlib.Core.Bool.{Bool, true, false}
use native.Mathlib.Omega.{arith}
use native.Mathlib.Decide.{ℕ_discrete}

abbrev pub JsString : Type 0
JsString = List ℕ

unfoldable pub JsString-discrete : Discrete JsString
unfolding ℕ_discrete
JsString-discrete = hlevel ℕ_discrete

-- `===` on strings.
unfoldable pub str_eq : JsString → JsString → Bool
unfolding JsString-discrete
str_eq s t = elim (JsString-discrete s t) [ yes _ ↦ true | no _ ↦ false ]

pub str_eq_iff : (s t : JsString) → (str_eq s t ≡ true) ↔ (s ≡ t)
unfolding str_eq
str_eq_iff s t = ground arith
