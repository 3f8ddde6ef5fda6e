-- ===== src/Base/Capacity.antt =====
-- Retention limits of the in-memory stores and the error that a full store raises
-- (src/core/errors.ts, `InMemoryCapacityExceededError`).
use Prim.Native.Nat.{ℕ, ◌+◌, ◌≤◌}
use mathlib.Core.Path.{◌≡◌, refl}
use native.Mathlib.Omega.{arith}
use mathlib.Core.Bool.{true, false}
use mathlib.Core.Option.{Option, none, some}
use ddd_kit_ts.Base.Tests.{ltb}

-- The error names the store and the resource by its type here: each store has its own.
pub record CapacityExceeded {ℓ} (R : Type ℓ) : Type ℓ where
  pub resource : R
  pub limit : ℕ
  pub current : ℕ
  pub attempted : ℕ

-- `limit !== undefined && current + attempted > limit`, with the error's fields on a hit.
abbrev pub over_limit {ℓ} : {R : Type ℓ} → R → Option ℕ → ℕ → ℕ → Option (CapacityExceeded R)
over_limit r none current attempted = none
over_limit r (some limit) current attempted = elim (ltb limit (current + attempted)) [
  | true ↦ some (record { resource = r; limit = limit; current = current; attempted = attempted })
  | false ↦ none
]

-- `current` stays within a limit that is configured.
abbrev pub Within : ℕ → Option ℕ → Type 0
Within n none = Unit
Within n (some limit) = n ≤ limit

pub over_limit-Within {ℓ} :
    {R : Type ℓ} (r : R) (limit : Option ℕ) (current attempted : ℕ)
    → over_limit r limit current attempted ≡ none
    → Within (current + attempted) limit
over_limit-Within r none current attempted h = tt
over_limit-Within r (some limit) current attempted h = ground arith

pub Within-anti : (m n : ℕ) (limit : Option ℕ) → m ≤ n → Within n limit → Within m limit
Within-anti m n none h w = tt
Within-anti m n (some limit) h w = omega arith

pub Within-over_limit {ℓ} :
    {R : Type ℓ} (r : R) (limit : Option ℕ) (current attempted : ℕ)
    → Within (current + attempted) limit
    → over_limit r limit current attempted ≡ none
Within-over_limit r none current attempted w = refl
Within-over_limit r (some limit) current attempted w = ground arith

pub Within-zero : (limit : Option ℕ) → Within 0 limit
Within-zero none = tt
Within-zero (some limit) = omega arith
