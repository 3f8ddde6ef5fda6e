-- ===== src/Idempotency/Types.antt =====
-- src/app/in-memory-idempotency-store.ts and src/app/idempotency.ts: the records of the store, the
-- receipts that it hands out, and the errors that it throws.
use ddd_kit_ts.Base.{ℕ, Option, Outcome, ok, throws, leb, if◌then◌else◌, ◌++◌, ◌∷◌}
use ddd_kit_ts.Base.Capacity.{CapacityExceeded}
use ddd_kit_ts.Base.Decimal.{decimal}
use ddd_kit_ts.Base.JsMap.{JsMap}
use ddd_kit_ts.Base.JsString.{JsString}

pub data Resource : Type 0 where
  entries_held : Resource

-- The first five are the kit's errors. A clock that returns no valid `Date`, a token part that is
-- no text, and a decision that is neither, are `TypeError`s; a used-up generation, a constructor option out of range and a time that
-- `Date` cannot write are `RangeError`s; an outcome that `structuredClone` refuses is a
-- `DataCloneError`.
pub data Error : Type 0 where
  key_reuse : (key stored received : JsString) → Error
  in_flight : (key : JsString) → Error
  claim_lost : (key token : JsString) → Error
  completion_without_claim : (key : JsString) → Error
  capacity_exceeded : CapacityExceeded Resource → Error
  invalid_clock invalid_token_part invalid_decision generation_exhausted invalid_time : Error
  invalid_option : Error
  data_clone : Error

-- A time is the milliseconds since 1970. Its ISO text is one to one with it, so the text is kept
-- as the number; `toISOString` throws beyond the range of `Date`.
abbrev pub max_time : ℕ
max_time = 8640000000000000

unfoldable pub to_iso_string : ℕ → Outcome Error ℕ
to_iso_string ms = if leb ms max_time then ok ms else throws invalid_time

pub record IdempotencyLease : Type 0 where
  pub expires_at : ℕ
  pub renew_after_ms : ℕ

pub record IdempotencyClaimHandle : Type 0 where
  pub key : JsString
  pub token : JsString
  pub lease : Option IdempotencyLease

pub record IdempotencyReconciliation : Type 0 where
  pub key : JsString
  pub fingerprint : JsString
  pub token : JsString
  pub expired_at : ℕ

pub data Decision : Type 0 where
  committed not_committed unknown : Decision

pub data IdempotencyClaim (O : Type 0) : Type 0 where
  claimed : IdempotencyClaimHandle → IdempotencyClaim O
  completed : O → IdempotencyClaim O
  reconciliation_required : IdempotencyReconciliation → IdempotencyClaim O

pub data Entry (O : Type 0) : Type 0 where
  pending : (fingerprint token : JsString) → (expires_at_ms : ℕ) → Entry O
  staged : (fingerprint token : JsString) → (expires_at_ms : ℕ) → (outcome : O) → Entry O
  confirmed : (fingerprint token : JsString) → (outcome : O) → Entry O

abbrev pub fingerprint_of : {O : Type 0} → Entry O → JsString
fingerprint_of (pending f t e) = f
fingerprint_of (staged f t e o) = f
fingerprint_of (confirmed f t o) = f

abbrev pub token_of : {O : Type 0} → Entry O → JsString
token_of (pending f t e) = t
token_of (staged f t e o) = t
token_of (confirmed f t o) = t

pub record InMemoryIdempotencyStore (O : Type 0) : Type 0 where
  pub entries : JsMap JsString (Entry O)
  pub lease_duration_ms : ℕ
  pub renew_after_ms : ℕ
  pub max_entries : Option ℕ
  pub token_generation : ℕ

-- The token `${generation}:${part}`.
unfoldable pub mint : ℕ → JsString → JsString
mint generation part = decimal generation ++ (b':' ∷ part)
