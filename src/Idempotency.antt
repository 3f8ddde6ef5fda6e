-- ===== src/Idempotency.antt =====
-- src/app/in-memory-idempotency-store.ts: the reference implementation of the idempotency store.
-- A method takes what the injected clock and token factory return at that moment, and gives its
-- outcome and the store that it leaves behind. `cloneable` says which outcomes `structuredClone`
-- copies; a copy is an equal value.
mod Types
mod Creation
pub mod Steps
pub mod Settling
pub mod Calls
pub mod Invariant
pub mod Protocol
pub mod Fencing
pub mod Exclusion
mod Tests
unfoldable pub use Types.*
unfoldable pub use Creation.*
use ddd_kit_ts.Base.{
  ℕ, ◌+◌, ◌/◌, Bool, true, false, not, ◌&&◌, ◌||◌, Option, none, some, [], ltb, leb, ◌==◌, ite,
  if◌then◌else◌, Outcome, ok, throws, ◌>>=◌, get_or, length,
}
use ddd_kit_ts.Base.Capacity.{over_limit}
use ddd_kit_ts.Base.JsMap
use ddd_kit_ts.Base.JsNumber.{JsNumber, max_safe_integer, assert_optional_limit}
use ddd_kit_ts.Base.JsString.{JsString, JsString-discrete, str_eq}

module _ {O : Type 0} (cloneable : O → Bool) where
  structured_clone : O → Outcome Error O
  structured_clone o = if cloneable o then ok o else throws data_clone

  -- A claim of a key whose record has the same fingerprint.
  claim_existing :
      InMemoryIdempotencyStore O
      → ℕ
      → Option JsString
      → JsString
      → JsString
      → Entry O
      → Reply O (IdempotencyClaim O)
  unfolding structured_clone create_pending to_iso_string
  claim_existing s now part key fingerprint (confirmed f t o) =
      (structured_clone o >>= λ copy. ok (completed copy), s)
  claim_existing s now part key fingerprint (staged f t expires_at_ms o) =
      if ltb now expires_at_ms then (throws (in_flight key), s) else (
        to_iso_string expires_at_ms >>= λ text. ok (
            reconciliation_required
              (record { key = key; fingerprint = fingerprint; token = t; expired_at = text })),
        s,
      )
  claim_existing s now part key fingerprint (pending f t expires_at_ms) =
      if ltb now expires_at_ms
      then (throws (in_flight key), s)
      else create_pending s part key fingerprint now

  claim_at :
      InMemoryIdempotencyStore O
      → ℕ
      → Option JsString
      → JsString
      → JsString
      → Reply O (IdempotencyClaim O)
  unfolding claim_existing create_pending
  claim_at s now part key fingerprint = elim (entry_at key s) [
    | none ↦ elim (over_limit entries_held s.max_entries (JsMap.size s.entries) 1) [
      | some full ↦ (throws (capacity_exceeded full), s)
      | none ↦ create_pending s part key fingerprint now
    ]
    | some existing ↦
        if str_eq (fingerprint_of existing) fingerprint
        then claim_existing s now part key fingerprint existing
        else (throws (key_reuse key (fingerprint_of existing) fingerprint), s)
  ]

  unfoldable pub claim :
      InMemoryIdempotencyStore O
      → Option ℕ
      → Option JsString
      → JsString
      → JsString
      → Reply O (IdempotencyClaim O)
  unfolding claim_at
  claim s none part key fingerprint = (throws invalid_clock, s)
  claim s (some now) part key fingerprint = claim_at s now part key fingerprint

  complete_at :
      InMemoryIdempotencyStore O → ℕ → IdempotencyClaimHandle → O → Entry O → Reply O (Unit {0})
  unfolding lease structured_clone
  complete_at s now claim outcome (pending f t expires_at_ms) =
      if not (str_eq t claim.token) || leb expires_at_ms now
      then (throws (claim_lost claim.key claim.token), s)
      else elim (lease s (now + s.lease_duration_ms)) [
        | throws e ↦ (throws e, s)
        | ok granted ↦ elim (structured_clone outcome) [
          | throws e ↦ (throws e, s)
          | ok copy ↦ (ok tt, put_entry claim.key (staged f t (now + s.lease_duration_ms) copy) s)
        ]
      ]
  complete_at s now claim outcome _ = (throws (claim_lost claim.key claim.token), s)

  unfoldable pub complete :
      InMemoryIdempotencyStore O → Option ℕ → IdempotencyClaimHandle → O → Reply O (Unit {0})
  unfolding complete_at
  complete s none claim outcome = (throws invalid_clock, s)
  complete s (some now) claim outcome = elim (entry_at claim.key s) [
    | none ↦ (throws (completion_without_claim claim.key), s)
    | some existing ↦ complete_at s now claim outcome existing
  ]

module _ {O : Type 0} where
  -- `{ ...existing, expiresAtMs }` on a record that carries a lease.
  abbrev pub extend : Entry O → ℕ → Entry O
  extend (pending f t e) expires_at_ms = pending f t expires_at_ms
  extend (staged f t e o) expires_at_ms = staged f t expires_at_ms o
  extend (confirmed f t o) expires_at_ms = confirmed f t o

  -- The end of a lease; a confirmed record has none.
  abbrev pub expires_at : Entry O → Option ℕ
  expires_at (pending f t e) = some e
  expires_at (staged f t e o) = some e
  expires_at (confirmed f t o) = none

  renew_at :
      InMemoryIdempotencyStore O
      → ℕ
      → IdempotencyClaimHandle
      → Entry O
      → Reply O (Option IdempotencyLease)
  unfolding lease
  renew_at s now claim existing = elim (expires_at existing) [
    | none ↦ (throws (claim_lost claim.key claim.token), s)
    | some expires_at_ms ↦
        if not (str_eq (token_of existing) claim.token) || leb expires_at_ms now
        then (throws (claim_lost claim.key claim.token), s)
        else elim (lease s (now + s.lease_duration_ms)) [
          | throws e ↦ (throws e, s)
          | ok granted ↦ (
            ok (some granted),
            put_entry claim.key (extend existing (now + s.lease_duration_ms)) s,
          )
        ]
  ]

  unfoldable pub renew :
      InMemoryIdempotencyStore O
      → Option ℕ
      → IdempotencyClaimHandle
      → Reply O (Option IdempotencyLease)
  unfolding renew_at
  renew s none claim = (throws invalid_clock, s)
  renew s (some now) claim = elim (entry_at claim.key s) [
    | none ↦ (throws (claim_lost claim.key claim.token), s)
    | some existing ↦ renew_at s now claim existing
  ]

  confirm_at : InMemoryIdempotencyStore O → IdempotencyClaimHandle → Entry O → Reply O (Unit {0})
  confirm_at s claim (staged f t e o) =
      if str_eq t claim.token then (ok tt, put_entry claim.key (confirmed f t o) s) else (ok tt, s)
  confirm_at s claim _ = (ok tt, s)

  unfoldable pub confirm : InMemoryIdempotencyStore O → IdempotencyClaimHandle → Reply O (Unit {0})
  unfolding confirm_at
  confirm s claim = elim (entry_at claim.key s) [
    | none ↦ (ok tt, s)
    | some existing ↦ confirm_at s claim existing
  ]

  abandon_at : InMemoryIdempotencyStore O → IdempotencyClaimHandle → Entry O → Reply O (Unit {0})
  abandon_at s claim (confirmed f t o) = (ok tt, s)
  abandon_at s claim existing =
      if str_eq (token_of existing) claim.token then (ok tt, drop_entry claim.key s) else (ok tt, s)

  unfoldable pub abandon : InMemoryIdempotencyStore O → IdempotencyClaimHandle → Reply O (Unit {0})
  unfolding abandon_at
  abandon s claim = elim (entry_at claim.key s) [
    | none ↦ (ok tt, s)
    | some existing ↦ abandon_at s claim existing
  ]

  -- What a decision does to the staged record that it settles.
  settle :
      InMemoryIdempotencyStore O
      → JsString
      → Decision
      → (f t : JsString) → O
      → InMemoryIdempotencyStore O
  settle s key committed f t o = put_entry key (confirmed f t o) s
  settle s key _ f t o = drop_entry key s

  reconcile_at :
      InMemoryIdempotencyStore O
      → Option ℕ
      → IdempotencyReconciliation
      → Decision
      → Entry O
      → Reply O (Unit {0})
  unfolding to_iso_string settle
  reconcile_at s now r decision (staged f t expires_at_ms o) =
      if not (str_eq t r.token) || not (str_eq f r.fingerprint)
      then (throws (claim_lost r.key r.token), s)
      else elim (to_iso_string expires_at_ms) [
        | throws e ↦ (throws e, s)
        | ok text ↦
            if not (text == r.expired_at)
            then (throws (claim_lost r.key r.token), s)
            else elim now [
              | none ↦ (throws invalid_clock, s)
              | some t_now ↦
                  if ltb t_now expires_at_ms
                  then (throws (claim_lost r.key r.token), s)
                  else (ok tt, settle s r.key decision f t o)
            ]
      ]
  reconcile_at s now r decision _ = (throws (claim_lost r.key r.token), s)

  unfoldable pub reconcile :
      InMemoryIdempotencyStore O
      → Option ℕ
      → IdempotencyReconciliation
      → Decision
      → Reply O (Unit {0})
  unfolding reconcile_at
  reconcile s now r unknown = (throws invalid_decision, s)
  reconcile s now r decision = elim (entry_at r.key s) [
    | none ↦ (throws (claim_lost r.key r.token), s)
    | some existing ↦ reconcile_at s now r decision existing
  ]

  unfoldable pub clear : InMemoryIdempotencyStore O → InMemoryIdempotencyStore O
  clear s = record s { entries = [] }
