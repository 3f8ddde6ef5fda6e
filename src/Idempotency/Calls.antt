-- ===== src/Idempotency/Calls.antt =====
-- Any calls of the store in the order in which it serves them. Each is a step on the record of its
-- key, except for `clear`.
use ddd_kit_ts.Base.{ℕ, ◌≡◌, ◌⊎◌, inl, inr, refl, Option, none, some, Bool, List, [], ◌∷◌}
use ddd_kit_ts.Base.JsString.{JsString}
use ddd_kit_ts.Idempotency.{
  InMemoryIdempotencyStore, IdempotencyClaimHandle, IdempotencyReconciliation, Decision, claim,
  complete, renew, confirm, abandon, reconcile, clear,
}
use ddd_kit_ts.Idempotency.Steps.{Step, claim-Step, complete-Step}
use ddd_kit_ts.Idempotency.Settling.{renew-Step, confirm-Step, abandon-Step, reconcile-Step}

-- A call of the store, with what its clock and token factory return.
pub data Call (O : Type 0) : Type 0 where
  claim_call : Option ℕ → Option JsString → (key fingerprint : JsString) → Call O
  complete_call : Option ℕ → IdempotencyClaimHandle → O → Call O
  renew_call : Option ℕ → IdempotencyClaimHandle → Call O
  confirm_call : IdempotencyClaimHandle → Call O
  abandon_call : IdempotencyClaimHandle → Call O
  reconcile_call : Option ℕ → IdempotencyReconciliation → Decision → Call O
  clear_call : Call O

module _ {O : Type 0} (cloneable : O → Bool) where
  -- The key that a call is about; `clear` is about all of them.
  abbrev pub key_of : Call O → Option JsString
  key_of (claim_call now part key fingerprint) = some key
  key_of (complete_call now c o) = some c.key
  key_of (renew_call now c) = some c.key
  key_of (confirm_call c) = some c.key
  key_of (abandon_call c) = some c.key
  key_of (reconcile_call now r d) = some r.key
  key_of clear_call = none

  abbrev pub run : Call O → InMemoryIdempotencyStore O → InMemoryIdempotencyStore O
  run (claim_call now part key fingerprint) s = (claim cloneable s now part key fingerprint).1
  run (complete_call now c o) s = (complete cloneable s now c o).1
  run (renew_call now c) s = (renew s now c).1
  run (confirm_call c) s = (confirm s c).1
  run (abandon_call c) s = (abandon s c).1
  run (reconcile_call now r d) s = (reconcile s now r d).1
  run clear_call s = clear s

  -- The calls of all clients, in the order in which the store serves them.
  abbrev pub run_all : List (Call O) → InMemoryIdempotencyStore O → InMemoryIdempotencyStore O
  run_all [] s = s
  run_all (call ∷ calls) s = run_all calls (run call s)

  -- A call is a step on its key, or it clears the store.
  pub run-cases :
      (call : Call O) (s : InMemoryIdempotencyStore O)
      → ((key : JsString) × (key_of call ≡ some key) × Step key s (run call s))
        ⊎ (call ≡ clear_call)
  run-cases (claim_call now part key fingerprint) s =
      inl (key, refl, claim-Step cloneable s now part key fingerprint)
  run-cases (complete_call now c o) s = inl (c.key, refl, complete-Step cloneable s now c o)
  run-cases (renew_call now c) s = inl (c.key, refl, renew-Step s now c)
  run-cases (confirm_call c) s = inl (c.key, refl, confirm-Step s c)
  run-cases (abandon_call c) s = inl (c.key, refl, abandon-Step s c)
  run-cases (reconcile_call now r d) s = inl (r.key, refl, reconcile-Step s now r d)
  run-cases clear_call s = inr refl
