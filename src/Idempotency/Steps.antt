-- ===== src/Idempotency/Steps.antt =====
-- What a call can do to the records: every call but `clear` is one of five kinds of step on one
-- key.
use ddd_kit_ts.Base.{
  ℕ, ◌+◌, ◌≤◌, ◌≡◌, ◌⊎◌, inl, inr, refl, Option, none, some, Bool, true, false, arith, Option-cases,
  Bool-cases, length, ◌==◌,
}
use ddd_kit_ts.Base.Capacity.{over_limit}
use ddd_kit_ts.Base.JsMap
use ddd_kit_ts.Base.JsString.{JsString, str_eq}
use ddd_kit_ts.Idempotency.{
  InMemoryIdempotencyStore, Entry, pending, staged, confirmed, token_of, entries_held, mint,
  IdempotencyClaimHandle, entry_at, put_entry, drop_entry, create_pending_with, fingerprint_of,
  create_pending, claim, claim_at, claim_existing, complete, complete_at,
}

module _ {O : Type 0} where
  abbrev pub is_confirmed : Entry O → Bool
  is_confirmed (confirmed f t o) = true
  is_confirmed _ = false

  -- The step that a call takes on the record of one key.
  pub data Step (key : JsString) (s s' : InMemoryIdempotencyStore O) : Type 0 where
    kept :
        (generation : ℕ)
        → s.token_generation ≤ generation
        → s' ≡ record s { token_generation = generation }
        → Step key s s'
    updated :
        (old e : Entry O)
        → entry_at key s ≡ some old
        → is_confirmed old ≡ false
        → token_of e ≡ token_of old
        → s' ≡ put_entry key e s
        → Step key s s'
    added :
        (e : Entry O) (part : JsString)
        → entry_at key s ≡ none
        → over_limit entries_held s.max_entries (JsMap.size s.entries) 1 ≡ none
        → token_of e ≡ mint (s.token_generation + 1) part
        → s' ≡ put_entry key e (record s { token_generation = s.token_generation + 1 })
        → Step key s s'
    reclaimed :
        (old e : Entry O) (part : JsString)
        → entry_at key s ≡ some old
        → is_confirmed old ≡ false
        → token_of e ≡ mint (s.token_generation + 1) part
        → s' ≡ put_entry key e (record s { token_generation = s.token_generation + 1 })
        → Step key s s'
    removed :
        (old : Entry O)
        → entry_at key s ≡ some old
        → is_confirmed old ≡ false
        → s' ≡ drop_entry key s
        → Step key s s'

  create_pending_with_cases :
      (s : InMemoryIdempotencyStore O) (p key fingerprint : JsString) (now : ℕ)
      → ((create_pending_with s p key fingerprint now).1
          ≡ record s { token_generation = s.token_generation + 1 })
        ⊎ ((create_pending_with s p key fingerprint now).1
            ≡ put_entry key
                (pending fingerprint (mint (s.token_generation + 1) p) (now + s.lease_duration_ms))
                (record s { token_generation = s.token_generation + 1 }))
  unfolding create_pending_with
  create_pending_with_cases s p key fingerprint now = ground arith

  -- `createPending` writes a pending record with a newly minted token, or no record.
  create_pending-Step :
      (s : InMemoryIdempotencyStore O) (part : Option JsString) (key fingerprint : JsString)
      (now : ℕ)
      → ((p : JsString)
          → Step key s (
              put_entry key
                (pending fingerprint (mint (s.token_generation + 1) p) (now + s.lease_duration_ms))
                (record s { token_generation = s.token_generation + 1 })))
      → Step key s (create_pending s part key fingerprint now).1
  unfolding create_pending
  create_pending-Step s none key fingerprint now write = kept s.token_generation (omega arith) refl
  create_pending-Step s (some p) key fingerprint now write = elim (Bool-cases (length p == 0)) [
    | inl empty ↦ rw empty (kept s.token_generation (omega arith) refl)
    | inr text ↦ rw text (elim (create_pending_with_cases s p key fingerprint now) [
      | inl refused ↦ rw refused (kept (s.token_generation + 1) (omega arith) refl)
      | inr written ↦ rw written (write p)
    ])
  ]

  -- A call that changes no record.
  pub same-Step : (key : JsString) (s s' : InMemoryIdempotencyStore O) → s' ≡ s → Step key s s'
  same-Step key s s' e = rw e (kept s.token_generation (omega arith) refl)

module _ {O : Type 0} (cloneable : O → Bool) (s : InMemoryIdempotencyStore O) where
  complete_at_cases :
      (now : ℕ) (c : IdempotencyClaimHandle) (outcome : O) (old : Entry O)
      → ((complete_at cloneable s now c outcome old).1 ≡ s)
        ⊎ ((is_confirmed old ≡ false)
            × ((complete_at cloneable s now c outcome old).1
                ≡ put_entry c.key
                    (staged (fingerprint_of old) (token_of old) (now + s.lease_duration_ms) outcome)
                    s))
  unfolding complete_at
  complete_at_cases now c outcome (pending f t e) = ground arith
  complete_at_cases now c outcome _ = inl refl

  pub complete-Step :
      (now : Option ℕ) (c : IdempotencyClaimHandle) (outcome : O)
      → Step c.key s (complete cloneable s now c outcome).1
  unfolding complete
  complete-Step none c outcome = kept s.token_generation (omega arith) refl
  complete-Step (some now) c outcome = elim (Option-cases (entry_at c.key s)) [
    | inl absent ↦ rw (absent, complete) (kept s.token_generation (omega arith) refl)
    | inr (old, found) ↦
        rw (found, complete)
          (elim (complete_at_cases now c outcome old) [
            | inl same ↦ same-Step c.key s _ same
            | inr (live, written) ↦ updated old _ found live refl written
          ])
  ]

  claim_existing_cases :
      (now : ℕ) (part : Option JsString) (key fingerprint : JsString) (old : Entry O)
      → ((claim_existing cloneable s now part key fingerprint old).1 ≡ s)
        ⊎ ((is_confirmed old ≡ false)
            × (claim_existing cloneable s now part key fingerprint old
                ≡ create_pending s part key fingerprint now))
  unfolding claim_existing
  claim_existing_cases now part key fingerprint (pending f t e) = ground arith
  claim_existing_cases now part key fingerprint (staged f t e o) = ground arith
  claim_existing_cases now part key fingerprint (confirmed f t o) = ground arith

  claim_absent-Step :
      (now : ℕ) (part : Option JsString) (key fingerprint : JsString)
      → entry_at key s ≡ none
      → Step key s (claim_at cloneable s now part key fingerprint).1
  unfolding claim_at
  claim_absent-Step now part key fingerprint absent =
      elim (Option-cases (over_limit entries_held s.max_entries (JsMap.size s.entries) 1)) [
        | inl room ↦
            rw (absent, claim_at, room, claim_at)
              (create_pending-Step s part key fingerprint now
                (λ p. added _ p absent room refl refl))
        | inr (full, e) ↦
            rw (absent, claim_at, e, claim_at) (kept s.token_generation (omega arith) refl)
      ]

  claim_found-Step :
      (now : ℕ) (part : Option JsString) (key fingerprint : JsString) (old : Entry O)
      → entry_at key s ≡ some old
      → Step key s (claim_at cloneable s now part key fingerprint).1
  unfolding claim_at
  claim_found-Step now part key fingerprint old found =
      elim (Bool-cases (str_eq (fingerprint_of old) fingerprint)) [
        | inr reuse ↦ rw (found, claim_at, reuse) (kept s.token_generation (omega arith) refl)
        | inl same ↦
            rw (found, claim_at, same)
              (elim (claim_existing_cases now part key fingerprint old) [
                | inl unchanged ↦ same-Step key s _ unchanged
                | inr (live, e) ↦ rw e (
                    create_pending-Step s part key fingerprint now
                      (λ p. reclaimed old _ p found live refl refl))
              ])
      ]

  pub claim-Step :
      (now : Option ℕ) (part : Option JsString) (key fingerprint : JsString)
      → Step key s (claim cloneable s now part key fingerprint).1
  unfolding claim
  claim-Step none part key fingerprint = kept s.token_generation (omega arith) refl
  claim-Step (some now) part key fingerprint = elim (Option-cases (entry_at key s)) [
    | inl absent ↦ claim_absent-Step now part key fingerprint absent
    | inr (old, found) ↦ claim_found-Step now part key fingerprint old found
  ]
