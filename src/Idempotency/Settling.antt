-- ===== src/Idempotency/Settling.antt =====
-- The steps of renewing, confirming, abandoning and reconciling.
use ddd_kit_ts.Base.{
  ℕ, ◌+◌, ◌≡◌, ◌⊎◌, inl, inr, refl, Option, none, some, false, arith, Option-cases, Bool-cases,
}
use ddd_kit_ts.Base.JsString.{JsString, str_eq}
use ddd_kit_ts.Idempotency.{
  InMemoryIdempotencyStore, Entry, pending, staged, confirmed, token_of, IdempotencyClaimHandle,
  IdempotencyReconciliation, Decision, entry_at, put_entry, drop_entry, extend, unknown, renew,
  renew_at, confirm, confirm_at, abandon, abandon_at, reconcile, reconcile_at,
}
use ddd_kit_ts.Idempotency.Steps.{is_confirmed, Step, kept, updated, removed, same-Step}

module _ {O : Type 0} (s : InMemoryIdempotencyStore O) where
  renew_at_cases :
      (now : ℕ) (c : IdempotencyClaimHandle) (old : Entry O)
      → ((renew_at s now c old).1 ≡ s)
        ⊎ ((is_confirmed old ≡ false)
            × ((renew_at s now c old).1
                ≡ put_entry c.key (extend old (now + s.lease_duration_ms)) s))
  unfolding renew_at
  renew_at_cases now c (pending f t e) = ground arith
  renew_at_cases now c (staged f t e o) = ground arith
  renew_at_cases now c (confirmed f t o) = inl refl

  token_of-extend : (old : Entry O) (e : ℕ) → token_of (extend old e) ≡ token_of old
  token_of-extend old e = ground arith

  pub renew-Step : (now : Option ℕ) (c : IdempotencyClaimHandle) → Step c.key s (renew s now c).1
  unfolding renew
  renew-Step none c = kept s.token_generation (omega arith) refl
  renew-Step (some now) c = elim (Option-cases (entry_at c.key s)) [
    | inl absent ↦ rw (absent, renew) (kept s.token_generation (omega arith) refl)
    | inr (old, found) ↦
        rw (found, renew)
          (elim (renew_at_cases now c old) [
            | inl same ↦ same-Step c.key s _ same
            | inr (live, written) ↦ updated old _ found live (token_of-extend old _) written
          ])
  ]

  confirm_at-Step :
      (c : IdempotencyClaimHandle) (old : Entry O)
      → entry_at c.key s ≡ some old
      → Step c.key s (confirm_at s c old).1
  unfolding confirm_at
  confirm_at-Step c (staged f t e o) found = elim (Bool-cases (str_eq t c.token)) [
    | inl mine ↦ updated (staged f t e o) (confirmed f t o) found refl refl (ground arith)
    | inr other ↦ same-Step c.key s _ (ground arith)
  ]
  confirm_at-Step c _ found = kept s.token_generation (omega arith) refl

  pub confirm-Step : (c : IdempotencyClaimHandle) → Step c.key s (confirm s c).1
  unfolding confirm
  confirm-Step c = elim (Option-cases (entry_at c.key s)) [
    | inl absent ↦ rw (absent, confirm) (kept s.token_generation (omega arith) refl)
    | inr (old, found) ↦ rw (found, confirm) (confirm_at-Step c old found)
  ]

  abandon_at_cases :
      (c : IdempotencyClaimHandle) (old : Entry O)
      → ((abandon_at s c old).1 ≡ s)
        ⊎ ((is_confirmed old ≡ false) × ((abandon_at s c old).1 ≡ drop_entry c.key s))
  unfolding abandon_at
  abandon_at_cases c (pending f t e) = ground arith
  abandon_at_cases c (staged f t e o) = ground arith
  abandon_at_cases c (confirmed f t o) = inl refl

  pub abandon-Step : (c : IdempotencyClaimHandle) → Step c.key s (abandon s c).1
  unfolding abandon
  abandon-Step c = elim (Option-cases (entry_at c.key s)) [
    | inl absent ↦ rw (absent, abandon) (kept s.token_generation (omega arith) refl)
    | inr (old, found) ↦
        rw (found, abandon)
          (elim (abandon_at_cases c old) [
            | inl same ↦ same-Step c.key s _ same
            | inr (live, dropped) ↦ removed old found live dropped
          ])
  ]

  reconcile_at_cases :
      (now : Option ℕ) (r : IdempotencyReconciliation) (d : Decision) (f t : JsString) (e : ℕ)
      (o : O)
      → ((reconcile_at s now r d (staged f t e o)).1 ≡ s)
        ⊎ ((reconcile_at s now r d (staged f t e o)).1 ≡ put_entry r.key (confirmed f t o) s)
        ⊎ ((reconcile_at s now r d (staged f t e o)).1 ≡ drop_entry r.key s)
  unfolding reconcile_at
  reconcile_at_cases now r d f t e o = ground arith

  reconcile_at-Step :
      (now : Option ℕ) (r : IdempotencyReconciliation) (d : Decision) (old : Entry O)
      → entry_at r.key s ≡ some old
      → Step r.key s (reconcile_at s now r d old).1
  reconcile_at-Step now r d (staged f t e o) found = elim (reconcile_at_cases now r d f t e o) [
    | inl same ↦ same-Step r.key s _ same
    | inr (inl written) ↦ updated (staged f t e o) (confirmed f t o) found refl refl written
    | inr (inr dropped) ↦ removed (staged f t e o) found refl dropped
  ]
  reconcile_at-Step now r d (pending f t e) found =
      unfold reconcile_at in kept s.token_generation (omega arith) refl
  reconcile_at-Step now r d (confirmed f t o) found =
      unfold reconcile_at in kept s.token_generation (omega arith) refl

  pub reconcile-Step :
      (now : Option ℕ) (r : IdempotencyReconciliation) (d : Decision)
      → Step r.key s (reconcile s now r d).1
  unfolding reconcile
  reconcile-Step now r unknown = kept s.token_generation (omega arith) refl
  reconcile-Step now r d = elim (Option-cases (entry_at r.key s)) [
    | inl absent ↦ rw (absent, reconcile) (kept s.token_generation (omega arith) refl)
    | inr (old, found) ↦ rw (found, reconcile) (reconcile_at-Step now r d old found)
  ]
