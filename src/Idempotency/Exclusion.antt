-- ===== src/Idempotency/Exclusion.antt =====
-- Mutual exclusion: claims of a key while the lease of a granted claim is running.
use ddd_kit_ts.Base.{
  ℕ, ◌+◌, ◌<◌, ◌≡◌, ◌≢◌, ◌⊎◌, inl, inr, refl, sym, ap, ◌∙◌, Option, none, some, Bool, if◌then◌else◌,
  List, [], ◌∷◌, arith, ok, throws, Bool-cases, All,
}
use ddd_kit_ts.Base.JsMap.Laws.{get-set_self}
use ddd_kit_ts.Base.JsString.{JsString, JsString-discrete, str_eq}
use ddd_kit_ts.Idempotency.{
  InMemoryIdempotencyStore, Entry, pending, staged, confirmed, fingerprint_of, expires_at, entry_at,
  IdempotencyClaimHandle, IdempotencyReconciliation, Decision, unknown, claimed, in_flight,
  key_reuse, claim, claim_at, claim_existing, complete, renew, confirm, abandon, reconcile,
  reconcile_at,
}
use ddd_kit_ts.Idempotency.Calls.{
  Call, claim_call, complete_call, renew_call, confirm_call, abandon_call, reconcile_call,
  clear_call, key_of, run, run_all,
}
use ddd_kit_ts.Idempotency.Invariant.{run-frame}
use ddd_kit_ts.Idempotency.Protocol.{Granted, claim-Granted}
use ddd_kit_ts.Idempotency.Fencing.{foreign_token_is_fenced, foreign_completion_is_fenced}

-- The call is not one by the holder of the token on the key, no claim of the key from the end of the
-- lease on, and not `clear`.
abbrev pub Spares : {O : Type 0} → (key token : JsString) → (until : ℕ) → Call O → Type 0
Spares key token until (claim_call none part j f) = Unit
Spares key token until (claim_call (some now) part j f) = (j ≢ key) ⊎ (now < until)
Spares key token until (complete_call now c o) = (c.key ≢ key) ⊎ (c.token ≢ token)
Spares key token until (renew_call now c) = (c.key ≢ key) ⊎ (c.token ≢ token)
Spares key token until (confirm_call c) = (c.key ≢ key) ⊎ (c.token ≢ token)
Spares key token until (abandon_call c) = (c.key ≢ key) ⊎ (c.token ≢ token)
Spares key token until (reconcile_call now r d) = Unit
Spares key token until clear_call = ⊥

module _ {O : Type 0} (cloneable : O → Bool) (s : InMemoryIdempotencyStore O) where
  live_claim_existing :
      (now : ℕ) (part : Option JsString) (key f : JsString) (old : Entry O) (e : ℕ)
      → expires_at old ≡ some e
      → now < e
      → claim_existing cloneable s now part key f old ≡ (throws (in_flight key), s)
  unfolding claim_existing
  live_claim_existing now part key f (pending f' t e') e h lt = ground arith
  live_claim_existing now part key f (staged f' t e' o) e h lt = ground arith
  live_claim_existing now part key f (confirmed f' t o) e h lt = cc

  -- A claim of a key whose lease is running.
  live_claim :
      (now : ℕ) (part : Option JsString) (key f : JsString) (old : Entry O) (e : ℕ)
      → entry_at key s ≡ some old
      → expires_at old ≡ some e
      → now < e
      → claim cloneable s (some now) part key f ≡ (
        throws (
            if str_eq (fingerprint_of old) f
            then in_flight key
            else key_reuse key (fingerprint_of old) f),
        s,
      )
  unfolding claim claim_at
  live_claim now part key f old e found lease lt =
      elim (Bool-cases (str_eq (fingerprint_of old) f)) [
        | inl same ↦
            rw (found, claim, claim_at, same) (live_claim_existing now part key f old e lease lt)
        | inr other ↦ rw (found, claim, claim_at, other)
      ]

  -- A pending record has no outcome to settle.
  reconcile_pending :
      (now : Option ℕ) (r : IdempotencyReconciliation) (d : Decision) (f t : JsString) (e : ℕ)
      → entry_at r.key s ≡ some (pending f t e)
      → (reconcile s now r d).1 ≡ s
  unfolding reconcile reconcile_at
  reconcile_pending now r unknown f t e found = refl
  reconcile_pending now r d f t e found = rw (found, reconcile) refl

module _ {O : Type 0} (cloneable : O → Bool) (key f token : JsString) (until : ℕ) where
  abbrev Held : InMemoryIdempotencyStore O → Type 0
  Held s = entry_at key s ≡ some (pending f token until)

  -- A call on another key, or one on this key that changes nothing.
  spared :
      (call : Call O) (s : InMemoryIdempotencyStore O) (j : JsString)
      → key_of cloneable call ≡ some j
      → Held s
      → (j ≡ key → run cloneable call s ≡ s)
      → Held (run cloneable call s)
  spared call s j about h same = elim (JsString-discrete j key) [
    | yes e ↦ rw (same e) h
    | no ne ↦ run-frame cloneable call s key j about ne ∙ h
  ]

  -- On its key, a handle with another token changes nothing.
  foreign_handle :
      (c : IdempotencyClaimHandle) (s : InMemoryIdempotencyStore O) (now : ℕ)
      → Held s
      → (c.key ≢ key) ⊎ (c.token ≢ token)
      → c.key ≡ key
      → ((renew s (some now) c).1 ≡ s) × ((confirm s c).1 ≡ s) × ((abandon s c).1 ≡ s)
  foreign_handle c s now h (inl ne) e = absurd (ne e)
  foreign_handle c s now h (inr ne) e =
      let (b, d, x) =
        foreign_token_is_fenced cloneable s now c (pending f token until) (rw e h)
          (λ p. ne (sym p)) in
      (ap (λ r. r.1) b, ap (λ r. r.1) d, ap (λ r. r.1) x)

  foreign_completion :
      (c : IdempotencyClaimHandle) (s : InMemoryIdempotencyStore O) (now : ℕ) (o : O)
      → Held s
      → (c.key ≢ key) ⊎ (c.token ≢ token)
      → c.key ≡ key
      → (complete cloneable s (some now) c o).1 ≡ s
  foreign_completion c s now o h (inl ne) e = absurd (ne e)
  foreign_completion c s now o h (inr ne) e =
      ap (λ r. r.1)
        (foreign_completion_is_fenced cloneable s now c o (pending f token until) (rw e h)
          (λ p. ne (sym p)))

  run-Held :
      (call : Call O) (s : InMemoryIdempotencyStore O)
      → Held s
      → Spares key token until call
      → Held (run cloneable call s)
  run-Held (claim_call none part j f') s h a = unfold claim in h
  run-Held (claim_call (some now) part j f') s h (inl ne) =
      run-frame cloneable (claim_call (some now) part j f') s key j refl ne ∙ h
  run-Held (claim_call (some now) part j f') s h (inr live) =
      spared (claim_call (some now) part j f') s j refl h (λ e.
        ap (λ r. r.1)
          (live_claim cloneable s now part j f' (pending f token until) until (rw e h) refl live))
  run-Held (complete_call none c o) s h a = unfold complete in h
  run-Held (complete_call (some now) c o) s h a =
      spared (complete_call (some now) c o) s c.key refl h (foreign_completion c s now o h a)
  run-Held (renew_call none c) s h a = unfold renew in h
  run-Held (renew_call (some now) c) s h a =
      spared (renew_call (some now) c) s c.key refl h (λ e. (foreign_handle c s now h a e).0)
  run-Held (confirm_call c) s h a =
      spared (confirm_call c) s c.key refl h (λ e. (foreign_handle c s 0 h a e).1)
  run-Held (abandon_call c) s h a =
      spared (abandon_call c) s c.key refl h (λ e. (foreign_handle c s 0 h a e).2)
  run-Held (reconcile_call now r d) s h a =
      spared (reconcile_call now r d) s r.key refl h
        (λ e. reconcile_pending cloneable s now r d f token until (rw e h))
  run-Held clear_call s h a = absurd a

  run_all-Held :
      (calls : List (Call O)) (s : InMemoryIdempotencyStore O)
      → Held s
      → All (Spares key token until) calls
      → Held (run_all cloneable calls s)
  run_all-Held [] s h a = h
  run_all-Held (call ∷ calls) s h a =
      run_all-Held calls (run cloneable call s) (run-Held call s h a.0) a.1

-- Mutual exclusion. Before the end of the lease of a granted claim, and whatever calls have been
-- served since then, except for calls by its holder, `clear`, and claims of the key at or after that
-- end, every claim of the key is refused and changes nothing: as in flight with the same fingerprint, as a
-- reuse of the key with another.
pub granted_lease_excludes :
    {O : Type 0} (cloneable : O → Bool) (s s' : InMemoryIdempotencyStore O) (key f f' : JsString)
    (now later : ℕ) (part part' : Option JsString) (c : IdempotencyClaimHandle)
    (calls : List (Call O))
    → claim cloneable s (some now) part key f ≡ (ok (claimed c), s')
    → All (Spares key c.token (now + s.lease_duration_ms)) calls
    → later < now + s.lease_duration_ms
    → claim cloneable (run_all cloneable calls s') (some later) part' key f' ≡ (
      throws (if str_eq f f' then in_flight key else key_reuse key f f'),
      run_all cloneable calls s',
    )
granted_lease_excludes cloneable s s' key f f' now later part part' c calls h spare live =
    let g : Granted s key f now c s' = claim-Granted cloneable s key f now part c s' h in
    let until = now + s.lease_duration_ms in
    let held : entry_at key s' ≡ some (pending f c.token until) =
      rw g.written (get-set_self JsString-discrete key _ s.entries) in
    live_claim cloneable (run_all cloneable calls s') later part' key f' (pending f c.token until)
      until (run_all-Held cloneable key f c.token until calls s' held spare) refl live
